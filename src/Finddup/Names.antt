-- ===== src/Finddup/Names.antt =====
-- The file of names of hw2/src/finddup.c: the build loop of `finddup_main`, which keeps the offset of
-- each name, and `getfn`, which reads a name back. Bytes stand for their values in a `char`.
pub mod ReadBack
use c_starter_projects.Prelude.{
  ℕ, ◌+◌, Bool, true, Option, none, some, List, [], ◌∷◌, length, drop, map,
}
use c_starter_projects.Prelude.Options.{◌>>=◌}
use c_starter_projects.Finddup.Contents.{Filedesc, lines_of, before_nul}
use c_starter_projects.Finddup.Scans.{Stat, Line, build_list}

abbrev pub without_last : List ℕ → List ℕ
without_last [] = []
without_last (b ∷ []) = []
without_last (b ∷ c ∷ bytes) = b ∷ without_last (c ∷ bytes)

-- The string of a line when its last byte, as `strlen` counts, is overwritten; a line that begins
-- with a NUL byte has none, and the write is in front of it.
unfoldable pub cut_line : List ℕ → Option (List ℕ)
unfolding before_nul
cut_line line = elim (before_nul line) [ [] ↦ none | b ∷ bytes ↦ some (without_last (b ∷ bytes)) ]

-- The names with their offsets, from the lines that begin at `loc`.
unfoldable pub names_from : (loc : ℕ) → List (List ℕ) → Option (List (ℕ × List ℕ))
unfolding cut_line
names_from loc [] = some []
names_from loc (line ∷ lines) = cut_line line >>= λ name.
    names_from (loc + length line) lines >>= λ names. some ((loc, name) ∷ names)

-- What `getfn` returns for an offset; nothing is read there at the end of the file.
unfoldable pub getfn : (bytes : List ℕ) → (nameloc : ℕ) → Option (List ℕ)
unfolding lines_of cut_line
getfn bytes nameloc = elim (lines_of [] (drop nameloc bytes)) [
  | [] ↦ none
  | line ∷ lines ↦ cut_line line
]

module _ (lstat : List ℕ → Stat) where
  -- The list of files, and what is printed while it is built.
  unfoldable pub build_from : (bytes : List ℕ) → Option (List Filedesc × List Line)
  unfolding names_from lines_of build_list
  build_from bytes = names_from 0 (lines_of [] bytes) >>= λ names.
      some (build_list true (map (λ (n : ℕ × List ℕ). (n.0, lstat n.1)) names))
