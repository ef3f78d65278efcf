-- ===== src/Finddup/Main/Single.antt =====
-- The list of files that hw2/src/finddup.c builds has no name twice.
use c_starter_projects.Prelude.{
  ℕ, suc, ◌+◌, ◌≡◌, ◌≤◌, ◌<◌, refl, Bool, true, false, List, [], ◌∷◌, ◌++◌, length, length-append,
  map, All, arith, if_elim, ◌==◌,
}
use c_starter_projects.Prelude.Strings.{Text}
use c_starter_projects.Prelude.Options.{After, After-bind, After-map}
use c_starter_projects.Finddup.Contents.{Filedesc, lines_of}
use c_starter_projects.Finddup.Scans.{Stat, missing, special, regular, Line, build_list}
use c_starter_projects.Finddup.Names.{cut_line, names_from, build_from}
use c_starter_projects.Finddup.Moves.{copies}
use c_starter_projects.Finddup.Duplicates.{Single}

-- The offsets rise.
Rising : {A : Type 0} → ℕ → List (ℕ × A) → Type 0
Rising k [] = Unit
Rising k (n ∷ names) = (k ≤ n.0) × Rising (suc n.0) names

abbrev IsLine : List ℕ → Type 0
IsLine line = 1 ≤ length line

lines_of-IsLine : (line bytes : List ℕ) → All IsLine (lines_of line bytes)
unfolding lines_of
lines_of-IsLine [] [] = tt
lines_of-IsLine (b ∷ line) [] = (omega arith, tt)
lines_of-IsLine line (b ∷ bytes) =
    if_elim (All IsLine) (b == b'\n') _ _
      (omega (arith, length-append line (b ∷ [])), lines_of-IsLine [] bytes)
      (lines_of-IsLine (line ++ b ∷ []) bytes)

Rising-weaken :
    {A : Type 0} (j k : ℕ) (names : List (ℕ × A)) → j ≤ k → Rising k names → Rising j names
unfolding Rising
Rising-weaken j k [] le h = tt
Rising-weaken j k (n ∷ names) le h = (omega (arith, le, h.0), h.1)

names_from-Rising :
    (loc : ℕ) (lines : List (List ℕ)) → All IsLine lines → After (Rising loc) (names_from loc lines)
unfolding names_from Rising
names_from-Rising loc [] h = tt
names_from-Rising loc (line ∷ lines) h = After-map (Rising loc) (cut_line line) _ (λ name.
    After-bind (Rising (loc + length line)) (Rising loc) (names_from (loc + length line) lines) _
      (names_from-Rising (loc + length line) lines h.1)
      (λ names r.
        (omega arith, Rising-weaken (suc loc) (loc + length line) names (omega (arith, h.0)) r)))

looked_up-Rising :
    {A B : Type 0} (f : A → B) (k : ℕ) (names : List (ℕ × A))
    → Rising k names
    → Rising k (map (λ (n : ℕ × A). (n.0, f n.1)) names)
unfolding Rising
looked_up-Rising f k [] h = tt
looked_up-Rising f k (n ∷ names) h = (h.0, looked_up-Rising f (suc n.0) names h.1)

-- A list with no name below an offset, and no name twice.
abbrev IsAbove : ℕ → List Filedesc → Type 0
IsAbove k fs = (n : ℕ) → (copies n fs ≤ 1) × (n < k → copies n fs ≡ 0)

IsAbove-weaken : (j k : ℕ) (fs : List Filedesc) → j ≤ k → IsAbove k fs → IsAbove j fs
IsAbove-weaken j k fs le h n = ((h n).0, λ lt. (h n).1 (omega (arith, lt, le)))

IsAbove-cons :
    (k : ℕ) (f : Filedesc) (fs : List Filedesc)
    → k ≤ f.nameloc
    → IsAbove (suc f.nameloc) fs
    → IsAbove k (f ∷ fs)
IsAbove-cons k f fs le h n =
    (ground (arith, (h n).0, (h n).1), λ lt. ground (arith, le, lt, (h n).1))

build_list-IsAbove :
    (zl_hdr : Bool) (k : ℕ) (names : List (ℕ × Stat))
    → Rising k names
    → IsAbove k (build_list zl_hdr names).0
unfolding build_list Rising
build_list-IsAbove zl_hdr k [] h = λ n. (omega arith, λ lt. refl)
build_list-IsAbove zl_hdr k ((loc, missing) ∷ names) h =
    IsAbove-weaken k (suc loc) _ (omega (arith, h.0))
      (build_list-IsAbove zl_hdr (suc loc) names h.1)
build_list-IsAbove zl_hdr k ((loc, special) ∷ names) h =
    IsAbove-weaken k (suc loc) _ (omega (arith, h.0))
      (build_list-IsAbove zl_hdr (suc loc) names h.1)
build_list-IsAbove zl_hdr k ((loc, regular size dev ino) ∷ names) h =
    let file : Filedesc = record {
      nameloc = loc;
      file_length = size;
      crc32 = 0;
      device = dev;
      inode = ino;
      has_crc = false;
      is_dup = false;
      is_link = false;
    } in
    if_elim (λ (r : List Filedesc × List Line). IsAbove k r.0) (size == 0) _ _
      (IsAbove-weaken k (suc loc) _ (omega (arith, h.0))
        (build_list-IsAbove false (suc loc) names h.1))
      (IsAbove-cons k file _ h.0 (build_list-IsAbove zl_hdr (suc loc) names h.1))

pub build_from-Single :
    (lstat : Text → Stat) (names : List ℕ)
    → After (λ (built : List Filedesc × List Line). Single built.0) (build_from lstat names)
unfolding build_from
build_from-Single lstat names =
    After-bind (Rising 0) (λ (built : List Filedesc × List Line). Single built.0)
      (names_from 0 (lines_of [] names)) _
      (names_from-Rising 0 (lines_of [] names) (lines_of-IsLine [] names))
      (λ found r n. (build_list-IsAbove true 0 _ (looked_up-Rising lstat 0 found r) n).0)
