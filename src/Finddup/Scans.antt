-- ===== src/Finddup/Scans.antt =====
-- The list of files and the three scans of hw2/src/finddup.c. Lines that are printed are values, and
-- `qsort` is a parameter.
use c_starter_projects.Prelude.{
  ℕ, zero, suc, Bool, true, false, not, ◌&&◌, ◌||◌, Option, none, some, List, [], ◌∷◌, ◌++◌, length,
  ◌==◌, if◌then◌else◌,
}
use c_starter_projects.Prelude.Options.{◌>>=◌}
use c_starter_projects.Finddup.Contents.{Filedesc, fullcmp, with_crc}

-- Lines of the output, for a name by its offset.
pub data Line : Type 0 where
  zero_length_header link_header dup_header : Line
  plain file_line link_line dup_line : ℕ → Line

-- The answer of `lstat` for a name.
pub data Stat : Type 0 where
  missing special : Stat
  regular : (st_size st_dev st_ino : ℕ) → Stat

-- The build loop: the files with contents, and the output on those without.
unfoldable pub build_list : (zl_hdr : Bool) → List (ℕ × Stat) → List Filedesc × List Line
build_list zl_hdr [] = ([], [])
build_list zl_hdr ((loc, missing) ∷ names) = build_list zl_hdr names
build_list zl_hdr ((loc, special) ∷ names) = build_list zl_hdr names
build_list zl_hdr ((loc, regular size dev ino) ∷ names) =
    let after_empty = build_list false names in
    let after_file = build_list zl_hdr names in
    if size == 0
    then (
      after_empty.0,
      (if zl_hdr then zero_length_header ∷ [] else []) ++ plain loc ∷ after_empty.1,
    )
    else (
      record {
        nameloc = loc;
        file_length = size;
        crc32 = 0;
        device = dev;
        inode = ino;
        has_crc = false;
        is_dup = false;
        is_link = false;
      }
          ∷ after_file.0,
      after_file.1,
    )

-- The first loop of `scan2`: files behind `p1` with its device and inode are links.
unfoldable pub mark_links : (p1 : Filedesc) → List Filedesc → List Filedesc
mark_links p1 [] = []
mark_links p1 (p2 ∷ rest) =
    let linked = mark_links p1 rest in
    let other = mark_links p2 rest in
    if (p1.device == p2.device) && (p1.inode == p2.inode)
    then record p2 { is_link = true } ∷ linked
    else p2 ∷ other

abbrev pub mark_all : List Filedesc → List Filedesc
mark_all [] = []
mark_all (p ∷ rest) = p ∷ mark_links p rest

-- Whether there is a file that does not match in front of a duplicate, which is then moved.
abbrev pub when_behind {ℓ} : {A : Type ℓ} → List Filedesc → A → A → A
when_behind [] first moved = first
when_behind (b ∷ bs) first moved = moved

abbrev pub when_same {ℓ} : {A : Type ℓ} → Option Bool → Option A → Option A → Option A
when_same none same different = none
when_same (some true) same different = same
when_same (some false) same different = different

-- What that loop prints.
unfoldable pub link_lines :
    (linkflag need_hdr inmatch : Bool) (p1 : Filedesc) → List Filedesc → List Line
link_lines linkflag need_hdr inmatch p1 [] = []
link_lines linkflag need_hdr inmatch p1 (p2 ∷ rest) =
    let shown = link_lines linkflag false true p1 rest in
    let silent = link_lines linkflag need_hdr inmatch p1 rest in
    let other = link_lines linkflag need_hdr false p2 rest in
    if (p1.device == p2.device) && (p1.inode == p2.inode)
    then if linkflag
      then (if need_hdr then link_header ∷ [] else [])
        ++ (if inmatch then [] else file_line p1.nameloc ∷ [])
        ++ link_line p2.nameloc ∷ shown
      else silent
    else other

abbrev pub head_lines : Option ℕ → List Line
head_lines none = []
head_lines (some name) = file_line name ∷ []

-- `scan3`: `prev` is the name of the file in front, `headfn` the name of a file whose duplicates
-- have not been printed.
unfoldable pub scan3 :
    (linkflag need_hdr inmatch : Bool) (headfn : Option ℕ) (prev : ℕ) → List Filedesc → List Line
scan3 linkflag need_hdr inmatch headfn prev [] = []
scan3 linkflag need_hdr inmatch headfn prev (p ∷ rest) =
    let matching = inmatch && not (p.has_crc && not p.is_dup && not p.is_link) in
    let head = if matching then headfn else some prev in
    let passed = scan3 linkflag need_hdr matching headfn p.nameloc rest in
    let shown = scan3 linkflag false true none p.nameloc rest in
    let silent = scan3 linkflag need_hdr true head p.nameloc rest in
    if p.is_dup
    then if linkflag || not p.is_link
      then (if need_hdr then dup_header ∷ [] else [])
        ++ head_lines head
        ++ dup_line p.nameloc ∷ shown
      else silent
    else passed

module _ (contents : ℕ → Option (List ℕ)) where
  -- The inner loop of the second part of `scan2`, for the file `p1`. The files between `p1` and the
  -- index `lastix` are `front`, those from there to `ix2` are `behind`. The results are the parts of
  -- the list in front of and from `lastix`.
  unfoldable pub dup_round :
      (p1 : Filedesc) (lnkmatch : Bool) (front behind rest : List Filedesc)
      → Option (List Filedesc × List Filedesc)
  dup_round p1 lnkmatch front behind [] = some (front, behind)
  dup_round p1 lnkmatch front behind (p2 ∷ rest) =
      let dup = record p2 { is_dup = true } in
      let moved = dup_round p1 true (front ++ dup ∷ []) behind rest in
      let first = dup_round p1 true front (dup ∷ []) rest in
      let kept = when_behind behind first moved in
      let different = dup_round p1 false front (behind ++ p2 ∷ []) rest in
      let compared = when_same (fullcmp contents p1 p2) kept different in
      if (p1.file_length == p2.file_length) && (p1.crc32 == p2.crc32)
      then if p2.is_link && lnkmatch then kept else compared
      else some (front, behind ++ p2 ∷ rest)

  -- The outer loop, which goes on at `lastix`; the fuel is the number of files.
  unfoldable pub dup_scan : (fuel : ℕ) → List Filedesc → Option (List Filedesc)
  unfolding dup_round
  dup_scan zero files = some files
  dup_scan (suc fuel) [] = some []
  dup_scan (suc fuel) (p ∷ rest) = dup_round p true [] [] rest >>= λ parts.
      dup_scan fuel parts.1 >>= λ left. some (p ∷ parts.0 ++ left)

  unfoldable pub scan2 : List Filedesc → Option (List Filedesc)
  unfolding mark_links dup_scan
  scan2 files = dup_scan (length files) (mark_all files)

  -- The loop of `scan1` over the neighbours. `beyond` is what stands behind the last file, which the
  -- loop looks at too.
  unfoldable pub scan1_from : (beyond p : Filedesc) → List Filedesc → Option (List Filedesc)
  unfolding with_crc
  scan1_from beyond p [] =
      let checked =
        with_crc contents p >>= λ p'. with_crc contents beyond >>= λ b. some (p' ∷ []) in
      if p.file_length == beyond.file_length then checked else some (p ∷ [])
  scan1_from beyond p (q ∷ rest) =
      let checked = with_crc contents p >>= λ p'.
      with_crc contents q >>= λ q'. scan1_from beyond q' rest >>= λ left. some (p' ∷ left) in
      let passed = scan1_from beyond q rest >>= λ left. some (p ∷ left) in
      if p.file_length == q.file_length then checked else passed

  -- Whether a checksum has been computed.
  unfoldable pub needsort : (beyond p : Filedesc) → List Filedesc → Bool
  needsort beyond p [] = p.file_length == beyond.file_length
  needsort beyond p (q ∷ rest) = (p.file_length == q.file_length) || needsort beyond q rest

  module _ (sort : List Filedesc → List Filedesc) where
    unfoldable pub scan1 : (beyond : Filedesc) → List Filedesc → Option (List Filedesc)
    unfolding scan1_from needsort
    scan1 beyond [] = some []
    scan1 beyond (p ∷ rest) = scan1_from beyond p rest >>= λ files.
        some (if needsort beyond p rest then sort files else files)

    -- The list of files that `finddup_main` prints duplicates from.
    unfoldable pub find_duplicates : (beyond : Filedesc) → List Filedesc → Option (List Filedesc)
    unfolding scan1 scan2
    find_duplicates beyond files = scan1 beyond (sort files) >>= scan2
