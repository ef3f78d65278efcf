-- ===== src/Finddup/Moves.antt =====
-- The search for duplicates in hw2/src/finddup.c moves the files, and loses none.
use c_starter_projects.Prelude.{
  ℕ, zero, suc, ◌+◌, ◌≡◌, refl, ap, ◌∙◌, Bool, true, false, Option, none, some, List, [], ◌∷◌, ◌++◌,
  length, arith, Bool-cases, inl, inr, if_elim, ◌&&◌, ◌==◌, if◌then◌else◌,
}
use c_starter_projects.Prelude.Options.{After, After-bind, After-map, After-weaken}
use c_starter_projects.Finddup.Contents.{Filedesc, fullcmp, get_crc, with_crc}
use c_starter_projects.Finddup.Scans.{
  mark_links, mark_all, when_behind, when_same, dup_round, dup_scan, scan2, scan1_from, needsort,
  scan1, find_duplicates,
}

-- How often a list has the file of a name.
abbrev pub copies : ℕ → List Filedesc → ℕ
copies n [] = 0
copies n (f ∷ fs) = (if f.nameloc == n then 1 else 0) + copies n fs

copies-append : (n : ℕ) (fs gs : List Filedesc) → copies n (fs ++ gs) ≡ copies n fs + copies n gs
copies-append n [] gs = omega arith
copies-append n (f ∷ fs) gs = omega (arith, copies-append n fs gs)

copies-mark_links :
    (n : ℕ) (p : Filedesc) (fs : List Filedesc) → copies n (mark_links p fs) ≡ copies n fs
unfolding mark_links
copies-mark_links n p [] = refl
copies-mark_links n p (q ∷ fs) =
    if_elim (λ gs. copies n gs ≡ copies n (q ∷ fs)) ((p.device == q.device) && (p.inode == q.inode))
      (record q { is_link = true } ∷ mark_links p fs) (q ∷ mark_links q fs)
      (ap (λ k. (if q.nameloc == n then 1 else 0) + k) (copies-mark_links n p fs))
      (ap (λ k. (if q.nameloc == n then 1 else 0) + k) (copies-mark_links n q fs))

-- The two parts of a list have the files of the list.
abbrev pub Splits : List Filedesc → List Filedesc × List Filedesc → Type 0
Splits fs parts = (n : ℕ) → copies n parts.0 + copies n parts.1 ≡ copies n fs

pub when_behind-holds {ℓ κ} :
    {A : Type ℓ} (P : A → Type κ) (behind : List Filedesc) (first moved : A)
    → (behind ≡ [] → P first)
    → P moved
    → P (when_behind behind first moved)
when_behind-holds P [] first moved p q = p refl
when_behind-holds P (b ∷ bs) first moved p q = q

when_same-After {ℓ κ} :
    {A : Type ℓ} (P : A → Type κ) (o : Option Bool) (same different : Option A)
    → After P same
    → After P different
    → After P (when_same o same different)
when_same-After P none same different p q = tt
when_same-After P (some true) same different p q = p
when_same-After P (some false) same different p q = q

-- A list has the files of another one.
abbrev pub Keeps : List Filedesc → List Filedesc → Type 0
Keeps fs gs = (n : ℕ) → copies n gs ≡ copies n fs

abbrev SameName : Filedesc → Filedesc → Type 0
SameName f g = g.nameloc ≡ f.nameloc

pub marked : (n : ℕ) (fs : List Filedesc) → copies n (mark_all fs) ≡ copies n fs
marked n [] = refl
marked n (p ∷ fs) = omega (arith, copies-mark_links n p fs)

module _ (contents : ℕ → Option (List ℕ)) where
  pub dup_round-Splits :
      (p : Filedesc) (lnkmatch : Bool) (front behind rest fs : List Filedesc)
      → ((n : ℕ) → copies n front + copies n behind + copies n rest ≡ copies n fs)
      → After (Splits fs) (dup_round contents p lnkmatch front behind rest)
  unfolding dup_round
  dup_round-Splits p lnkmatch front behind [] fs h = λ n. omega (arith, h n)
  dup_round-Splits p lnkmatch front behind (q ∷ rest) fs h =
      let dup = record q { is_dup = true } in
      let first = dup_round contents p true front (dup ∷ []) rest in
      let moved = dup_round contents p true (front ++ dup ∷ []) behind rest in
      let different = dup_round contents p false front (behind ++ q ∷ []) rest in
      let kept = when_behind behind first moved in
      let first-Splits : behind ≡ [] → After (Splits fs) first = λ e.
        dup_round-Splits p true front (dup ∷ []) rest fs
          (λ n. omega (arith, h n, ap (copies n) e)) in
      let moved-Splits : After (Splits fs) moved =
        dup_round-Splits p true (front ++ dup ∷ []) behind rest fs
          (λ n. omega (arith, h n, copies-append n front (dup ∷ []))) in
      let different-Splits : After (Splits fs) different =
        dup_round-Splits p false front (behind ++ q ∷ []) rest fs
          (λ n. omega (arith, h n, copies-append n behind (q ∷ []))) in
      let kept-Splits : After (Splits fs) kept =
        when_behind-holds (After (Splits fs)) behind first moved first-Splits moved-Splits in
      let compared = when_same (fullcmp contents p q) kept different in
      if_elim (After (Splits fs)) ((p.file_length == q.file_length) && (p.crc32 == q.crc32))
        (if q.is_link && lnkmatch then kept else compared) (some (front, behind ++ q ∷ rest))
        (if_elim (After (Splits fs)) (q.is_link && lnkmatch) kept compared kept-Splits (
          when_same-After (Splits fs) (fullcmp contents p q) kept different kept-Splits
            different-Splits))
        (λ n. omega (arith, h n, copies-append n behind (q ∷ rest)))

  dup_scan-copies : (fuel : ℕ) (fs : List Filedesc) → After (Keeps fs) (dup_scan contents fuel fs)
  unfolding dup_scan
  dup_scan-copies zero fs = λ n. refl
  dup_scan-copies (suc fuel) [] = λ n. refl
  dup_scan-copies (suc fuel) (p ∷ rest) =
      After-bind (Splits rest) (Keeps (p ∷ rest)) (dup_round contents p true [] [] rest) _
        (dup_round-Splits p true [] [] rest rest (λ n. omega arith))
        (λ parts splits.
          After-bind (Keeps parts.1) (Keeps (p ∷ rest)) (dup_scan contents fuel parts.1) _
            (dup_scan-copies fuel parts.1)
            (λ left keeps n. omega (arith, splits n, keeps n, copies-append n parts.0 left)))

  scan2-Keeps : (fs : List Filedesc) → After (Keeps fs) (scan2 contents fs)
  unfolding scan2
  scan2-Keeps fs =
      After-weaken (Keeps (mark_all fs)) (Keeps fs) (dup_scan contents (length fs) (mark_all fs))
        (λ gs keeps n. keeps n ∙ marked n fs) (dup_scan-copies (length fs) (mark_all fs))

  -- A checksum does not change the name.
  with_crc-name : (f : Filedesc) → After (SameName f) (with_crc contents f)
  unfolding with_crc
  with_crc-name f = elim (Bool-cases f.has_crc) [
    | inl has ↦ simp has refl
    | inr lacks ↦ simp lacks (After-map (SameName f) (get_crc contents f) _ (λ c. refl))
  ]

  scan1_from-Keeps :
      (beyond p : Filedesc) (fs : List Filedesc)
      → After (Keeps (p ∷ fs)) (scan1_from contents beyond p fs)
  unfolding scan1_from
  scan1_from-Keeps beyond p [] = elim (Bool-cases (p.file_length == beyond.file_length)) [
    | inl same ↦ rw same (
        After-bind (SameName p) (Keeps (p ∷ [])) (with_crc contents p) _ (with_crc-name p) (λ p' e.
          After-map (Keeps (p ∷ [])) (with_crc contents beyond) _
            (λ b n. ap (λ k. (if k == n then 1 else 0) + 0) e)))
    | inr other ↦ rw other (λ n. refl)
  ]
  scan1_from-Keeps beyond p (q ∷ fs) = elim (Bool-cases (p.file_length == q.file_length)) [
    | inl same ↦ rw same (
        After-bind (SameName p) (Keeps (p ∷ q ∷ fs)) (with_crc contents p) _ (with_crc-name p)
          (λ p' e.
            After-bind (SameName q) (Keeps (p ∷ q ∷ fs)) (with_crc contents q) _ (with_crc-name q)
              (λ q' e'.
                After-bind (Keeps (q' ∷ fs)) (Keeps (p ∷ q ∷ fs)) (scan1_from contents beyond q' fs)
                  _ (scan1_from-Keeps beyond q' fs)
                  (λ left keeps n.
                    ap (λ k. (if k == n then 1 else 0) + copies n left) e
                    ∙ ap (λ k. (if p.nameloc == n then 1 else 0) + k)
                        (keeps n ∙ ap (λ k. (if k == n then 1 else 0) + copies n fs) e')))))
    | inr other ↦ rw other (
        After-bind (Keeps (q ∷ fs)) (Keeps (p ∷ q ∷ fs)) (scan1_from contents beyond q fs) _
          (scan1_from-Keeps beyond q fs)
          (λ left keeps n. ap (λ k. (if p.nameloc == n then 1 else 0) + k) (keeps n)))
  ]

  module _ (sort : List Filedesc → List Filedesc)
      (sorts : (fs : List Filedesc) → Keeps fs (sort fs)) where
    pub scan1-Keeps :
        (beyond : Filedesc) (fs : List Filedesc) → After (Keeps fs) (scan1 contents sort beyond fs)
    unfolding scan1
    scan1-Keeps beyond [] = λ n. refl
    scan1-Keeps beyond (p ∷ fs) =
        After-bind (Keeps (p ∷ fs)) (Keeps (p ∷ fs)) (scan1_from contents beyond p fs) _
          (scan1_from-Keeps beyond p fs)
          (λ gs keeps.
            if_elim (Keeps (p ∷ fs)) (needsort contents beyond p fs) (sort gs) gs
              (λ n. sorts gs n ∙ keeps n) keeps)

-- Whatever the files contain, and with a sort that keeps each entry as often as it is there, the
-- list that duplicates are printed from has every file that was listed, as often as it was listed.
pub find_duplicates-Keeps :
    (contents : ℕ → Option (List ℕ)) (sort : List Filedesc → List Filedesc) (beyond : Filedesc)
    (files : List Filedesc)
    → ((fs : List Filedesc) → Keeps fs (sort fs))
    → After (Keeps files) (find_duplicates contents sort beyond files)
unfolding find_duplicates
find_duplicates-Keeps contents sort beyond files sorts =
    After-bind (Keeps (sort files)) (Keeps files) (scan1 contents sort beyond (sort files)) _
      (scan1-Keeps contents sort sorts beyond (sort files))
      (λ gs keeps.
        After-weaken (Keeps gs) (Keeps files) (scan2 contents gs)
          (λ hs kept n. kept n ∙ keeps n ∙ sorts files n) (scan2-Keeps contents gs))
