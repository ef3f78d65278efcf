-- ===== src/Finddup/Duplicates.antt =====
-- The files that `scan2` of hw2/src/finddup.c flags as duplicates.
use mathlib.Core.Path.{subst}
use mathlib.Core.Bool.{false≢true}
use c_starter_projects.Prelude.{
  ℕ, zero, suc, ◌≤◌, ◌+◌, ◌≢◌, sym, ap, ◌∙◌, arith, ◌≡◌, refl, ◌⊎◌, inl, inr, Bool, true, false,
  Option, none, some, List, [], ◌∷◌, ◌++◌, length, All, All-append, ◌&&◌, ◌==◌, ==_iff,
  if◌then◌else◌,
}
use c_starter_projects.Prelude.Options.{After, After-bind}
use c_starter_projects.Finddup.Contents.{Filedesc, fullcmp}
use c_starter_projects.Finddup.Scans.{
  mark_links, mark_all, when_behind, when_same, dup_round, dup_scan, scan2,
}
use c_starter_projects.Finddup.Moves.{when_behind-holds, copies, Splits, dup_round-Splits, marked}

-- The list has a file of that name, length, device and inode.
abbrev pub IsListed : List Filedesc → (name file_length device inode : ℕ) → Type 0
IsListed [] n k d i = ⊥
IsListed (f ∷ fs) n k d i =
    ((f.nameloc ≡ n) × (f.file_length ≡ k) × (f.device ≡ d) × (f.inode ≡ i)) ⊎ IsListed fs n k d i

abbrev pub IsOf : List Filedesc → Filedesc → Type 0
IsOf files f = IsListed files f.nameloc f.file_length f.device f.inode

-- No name is there twice.
abbrev pub Single : List Filedesc → Type 0
Single fs = (n : ℕ) → copies n fs ≤ 1

abbrev Others : ℕ → List Filedesc → Type 0
Others n = All (λ f. f.nameloc ≢ n)

no_copies : (n : ℕ) (fs : List Filedesc) → copies n fs ≡ 0 → Others n fs
no_copies n [] h = tt
no_copies n (f ∷ fs) h = (
  (λ e.
      let same : (f.nameloc == n) ≡ true = ground (arith, e) in
      omega (arith, h, ap (λ (b : Bool). (if b then 1 else 0) + copies n fs) same)),
  no_copies n fs (omega (arith, h)),
)

Single-Others : (p : Filedesc) (fs : List Filedesc) → Single (p ∷ fs) → Others p.nameloc fs
Single-Others p fs h =
    let same : (p.nameloc == p.nameloc) ≡ true = ground arith in
    no_copies p.nameloc fs (
      omega
        (arith, h p.nameloc, ap (λ (b : Bool). (if b then 1 else 0) + copies p.nameloc fs) same))

pub After-both {ℓ κ λ₁} :
    {A : Type ℓ} (P : A → Type κ) (Q : A → Type λ₁) (o : Option A)
    → After P o
    → After Q o
    → After (λ a. P a × Q a) o
After-both P Q none p q = tt
After-both P Q (some a) p q = (p, q)

pub All-map {ℓ κ} :
    {P : Filedesc → Type ℓ} {Q : Filedesc → Type κ} (fs : List Filedesc)
    → ((f : Filedesc) → P f → Q f)
    → All P fs
    → All Q fs
All-map [] k h = tt
All-map (f ∷ fs) k h = (k f h.0, All-map fs k h.1)

if_known {ℓ κ} :
    {A : Type ℓ} (P : A → Type κ) (b : Bool) (x y : A)
    → (b ≡ true → P x)
    → P y
    → P (if b then x else y)
if_known P true x y p q = p refl
if_known P false x y p q = q

when_same-known {ℓ κ} :
    {A : Type ℓ} (P : A → Type κ) (o : Option Bool) (same different : Option A)
    → (o ≡ some true → After P same)
    → After P different
    → After P (when_same o same different)
when_same-known P none same different p q = tt
when_same-known P (some true) same different p q = p refl
when_same-known P (some false) same different p q = q

both_true : (a b : Bool) → (a && b) ≡ true → (a ≡ true) × (b ≡ true)
both_true true b h = (refl, h)
both_true false b h = absurd (false≢true h)

-- A file of the list as `scan1` leaves it.
abbrev pub IsPlain : List Filedesc → Filedesc → Type 0
IsPlain files f = IsOf files f × (f.is_dup ≡ false) × (f.is_link ≡ false)

module _ (contents : ℕ → Option (List ℕ)) (files : List Filedesc) where
  -- Another file of the list, with the length and checksum of a duplicate, that `fullcmp` does not
  -- tell from it, unless the duplicate is a link.
  pub record IsMatched (f : Filedesc) : Type 0 where
    pub original : Filedesc
    pub listed : IsOf files original
    pub other : original.nameloc ≢ f.nameloc
    pub same_length : original.file_length ≡ f.file_length
    pub same_crc : original.crc32 ≡ f.crc32
    pub compared : (fullcmp contents original f ≡ some true) ⊎ (f.is_link ≡ true)

  -- A duplicate has such a file.
  pub data IsJustified (f : Filedesc) : Type 0 where
    unflagged : f.is_dup ≡ false → IsJustified f
    matched : IsMatched f → IsJustified f

  -- Another file of the list has the device and the inode.
  pub record IsLinked (name device inode : ℕ) : Type 0 where
    pub partner : ℕ
    pub file_length : ℕ
    pub listed : IsListed files partner file_length device inode
    pub other : partner ≢ name

  abbrev pub Linked : Filedesc → Type 0
  Linked f = f.is_link ≡ true → IsLinked f.nameloc f.device f.inode

  abbrev pub Sound : Filedesc → Type 0
  Sound f = IsOf files f × Linked f × IsJustified f

  abbrev SoundParts : List Filedesc × List Filedesc → Type 0
  SoundParts parts = All Sound parts.0 × All Sound parts.1

  dup_round-Sound :
      (p : Filedesc) (lnkmatch : Bool) (front behind rest : List Filedesc)
      → IsOf files p
      → Others p.nameloc rest
      → All Sound front
      → All Sound behind
      → All Sound rest
      → After SoundParts (dup_round contents p lnkmatch front behind rest)
  unfolding dup_round fullcmp
  dup_round-Sound p lnkmatch front behind [] n o hf hb hr = (hf, hb)
  dup_round-Sound p lnkmatch front behind (q ∷ rest) n o hf hb hr =
      let dup = record q { is_dup = true } in
      let first = dup_round contents p true front (dup ∷ []) rest in
      let moved = dup_round contents p true (front ++ dup ∷ []) behind rest in
      let different = dup_round contents p false front (behind ++ q ∷ []) rest in
      let kept = when_behind behind first moved in
      let kept-Sound : Sound dup → After SoundParts kept = λ s.
        when_behind-holds (After SoundParts) behind first moved
          (λ e. dup_round-Sound p true front (dup ∷ []) rest n o.1 hf (s, tt) hr.1)
          (dup_round-Sound p true (front ++ dup ∷ []) behind rest n o.1
            (All-append Sound front (dup ∷ []) hf (s, tt)) hb hr.1) in
      let different-Sound : After SoundParts different =
        dup_round-Sound p false front (behind ++ q ∷ []) rest n o.1 hf
          (All-append Sound behind (q ∷ []) hb (hr.0, tt)) hr.1 in
      let compared = when_same (fullcmp contents p q) kept different in
      if_known (After SoundParts) ((p.file_length == q.file_length) && (p.crc32 == q.crc32))
        (if q.is_link && lnkmatch then kept else compared) (some (front, behind ++ q ∷ rest))
        (λ same.
          let fields = both_true (p.file_length == q.file_length) (p.crc32 == q.crc32) same in
          let found : (fullcmp contents p dup ≡ some true) ⊎ (dup.is_link ≡ true) → Sound dup = λ c.
            (
              hr.0.0,
              hr.0.1,
              matched (record {
                original = p;
                listed = n;
                other = λ e. o.0 (sym e);
                same_length = (==_iff p.file_length q.file_length).0 fields.0;
                same_crc = (==_iff p.crc32 q.crc32).0 fields.1;
                compared = c;
              }),
            ) in
          if_known (After SoundParts) (q.is_link && lnkmatch) kept compared
            (λ linked. kept-Sound (found (inr (both_true q.is_link lnkmatch linked).0)))
            (when_same-known SoundParts (fullcmp contents p q) kept different
              (λ e. kept-Sound (found (inl e))) different-Sound))
        (hf, All-append Sound behind (q ∷ rest) hb hr)

  dup_scan-Sound :
      (fuel : ℕ) (fs : List Filedesc)
      → Single fs
      → All Sound fs
      → After (All Sound) (dup_scan contents fuel fs)
  unfolding dup_scan
  dup_scan-Sound zero fs u h = h
  dup_scan-Sound (suc fuel) [] u h = tt
  dup_scan-Sound (suc fuel) (p ∷ rest) u h =
      let parts = dup_round contents p true [] [] rest in
      After-bind (λ r. SoundParts r × Splits rest r) (All Sound) parts _
        (After-both SoundParts (Splits rest) parts
          (dup_round-Sound p true [] [] rest h.0.0 (Single-Others p rest u) tt tt h.1)
          (dup_round-Splits contents p true [] [] rest rest (λ n. omega arith)))
        (λ parts both.
          After-bind (All Sound) (All Sound) (dup_scan contents fuel parts.1) _
            (dup_scan-Sound fuel parts.1 (λ n. omega (arith, u n, both.1 n)) both.0.1)
            (λ left later. (h.0, All-append Sound parts.0 left both.0.0 later)))

  IsPlain-Sound : (f : Filedesc) → IsPlain files f → Sound f
  IsPlain-Sound f h = (h.0, (λ e. absurd (false≢true (sym h.2 ∙ e))), unflagged h.1)

  mark_links-Sound :
      (p : Filedesc) (fs : List Filedesc)
      → IsOf files p
      → Single (p ∷ fs)
      → All (IsPlain files) fs
      → All Sound (mark_links p fs)
  unfolding mark_links
  mark_links-Sound p [] n u h = tt
  mark_links-Sound p (q ∷ rest) n u h =
      let others = Single-Others p (q ∷ rest) u in
      if_known (All Sound) ((p.device == q.device) && (p.inode == q.inode))
        (record q { is_link = true } ∷ mark_links p rest) (q ∷ mark_links q rest)
        (λ same.
          let fields = both_true (p.device == q.device) (p.inode == q.inode) same in
          let device = (==_iff p.device q.device).0 fields.0 in
          let inode = (==_iff p.inode q.inode).0 fields.1 in
          (
            (
              h.0.0,
              (λ e. record {
                partner = p.nameloc;
                file_length = p.file_length;
                listed =
                    subst (λ i. IsListed files p.nameloc p.file_length q.device i) inode
                      (subst (λ d. IsListed files p.nameloc p.file_length d p.inode) device n);
                other = λ e. others.0 (sym e);
              }),
              unflagged h.0.1,
            ),
            mark_links-Sound p rest n (λ k. omega (arith, u k)) h.1,
          ))
        (IsPlain-Sound q h.0, mark_links-Sound q rest h.0.0 (λ k. omega (arith, u k)) h.1)

  mark_all-Sound :
      (fs : List Filedesc) → Single fs → All (IsPlain files) fs → All Sound (mark_all fs)
  mark_all-Sound [] u h = tt
  mark_all-Sound (p ∷ fs) u h = (IsPlain-Sound p h.0, mark_links-Sound p fs h.0.0 u h.1)

abbrev pub IsUnflagged : Filedesc → Type 0
IsUnflagged f = (f.is_dup ≡ false) × (f.is_link ≡ false)

listed_by_more :
    (f : Filedesc) (fs gs : List Filedesc) → All (IsPlain fs) gs → All (IsPlain (f ∷ fs)) gs
listed_by_more f fs gs h = All-map gs (λ g k. (inr k.0, k.1, k.2)) h

pub All-IsPlain : (fs : List Filedesc) → All IsUnflagged fs → All (IsPlain fs) fs
All-IsPlain [] h = tt
All-IsPlain (f ∷ fs) h =
    ((inl (refl, refl, refl, refl), h.0.0, h.0.1), listed_by_more f fs fs (All-IsPlain fs h.1))

-- The files are those of another list.
pub scan2-Sound :
    (contents : ℕ → Option (List ℕ)) (files fs : List Filedesc)
    → Single fs
    → All (IsPlain files) fs
    → After (All (Sound contents files)) (scan2 contents fs)
unfolding scan2
scan2-Sound contents files fs u h =
    dup_scan-Sound contents files (length fs) (mark_all fs) (λ n. omega (arith, u n, marked n fs))
      (mark_all-Sound contents files fs u h)
