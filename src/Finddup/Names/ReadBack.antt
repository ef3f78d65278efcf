-- ===== src/Finddup/Names/ReadBack.antt =====
-- `getfn` of hw2/src/finddup.c reads the names back that the list was built from.
use c_starter_projects.Prelude.{
  ℕ, ◌+◌, ◌≡◌, ◌≢◌, refl, ap, sym, ◌∙◌, if_elim, Option, none, some, List, [], ◌∷◌, ◌++◌, length,
  length-append, drop, All, arith, ◌==◌,
}
use mathlib.Core.Path.{subst}
use mathlib.Core.List.{append_assoc}
use c_starter_projects.Prelude.Options.{After, After-bind}
use c_starter_projects.Finddup.Contents.{lines_of, before_nul}
use c_starter_projects.Finddup.Names.{without_last, cut_line, names_from, getfn}

drop-append : (xs ys : List ℕ) → drop (length xs) (xs ++ ys) ≡ ys
drop-append [] ys = refl
drop-append (x ∷ xs) ys = drop-append xs ys

-- The first line and what is behind it.
record IsFirstLine (line : List ℕ) (lines : List (List ℕ)) (bytes : List ℕ) : Type 0 where
  behind : List ℕ
  splits : bytes ≡ line ++ behind
  goes_on : lines_of [] behind ≡ lines

abbrev BeginsWith : List ℕ → List (List ℕ) → Type 0
BeginsWith bytes [] = Unit {0}
BeginsWith bytes (line ∷ lines) = IsFirstLine line lines bytes

lines_of-BeginsWith : (line bytes : List ℕ) → BeginsWith (line ++ bytes) (lines_of line bytes)
unfolding lines_of
lines_of-BeginsWith [] [] = tt
lines_of-BeginsWith (b ∷ line) [] = record { behind = []; splits = refl; goes_on = refl }
lines_of-BeginsWith line (b ∷ bytes) =
    if_elim (BeginsWith (line ++ b ∷ bytes)) (b == b'\n') _ _
      (record { behind = bytes; splits = sym (append_assoc line (b ∷ []) bytes); goes_on = refl })
      (subst (λ z. BeginsWith z (lines_of (line ++ b ∷ []) bytes))
        (append_assoc line (b ∷ []) bytes) (lines_of-BeginsWith (line ++ b ∷ []) bytes))

After-self {ℓ} : {A : Type ℓ} (o : Option A) → After (λ a. o ≡ some a) o
After-self none = tt
After-self (some a) = refl

-- The name at an offset is what `getfn` returns for it.
abbrev pub ReadsBack : List ℕ → ℕ × List ℕ → Type 0
ReadsBack bytes n = getfn bytes n.0 ≡ some n.1

getfn_at :
    (pre bytes line : List ℕ) (lines : List (List ℕ))
    → lines_of [] bytes ≡ line ∷ lines
    → getfn (pre ++ bytes) (length pre) ≡ cut_line line
unfolding getfn
getfn_at pre bytes line lines e = rw (getfn, drop-append pre bytes, e) refl

names_from-ReadsBack :
    (lines : List (List ℕ)) (pre bytes : List ℕ)
    → lines_of [] bytes ≡ lines
    → After (All (ReadsBack (pre ++ bytes))) (names_from (length pre) lines)
unfolding names_from
names_from-ReadsBack [] pre bytes e = tt
names_from-ReadsBack (line ∷ lines) pre bytes e =
    let first : IsFirstLine line lines bytes =
      subst (BeginsWith bytes) e (lines_of-BeginsWith [] bytes) in
    let whole : (pre ++ line) ++ first.behind ≡ pre ++ bytes =
      append_assoc pre line first.behind ∙ ap (λ z. pre ++ z) (sym first.splits) in
    let later : After (All (ReadsBack (pre ++ bytes)))
        (names_from (length pre + length line) lines) =
      subst (λ k. After (All (ReadsBack (pre ++ bytes))) (names_from k lines))
        (length-append pre line)
        (subst (λ z. After (All (ReadsBack z)) (names_from (length (pre ++ line)) lines)) whole
          (names_from-ReadsBack lines (pre ++ line) first.behind first.goes_on)) in
    After-bind (λ name. cut_line line ≡ some name) (All (ReadsBack (pre ++ bytes))) (cut_line line)
      _ (After-self (cut_line line))
      λ name cut.
        After-bind (All (ReadsBack (pre ++ bytes))) (All (ReadsBack (pre ++ bytes)))
          (names_from (length pre + length line) lines) _ later
          λ names rest. (getfn_at pre bytes line lines e ∙ cut, rest)

-- A line that is read: it has a byte, and does not begin with a NUL byte.
abbrev IsFull : List ℕ → Type 0
IsFull [] = ⊥
IsFull (b ∷ line) = b ≢ 0

abbrev pub HasNoNul : List ℕ → Type 0
HasNoNul = All (λ b. b ≢ 0)

HasNoNul-snoc : (line : List ℕ) (b : ℕ) → HasNoNul line → b ≢ 0 → HasNoNul (line ++ b ∷ [])
HasNoNul-snoc [] b h k = (k, tt)
HasNoNul-snoc (c ∷ line) b h k = (h.0, HasNoNul-snoc line b h.1 k)

snoc-IsFull : (line : List ℕ) (b : ℕ) → HasNoNul line → b ≢ 0 → IsFull (line ++ b ∷ [])
snoc-IsFull [] b h k = k
snoc-IsFull (c ∷ line) b h k = h.0

lines_of-IsFull :
    (line bytes : List ℕ) → HasNoNul line → HasNoNul bytes → All IsFull (lines_of line bytes)
unfolding lines_of
lines_of-IsFull [] [] h k = tt
lines_of-IsFull (b ∷ line) [] h k = (h.0, tt)
lines_of-IsFull line (b ∷ bytes) h k =
    if_elim (All IsFull) (b == b'\n') _ _
      (snoc-IsFull line b h k.0, lines_of-IsFull [] bytes tt k.1)
      (lines_of-IsFull (line ++ b ∷ []) bytes (HasNoNul-snoc line b h k.0) k.1)

before_nul-full : (b : ℕ) (line : List ℕ) → b ≢ 0 → before_nul (b ∷ line) ≡ b ∷ before_nul line
unfolding before_nul
before_nul-full b line h = ground (arith, h)

cut_line-full : (line : List ℕ) → IsFull line → (name : List ℕ) × (cut_line line ≡ some name)
unfolding cut_line
cut_line-full [] h = absurd h
cut_line-full (b ∷ line) h =
    (without_last (b ∷ before_nul line), rw (cut_line, before_nul-full b line h) refl)

names_from-full :
    (loc : ℕ) (lines : List (List ℕ))
    → All IsFull lines
    → (names : List (ℕ × List ℕ)) × (names_from loc lines ≡ some names)
unfolding names_from
names_from-full loc [] h = ([], refl)
names_from-full loc (line ∷ lines) h =
    let cut = cut_line-full line h.0 in
    let rest = names_from-full (loc + length line) lines h.1 in
    ((loc, cut.0) ∷ rest.0, rw (cut.1, rest.1) refl)

-- When the file of names has no NUL byte, the build loop goes through, and for each offset that it
-- keeps, `getfn` reads the name back that the file was looked up by.
pub getfn-names_from :
    (bytes : List ℕ)
    → HasNoNul bytes
    → (names : List (ℕ × List ℕ)) × (names_from 0 (lines_of [] bytes) ≡ some names)
      × All (ReadsBack bytes) names
getfn-names_from bytes h =
    let built = names_from-full 0 (lines_of [] bytes) (lines_of-IsFull [] bytes tt h) in
    (
      built.0,
      built.1,
      subst (After (All (ReadsBack bytes))) built.1
          (names_from-ReadsBack (lines_of [] bytes) [] bytes refl),
    )
