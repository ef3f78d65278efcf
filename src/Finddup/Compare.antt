-- ===== src/Finddup/Compare.antt =====
-- The comparison of two files, `fullcmp` of hw2/src/finddup.c.
use mathlib.Core.Bool.{false≢true}
use mathlib.Core.Path.{subst}
use c_starter_projects.Prelude.{
  ℕ, ◌≡◌, ◌≤◌, ◌<◌, ◌∙◌, ◌↔◌, refl, sym, ap, Bool, true, false, Option, none, some, List, [], ◌∷◌,
  ◌++◌, length, All, arith, Bool-cases, inl, inr, ◌==◌,
}
use c_starter_projects.Prelude.Int.{pos, ◌-ℤ◌, eq_ℤ}
use c_starter_projects.Finddup.Contents.{Filedesc, signed_char, getc_of, compare_loop, fullcmp}

abbrev pub IsAscii : List ℕ → Type 0
IsAscii = All (λ b. b < 128)

abbrev pub IsByte : ℕ → Type 0
IsByte b = b < 256

or_false : Option Bool → Bool
or_false none = false
or_false (some b) = b

some-injective : {a b : Bool} → some a ≡ some b → a ≡ b
unfolding or_false
some-injective e = ap or_false e

step_same : (b : ℕ) → b < 128 → eq_ℤ (signed_char b) (pos b) ≡ true
step_same b lt = ground arith

step_other : (b c : ℕ) → b < 128 → eq_ℤ (signed_char b) (pos c) ≡ true → b ≡ c
step_other b c lt e = ground arith

compare_loop_self : (xs : List ℕ) → IsAscii xs → compare_loop xs xs ≡ true
unfolding compare_loop
compare_loop_self [] a = refl
compare_loop_self (b ∷ xs) a =
    let more : (b == 255) ≡ false = ground (arith, a.0) in
    rw (more, step_same b a.0, compare_loop_self xs a.1) refl

compare_loop_equal :
    (xs ys : List ℕ) → IsAscii xs → length xs ≡ length ys → compare_loop xs ys ≡ true → xs ≡ ys
unfolding compare_loop
compare_loop_equal [] [] a n e = refl
compare_loop_equal [] (y ∷ ys) a n e = absurd (omega arith)
compare_loop_equal (x ∷ xs) [] a n e = absurd (omega arith)
compare_loop_equal (x ∷ xs) (y ∷ ys) a n e =
    let more : (x == 255) ≡ false = ground (arith, a.0) in
    elim (Bool-cases (eq_ℤ (signed_char x) (pos y))) [
      | inl equal ↦
          let opened : compare_loop (x ∷ xs) (y ∷ ys) ≡ compare_loop xs ys =
            rw (compare_loop, more, equal) refl in
          let here = step_other x y a.0 equal in
          let further = compare_loop_equal xs ys a.1 (omega arith) (sym opened ∙ e) in
          ap (λ z. z ∷ xs) here ∙ ap (λ zs. y ∷ zs) further
      | inr differs ↦
          let closed : compare_loop (x ∷ xs) (y ∷ ys) ≡ false =
            rw (compare_loop, more, differs) refl in
          absurd (false≢true (sym closed ∙ e))
    ]

never_equal : (b : ℕ) (ys : List ℕ) → 128 ≤ b → b < 255 → eq_ℤ (signed_char b) (getc_of ys) ≡ false
unfolding ◌-ℤ◌
never_equal b [] lo hi = ground arith
never_equal b (y ∷ ys) lo hi = ground arith

-- A file with a byte from 128 to 254 is not found equal to itself.
compare_loop_high :
    (us : List ℕ) (b : ℕ) (vs : List ℕ)
    → IsAscii us
    → 128 ≤ b
    → b < 255
    → compare_loop (us ++ b ∷ vs) (us ++ b ∷ vs) ≡ false
unfolding compare_loop
compare_loop_high [] b vs a lo hi =
    let more : (b == 255) ≡ false = ground (arith, hi) in
    rw (more, never_equal b (b ∷ vs) lo hi) refl
compare_loop_high (u ∷ us) b vs a lo hi =
    let more : (u == 255) ≡ false = ground (arith, a.0) in
    rw (more, step_same u a.0, compare_loop_high us b vs a.1 lo hi) refl

-- `fullcmp` of two files of the same length, of which the first has bytes below 128 only, returns 0
-- exactly when they have the same contents.
pub fullcmp_decides :
    (contents : ℕ → Option (List ℕ)) (f g : Filedesc) (xs ys : List ℕ)
    → contents f.nameloc ≡ some xs
    → contents g.nameloc ≡ some ys
    → IsAscii xs
    → length xs ≡ length ys
    → (fullcmp contents f g ≡ some true) ↔ (xs ≡ ys)
unfolding fullcmp
fullcmp_decides contents f g xs ys first second a n =
    let compared : fullcmp contents f g ≡ some (compare_loop xs ys) =
      rw (fullcmp, first, second) refl in
    (
      λ e. compare_loop_equal xs ys a n (some-injective (sym compared ∙ e)),
      λ e. compared ∙ ap some (subst (λ zs. compare_loop xs zs ≡ true) e (compare_loop_self xs a)),
    )

-- Two files with the same contents that have a byte from 128 to 254, behind bytes below 128 only,
-- are different for `fullcmp`.
pub fullcmp_high :
    (contents : ℕ → Option (List ℕ)) (f g : Filedesc) (us : List ℕ) (b : ℕ) (vs : List ℕ)
    → contents f.nameloc ≡ some (us ++ b ∷ vs)
    → contents g.nameloc ≡ some (us ++ b ∷ vs)
    → IsAscii us
    → 128 ≤ b
    → b < 255
    → fullcmp contents f g ≡ some false
unfolding fullcmp
fullcmp_high contents f g us b vs first second a lo hi =
    rw (fullcmp, first, second) (ap some (compare_loop_high us b vs a lo hi))
