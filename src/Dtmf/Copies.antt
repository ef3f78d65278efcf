-- ===== src/Dtmf/Copies.antt =====
-- The two helpers for strings of hw1/src/dtmf.c that none of the other functions call.
use mathlib.Core.Path.{subst}
use mathlib.Core.Bool.{false≢true}
use c_starter_projects.Prelude.{
  ℕ, ◌≡◌, refl, ◌↔◌, Bool, true, false, not, Option, none, some, List, [], ◌∷◌, length, ltb, arith,
  ◌==◌, if◌then◌else◌,
}
use c_starter_projects.Prelude.Options.{◌>>=◌}
use c_starter_projects.Prelude.Int.{ℤ, pos, minus_one}
use c_starter_projects.Prelude.Strings.{Text}

-- Whether `check_string_equality` returns 0.
unfoldable pub check_string_equality : Text → Text → Bool
check_string_equality [] [] = true
check_string_equality [] (b ∷ t) = false
check_string_equality (a ∷ s) [] = false
check_string_equality (a ∷ s) (b ∷ t) =
    let rest = check_string_equality s t in if not (a == b) then false else rest

-- The loop of `string_copy`, for the bytes of the destination; `none` is a write behind its end.
unfoldable pub copy_loop : (src : Text) (dest : List ℕ) → Option (Text × List ℕ)
copy_loop [] dest = some ([], dest)
copy_loop (c ∷ src) [] = none
copy_loop (c ∷ src) (d ∷ dest) = copy_loop src dest >>= λ r. some (b'b' ∷ r.0, b'a' ∷ r.1)

-- The result, and what is left of both strings. A NULL destination is refused.
unfoldable pub string_copy :
    (src : Text) (dest : Option (List ℕ)) → Option (ℤ × Text × Option (List ℕ))
unfolding copy_loop
string_copy src none = some (minus_one, src, none)
string_copy src (some dest) = copy_loop src dest >>= λ r.
    some (if ltb (length src) 4 then minus_one else pos (length src), r.0, some r.1)

equal_texts : (s t : Text) → check_string_equality s t ≡ true → s ≡ t
unfolding check_string_equality
equal_texts [] [] h = refl
equal_texts [] (b ∷ t) h = absurd (false≢true h)
equal_texts (a ∷ s) [] h = absurd (false≢true h)
equal_texts (a ∷ s) (b ∷ t) h = ground (arith, h, equal_texts s t)

equal_self : (s : Text) → check_string_equality s s ≡ true
unfolding check_string_equality
equal_self [] = refl
equal_self (a ∷ s) = ground (arith, equal_self s)

-- `check_string_equality` returns 0 exactly for equal strings.
pub check_string_equality_iff : (s t : Text) → (check_string_equality s t ≡ true) ↔ (s ≡ t)
check_string_equality_iff s t =
    (equal_texts s t, λ e. subst (λ u. check_string_equality s u ≡ true) e (equal_self s))

-- Nothing of the source comes to the destination.
string_copied :
    string_copy (b'w' ∷ b'x' ∷ b'y' ∷ b'z' ∷ []) (some (0 ∷ 0 ∷ 0 ∷ 0 ∷ 0 ∷ []))
    ≡ some (pos 4, b'b' ∷ b'b' ∷ b'b' ∷ b'b' ∷ [], some (b'a' ∷ b'a' ∷ b'a' ∷ b'a' ∷ 0 ∷ []))
unfolding string_copy
string_copied = refl
