-- ===== src/Prelude/Strings.antt =====
-- C strings as the lists of their bytes, without the NUL byte, and `strcmp` as a test for equality.
use Prim.Native.Nat.{ℕ}
use mathlib.Core.Path.{◌≡◌, refl}
use mathlib.Core.Bool.{Bool, true, false, ◌&&◌}
use mathlib.Core.List.{List, [], ◌∷◌}
use native.Mathlib.Omega.{arith}
use c_starter_projects.Prelude.Tests.{◌==◌}

abbrev pub Text : Type 0
Text = List ℕ

-- Whether `strcmp` returns 0.
unfoldable pub same_text : Text → Text → Bool
same_text [] [] = true
same_text [] (b ∷ t) = false
same_text (a ∷ s) [] = false
same_text (a ∷ s) (b ∷ t) = (a == b) && same_text s t

pub same_text_self : (s : Text) → same_text s s ≡ true
unfolding same_text
same_text_self [] = refl
same_text_self (a ∷ s) = ground (arith, same_text_self s)

pub same_text→eq : (s t : Text) → same_text s t ≡ true → s ≡ t
unfolding same_text
same_text→eq [] [] h = refl
same_text→eq [] (b ∷ t) h = ground arith
same_text→eq (a ∷ s) [] h = ground arith
same_text→eq (a ∷ s) (b ∷ t) h = ground (arith, same_text→eq s t)
