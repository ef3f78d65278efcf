-- ===== src/Prelude/Decimal.antt =====
-- `sprintf` with `%d`: the decimal text of an int. The fuel `n + 1` suffices, since `n / 10 < n`.
use c_starter_projects.Prelude.{
  ℕ, zero, suc, ◌+◌, ◌/◌, ◌%◌, ◌<◌, ◌≡◌, refl, List, [], ◌∷◌, ◌++◌, arith, ltb, if◌then◌else◌,
}
use c_starter_projects.Prelude.Int.{ℤ, pos, negsuc}

unfoldable pub show_digits : ℕ → ℕ → List ℕ
show_digits zero n = []
show_digits (suc f) n =
    let rest = show_digits f (n / 10) in
    if ltb n 10 then (n + 48) ∷ [] else rest ++ (n % 10 + 48) ∷ []

unfoldable pub decimal : ℤ → List ℕ
unfolding show_digits
decimal (pos n) = show_digits (suc n) n
decimal (negsuc n) = b'-' ∷ show_digits (suc (suc n)) (suc n)

pub decimal_digit : (n : ℕ) → n < 10 → decimal (pos n) ≡ (n + 48) ∷ []
unfolding decimal
decimal_digit n h = ground arith

decimal_runs : decimal (negsuc 1204) ≡ b'-' ∷ b'1' ∷ b'2' ∷ b'0' ∷ b'5' ∷ []
unfolding decimal
decimal_runs = refl
