-- ===== src/Jeux/Player/Tests.antt =====
-- Players, and the theorems about hw5/src/player.c at them; `thousandths` is an arithmetic in place
-- of `double`.
use c_starter_projects.Prelude.{ℕ, zero, suc, ◌*◌, ◌/◌, ◌≡◌, refl, [], ◌∷◌}
use c_starter_projects.Prelude.Int.{ℤ, pos, negsuc, ◌+ℤ◌, ◌-ℤ◌, sub_ℕ}
use c_starter_projects.Jeux.Run.{ok}
use c_starter_projects.Jeux.Player.{
  Player, Doubles, player_post_result, scores, new_rating, quotient,
}

abbrev times_ℤ : ℤ → ℤ → ℤ
times_ℤ (pos a) (pos b) = pos (a * b)
times_ℤ (pos a) (negsuc b) = sub_ℕ 0 (a * suc b)
times_ℤ (negsuc a) (pos b) = sub_ℕ 0 (suc a * b)
times_ℤ (negsuc a) (negsuc b) = pos (suc a * suc b)

abbrev power : ℤ → ℕ → ℤ
power x zero = pos 1000
power x (suc n) = quotient (times_ℤ x (power x n)) 1000

abbrev thousandths : Doubles
thousandths = record {
  Double = ℤ;
  of_int = λ z. times_ℤ (pos 1000) z;
  half = pos 500;
  plus = λ x y. x +ℤ y;
  minus = λ x y. x -ℤ y;
  times = λ x y. quotient (times_ℤ x y) 1000;
  over = λ x y. elim y [
    | pos n ↦ quotient (times_ℤ (pos 1000) x) n
    | negsuc n ↦ quotient (times_ℤ (negsuc 999) x) (suc n)
  ];
  pow = λ x y. elim y [ pos n ↦ power x (n / 1000) | negsuc n ↦ pos 0 ];
  to_int = λ x. quotient x 1000;
}

abbrev alice : Player
alice = record { player_name = b'a' ∷ []; ref_count = pos 1; rating = pos 1500; player_lock = 1 }

abbrev bob : Player
bob = record { player_name = b'b' ∷ []; ref_count = pos 1; rating = pos 1890; player_lock = 1 }

sixteen_points :
    player_post_result thousandths alice bob (pos 1)
    ≡ ok (record alice { rating = pos 1516 }, record bob { rating = pos 1874 })
unfolding player_post_result scores new_rating ◌-ℤ◌ ◌+ℤ◌ quotient
sixteen_points = refl
