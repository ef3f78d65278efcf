-- ===== src/Jeux/Player/Rating.antt =====
-- `player_post_result` of hw5/src/player.c: what it changes, and the ratings it computes.
use c_starter_projects.Prelude.{ℕ, suc, ◌<◌, ◌/◌, ◌+◌, ◌≡◌, refl, ap, some, arith}
use c_starter_projects.Prelude.Int.{ℤ, pos, negsuc, ◌-ℤ◌, magnitude}
use c_starter_projects.Jeux.Run.{ok, ◌>>=◌}
use c_starter_projects.Jeux.Player.{
  Player, Doubles, player_post_result, new_rating, scores, quotient, player_ref, player_unref,
}

-- The distance of two ratings.
abbrev pub distance : ℤ → ℤ → ℕ
distance a b = magnitude (a -ℤ b)

small_quotient : (z : ℤ) → magnitude z < 400 → quotient z 400 ≡ pos 0
unfolding quotient
small_quotient (pos n) h = ap pos (omega arith)
small_quotient (negsuc n) h = let none_left : suc n / 400 ≡ 0 = omega arith in rw none_left refl

distance_self : (a : ℤ) → distance a a < 400
unfolding ◌-ℤ◌
distance_self a = ground arith

distance_comm : (a b : ℤ) → distance a b ≡ distance b a
unfolding ◌-ℤ◌
distance_comm a b = ground arith

trans_lt : {a b c : ℕ} → a ≡ b → b < c → a < c
trans_lt e h = omega arith

new_rating_close :
    (doubles : Doubles) (own other : ℤ) (points : doubles.Double)
    → distance other own < 400
    → new_rating doubles own other points ≡ new_rating doubles own own points
unfolding new_rating
new_rating_close doubles own other points h =
    rw
      (new_rating, small_quotient (other -ℤ own) h, small_quotient (own -ℤ own) (distance_self own))
      refl

-- With free locks and ratings less than 400 apart, each player's new rating is the one of a match
-- against a player of the same rating: how far the opponent stands above or below is lost. Names
-- and counts stay, and the locks are free again.
pub post_result_close :
    (doubles : Doubles) (p₁ p₂ : Player) (result : ℤ)
    → p₁.player_lock ≡ 1
    → p₂.player_lock ≡ 1
    → distance p₂.rating p₁.rating < 400
    → player_post_result doubles p₁ p₂ result
      ≡ ok (
        record p₁ { rating = new_rating doubles p₁.rating p₁.rating (scores doubles result).0 },
        record p₂ { rating = new_rating doubles p₂.rating p₂.rating (scores doubles result).1 },
      )
unfolding player_post_result
post_result_close doubles p₁ p₂ result l₁ l₂ h =
    let swapped = trans_lt (distance_comm p₁.rating p₂.rating) h in
    rw
      (
        l₁,
        l₂,
        new_rating_close doubles p₁.rating p₂.rating (scores doubles result).0 h,
        new_rating_close doubles p₂.rating p₁.rating (scores doubles result).1 swapped,
      )
      refl

-- `player_ref` counts two references: after it, one `player_unref` of an unlocked player leaves
-- one reference more than there was.
pub ref_leaks :
    (p : Player) (n : ℕ)
    → p.player_lock ≡ 1
    → p.ref_count ≡ pos n
    → (player_ref (some p) >>= player_unref) ≡ ok (some (record p { ref_count = pos (n + 1) }))
unfolding player_ref player_unref
ref_leaks p n l c = ground arith
