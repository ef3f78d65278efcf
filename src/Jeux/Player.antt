-- ===== src/Jeux/Player.antt =====
-- hw5/src/player.c: the players. `none` is the NULL pointer, or a player that has been freed.
pub mod Rating
mod Tests
use c_starter_projects.Prelude.{ℕ, ◌/◌, ◌+◌, Option, none, some, length, leb, if◌then◌else◌, suc}
use c_starter_projects.Prelude.Int.{ℤ, pos, negsuc, ◌+ℤ◌, ◌-ℤ◌, eq_ℤ, sub_ℕ}
use c_starter_projects.Prelude.Strings.{Text}
use c_starter_projects.Jeux.Run.{Run, ok, fault, ◌>>=◌, sem_wait, sem_post}

pub record Player : Type 0 where
  pub player_name : Text
  pub ref_count : ℤ
  pub rating : ℤ
  pub player_lock : ℕ

abbrev pub name_max_length : ℕ
name_max_length = 100

abbrev pub player_initial_rating : ℤ
player_initial_rating = pos 1500

-- `strcat` writes the name and its NUL byte behind the empty string of the zeroed player, past the
-- end of the array for a name that is too long.
unfoldable pub player_create : Text → Run Player
player_create name =
    if leb name_max_length (length name)
    then fault
    else ok (record {
      player_name = name;
      ref_count = pos 1;
      rating = player_initial_rating;
      player_lock = 1;
    })

unfoldable pub player_ref : Option Player → Run (Option Player)
unfolding ◌+ℤ◌
player_ref none = ok none
player_ref (some p) = do
  locked ← sem_wait p.player_lock
  let once = p.ref_count +ℤ pos 1
  ok (some (record p { ref_count = once +ℤ pos 1; player_lock = sem_post locked }))

-- What is left of the player.
unfoldable pub player_unref : Option Player → Run (Option Player)
unfolding ◌-ℤ◌
player_unref none = ok none
player_unref (some p) = do
  locked ← sem_wait p.player_lock
  let count = p.ref_count -ℤ pos 1
  let left = record p { ref_count = count; player_lock = sem_post locked }
  if eq_ℤ count (pos 0) then ok none else ok (some left)

unfoldable pub player_get_name : Option Player → Option Text
player_get_name none = none
player_get_name (some p) = some p.player_name

unfoldable pub player_get_rating : Option Player → ℤ
player_get_rating none = pos 0
player_get_rating (some p) = p.rating

-- The `double` arithmetic of the C implementation and the `pow` of its library.
pub record Doubles : Type 1 where
  pub Double : Type 0
  pub of_int : ℤ → Double
  pub half : Double
  pub plus : Double → Double → Double
  pub minus : Double → Double → Double
  pub times : Double → Double → Double
  pub over : Double → Double → Double
  pub pow : Double → Double → Double
  pub to_int : Double → ℤ

-- Division of int values, which cuts towards 0.
unfoldable pub quotient : ℤ → ℕ → ℤ
quotient (pos n) d = pos (n / d)
quotient (negsuc n) d = sub_ℕ 0 (suc n / d)

module _ (doubles : Doubles) where
  open doubles use {Double, of_int, half, plus, minus, times, over, pow, to_int}

  -- The points of the two players for a result: a draw, the first player wins, the second wins.
  unfoldable pub scores : ℤ → Double × Double
  scores result =
      if eq_ℤ result (pos 0)
      then (half, half)
      else if eq_ℤ result (pos 1)
      then (of_int (pos 1), of_int (pos 0))
      else (of_int (pos 0), of_int (pos 1))

  unfoldable pub new_rating : ℤ → ℤ → Double → ℤ
  new_rating own other points =
      let power =
        plus (of_int (pos 1)) (pow (of_int (pos 10)) (of_int (quotient (other -ℤ own) 400))) in
      let expected = over (of_int (pos 1)) power in
      to_int (plus (of_int own) (times (of_int (pos 32)) (minus points expected)))

  -- The two players are different objects.
  unfoldable pub player_post_result : Player → Player → ℤ → Run (Player × Player)
  unfolding scores new_rating
  player_post_result p₁ p₂ result = do
    let (s₁, s₂) = scores result
    l₁ ← sem_wait p₁.player_lock
    let r₁ = p₁.rating
    l₂ ← sem_wait p₂.player_lock
    let r₂ = p₂.rating
    k₁ ← sem_wait (sem_post l₁)
    k₂ ← sem_wait (sem_post l₂)
    ok (
      record p₁ { rating = new_rating r₁ r₂ s₁; player_lock = sem_post k₁ },
      record p₂ { rating = new_rating r₂ r₁ s₂; player_lock = sem_post k₂ },
    )
