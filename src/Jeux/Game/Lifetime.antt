-- ===== src/Jeux/Game/Lifetime.antt =====
-- References to a game, and resignation.
use c_starter_projects.Prelude.{ℕ, zero, suc, ◌-◌, ◌≤◌, ◌≡◌, false, Option, none, some, arith}
use c_starter_projects.Prelude.Int.{pos, ◌-ℤ◌}
use c_starter_projects.Jeux.Run.{Run, ok, ◌>>=◌}
use c_starter_projects.Jeux.Game.{
  Role, Game, game_unref, game_resign, first_player_role, second_player_role,
}

-- `k` calls of `game_unref`, on a game that is still there.
abbrev pub unref_times : ℕ → Game → Run (Option Game)
unref_times zero g = ok (some g)
unref_times (suc k) g = do
  left ← game_unref g
  elim left [ none ↦ ok none | some h ↦ unref_times k h ]

-- A game with `n + 1` references survives `k ≤ n` calls of `game_unref`, which change nothing but
-- the count.
pub unref_survives :
    (k n : ℕ) (g : Game)
    → g.game_lock ≡ 1
    → g.ref_count ≡ pos (suc n)
    → k ≤ n
    → unref_times k g ≡ ok (some (record g { ref_count = pos (suc n - k) }))
unfolding game_unref ◌-ℤ◌
unref_survives zero n g e c h = ground arith
unref_survives (suc k) zero g e c h = absurd (omega arith)
unref_survives (suc k) (suc n) g e c h =
    ground (arith, unref_survives k n (record g { ref_count = pos (suc n) }))

-- The call that drops the last of the `n + 1` references frees the game.
pub unref_frees :
    (n : ℕ) (g : Game)
    → g.game_lock ≡ 1
    → g.ref_count ≡ pos (suc n)
    → unref_times (suc n) g ≡ ok none
unfolding game_unref ◌-ℤ◌
unref_frees zero g e c = ground arith
unref_frees (suc n) g e c = ground (arith, unref_frees n (record g { ref_count = pos (suc n) }))

-- A game that is resigned is not marked as over: with two references, the second of two
-- resignations returns 0 as the first did, and frees the game.
pub resign_twice_frees :
    (g : Game) (role other : Role)
    → g.game_lock ≡ 1
    → g.terminated ≡ false
    → g.ref_count ≡ pos 2
    → (h : Game) × (game_resign g role ≡ ok (pos 0, some h))
      × (h.terminated ≡ false)
      × (game_resign h other ≡ ok (pos 0, none))
unfolding game_resign ◌-ℤ◌
resign_twice_frees g role other e t c =
    (record g { game_winner = winner role; ref_count = pos 1 }, ground arith, t, ground arith)
  where
    winner : Role → Role
    winner first_player_role = second_player_role
    winner _ = first_player_role
