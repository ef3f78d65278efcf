-- ===== src/Jeux/Invitation/Closing.antt =====
-- `inv_close` of hw5/src/invitation.c: what it does to the game, and the branches that go wrong.
use c_starter_projects.Prelude.{ℕ, suc, ◌≡◌, refl, ◌≢◌, false, some, arith}
use c_starter_projects.Prelude.Int.{pos, minus_one, ◌-ℤ◌}
use c_starter_projects.Jeux.Run.{ok, blocked, fault}
use c_starter_projects.Jeux.Game.{
  Role, null_role, first_player_role, second_player_role, Game, game_is_over, game_resign,
}
use c_starter_projects.Jeux.Store.{null, write}
use c_starter_projects.Jeux.Invitation.{
  inv_open_state, inv_accepted_state, inv_closed_state, Invitation, Games, inv_ref, inv_unref,
  inv_get_source, inv_get_target, inv_get_source_role, inv_get_target_role, inv_get_game,
  inv_accept, inv_close, end_game, deref,
}

abbrev pub opponent : Role → Role
opponent first_player_role = second_player_role
opponent _ = first_player_role

resigned : Game → Role → ℕ → Game
resigned g role n = record g { game_winner = opponent role; ref_count = pos (suc n) }

resign-resigned :
    (g : Game) (role : Role) (n : ℕ)
    → g.terminated ≡ false
    → g.game_lock ≡ 1
    → g.ref_count ≡ pos (suc (suc n))
    → game_resign g role ≡ ok (pos 0, some (resigned g role n))
unfolding game_resign ◌-ℤ◌ resigned
resign-resigned g null_role n t l c = ground arith
resign-resigned g first_player_role n t l c = ground arith
resign-resigned g second_player_role n t l c = ground arith

deref_live : (games : Games) (p : ℕ) (g : Game) → p ≢ null → games p ≡ some g → deref games p ≡ ok g
unfolding deref
deref_live games p g ne h = ground arith

end_game-resigned :
    (games : Games) (p : ℕ) (role : Role) (g : Game) (n : ℕ)
    → deref games p ≡ ok g
    → game_is_over g ≡ ok (pos 0, g)
    → game_resign g role ≡ ok (pos 0, some (resigned g role n))
    → end_game games p role ≡ ok (write games p (some (resigned g role n)))
end_game-resigned games p role g n d o r = unfold end_game in rw (d, o, r)

module _ {Client : Type 0} where
  -- Every call of the module on the invitation waits for a lock that is never released.
  pub record IsStuck (inv : Invitation Client) : Type 0 where
    pub ref_blocks : inv_ref inv ≡ blocked
    pub unref_blocks : inv_unref inv ≡ blocked
    pub get_source_blocks : inv_get_source inv ≡ blocked
    pub get_target_blocks : inv_get_target inv ≡ blocked
    pub get_source_role_blocks : inv_get_source_role inv ≡ blocked
    pub get_target_role_blocks : inv_get_target_role inv ≡ blocked
    pub get_game_blocks : inv_get_game inv ≡ blocked
    pub accept_blocks : (fresh : ℕ) (games : Games) → inv_accept fresh inv games ≡ blocked
    pub close_blocks : (role : Role) (games : Games) → inv_close inv role games ≡ blocked

  locked-IsStuck : (inv : Invitation Client) → inv.inv_lock ≡ 0 → IsStuck inv
  unfolding inv_ref inv_unref inv_get_source inv_get_target inv_get_source_role inv_get_target_role
      inv_get_game inv_accept inv_close
  locked-IsStuck inv e = record {
    ref_blocks = ground arith;
    unref_blocks = ground arith;
    get_source_blocks = ground arith;
    get_target_blocks = ground arith;
    get_source_role_blocks = ground arith;
    get_target_role_blocks = ground arith;
    get_game_blocks = ground arith;
    accept_blocks = λ fresh games. ground arith;
    close_blocks = λ role games. ground arith;
  }

  -- Closing a closed invitation returns -1 without releasing the lock that it took: every later call
  -- on the invitation blocks.
  pub close_twice_locks :
      (inv : Invitation Client) (role : Role) (games : Games)
      → inv.inv_state ≡ inv_closed_state
      → inv.inv_lock ≡ 1
      → (inv' : Invitation Client) × (inv_close inv role games ≡ ok (minus_one, inv', games))
        × IsStuck inv'
  unfolding inv_close
  close_twice_locks inv role games e l =
      (record inv { inv_lock = 0 }, ground arith, locked-IsStuck (record inv { inv_lock = 0 }) refl)

  -- Closing an invitation that was never accepted, with a role to resign, follows its null pointer
  -- to a game.
  pub close_open_faults :
      (inv : Invitation Client) (role : Role) (games : Games)
      → inv.inv_state ≡ inv_open_state
      → inv.inv_game ≡ null
      → inv.inv_lock ≡ 1
      → role ≢ null_role
      → inv_close inv role games ≡ fault
  unfolding inv_close end_game
  close_open_faults inv role games e p l r = ground arith

  -- Closing an accepted invitation whose game, with more than one reference, is still in progress
  -- closes it, makes the opponent of the resigning role the winner, and drops one reference to the
  -- game, leaving the board, the lock and every other game as they were.
  pub close_resigns :
      (inv : Invitation Client) (role : Role) (games : Games) (g : Game) (n : ℕ)
      → inv.inv_state ≡ inv_accepted_state
      → inv.inv_lock ≡ 1
      → inv.inv_game ≢ null
      → games inv.inv_game ≡ some g
      → game_is_over g ≡ ok (pos 0, g)
      → g.terminated ≡ false
      → g.game_lock ≡ 1
      → g.ref_count ≡ pos (suc (suc n))
      → role ≢ null_role
      → (games' : Games) × (inv_close inv role games
          ≡ ok (pos 0, record inv { inv_state = inv_closed_state }, games'))
        × (games' inv.inv_game
            ≡ some (record g { game_winner = opponent role; ref_count = pos (suc n) }))
        × ((q : ℕ) → q ≢ inv.inv_game → games' q ≡ games q)
  unfolding inv_close resigned
  close_resigns inv role games g n e l p h over t gl c r =
      let ended =
        end_game-resigned games inv.inv_game role g n (deref_live games inv.inv_game g p h) over
          (resign-resigned g role n t gl c) in
      (
        write games inv.inv_game (some (resigned g role n)),
        ground (arith, ended),
        ground arith,
        λ q ne. ground arith,
      )
