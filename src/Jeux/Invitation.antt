-- ===== src/Jeux/Invitation.antt =====
-- hw5/src/invitation.c, with the states of hw5/include/invitation.h. An invitation points to its
-- game in a store of games. CLIENT objects belong to the client module (client.h), whose code is a
-- binary archive: the type of clients and `client_get_fd` are parameters, and `inv_create` returns
-- the clients on which it calls `client_ref`.
pub mod States
pub mod Closing
mod Tests
use c_starter_projects.Prelude.{
  ℕ, Bool, true, false, ◌||◌, Option, none, some, List, [], ◌∷◌, ◌==◌, if◌then◌else◌,
}
use c_starter_projects.Prelude.Int.{ℤ, pos, ◌+ℤ◌, ◌-ℤ◌, eq_ℤ, minus_one}
use c_starter_projects.Jeux.Run.{Run, ok, fault, ◌>>=◌, sem_wait, sem_post}
use c_starter_projects.Jeux.Store.{Store, null, write}
use c_starter_projects.Jeux.Game.{
  Role, null_role, Game, game_create, game_is_over, game_resign, same_role,
}

pub data InvitationState : Type 0 where
  inv_open_state inv_accepted_state inv_closed_state : InvitationState

pub record Invitation (Client : Type 0) : Type 0 where
  pub inv_game : ℕ
  pub inv_source : Client
  pub inv_target : Client
  pub inv_source_game_role : Role
  pub inv_target_game_role : Role
  pub inv_state : InvitationState
  pub ref_count : ℤ
  pub inv_lock : ℕ

abbrev pub Games : Type 0
Games = Store Game

-- A call on the game at an address, which faults at NULL and at a freed game.
unfoldable pub deref : Games → ℕ → Run Game
deref games p = if p == null then fault else elim (games p) [ none ↦ fault | some g ↦ ok g ]

abbrev pub is_open : InvitationState → Bool
is_open inv_open_state = true
is_open _ = false

abbrev pub is_accepted : InvitationState → Bool
is_accepted inv_accepted_state = true
is_accepted _ = false

-- The game of a closing invitation is resigned by `role`, unless it is over.
unfoldable pub end_game : Games → ℕ → Role → Run Games
unfolding deref
end_game games p role = do
  g ← deref games p
  (over, checked) ← game_is_over g
  let left = game_resign checked role
  if eq_ℤ over (pos 0)
      then left >>= (λ r. ok (write games p r.1))
      else ok (write games p (some checked))

module _ {Client : Type 0} where
  -- The new invitation, and the clients that it refers to.
  unfoldable pub inv_create :
      (Client → ℤ)
      → Option Client
      → Option Client
      → Role
      → Role
      → Option (Invitation Client × List Client)
  inv_create client_get_fd none target source_role target_role = none
  inv_create client_get_fd (some source) none source_role target_role = none
  inv_create client_get_fd (some source) (some target) source_role target_role =
      if eq_ℤ (client_get_fd source) (client_get_fd target)
      then none
      else some (
        record {
          inv_game = null;
          inv_source = source;
          inv_target = target;
          inv_source_game_role = source_role;
          inv_target_game_role = target_role;
          inv_state = inv_open_state;
          ref_count = pos 1;
          inv_lock = 1;
        },
        source ∷ target ∷ [],
      )

  unfoldable pub inv_ref : Invitation Client → Run (Invitation Client)
  inv_ref inv = do
    lock ← sem_wait inv.inv_lock
    ok (record inv { ref_count = inv.ref_count +ℤ pos 1; inv_lock = sem_post lock })

  -- `none`: the count reached 0 and the invitation was freed.
  unfoldable pub inv_unref : Invitation Client → Run (Option (Invitation Client))
  inv_unref inv = do
    lock ← sem_wait inv.inv_lock
    let count = inv.ref_count -ℤ pos 1
    ok (
        if eq_ℤ count (pos 0)
        then none
        else some (record inv { ref_count = count; inv_lock = sem_post lock }))

  unfoldable pub inv_get_source : Invitation Client → Run (Client × Invitation Client)
  inv_get_source inv = do
    lock ← sem_wait inv.inv_lock
    ok (inv.inv_source, record inv { inv_lock = sem_post lock })

  unfoldable pub inv_get_target : Invitation Client → Run (Client × Invitation Client)
  inv_get_target inv = do
    lock ← sem_wait inv.inv_lock
    ok (inv.inv_target, record inv { inv_lock = sem_post lock })

  unfoldable pub inv_get_source_role : Invitation Client → Run (Role × Invitation Client)
  inv_get_source_role inv = do
    lock ← sem_wait inv.inv_lock
    ok (inv.inv_source_game_role, record inv { inv_lock = sem_post lock })

  unfoldable pub inv_get_target_role : Invitation Client → Run (Role × Invitation Client)
  inv_get_target_role inv = do
    lock ← sem_wait inv.inv_lock
    ok (inv.inv_target_game_role, record inv { inv_lock = sem_post lock })

  unfoldable pub inv_get_game : Invitation Client → Run (ℕ × Invitation Client)
  inv_get_game inv = do
    lock ← sem_wait inv.inv_lock
    ok (inv.inv_game, record inv { inv_lock = sem_post lock })

  -- `fresh` is the address that `Malloc` gives the new game.
  unfoldable pub inv_accept :
      (fresh : ℕ) → Invitation Client → Games → Run (ℤ × Invitation Client × Games)
  inv_accept fresh inv games = do
    lock ← sem_wait inv.inv_lock
    let posted = record inv { inv_lock = sem_post lock }
    ok (
        if is_open inv.inv_state
        then (
          pos 0,
          record posted { inv_state = inv_accepted_state; inv_game = fresh },
          write games fresh (some game_create),
        )
        else (minus_one, posted, games))

  -- The last branch returns with the lock still held.
  unfoldable pub inv_close : Invitation Client → Role → Games → Run (ℤ × Invitation Client × Games)
  inv_close inv role games = do
    lock ← sem_wait inv.inv_lock
    let closed = record inv { inv_state = inv_closed_state; inv_lock = sem_post lock }
    let ended = end_game games inv.inv_game role
    if is_open inv.inv_state || is_accepted inv.inv_state
        then (if same_role role null_role
            then ok (pos 0, closed, games)
            else (ended >>= λ games'. ok (pos 0, closed, games')))
        else ok (minus_one, record inv { inv_lock = lock }, games)
