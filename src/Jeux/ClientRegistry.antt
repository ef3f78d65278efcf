-- ===== src/Jeux/ClientRegistry.antt =====
-- hw5/src/client_registry.c: the registry of the connected clients. CLIENT objects belong to the
-- client module (client.h), whose code is a binary archive: their type and the functions that are
-- called on them are parameters. Players stand for their names.
pub mod Waiting
pub mod Counted
pub mod Lookup
mod Tests
use c_starter_projects.Prelude.{
  ℕ, suc, ◌<◌, Bool, true, false, ◌||◌, Option, none, some, List, [], ◌∷◌, ◌++◌, length, ltb, map,
  take, if◌then◌else◌,
}
use c_starter_projects.Prelude.Int.{ℤ, pos, ◌+ℤ◌, ◌-ℤ◌, ltb_ℤ, eq_ℤ, minus_one, pos_part}
use c_starter_projects.Prelude.Strings.{Text, same_text}
use c_starter_projects.Jeux.Run.{Run, ok, blocked, fault, ◌>>=◌, sem_wait, sem_post}

pub record ClientRegistry (Client : Type 0) : Type 0 where
  pub nodes : List Client
  pub client_count : ℤ
  pub registry_lock : ℕ
  pub not_empty : ℕ

abbrev pub max_clients : ℤ
max_clients = pos 64

module _ {Client : Type 0} where
  unfoldable pub creg_init : ClientRegistry Client
  creg_init = record { nodes = []; client_count = pos 0; registry_lock = 1; not_empty = 1 }

  abbrev pub is_empty : List Client → Bool
  is_empty [] = true
  is_empty (c ∷ cs) = false

  -- `client` is the client that `client_create` has made. The first node takes `notEmpty`.
  unfoldable pub creg_register :
      Client → ClientRegistry Client → Run (Option Client × ClientRegistry Client)
  unfolding ◌+ℤ◌
  creg_register client cr = do
    locked ← sem_wait cr.registry_lock
    let posted = record cr { registry_lock = sem_post locked }
    let added = record posted {
      nodes = cr.nodes ++ client ∷ [];
      client_count = cr.client_count +ℤ pos 1;
    }
    let taken = sem_wait cr.not_empty
    if ltb_ℤ cr.client_count max_clients
        then if is_empty cr.nodes
          then taken >>= (λ left. ok (some client, record added { not_empty = left }))
          else ok (some client, added)
        else ok (none, posted)

  module _ (client_get_fd : Client → ℤ) where
    unfoldable pub holds_fd : ℤ → List Client → Bool
    holds_fd fd [] = false
    holds_fd fd (c ∷ rest) = eq_ℤ (client_get_fd c) fd || holds_fd fd rest

    -- No node is taken out of the list. `client_unref` is called on the client when 0 is returned.
    unfoldable pub creg_unregister :
        Client → ClientRegistry Client → Run (ℤ × ClientRegistry Client)
    unfolding ◌-ℤ◌ holds_fd
    creg_unregister client cr = do
      locked ← sem_wait cr.registry_lock
      let found = holds_fd (client_get_fd client) cr.nodes
      let count = if found then cr.client_count -ℤ pos 1 else cr.client_count
      let left = if eq_ℤ count (pos 0) then sem_post cr.not_empty else cr.not_empty
      ok (
        if found then pos 0 else minus_one,
        record cr { client_count = count; registry_lock = sem_post locked; not_empty = left },
      )

    -- The second loop of `creg_shutdown_all`, which drops the results.
    unfoldable pub unregister_each :
        List Client → ClientRegistry Client → Run (ClientRegistry Client)
    unfolding creg_unregister
    unregister_each [] cr = ok cr
    unregister_each (c ∷ rest) cr = creg_unregister c cr >>= (λ r. unregister_each rest r.1)

    -- The descriptors that are shut down for reading, and the registry that is left.
    unfoldable pub creg_shutdown_all : ClientRegistry Client → Run (List ℤ × ClientRegistry Client)
    unfolding unregister_each
    creg_shutdown_all cr = do
      locked ← sem_wait cr.registry_lock
      let posted = record cr { registry_lock = sem_post locked }
      left ← unregister_each cr.nodes posted
      ok (map client_get_fd cr.nodes, left)

  -- The name of a client's player; `none` is a client that has not logged in, whose name is NULL.
  module _ (player_name : Client → Option Text) where
    unfoldable pub lookup_loop : Text → List Client → Run (Option Client)
    lookup_loop user [] = ok none
    lookup_loop user (c ∷ rest) =
        let further = lookup_loop user rest in
        elim (player_name c) [
          | none ↦ fault
          | some name ↦ if same_text name user then ok (some c) else further
        ]

    -- The test of the first node stands in front of a loop that begins at the first node, and finds
    -- nothing that the loop does not find. An empty registry is left locked.
    unfoldable pub creg_lookup :
        Text → ClientRegistry Client → Run (Option Client × ClientRegistry Client)
    unfolding lookup_loop
    creg_lookup user cr = do
      locked ← sem_wait cr.registry_lock
      found ← lookup_loop user cr.nodes
      let kept = if is_empty cr.nodes then locked else sem_post locked
      ok (found, record cr { registry_lock = kept })

  unfoldable pub creg_wait_for_empty : ClientRegistry Client → Run (ClientRegistry Client)
  creg_wait_for_empty cr = do
    left ← sem_wait cr.not_empty
    ok (record cr { not_empty = sem_post left })

  -- The nodes are freed, and then the registry, unless it is empty.
  unfoldable pub creg_fini : ClientRegistry Client → Option (ClientRegistry Client)
  creg_fini cr = if is_empty cr.nodes then some cr else none

  -- The array ends at the index `clientCount`, but one player is written for every node.
  -- The results are the players in front of the final NULL, which no loop writes for an empty
  -- registry (`none`), those on which `player_unref` is called, and the registry.
  unfoldable pub creg_all_players :
      {Player : Type 0}
      → (Client → Player)
      → ClientRegistry Client
      → Run (Option (List Player) × List Player × ClientRegistry Client)
  creg_all_players player_of cr = do
    locked ← sem_wait cr.registry_lock
    let posted = record cr { registry_lock = sem_post locked }
    let players = map player_of cr.nodes
    let count = pos_part cr.client_count
    let overrun = ltb (suc count) (length players) || ltb_ℤ cr.client_count (pos 0)
    if is_empty cr.nodes
        then ok (none, [], posted)
        else if overrun
        then fault
        else ok (some (take count players), players, posted)
