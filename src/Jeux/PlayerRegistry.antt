-- ===== src/Jeux/PlayerRegistry.antt =====
-- hw5/src/player_registry.c: the list of the registered players. Players stand in a store of their
-- own, and the registry holds their addresses in the order of its nodes.
pub mod Lookup
pub mod Register
mod Tests
use c_starter_projects.Prelude.{
  ℕ, suc, Bool, Option, none, some, List, [], ◌∷◌, ◌++◌, ◌==◌, if◌then◌else◌,
}
use c_starter_projects.Prelude.Strings.{Text, same_text}
use c_starter_projects.Jeux.Run.{Run, ok, fault, ◌>>=◌, sem_wait, sem_post}
use c_starter_projects.Jeux.Store.{Store, null, write}
use c_starter_projects.Jeux.Player.{Player, player_create, player_get_name}

pub record PlayerRegistry : Type 0 where
  pub nodes : List ℕ
  pub player_count : ℕ
  pub registry_lock : ℕ

abbrev pub Players : Type 0
Players = Store Player

unfoldable pub preg_init : PlayerRegistry
preg_init = record { nodes = []; player_count = 0; registry_lock = 1 }

-- `preg_fini` frees the nodes and the registry, but an empty registry is left as it is.
unfoldable pub preg_fini : PlayerRegistry → Option PlayerRegistry
preg_fini preg = elim preg.nodes [ [] ↦ some preg | p ∷ rest ↦ none ]

-- `strcmp(player_get_name(p), name) == 0`, which reads through the pointer.
unfoldable pub named : Players → Text → ℕ → Run Bool
unfolding player_get_name
named players name p = elim (player_get_name (players p)) [
  | none ↦ fault
  | some own ↦ ok (same_text own name)
]

-- The loop of `preg_player_exists` stops at the last node, without a look at its player.
unfoldable pub exists_loop : Players → Text → List ℕ → Run ℕ
exists_loop players name [] = ok null
exists_loop players name (p ∷ []) = ok null
exists_loop players name (p ∷ q ∷ rest) = do
  found ← named players name p
  let further = exists_loop players name (q ∷ rest)
  if found then ok p else further

-- The test of the first node, then the loop, which begins at the first node again.
unfoldable pub exists_head : Players → Text → List ℕ → Run ℕ
unfolding exists_loop
exists_head players name [] = ok null
exists_head players name (p ∷ rest) = do
  found ← named players name p
  if found then ok p else exists_loop players name (p ∷ rest)

unfoldable pub preg_player_exists : PlayerRegistry → Players → Text → Run ℕ
unfolding exists_head
preg_player_exists preg players name = exists_head players name preg.nodes

-- `fresh` is the address that `Calloc` gives the new player. The result is the player's address,
-- with the registry and the players that are left.
unfoldable pub preg_register :
    (fresh : ℕ) → PlayerRegistry → Players → Text → Run (ℕ × PlayerRegistry × Players)
unfolding preg_player_exists
preg_register fresh preg players name = do
  created ← player_create name
  let allocated = write players fresh (some created)
  locked ← sem_wait preg.registry_lock
  existing ← preg_player_exists preg allocated name
  let posted = record preg { registry_lock = sem_post locked }
  let freed = write allocated fresh none
  let again = preg_player_exists posted freed name
  if existing == null
      then ok (
        fresh,
        record posted { nodes = preg.nodes ++ fresh ∷ []; player_count = suc preg.player_count },
        allocated,
      )
      else again >>= (λ found. ok (found, posted, freed))
