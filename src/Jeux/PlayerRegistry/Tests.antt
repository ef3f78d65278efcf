-- ===== src/Jeux/PlayerRegistry/Tests.antt =====
-- Registries, and the theorems about hw5/src/player_registry.c at them.
use c_starter_projects.Prelude.{◌≡◌, refl, ◌≢◌, ◌⊎◌, none, [], ◌∷◌, arith}
use c_starter_projects.Prelude.Strings.{Text, same_text}
use c_starter_projects.Jeux.Run.{ok}
use c_starter_projects.Jeux.Store.{null}
use c_starter_projects.Jeux.Player.{player_create}
use c_starter_projects.Jeux.PlayerRegistry.{PlayerRegistry, Players, preg_init, preg_register}
use c_starter_projects.Jeux.PlayerRegistry.Lookup.{first_named}
use c_starter_projects.Jeux.PlayerRegistry.Register.{
  new_player, IsWellFormed, IsRequest, lookup, created, freed, appended, register_cases,
}

abbrev alice : Text
alice = b'a' ∷ []

abbrev bob : Text
bob = b'b' ∷ []

abbrev nobody : Players
nobody = λ _. none

abbrev first_registry : PlayerRegistry
first_registry = record { nodes = 8 ∷ []; player_count = 1; registry_lock = 1 }

abbrev first_players : Players
first_players = created nobody 8 alice

first_registry-IsWellFormed : IsWellFormed first_registry first_players
first_registry-IsWellFormed = record {
  unlocked = refl;
  counted = refl;
  live = ((new_player alice, refl), tt);
}

request : IsRequest first_registry 9 bob
request = record { fits = omega arith; usable = omega arith; unused = (omega arith, tt) }

second-IsRequest : IsRequest (appended first_registry 9) 10 bob
second-IsRequest = record {
  fits = omega arith;
  usable = omega arith;
  unused = (omega arith, (omega arith, tt));
}

first_call : IsRequest preg_init 8 alice
unfolding preg_init
first_call = record { fits = omega arith; usable = omega arith; unused = tt }

first_made : preg_register 8 preg_init nobody alice ≡ ok (8, first_registry, first_players)
unfolding preg_register preg_init player_create
first_made = refl

register_cases_example :
    ((lookup first_registry first_players bob ≢ null)
      × (preg_register 9 first_registry first_players bob
          ≡ ok
              (lookup first_registry first_players bob, first_registry, freed first_players 9 bob)))
    ⊎ ((lookup first_registry first_players bob ≡ null)
        × (preg_register 9 first_registry first_players bob
            ≡ ok (9, appended first_registry 9, created first_players 9 bob)))
register_cases_example =
    register_cases first_registry first_players 9 bob first_registry-IsWellFormed request

bob_missing : first_named first_players bob (8 ∷ []) ≡ null
unfolding first_named same_text
bob_missing = refl
