-- ===== src/Jeux/ClientRegistry/Tests.antt =====
-- Registries of clients, and the theorems about hw5/src/client_registry.c at them. A client is its
-- descriptor here, and its player's name has the descriptor as its only byte.
use c_starter_projects.Prelude.{ℕ, ◌≡◌, refl, Option, some, [], ◌∷◌}
use c_starter_projects.Prelude.Int.{ℤ, pos, ◌+ℤ◌, ◌-ℤ◌}
use c_starter_projects.Prelude.Strings.{Text, same_text}
use c_starter_projects.Jeux.Run.{ok}
use c_starter_projects.Jeux.ClientRegistry.{
  ClientRegistry, creg_init, creg_register, creg_unregister, creg_lookup, lookup_loop, holds_fd,
}
use c_starter_projects.Jeux.ClientRegistry.Waiting.{
  starts, registers, IsBounded, CregReach-IsBounded,
}

abbrev fd_of : ℕ → ℤ
fd_of c = pos c

abbrev name_of : ℕ → Option Text
name_of c = some (c ∷ [])

abbrev one_client : ClientRegistry ℕ
one_client = record { nodes = 7 ∷ []; client_count = pos 1; registry_lock = 1; not_empty = 0 }

abbrev left_client : ClientRegistry ℕ
left_client = record { nodes = 7 ∷ []; client_count = pos 0; registry_lock = 1; not_empty = 1 }

first_registered : creg_register 7 creg_init ≡ ok (some 7, one_client)
unfolding creg_register creg_init ◌+ℤ◌
first_registered = refl

then_unregistered : creg_unregister fd_of 7 one_client ≡ ok (pos 0, left_client)
unfolding creg_unregister holds_fd ◌-ℤ◌
then_unregistered = refl

CregReach-IsBounded_example : IsBounded fd_of one_client
CregReach-IsBounded_example =
    CregReach-IsBounded fd_of (registers 7 (some 7) starts first_registered)

still_found : creg_lookup name_of (7 ∷ []) left_client ≡ ok (some 7, left_client)
unfolding creg_lookup lookup_loop same_text
still_found = refl
