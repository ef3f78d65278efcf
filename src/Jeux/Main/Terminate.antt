-- ===== src/Jeux/Main/Terminate.antt =====
-- hw5/src/main.c ends: no count of its clients lets `terminate` wait for ever.
use c_starter_projects.Prelude.{◌≡◌, true, List, if◌then◌else◌}
use c_starter_projects.Prelude.Int.{ℤ, pos, ◌-ℤ◌, eq_ℤ}
use c_starter_projects.Jeux.Run.{sem_post}
use c_starter_projects.Jeux.ClientRegistry.{ClientRegistry, holds_fd}
use c_starter_projects.Jeux.PlayerRegistry.{PlayerRegistry}

module _ {Client : Type 0} (client_get_fd : Client → ℤ) where
  Held : List Client → Client → Type 0
  Held nodes c = holds_fd client_get_fd (client_get_fd c) nodes ≡ true

  -- What a client that is found leaves.
  dropped : ClientRegistry Client → ClientRegistry Client
  dropped cr = record {
    nodes = cr.nodes;
    client_count = cr.client_count -ℤ pos 1;
    registry_lock = 1;
    not_empty =
        if eq_ℤ (cr.client_count -ℤ pos 1) (pos 0) then sem_post cr.not_empty else cr.not_empty;
  }
