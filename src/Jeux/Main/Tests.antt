-- ===== src/Jeux/Main/Tests.antt =====
-- Runs of the server of hw5/src/main.c.
use c_starter_projects.Prelude.{◌≡◌, refl, true, some, List, [], ◌∷◌}
use c_starter_projects.Prelude.Int.{ℤ, pos}
use c_starter_projects.Jeux.Run.{ok}
use c_starter_projects.Jeux.ClientRegistry.{
  ClientRegistry, creg_init, creg_shutdown_all, unregister_each, creg_wait_for_empty, creg_fini,
}
use c_starter_projects.Jeux.PlayerRegistry.{preg_init, preg_fini}
use c_starter_projects.Jeux.Main.{
  terminate, sighub_handler, Listening, ended, accepts, gets_sighup, accept_loop, main,
}

-- A client stands for its descriptor.
abbrev own_fd : ℤ → ℤ
own_fd fd = fd

-- Two clients have been registered, of which the first has gone.
abbrev with_two : ClientRegistry ℤ
with_two = record {
  nodes = pos 4 ∷ pos 5 ∷ [];
  client_count = pos 1;
  registry_lock = 1;
  not_empty = 0;
}

abbrev threads_of : Listening ℤ → List ℤ
threads_of (ended threads e) = threads
threads_of _ = []

-- A connection, and SIGHUP.
abbrev after_one : Listening ℤ
after_one = ended (pos 4 ∷ []) (record {
  status = pos 0;
  shut_down = [];
  clients_left = some creg_init;
  players_left = some preg_init;
})

one_connection :
    main own_fd true
      (λ port. some (pos 3))
      ([] ∷ [] ∷ [] ∷ [])
      (accepts (pos 4) ∷ gets_sighup creg_init preg_init ∷ [])
    ≡ ok after_one
unfolding main accept_loop sighub_handler terminate creg_shutdown_all unregister_each
    creg_wait_for_empty creg_fini creg_init preg_init preg_fini
one_connection = refl
