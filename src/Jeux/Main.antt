-- ===== src/Jeux/Main.antt =====
-- The server of hw5/src/main.c: its start, the loop that accepts connections, the handler of SIGHUP
-- and `terminate`. What the service threads make of the registries up to the signal is an argument.
-- `Open_listenfd` and `Accept` of the vendored hw5/src/csapp.c are parameters.
pub mod Terminate
mod Tests
use c_starter_projects.Prelude.{ℕ, Bool, true, false, Option, none, some, List, [], ◌∷◌, ◌++◌}
use c_starter_projects.Prelude.Int.{ℤ, pos, minus_one}
use c_starter_projects.Prelude.Strings.{Text}
use c_starter_projects.Jeux.Run.{Run, ok, fault, ◌>>=◌}
use c_starter_projects.Jeux.ClientRegistry.{
  ClientRegistry, creg_shutdown_all, creg_wait_for_empty, creg_fini,
}
use c_starter_projects.Jeux.PlayerRegistry.{PlayerRegistry, preg_fini}

-- The process has exited: its status, the descriptors that have been shut down for reading, and the
-- registries that have not been freed.
pub record Exit (Client : Type 0) : Type 0 where
  pub status : ℤ
  pub shut_down : List ℤ
  pub clients_left : Option (ClientRegistry Client)
  pub players_left : Option PlayerRegistry

module _ {Client : Type 0} (client_get_fd : Client → ℤ) where
  unfoldable pub terminate :
      (status : ℤ) → ClientRegistry Client → PlayerRegistry → Run (Exit Client)
  unfolding creg_shutdown_all creg_wait_for_empty creg_fini preg_fini
  terminate status client_registry player_registry = do
    shut ← creg_shutdown_all client_get_fd client_registry
    empty ← creg_wait_for_empty shut.1
    ok (record {
      status = status;
      shut_down = shut.0;
      clients_left = creg_fini empty;
      players_left = preg_fini player_registry;
    })

  unfoldable pub sighub_handler : ClientRegistry Client → PlayerRegistry → Run (Exit Client)
  unfolding terminate
  sighub_handler client_registry player_registry = terminate (pos 0) client_registry player_registry

-- A connection by its descriptor, or SIGHUP with the registries as they are then.
pub data Arrival (Client : Type 0) : Type 0 where
  accepts : (connfd : ℤ) → Arrival Client
  gets_sighup : ClientRegistry Client → PlayerRegistry → Arrival Client

-- The descriptors that service threads have been started for, and how the process has exited.
pub data Listening (Client : Type 0) : Type 0 where
  listens : (threads : List ℤ) → Listening Client
  ended : (threads : List ℤ) → Exit Client → Listening Client
  exits : (status : ℤ) → Listening Client

module _ {Client : Type 0} (client_get_fd : Client → ℤ) where
  unfoldable pub accept_loop : List (Arrival Client) → (threads : List ℤ) → Run (Listening Client)
  unfolding sighub_handler
  accept_loop [] threads = ok (listens threads)
  accept_loop (accepts connfd ∷ more) threads = accept_loop more (threads ++ connfd ∷ [])
  accept_loop (gets_sighup cr pr ∷ more) threads =
      sighub_handler client_get_fd cr pr >>= λ e. ok (ended threads e)

  -- `main`; `argv[2]` is NULL when there is one argument, and behind the end when there is none. The
  -- message on too few arguments does not end the program. `none` of `open_listenfd` is an exit.
  unfoldable pub main :
      (sigaction : Bool) (open_listenfd : Option Text → Option ℤ) (argv : List Text)
      → List (Arrival Client)
      → Run (Listening Client)
  unfolding accept_loop
  main false open_listenfd argv arrivals = ok (exits minus_one)
  main true open_listenfd [] arrivals = fault
  main true open_listenfd (name ∷ []) arrivals = fault
  main true open_listenfd (name ∷ p ∷ []) arrivals = elim (open_listenfd none) [
    | none ↦ ok (exits (pos 0))
    | some listenfd ↦ accept_loop arrivals []
  ]
  main true open_listenfd (name ∷ p ∷ port ∷ more) arrivals = elim (open_listenfd (some port)) [
    | none ↦ ok (exits (pos 0))
    | some listenfd ↦ accept_loop arrivals []
  ]
