-- ===== src/Legion/Session.antt =====
-- `run_cli` of hw4/src/cli.c with its signal handlers, and the `main` of hw4/src/main.c: a session,
-- for what it meets while `getline` waits. Signals that arrive in a command are among the answers to
-- the system calls of that command.
pub mod Ledger
pub mod Loop
mod Tests
use c_starter_projects.Prelude.{ℕ, Bool, true, false, Option, none, some, List, [], ◌∷◌}
use c_starter_projects.Prelude.Strings.{Text}
use c_starter_projects.Legion.Daemons.{Legion, StopAnswers, report, sf_init, sf_fini}
use c_starter_projects.Legion.Commands.{Slot, unset, Answers, Next, next_line, exited, legion_quit}
use c_starter_projects.Legion.Parse.{legion_parse_args}

-- A line is without NUL bytes. `reads_last` is a line that ends without a newline, `reads_nothing`
-- the result -1 of `getline`.
pub data Arrival : Type 0 where
  gets_sigchld gets_sigalrm : Arrival
  gets_sigint gets_sigtstp : (quitting : Text → StopAnswers) → Arrival
  reads_line : Answers → Text → Arrival
  reads_last : Text → Arrival
  reads_nothing : Arrival

-- The CLI waits in `getline`, `run_cli` has returned, or the process has exited.
pub data Session : Type 0 where
  at_prompt : (ℕ → Slot) → Legion → Session
  returned : Legion → Session
  ended : Legion → Session

unfoldable pub sigchld_handler : Legion → Legion
sigchld_handler l = record l { sigchld_flag = true }

unfoldable pub sigalrm_handler : Legion → Legion
sigalrm_handler l = record l { sigalrm_flag = true }

unfoldable pub sigint_handler : (Text → StopAnswers) → Legion → Option Legion
sigint_handler a l = legion_quit a l

unfoldable pub sigtstp_handler : (Text → StopAnswers) → Legion → Option Legion
sigtstp_handler a l = legion_quit a l

abbrev pub ended_with : Option Legion → Option Session
ended_with none = none
ended_with (some l) = some (ended l)

-- The loop of `run_cli`; `running` is true at its test, since `legion_quit` does not return. The
-- search for the newline of a line without one runs over the end of the line.
unfoldable pub cli_loop : List Arrival → (ℕ → Slot) → Legion → Option Session
unfolding sigchld_handler sigalrm_handler sigint_handler sigtstp_handler
cli_loop [] arg l = some (at_prompt arg l)
cli_loop (gets_sigchld ∷ more) arg l = cli_loop more arg (sigchld_handler l)
cli_loop (gets_sigalrm ∷ more) arg l = cli_loop more arg (sigalrm_handler l)
cli_loop (gets_sigint a ∷ more) arg l = ended_with (sigint_handler a l)
cli_loop (gets_sigtstp a ∷ more) arg l = ended_with (sigtstp_handler a l)
cli_loop (reads_line a line ∷ more) arg l = elim (legion_parse_args a line arg l) [
  | none ↦ none
  | some (arg', next_line m) ↦ cli_loop more arg' m
  | some (arg', exited m) ↦ some (ended m)
]
cli_loop (reads_last line ∷ more) arg l = none
cli_loop (reads_nothing ∷ more) arg l = some (returned l)

-- `run_cli` with the elements of `argArr` all NULL; whether `in` and `out` are there.
unfoldable pub run_cli : (has_in has_out : Bool) → List Arrival → Legion → Option Session
unfolding cli_loop
run_cli false has_out arrivals l = some (returned l)
run_cli true false arrivals l = some (returned l)
run_cli true true arrivals l = cli_loop arrivals (λ i. unset) (record l { daemons = [] })

abbrev pub back_in_main : Option Session → Option Session
back_in_main none = none
back_in_main (some (at_prompt arg l)) = some (at_prompt arg l)
back_in_main (some (returned l)) = some (returned (report sf_fini l))
back_in_main (some (ended l)) = some (ended l)

abbrev pub before_main : Legion
before_main = record { daemons = []; sigchld_flag = false; sigalrm_flag = false; events = [] }

unfoldable pub legion_main : List Arrival → Option Session
unfolding run_cli
legion_main arrivals = back_in_main (run_cli true true arrivals (report sf_init before_main))
