-- ===== src/Legion/Session/Loop.antt =====
-- What whole sessions of hw4/src/cli.c keep.
use c_starter_projects.Prelude.{ℕ, refl, Option, none, some, List, [], ◌∷◌}
use c_starter_projects.Prelude.Strings.{Text}
use c_starter_projects.Legion.Daemons.{Legion, sf_init, report}
use c_starter_projects.Legion.Commands.{
  Slot, unset, Arguments, Answers, Next, next_line, exited, legion_check_args, legion_quit,
}
use c_starter_projects.Legion.Commands.Kept.{NextIf, LeftIf, check_args-NextIf}
use c_starter_projects.Legion.Parse.{legion_parse_args, arguments_of}
use c_starter_projects.Legion.Session.{
  Arrival, gets_sigchld, gets_sigalrm, gets_sigint, gets_sigtstp, reads_line, reads_last,
  reads_nothing, Session, at_prompt, returned, ended, ended_with, cli_loop, run_cli, back_in_main,
  legion_main, before_main, sigint_handler, sigtstp_handler, sigchld_handler, sigalrm_handler,
}
use c_starter_projects.Legion.Session.Ledger.{Coherent, Coherent-IsKept, OnlyHeadLeft, quit-LeftIf}

abbrev ParsedIf : Option ((ℕ → Slot) × Next) → Type 0
ParsedIf none = Unit {0}
ParsedIf (some r) = NextIf Coherent OnlyHeadLeft (some r.1)

run_arguments-ParsedIf :
    (a : Arguments) (n : Option Next)
    → NextIf Coherent OnlyHeadLeft n
    → ParsedIf (elim n [ none ↦ none | some n' ↦ some (a.arg, n') ])
run_arguments-ParsedIf a none h = tt
run_arguments-ParsedIf a (some n) h = h

parse_at-ParsedIf :
    (answers : Answers) (o : Option (Option Arguments)) (arg : ℕ → Slot) (l : Legion)
    → Coherent l
    → ParsedIf (elim o [
      | none ↦ none
      | some dropped ↦ elim dropped [
        | none ↦ some (arg, next_line l)
        | some a ↦ elim (legion_check_args answers a l) [ none ↦ none | some n ↦ some (a.arg, n) ]
      ]
    ])
parse_at-ParsedIf answers none arg l h = tt
parse_at-ParsedIf answers (some none) arg l h = h
parse_at-ParsedIf answers (some (some a)) arg l h =
    run_arguments-ParsedIf a (legion_check_args answers a l)
      (check_args-NextIf Coherent OnlyHeadLeft Coherent-IsKept answers a l h)

parse_args-ParsedIf :
    (answers : Answers) (line : Text) (arg : ℕ → Slot) (l : Legion)
    → Coherent l
    → ParsedIf (legion_parse_args answers line arg l)
unfolding legion_parse_args
parse_args-ParsedIf answers line arg l h = parse_at-ParsedIf answers (arguments_of line arg) arg l h

-- While the CLI runs, and when it has returned, the names are distinct, and are what the reports
-- leave; when the process has exited, the reports leave at most daemons with the name of the head.
abbrev pub IsAccounted : Option Session → Type 0
IsAccounted none = Unit {0}
IsAccounted (some (at_prompt arg l)) = Coherent l
IsAccounted (some (returned l)) = Coherent l
IsAccounted (some (ended l)) = OnlyHeadLeft l

ended_with-IsAccounted : (m : Option Legion) → LeftIf OnlyHeadLeft m → IsAccounted (ended_with m)
ended_with-IsAccounted none h = tt
ended_with-IsAccounted (some m) h = h

go_on-IsAccounted :
    (more : List Arrival) (r : Option ((ℕ → Slot) × Next))
    → ((arg : ℕ → Slot) (l : Legion) → Coherent l → IsAccounted (cli_loop more arg l))
    → ParsedIf r
    → IsAccounted (elim r [
      | none ↦ none
      | some (arg', next_line m) ↦ cli_loop more arg' m
      | some (arg', exited m) ↦ some (ended m)
    ])
go_on-IsAccounted more none f h = tt
go_on-IsAccounted more (some (arg, next_line m)) f h = f arg m h
go_on-IsAccounted more (some (arg, exited m)) f h = h

cli_loop-IsAccounted :
    (arrivals : List Arrival) (arg : ℕ → Slot) (l : Legion)
    → Coherent l
    → IsAccounted (cli_loop arrivals arg l)
unfolding cli_loop sigint_handler sigtstp_handler sigchld_handler sigalrm_handler
cli_loop-IsAccounted [] arg l h = h
cli_loop-IsAccounted (gets_sigchld ∷ more) arg l h = cli_loop-IsAccounted more arg _ h
cli_loop-IsAccounted (gets_sigalrm ∷ more) arg l h = cli_loop-IsAccounted more arg _ h
cli_loop-IsAccounted (gets_sigint a ∷ more) arg l h =
    ended_with-IsAccounted (legion_quit a l) (quit-LeftIf a l h)
cli_loop-IsAccounted (gets_sigtstp a ∷ more) arg l h =
    ended_with-IsAccounted (legion_quit a l) (quit-LeftIf a l h)
cli_loop-IsAccounted (reads_line a line ∷ more) arg l h =
    go_on-IsAccounted more (legion_parse_args a line arg l)
      (λ arg' m. cli_loop-IsAccounted more arg' m) (parse_args-ParsedIf a line arg l h)
cli_loop-IsAccounted (reads_last line ∷ more) arg l h = tt
cli_loop-IsAccounted (reads_nothing ∷ more) arg l h = h

back_in_main-IsAccounted : (s : Option Session) → IsAccounted s → IsAccounted (back_in_main s)
back_in_main-IsAccounted none h = tt
back_in_main-IsAccounted (some (at_prompt arg l)) h = h
back_in_main-IsAccounted (some (returned l)) h = h
back_in_main-IsAccounted (some (ended l)) h = h

-- Whatever arrives: in every session whose run is defined, the daemons of the table have distinct
-- names while the CLI runs and when it has returned, and are exactly those that the reports of
-- registrations and of their ends leave, in the same order; and when the process has exited, the
-- reports leave none but a daemon with the name of the head.
pub legion_main-IsAccounted : (arrivals : List Arrival) → IsAccounted (legion_main arrivals)
unfolding legion_main run_cli
legion_main-IsAccounted arrivals =
    back_in_main-IsAccounted (cli_loop arrivals (λ i. unset) (report sf_init before_main))
      (cli_loop-IsAccounted arrivals (λ i. unset) (report sf_init before_main) (tt, refl))
