-- ===== src/Legion/Commands/Dispatch.antt =====
-- `legion_check_args` of hw4/src/cli.c keeps the names of the daemons distinct.
use c_starter_projects.Prelude.{Option, none, some}
use c_starter_projects.Legion.Daemons.{Legion}
use c_starter_projects.Legion.Daemons.Names.{names}
use c_starter_projects.Legion.Daemons.Unique.{
  Distinct, Fine, Fine-IsSteady, register-Fine, unregister-Fine,
}
use c_starter_projects.Legion.Commands.{Arguments, Answers, Next, legion_check_args, legion_quit}
use c_starter_projects.Legion.Commands.Kept.{IsKept, NextIf, LeftIf, check_args-NextIf}

abbrev Anything : Legion → Type 0
Anything l = Unit {0}

Anything-left : (m : Option Legion) → LeftIf Anything m
Anything-left none = tt
Anything-left (some m) = tt

Fine-IsKept : IsKept Fine Anything
Fine-IsKept = record {
  steady = Fine-IsSteady;
  registered = register-Fine;
  unregistered = unregister-Fine;
  quitted = λ a l h. Anything-left (legion_quit a l);
}

-- A CLI that waits for the next line has daemons of distinct names.
abbrev pub DistinctNext : Option Next → Type 0
DistinctNext = NextIf Fine Anything

-- If the daemons have distinct names before a command line, and the CLI waits for the next line
-- after it, they have distinct names still, whatever the command and the system's answers.
pub check_args-DistinctNext :
    (a : Answers) (args : Arguments) (l : Legion)
    → Distinct (names l.daemons)
    → DistinctNext (legion_check_args a args l)
check_args-DistinctNext a args l h = check_args-NextIf Fine Anything Fine-IsKept a args l h
