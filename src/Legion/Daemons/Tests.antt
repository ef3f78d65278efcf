-- ===== src/Legion/Daemons/Tests.antt =====
-- Daemons, and the theorems about the table of hw4/src/cli.c at them.
use c_starter_projects.Prelude.{◌↔◌, ◌≡◌, refl, true, false, some, [], ◌∷◌}
use c_starter_projects.Prelude.Int.{pos}
use c_starter_projects.Prelude.Strings.{Text, same_text}
use c_starter_projects.Legion.Daemons.{
  Daemon, status_inactive, status_stopping, Legion, legion_success, legion_daemon_name_exists,
  legion_register, StartAnswers, set_status, sf_register,
}
use c_starter_projects.Legion.Daemons.Stuck.{IsBetween, IsStuck, between-IsStuck}

abbrev lazy : Text
lazy = b'l' ∷ b'z' ∷ []

abbrev lazy_daemon : Daemon
lazy_daemon = record {
  daemon_name = lazy;
  daemon_exe = b'x' ∷ [];
  daemon_args = [];
  daemon_status = status_inactive;
  daemon_process_id = pos 0;
}

abbrev nothing : Legion
nothing = record { daemons = []; sigchld_flag = false; sigalrm_flag = false; events = [] }

abbrev one_daemon : Legion
one_daemon = record nothing { daemons = lazy_daemon ∷ []; events = sf_register lazy [] ∷ [] }

abbrev stopping : Legion
stopping = record nothing { daemons = set_status status_stopping lazy_daemon ∷ [] }

-- The child ends before it writes.
abbrev silent_child : StartAnswers
silent_child = record { piped = true; child_pid = pos 77; bytes_read = pos 0; alarmed = false }

found_inactive : legion_daemon_name_exists lazy one_daemon ≡ some lazy_daemon
unfolding legion_daemon_name_exists same_text
found_inactive = refl

found_stopping :
    legion_daemon_name_exists lazy stopping ≡ some (set_status status_stopping lazy_daemon)
unfolding legion_daemon_name_exists same_text
found_stopping = refl

between-IsStuck_example : IsBetween status_stopping ↔ IsStuck lazy stopping
between-IsStuck_example =
    between-IsStuck lazy stopping (set_status status_stopping lazy_daemon) found_stopping

registered : legion_register 3 [] lazy (b'x' ∷ []) [] nothing ≡ some (legion_success, one_daemon)
unfolding legion_register
registered = refl
