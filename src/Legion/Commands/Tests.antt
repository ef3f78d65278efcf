-- ===== src/Legion/Commands/Tests.antt =====
-- Command lines for `legion_check_args` of hw4/src/cli.c.
use c_starter_projects.Prelude.{
  ℕ, ◌≡◌, refl, true, false, Option, none, some, List, [], ◌∷◌, map, ◌==◌, if◌then◌else◌,
}
use c_starter_projects.Prelude.Int.{pos}
use c_starter_projects.Prelude.Strings.{Text, same_text}
use c_starter_projects.Legion.Daemons.{
  DaemonStatus, status_inactive, status_active, Daemon, Legion, StartAnswers, StopAnswers,
  legion_daemon_name_exists, find_daemon, write_found, legion_start, start_at, start_found,
  await_child, after_read,
}
use c_starter_projects.Legion.Commands.{
  holds, dangling, Arguments, Answers, Next, next_line, legion_check_args, run_command, word_start,
}

abbrev echo : Text
echo = b'e' ∷ []

abbrev quiet : Text
quiet = b'q' ∷ []

abbrev one_daemon : Legion
one_daemon = record {
  daemons =
      record {
        daemon_name = echo;
        daemon_exe = echo;
        daemon_args = [];
        daemon_status = status_inactive;
        daemon_process_id = pos 0;
      }
      ∷ [];
  sigchld_flag = false;
  sigalrm_flag = false;
  events = [];
}

abbrev starts_well : StartAnswers
starts_well = record { piped = true; child_pid = pos 9; bytes_read = pos 1; alarmed = false }

abbrev stops_well : StopAnswers
stops_well = record { signalled = true; child_ended = true; alarmed = false; waited = pos 9 }

abbrev answers : Answers
answers = record {
  starting = starts_well;
  stopping = stops_well;
  rotating = record {
    oldest_exists = false;
    renamed = true;
    first_stop = stops_well;
    second_stop = stops_well;
    restart = starts_well;
  };
  quitting = λ name. stops_well;
}

-- The arguments of a line, with the strings of a longer line behind them.
abbrev line : ℕ → Text → Text → Text → Arguments
line n first second third = record {
  arg_idx = n;
  arg = λ i.
      if i == 0
      then holds first
      else if i == 1
      then (if n == 1 then dangling else holds second)
      else if i == 2
      then (if n == 3 then holds third else dangling)
      else dangling;
}

abbrev statuses : Option Next → List DaemonStatus
statuses (some (next_line l)) = map (λ (d : Daemon). d.daemon_status) l.daemons
statuses _ = []

started :
    statuses (legion_check_args answers (line 2 word_start echo []) one_daemon) ≡ status_active ∷ []
unfolding legion_check_args run_command legion_start start_at start_found await_child after_read
    legion_daemon_name_exists find_daemon write_found same_text
started = refl

unknown : legion_daemon_name_exists quiet one_daemon ≡ none
unfolding legion_daemon_name_exists same_text
unknown = refl
