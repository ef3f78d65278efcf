-- ===== src/Legion/Child/Tests.antt =====
-- A child of hw4/src/cli.c, and the theorem about it.
use c_starter_projects.Prelude.{◌≡◌, true, false, none, some, [], ◌∷◌, arith}
use c_starter_projects.Prelude.Int.{pos}
use c_starter_projects.Legion.Daemons.{Daemon, Legion, status_starting}
use c_starter_projects.Legion.Child.{ChildAnswers, start_child}
use c_starter_projects.Legion.Child.Buffers.{start_child_overruns}

abbrev child_daemon : Daemon
child_daemon = record {
  daemon_name = b'e' ∷ [];
  daemon_exe = b'e' ∷ [];
  daemon_args = [];
  daemon_status = status_starting;
  daemon_process_id = pos 0;
}

abbrev child_answers : ChildAnswers
child_answers = record {
  path_env_var = some (b'/' ∷ b'b' ∷ b'i' ∷ b'n' ∷ []);
  duplicated = true;
  grouped = true;
  executed = true;
}

abbrev child_table : Legion
child_table = record {
  daemons = child_daemon ∷ [];
  sigchld_flag = false;
  sigalrm_flag = false;
  events = [];
}

start_child_overruns_example : start_child child_daemon b'0' child_answers child_table ≡ none
start_child_overruns_example =
    start_child_overruns child_daemon b'0' child_answers child_table (omega arith)
