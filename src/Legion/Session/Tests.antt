-- ===== src/Legion/Session/Tests.antt =====
-- Sessions of hw4/src/cli.c.
use c_starter_projects.Prelude.{◌≡◌, refl, true, false, Option, some, List, [], ◌∷◌, ◌++◌}
use c_starter_projects.Prelude.Int.{pos}
use c_starter_projects.Prelude.Strings.{Text, same_text}
use c_starter_projects.Legion.Daemons.{
  Event, sf_init, sf_register, sf_unregister, sf_fini, StartAnswers, StopAnswers, legion_register,
  legion_daemon_name_exists, find_daemon,
}
use c_starter_projects.Legion.Commands.{
  Answers, word_register, word_quit, legion_quit, legion_check_args, run_command, register_command,
  register_at, stop_all, unregister_all, head_name,
}
use c_starter_projects.Legion.Parse.{legion_parse_args, arguments_of, fields, tokens, place}
use c_starter_projects.Legion.Session.{
  Arrival, reads_line, gets_sigchld, Session, ended, legion_main, run_cli, cli_loop,
}
use c_starter_projects.Legion.Session.Loop.{IsAccounted, legion_main-IsAccounted}

abbrev echo : Text
echo = b'e' ∷ []

abbrev starts_well : StartAnswers
starts_well = record { piped = true; child_pid = pos 9; bytes_read = pos 1; alarmed = false }

abbrev stops_well : StopAnswers
stops_well = record { signalled = true; child_ended = true; alarmed = false; waited = pos 9 }

abbrev answers : Answers
answers = record {
  starting = starts_well;
  stopping = stops_well;
  rotating = record {
    oldest_exists = false;
    renamed = true;
    first_stop = stops_well;
    second_stop = stops_well;
    restart = starts_well;
  };
  quitting = λ name. stops_well;
}

abbrev register_line : Text → Text
register_line name = word_register ++ b' ' ∷ name ++ b' ' ∷ b'x' ∷ []

abbrev script : Text → List Arrival
script name =
    reads_line answers (register_line name) ∷ gets_sigchld ∷ reads_line answers word_quit ∷ []

abbrev left_events : Option Session → List Event
left_events (some (ended l)) = l.events
left_events _ = []

registered_and_ended :
    left_events (legion_main (script echo))
    ≡ sf_fini ∷ sf_unregister echo ∷ sf_register echo [] ∷ sf_init ∷ []
unfolding legion_main run_cli cli_loop legion_parse_args arguments_of fields tokens place
    legion_check_args run_command register_command register_at legion_register
    legion_daemon_name_exists find_daemon legion_quit stop_all unregister_all same_text
registered_and_ended = refl

-- A daemon with the name of the head is not reported as unregistered.
head_left :
    left_events (legion_main (script head_name)) ≡ sf_fini ∷ sf_register head_name [] ∷ sf_init ∷ []
unfolding legion_main run_cli cli_loop legion_parse_args arguments_of fields tokens place
    legion_check_args run_command register_command register_at legion_register
    legion_daemon_name_exists find_daemon legion_quit stop_all unregister_all same_text
head_left = refl

legion_main-IsAccounted_example : IsAccounted (legion_main (script echo))
legion_main-IsAccounted_example = legion_main-IsAccounted (script echo)
