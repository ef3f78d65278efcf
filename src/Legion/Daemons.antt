-- ===== src/Legion/Daemons.antt =====
-- The table of daemons of hw4/src/cli.c, with the statuses of hw4/include/legion.h: the nodes behind
-- `daemonNodeHead` are a list, in their order. What the system calls answer is an argument. The
-- calls of the `sf_` functions, which the CLI reports its actions to, are kept as a list of events,
-- the last one first. `none` is an undefined run: a null pointer, or a string without its NUL byte.
pub mod Names
pub mod Steady
pub mod Stuck
pub mod Unique
pub mod Log
mod Tests
use c_starter_projects.Prelude.{
  ℕ, Bool, true, false, not, ◌&&◌, ◌||◌, Option, none, some, List, [], ◌∷◌, length, ltb,
  if◌then◌else◌,
}
use c_starter_projects.Prelude.Int.{ℤ, pos, eq_ℤ, minus_one}
use c_starter_projects.Prelude.Strings.{Text, same_text}

pub data DaemonStatus : Type 0 where
  status_unknown status_inactive status_starting status_active : DaemonStatus
  status_stopping status_exited status_crashed : DaemonStatus

pub record Daemon : Type 0 where
  pub daemon_name : Text
  pub daemon_exe : Text
  pub daemon_args : Text
  pub daemon_status : DaemonStatus
  pub daemon_process_id : ℤ

-- The `sf_` function of that name, with its arguments; the text of `sf_error`
-- and the signal of `sf_crash` are left out.
pub data Event : Type 0 where
  sf_init : Event
  sf_register : (name args : Text) → Event
  sf_unregister : (name : Text) → Event
  sf_start : (name : Text) → Event
  sf_active : (name : Text) (pid : ℤ) → Event
  sf_stop : (name : Text) (pid : ℤ) → Event
  sf_kill : (name : Text) (pid : ℤ) → Event
  sf_term : (name : Text) (pid : ℤ) → Event
  sf_crash : (name : Text) (pid : ℤ) → Event
  sf_reset : (name : Text) → Event
  sf_logrotate : (name : Text) → Event
  sf_fini : Event
  sf_error : Event

pub record Legion : Type 0 where
  pub daemons : List Daemon
  pub sigchld_flag : Bool
  pub sigalrm_flag : Bool
  pub events : List Event

pub data Outcome : Type 0 where
  legion_error legion_success : Outcome

abbrev pub is_inactive : DaemonStatus → Bool
is_inactive status_inactive = true
is_inactive _ = false

abbrev pub is_active : DaemonStatus → Bool
is_active status_active = true
is_active _ = false

-- The test of `legion_stop` for a daemon that has ended.
abbrev pub has_ended : DaemonStatus → Bool
has_ended status_exited = true
has_ended status_crashed = true
has_ended _ = false

abbrev pub report : Event → Legion → Legion
report e l = record l { events = e ∷ l.events }

unfoldable pub find_daemon : Text → List Daemon → Option Daemon
find_daemon name [] = none
find_daemon name (d ∷ rest) =
    let further = find_daemon name rest in if same_text d.daemon_name name then some d else further

unfoldable pub legion_daemon_name_exists : Text → Legion → Option Daemon
unfolding find_daemon
legion_daemon_name_exists name l = find_daemon name l.daemons

-- A write through the pointer that `legion_daemon_name_exists` returns.
unfoldable pub write_found : Text → (Daemon → Daemon) → List Daemon → List Daemon
write_found name f [] = []
write_found name f (d ∷ rest) =
    let further = write_found name f rest in
    if same_text d.daemon_name name then f d ∷ rest else d ∷ further

abbrev pub set_status : DaemonStatus → Daemon → Daemon
set_status s d = record d { daemon_status = s }

abbrev pub at_found : Text → (Daemon → Daemon) → Legion → Legion
at_found name f l = record l { daemons = write_found name f l.daemons }

-- The length of each of the three arrays of a node.
abbrev pub array_length : ℕ
array_length = 100

abbrev pub fits : Text → Bool
fits t = ltb (length t) array_length

-- `args` is the third argument, `third` the text at `argArr[3]`, `arg_idx` the number of arguments.
unfoldable pub legion_register :
    (arg_idx : ℕ) (third : Text) (name exe args : Text) → Legion → Option (Outcome × Legion)
legion_register arg_idx third name exe args l =
    let node : Daemon = record {
      daemon_name = name;
      daemon_exe = exe;
      daemon_args = args;
      daemon_status = status_inactive;
      daemon_process_id = pos 0;
    } in
    let told = if ltb 3 arg_idx then third else [] in
    if fits name && fits exe && fits args
    then some
        (legion_success, report (sf_register name told) (record l { daemons = node ∷ l.daemons }))
    else none

-- The loop of `legion_unregister`: the nodes that are left, when an inactive one is taken out.
unfoldable pub take_out : Text → List Daemon → Option (List Daemon)
take_out name [] = none
take_out name (d ∷ rest) =
    let further = take_out name rest in
    if same_text d.daemon_name name
    then if is_inactive d.daemon_status then some rest else none
    else elim further [ none ↦ none | some left ↦ some (d ∷ left) ]

-- The end of `legion_unregister`, for the nodes that are left.
unfoldable pub unregister_at : Option (List Daemon) → Text → Legion → Outcome × Legion
unregister_at none name l = (legion_error, l)
unregister_at (some left) name l =
    (legion_success, report (sf_unregister name) (record l { daemons = left }))

unfoldable pub legion_unregister : Text → Legion → Outcome × Legion
unfolding take_out unregister_at
legion_unregister name l = unregister_at (take_out name l.daemons) name l

unfoldable pub legion_status : Text → Legion → Option Daemon
legion_status name l = legion_daemon_name_exists name l

-- What the calls of `legion_start` answer in the parent: whether there is a pipe, the result of
-- `fork` (not 0), the result of `read`, and whether SIGALRM has been handled by then.
pub record StartAnswers : Type 0 where
  pub piped : Bool
  pub child_pid : ℤ
  pub bytes_read : ℤ
  pub alarmed : Bool

abbrev pub now_active : ℤ → Daemon → Daemon
now_active pid d = record d { daemon_process_id = pid; daemon_status = status_active }

-- The child is ready when it has written a byte to the pipe.
unfoldable pub after_read : Text → StartAnswers → Legion → Legion
after_read name a l =
    if eq_ℤ a.bytes_read (pos 0)
    then l
    else report (sf_active name a.child_pid)
        (at_found name (now_active a.child_pid) (report (sf_start name) l))

-- The parent's part of `legion_start`, behind `fork`.
unfoldable pub await_child : Text → StartAnswers → Legion → Outcome × Legion
unfolding after_read
await_child name a l =
    let awaited = after_read name a l in
    if l.sigalrm_flag || a.alarmed
    then (
      legion_error,
      record (at_found name (set_status status_crashed)
          (report (sf_stop name a.child_pid) awaited)) { sigalrm_flag = false },
    )
    else (legion_success, awaited)

unfoldable pub start_found : Text → StartAnswers → Legion → Outcome × Legion
unfolding await_child
start_found name a l =
    let starting = at_found name (set_status status_starting) l in
    let failed = at_found name (set_status status_inactive) starting in
    if not a.piped
    then (legion_error, report sf_error failed)
    else if eq_ℤ a.child_pid minus_one
    then (legion_error, report sf_error failed)
    else await_child name a starting

-- `legion_start` on what `legion_daemon_name_exists` returns.
unfoldable pub start_at : Option Daemon → Text → StartAnswers → Legion → Outcome × Legion
unfolding start_found
start_at none name a l = (legion_error, report sf_error l)
start_at (some d) name a l =
    if is_inactive d.daemon_status then start_found name a l else (legion_error, report sf_error l)

unfoldable pub legion_start : Text → StartAnswers → Legion → Outcome × Legion
unfolding start_at legion_daemon_name_exists
legion_start name a l = start_at (legion_daemon_name_exists name l) name a l

-- What the calls of `legion_stop` answer: whether `kill` succeeds, which of SIGCHLD and SIGALRM has
-- been handled by the end of `sigsuspend`, and the result of `waitpid`.
pub record StopAnswers : Type 0 where
  pub signalled : Bool
  pub child_ended : Bool
  pub alarmed : Bool
  pub waited : ℤ

abbrev pub now_crashed : Daemon → Daemon
now_crashed d = record d { daemon_process_id = pos 0; daemon_status = status_crashed }

unfoldable pub stop_active : Daemon → StopAnswers → Legion → Outcome × Legion
stop_active d a l =
    let name = d.daemon_name in
    let asked =
      report (sf_stop name d.daemon_process_id) (at_found name (set_status status_stopping) l) in
    let exited = at_found name (set_status status_exited) asked in
    if not a.signalled
    then (legion_error, report sf_error asked)
    else if l.sigchld_flag || a.child_ended
    then if eq_ℤ a.waited minus_one
      then (
        legion_error,
        record (report (sf_crash name a.waited)
            (at_found name now_crashed (report sf_error asked))) {
              sigchld_flag = true;
              sigalrm_flag = l.sigalrm_flag || a.alarmed;
            },
      )
      else (
        legion_success,
        record (report (sf_term name a.waited) exited) {
          sigchld_flag = false;
          sigalrm_flag = l.sigalrm_flag || a.alarmed;
        },
      )
    else if l.sigalrm_flag || a.alarmed
    then (
      legion_error,
      record (report sf_error (report (sf_kill name d.daemon_process_id) asked)) {
        sigalrm_flag = false;
      },
    )
    else (legion_success, exited)

-- `legion_stop` on what `legion_daemon_name_exists` returns; its first test reads through NULL.
unfoldable pub stop_at : Option Daemon → Text → StopAnswers → Legion → Option (Outcome × Legion)
unfolding stop_active
stop_at none name a l = none
stop_at (some d) name a l =
    if has_ended d.daemon_status
    then some
        (legion_success, report (sf_reset name) (at_found name (set_status status_inactive) l))
    else if not (is_active d.daemon_status)
    then some (legion_error, report sf_error l)
    else some (stop_active d a l)

unfoldable pub legion_stop : Text → StopAnswers → Legion → Option (Outcome × Legion)
unfolding stop_at legion_daemon_name_exists
legion_stop name a l = stop_at (legion_daemon_name_exists name l) name a l
