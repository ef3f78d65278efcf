-- ===== src/Legion/Commands.antt =====
-- The commands of hw4/src/cli.c: `legion_check_args`, `legion_quit` and `legion_logrotate`. What
-- `legion_check_args` prints to `out` is left out.
pub mod Kept
pub mod Dispatch
pub mod Missing
mod Tests
use c_starter_projects.Prelude.{
  ℕ, ◌-◌, Bool, true, false, not, ◌&&◌, Option, none, some, List, [], ◌∷◌, ltb, if◌then◌else◌,
}
use c_starter_projects.Prelude.Strings.{Text, same_text}
use c_starter_projects.Legion.Daemons.{
  Daemon, Legion, Event, sf_unregister, sf_logrotate, sf_fini, sf_error, Outcome, legion_error,
  legion_success, is_active, report, legion_daemon_name_exists, legion_register, legion_unregister,
  legion_status, StartAnswers, legion_start, StopAnswers, legion_stop,
}

-- An element of `argArr`: NULL, a string of the current line, or what a former line has left there,
-- whose memory is free.
pub data Slot : Type 0 where
  unset : Slot
  holds : Text → Slot
  dangling : Slot

-- `argArrIdx` and `argArr`
pub record Arguments : Type 0 where
  pub arg_idx : ℕ
  pub arg : ℕ → Slot

-- What a logrotate meets: whether the oldest log file exists, whether all files can be renamed, and
-- the answers to the two stops and the start.
pub record RotateAnswers : Type 0 where
  pub oldest_exists : Bool
  pub renamed : Bool
  pub first_stop : StopAnswers
  pub second_stop : StopAnswers
  pub restart : StartAnswers

pub record Answers : Type 0 where
  pub starting : StartAnswers
  pub stopping : StopAnswers
  pub rotating : RotateAnswers
  pub quitting : Text → StopAnswers

abbrev pub and_then :
    Option (Outcome × Legion) → (Legion → Option (Outcome × Legion)) → Option (Outcome × Legion)
and_then none k = none
and_then (some r) k = k r.1

unfoldable pub rotate_at : Option Daemon → Text → RotateAnswers → Legion → Option (Outcome × Legion)
rotate_at none name a l = some (legion_error, report sf_error l)
rotate_at (some d) name a l =
    let stopped =
      and_then (legion_stop name a.first_stop (report (sf_logrotate name) l))
        (legion_stop name a.second_stop) in
    if not (is_active d.daemon_status)
    then some (legion_error, report sf_error l)
    else if a.oldest_exists && not a.renamed
    then some (legion_error, report sf_error l)
    else and_then stopped (λ m. some (legion_success, (legion_start name a.restart m).1))

unfoldable pub legion_logrotate : Text → RotateAnswers → Legion → Option (Outcome × Legion)
unfolding rotate_at
legion_logrotate name a l = rotate_at (legion_daemon_name_exists name l) name a l

-- The first loop of `legion_quit`. The names of the nodes are distinct, so that a stop changes only
-- the node that the loop is at.
unfoldable pub stop_all : List Daemon → (Text → StopAnswers) → Legion → Option Legion
stop_all [] a l = some l
stop_all (d ∷ rest) a l =
    let unstopped = stop_all rest a l in
    let stopped = legion_stop d.daemon_name (a d.daemon_name) l in
    if is_active d.daemon_status
    then elim stopped [ none ↦ none | some r ↦ stop_all rest a r.1 ]
    else unstopped

abbrev pub head_name : Text
head_name =
    b'd' ∷ b'a' ∷ b'e' ∷ b'm' ∷ b'o' ∷ b'n' ∷ b'N' ∷ b'o' ∷ b'd' ∷ b'e' ∷ b'H' ∷ b'e' ∷ b'a' ∷ b'd'
    ∷ []

-- The second loop, behind the node of the head.
unfoldable pub unregister_all : List Daemon → List Event → List Event
unregister_all [] events = events
unregister_all (d ∷ rest) events =
    let told =
      if same_text d.daemon_name head_name then events else sf_unregister d.daemon_name ∷ events in
    unregister_all rest told

-- What is left when the process exits.
unfoldable pub legion_quit : (Text → StopAnswers) → Legion → Option Legion
unfolding stop_all unregister_all
legion_quit a l = elim (stop_all l.daemons a l) [
  | none ↦ none
  | some m ↦ some (record m { daemons = []; events = sf_fini ∷ unregister_all l.daemons m.events })
]

-- The CLI waits for the next line, or the process has exited.
pub data Next : Type 0 where
  next_line : Legion → Next
  exited : Legion → Next

abbrev pub word_help : Text
word_help = b'h' ∷ b'e' ∷ b'l' ∷ b'p' ∷ []

abbrev pub word_quit : Text
word_quit = b'q' ∷ b'u' ∷ b'i' ∷ b't' ∷ []

abbrev pub word_register : Text
word_register = b'r' ∷ b'e' ∷ b'g' ∷ b'i' ∷ b's' ∷ b't' ∷ b'e' ∷ b'r' ∷ []

abbrev pub word_unregister : Text
word_unregister = b'u' ∷ b'n' ∷ b'r' ∷ b'e' ∷ b'g' ∷ b'i' ∷ b's' ∷ b't' ∷ b'e' ∷ b'r' ∷ []

abbrev pub word_status : Text
word_status = b's' ∷ b't' ∷ b'a' ∷ b't' ∷ b'u' ∷ b's' ∷ []

abbrev pub word_status_all : Text
word_status_all = b's' ∷ b't' ∷ b'a' ∷ b't' ∷ b'u' ∷ b's' ∷ b'-' ∷ b'a' ∷ b'l' ∷ b'l' ∷ []

abbrev pub word_start : Text
word_start = b's' ∷ b't' ∷ b'a' ∷ b'r' ∷ b't' ∷ []

abbrev pub word_stop : Text
word_stop = b's' ∷ b't' ∷ b'o' ∷ b'p' ∷ []

abbrev pub word_logrotate : Text
word_logrotate = b'l' ∷ b'o' ∷ b'g' ∷ b'r' ∷ b'o' ∷ b't' ∷ b'a' ∷ b't' ∷ b'e' ∷ []

-- A use of a string: undefined where there is none.
abbrev pub with_text {ℓ} : {A : Type ℓ} → Slot → (Text → Option A) → Option A
with_text unset k = none
with_text (holds t) k = k t
with_text dangling k = none

abbrev pub goes_on : Option (Outcome × Legion) → Option Next
goes_on none = none
goes_on (some r) = some (next_line r.1)

-- The commands that report an error of theirs do so by `sf_error`, apart from those that have done
-- it already.
abbrev pub reporting : Outcome × Legion → Option Next
reporting (legion_error, l) = some (next_line (report sf_error l))
reporting (legion_success, l) = some (next_line l)

-- The branch of `register`, for what `legion_daemon_name_exists` returns and for `argArr[3]`, which
-- is read unless it is NULL.
unfoldable pub register_at :
    Option Daemon → Slot → (arg_idx : ℕ) (name exe : Text) → Legion → Option Next
register_at (some d) slot arg_idx name exe l = some (next_line (report sf_error l))
register_at none unset arg_idx name exe l = goes_on (legion_register arg_idx [] name exe [] l)
register_at none (holds third) arg_idx name exe l =
    goes_on (legion_register arg_idx third name exe third l)
register_at none dangling arg_idx name exe l = none

unfoldable pub register_command : Arguments → Legion → Option Next
unfolding register_at
register_command args l = with_text (args.arg 1) λ name.
    with_text (args.arg 2)
      λ exe. register_at (legion_daemon_name_exists name l) (args.arg 3) args.arg_idx name exe l

abbrev pub exit_with : Option Legion → Option Next
exit_with none = none
exit_with (some m) = some (exited m)

-- A name that is looked for. An empty table is searched without a look at the name.
abbrev pub sought {ℓ} : {A : Type ℓ} → Slot → List Daemon → (Text → Option A) → Option A
sought (holds t) ds k = k t
sought unset [] k = k []
sought dangling [] k = k []
sought unset (d ∷ ds) k = none
sought dangling (d ∷ ds) k = none

-- A command that takes a name: refused with more than one argument, otherwise run at `argArr[1]`.
abbrev pub with_name : Arguments → Legion → (Text → Option Next) → Option Next
with_name args l k =
    let run = sought (args.arg 1) l.daemons k in
    if ltb 1 (args.arg_idx - 1) then some (next_line (report sf_error l)) else run

-- `legion_status` on what `legion_daemon_name_exists` returns.
abbrev pub status_command : Option Daemon → Legion → Option Next
status_command none l = some (next_line (report sf_error l))
status_command (some d) l = some (next_line l)

unfoldable pub run_command : Text → Answers → Arguments → Legion → Option Next
unfolding register_command
run_command word a args l =
    let quits = legion_quit a.quitting l in
    let registers = register_command args l in
    let unregisters = with_name args l (λ name. reporting (legion_unregister name l)) in
    let shows = with_name args l (λ name. status_command (legion_status name l) l) in
    let starts = with_name args l (λ name. some (next_line (legion_start name a.starting l).1)) in
    let stops = with_name args l (λ name. goes_on (legion_stop name a.stopping l)) in
    let rotates = with_name args l (λ name. goes_on (legion_logrotate name a.rotating l)) in
    if same_text word word_help
    then some (next_line l)
    else if same_text word word_quit
    then exit_with quits
    else if same_text word word_register
    then if ltb (args.arg_idx - 1) 2 then some (next_line (report sf_error l)) else registers
    else if same_text word word_unregister
    then unregisters
    else if same_text word word_status
    then shows
    else if same_text word word_status_all
    then some (next_line (if ltb 0 (args.arg_idx - 1) then report sf_error l else l))
    else if same_text word word_start
    then starts
    else if same_text word word_stop
    then stops
    else if same_text word word_logrotate
    then rotates
    else some (next_line (report sf_error l))

unfoldable pub legion_check_args : Answers → Arguments → Legion → Option Next
unfolding run_command
legion_check_args a args l =
    let run = with_text (args.arg 0) (λ word. run_command word a args l) in
    if ltb 0 args.arg_idx then run else some (next_line l)
