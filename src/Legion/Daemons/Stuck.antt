-- ===== src/Legion/Daemons/Stuck.antt =====
-- Daemons of hw4/src/cli.c that no command can start, stop or unregister any more.
use mathlib.Core.Bool.{false≢true}
use c_starter_projects.Prelude.{
  Bool-cases, inl, inr, ◌∙◌, sym, ap, ◌≢◌, ◌↔◌, Bool, Option, ◌||◌, ◌≡◌, refl, true, false, none,
  some, List, [], ◌∷◌, arith,
}
use c_starter_projects.Prelude.Int.{pos, eq_ℤ, minus_one}
use c_starter_projects.Prelude.Strings.{Text}
use c_starter_projects.Legion.Daemons.{
  Outcome, stop_active, status_unknown, status_active, status_stopping, status_exited,
  status_crashed, Daemon, DaemonStatus, status_starting, status_inactive, Legion, legion_error,
  legion_success, sf_error, is_inactive, is_active, has_ended, report, find_daemon, write_found,
  set_status, at_found, take_out, legion_daemon_name_exists, legion_unregister, unregister_at,
  StartAnswers, StopAnswers, legion_start, legion_stop, start_at, stop_at, start_found, await_child,
  after_read,
}
use c_starter_projects.Legion.Daemons.Names.{KeepsName}

-- The three commands refuse the name, and leave the table as it is.
pub record IsStuck (name : Text) (l : Legion) : Type 0 where
  pub start_refused : (a : StartAnswers) → legion_start name a l ≡ (legion_error, report sf_error l)
  pub stop_refused :
      (a : StopAnswers) → legion_stop name a l ≡ some (legion_error, report sf_error l)
  pub unregister_refused : legion_unregister name l ≡ (legion_error, l)

-- The statuses that `legion_start` and `legion_stop` pass through.
pub data IsBetween : DaemonStatus → Type 0 where
  unknown : IsBetween status_unknown
  starting : IsBetween status_starting
  stopping : IsBetween status_stopping

is_success : Outcome → Bool
is_success legion_success = true
is_success legion_error = false

succeeds : {A : Type 0} → Option (Outcome × A) → Bool
succeeds none = false
succeeds (some r) = is_success r.0

take_out_refuses :
    (name : Text) (ds : List Daemon) (d : Daemon)
    → find_daemon name ds ≡ some d
    → is_inactive d.daemon_status ≡ false
    → take_out name ds ≡ none
unfolding find_daemon take_out
take_out_refuses name [] d h k = refl
take_out_refuses name (e ∷ rest) d h k = ground (arith, h, k, take_out_refuses name rest d)

start_at_refuses :
    (d : Daemon) (name : Text) (a : StartAnswers) (l : Legion)
    → is_inactive d.daemon_status ≡ false
    → start_at (some d) name a l ≡ (legion_error, report sf_error l)
unfolding start_at
start_at_refuses d name a l h = rw (start_at, h) refl

stop_at_refuses :
    (d : Daemon) (name : Text) (a : StopAnswers) (l : Legion)
    → is_active d.daemon_status ≡ false
    → has_ended d.daemon_status ≡ false
    → stop_at (some d) name a l ≡ some (legion_error, report sf_error l)
unfolding stop_at
stop_at_refuses d name a l h k = rw (stop_at, h, k) refl

refused-IsStuck :
    (name : Text) (l : Legion) (d : Daemon)
    → legion_daemon_name_exists name l ≡ some d
    → is_inactive d.daemon_status ≡ false
    → is_active d.daemon_status ≡ false
    → has_ended d.daemon_status ≡ false
    → IsStuck name l
unfolding legion_start legion_stop legion_unregister unregister_at
refused-IsStuck name l d found not_inactive not_active not_ended = record {
  start_refused = λ a. rw (legion_start, found) (start_at_refuses d name a l not_inactive);
  stop_refused = λ a. rw (legion_stop, found) (stop_at_refuses d name a l not_active not_ended);
  unregister_refused =
      let refused =
        take_out_refuses name l.daemons d (unfold legion_daemon_name_exists in found)
          not_inactive in
      rw (legion_unregister, refused) refl;
}

between-refused :
    (s : DaemonStatus)
    → IsBetween s
    → (is_inactive s ≡ false) × (is_active s ≡ false) × (has_ended s ≡ false)
between-refused _ unknown = (refl, refl, refl)
between-refused _ starting = (refl, refl, refl)
between-refused _ stopping = (refl, refl, refl)

-- An inactive daemon can be unregistered.
take_out_finds :
    (name : Text) (ds : List Daemon) (d : Daemon)
    → find_daemon name ds ≡ some d
    → is_inactive d.daemon_status ≡ true
    → take_out name ds ≢ none
unfolding find_daemon take_out
take_out_finds name [] d h k = ground (arith, h)
take_out_finds name (e ∷ rest) d h k = ground (arith, h, k, take_out_finds name rest d)

unregister_at-taken :
    (o : Option (List Daemon)) (name : Text) (l : Legion)
    → o ≢ none
    → is_success (unregister_at o name l).0 ≡ true
unfolding unregister_at is_success
unregister_at-taken none name l h = absurd (h refl)
unregister_at-taken (some left) name l h = refl

-- The child ends at once, and `waitpid` finds it.
abbrev ended_well : StopAnswers
ended_well = record { signalled = true; child_ended = true; alarmed = false; waited = pos 1 }

or_true : (b : Bool) → (b || true) ≡ true
or_true true = refl
or_true false = refl

stop_at-succeeds :
    (s : DaemonStatus) (d : Daemon) (name : Text) (l : Legion)
    → d.daemon_status ≡ s
    → (has_ended s || is_active s) ≡ true
    → succeeds (stop_at (some d) name ended_well l) ≡ true
unfolding stop_at stop_active succeeds is_success
stop_at-succeeds s d name l e h = rw e (elim (Bool-cases (has_ended s)) [
  | inl ended ↦ rw ended refl
  | inr running ↦
      let active : is_active s ≡ true = ground (arith, h, running) in
      let told : (l.sigchld_flag || true) ≡ true = or_true l.sigchld_flag in
      rw (running, active, told) refl
])

stop_succeeds :
    (name : Text) (l : Legion) (d : Daemon) (s : DaemonStatus)
    → legion_daemon_name_exists name l ≡ some d
    → d.daemon_status ≡ s
    → (has_ended s || is_active s) ≡ true
    → ¬ IsStuck name l
unfolding legion_stop succeeds is_success
stop_succeeds name l d s found e h stuck =
    let works : succeeds (legion_stop name ended_well l) ≡ true =
      rw found (stop_at-succeeds s d name l e h) in
    false≢true (sym (ap succeeds (stuck.stop_refused ended_well)) ∙ works)

unregister_succeeds :
    (name : Text) (l : Legion) (d : Daemon)
    → legion_daemon_name_exists name l ≡ some d
    → is_inactive d.daemon_status ≡ true
    → ¬ IsStuck name l
unfolding legion_unregister is_success legion_daemon_name_exists
unregister_succeeds name l d found h stuck =
    let works =
      unregister_at-taken (take_out name l.daemons) name l
        (take_out_finds name l.daemons d found h) in
    false≢true
      (sym (ap (λ (r : Outcome × Legion). is_success r.0) stuck.unregister_refused) ∙ works)

IsStuck-between :
    (name : Text) (l : Legion) (d : Daemon) (s : DaemonStatus)
    → legion_daemon_name_exists name l ≡ some d
    → d.daemon_status ≡ s
    → IsStuck name l
    → IsBetween s
IsStuck-between name l d status_unknown found e stuck = unknown
IsStuck-between name l d status_starting found e stuck = starting
IsStuck-between name l d status_stopping found e stuck = stopping
IsStuck-between name l d status_inactive found e stuck =
    absurd (unregister_succeeds name l d found (rw e refl) stuck)
IsStuck-between name l d status_active found e stuck =
    absurd (stop_succeeds name l d status_active found e refl stuck)
IsStuck-between name l d status_exited found e stuck =
    absurd (stop_succeeds name l d status_exited found e refl stuck)
IsStuck-between name l d status_crashed found e stuck =
    absurd (stop_succeeds name l d status_crashed found e refl stuck)

-- The start, stop and unregister commands all refuse a name and leave the table as it is, whatever
-- the system calls answer, exactly when the first daemon of that name is unknown, starting or
-- stopping.
pub between-IsStuck :
    (name : Text) (l : Legion) (d : Daemon)
    → legion_daemon_name_exists name l ≡ some d
    → IsBetween d.daemon_status ↔ IsStuck name l
between-IsStuck name l d found = (
  λ b. let r = between-refused d.daemon_status b in refused-IsStuck name l d found r.0 r.1 r.2,
  λ stuck. IsStuck-between name l d d.daemon_status found refl stuck,
)

pub find_daemon-write_found :
    (name : Text) (f : Daemon → Daemon) (ds : List Daemon) (d : Daemon)
    → KeepsName f
    → find_daemon name ds ≡ some d
    → find_daemon name (write_found name f ds) ≡ some (f d)
unfolding find_daemon write_found
find_daemon-write_found name f [] d keeps h = ground (arith, h)
find_daemon-write_found name f (e ∷ rest) d keeps h =
    ground (arith, h, keeps e, find_daemon-write_found name f rest d keeps)

-- When an inactive daemon is started, the child ends without a word on the pipe (`read` returns 0)
-- and no alarm comes, `legion_start` reports success and leaves the daemon starting, and from then
-- on the start, stop and unregister commands refuse it.
pub start_eof-IsStuck :
    (name : Text) (a : StartAnswers) (l : Legion) (d : Daemon)
    → legion_daemon_name_exists name l ≡ some d
    → d.daemon_status ≡ status_inactive
    → a.piped ≡ true
    → eq_ℤ a.child_pid minus_one ≡ false
    → a.bytes_read ≡ pos 0
    → a.alarmed ≡ false
    → l.sigalrm_flag ≡ false
    → (left : Legion) × (legion_start name a l ≡ (legion_success, left))
      × (legion_daemon_name_exists name left ≡ some (set_status status_starting d))
      × IsStuck name left
unfolding legion_start start_at start_found await_child after_read
start_eof-IsStuck name a l d found inactive piped forked silent quiet clear =
    let left = at_found name (set_status status_starting) l in
    let still : legion_daemon_name_exists name left ≡ some (set_status status_starting d) =
      unfold legion_daemon_name_exists in
      find_daemon-write_found name (set_status status_starting) l.daemons d (λ e. refl) found in
    (
      left,
      rw
          (
            legion_start, found, start_at, inactive, start_found, piped, forked, await_child,
            after_read, silent, quiet, clear,
          )
          refl,
      still,
      (between-IsStuck name left (set_status status_starting d) still).0 starting,
    )
