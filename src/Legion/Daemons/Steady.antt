-- ===== src/Legion/Daemons/Steady.antt =====
-- What `legion_start` and `legion_stop` of hw4/src/cli.c keep: they change fields of a node other
-- than its name, report what is neither a registration nor the end of one, and set the flags.
use c_starter_projects.Prelude.{
  ◌≡◌, refl, Bool, true, false, not, ◌||◌, if_elim, Option, none, some,
}
use c_starter_projects.Prelude.Int.{pos, eq_ℤ, minus_one}
use c_starter_projects.Prelude.Strings.{Text}
use c_starter_projects.Legion.Daemons.{
  Daemon, Event, sf_register, sf_unregister, sf_active, sf_start, sf_stop, sf_kill, sf_term,
  sf_crash, sf_reset, sf_error, Legion, Outcome, legion_start, start_found, await_child, start_at,
  after_read, legion_stop, stop_active, stop_at, legion_daemon_name_exists, status_crashed,
  status_starting, status_inactive, status_stopping, status_exited, is_inactive, is_active,
  has_ended, StartAnswers, StopAnswers, set_status, now_active, now_crashed, report, at_found,
}
use c_starter_projects.Legion.Daemons.Names.{KeepsName}

abbrev pub is_quiet : Event → Bool
is_quiet (sf_register name args) = false
is_quiet (sf_unregister name) = false
is_quiet _ = true

-- A predicate that such changes keep.
pub record IsSteady (I : Legion → Type 0) : Type 0 where
  pub reported : (e : Event) (l : Legion) → is_quiet e ≡ true → I l → I (report e l)
  pub updated :
      (name : Text) (f : Daemon → Daemon) (l : Legion) → KeepsName f → I l → I (at_found name f l)
  pub flagged :
      (chld alrm : Bool) (l : Legion)
      → I l
      → I (record l { sigchld_flag = chld; sigalrm_flag = alrm })

abbrev pub KeptIf : (Legion → Type 0) → Option (Outcome × Legion) → Type 0
KeptIf I none = Unit {0}
KeptIf I (some r) = I r.1

module _ (I : Legion → Type 0) (steady : IsSteady I) where
  after_read-kept : (name : Text) (a : StartAnswers) (l : Legion) → I l → I (after_read name a l)
  unfolding after_read
  after_read-kept name a l h = if_elim I (eq_ℤ a.bytes_read (pos 0)) _ _ h (
      steady.reported (sf_active name a.child_pid) _ refl (
        steady.updated name (now_active a.child_pid) _ (λ d. refl)
          (steady.reported (sf_start name) l refl h)))

  await_child-kept :
      (name : Text) (a : StartAnswers) (l : Legion) → I l → I (await_child name a l).1
  unfolding await_child
  await_child-kept name a l h =
      let awaited = after_read-kept name a l h in
      if_elim (λ (r : Outcome × Legion). I r.1) (l.sigalrm_flag || a.alarmed) _ _
        (steady.flagged _ false _ (
          steady.updated name (set_status status_crashed) _ (λ d. refl)
            (steady.reported (sf_stop name a.child_pid) _ refl awaited)))
        awaited

  start_found-kept :
      (name : Text) (a : StartAnswers) (l : Legion) → I l → I (start_found name a l).1
  unfolding start_found
  start_found-kept name a l h =
      let starting = steady.updated name (set_status status_starting) l (λ d. refl) h in
      let failed =
        steady.reported sf_error _ refl
          (steady.updated name (set_status status_inactive) _ (λ d. refl) starting) in
      if_elim (λ (r : Outcome × Legion). I r.1) (not a.piped) _ _ failed
        (if_elim (λ (r : Outcome × Legion). I r.1) (eq_ℤ a.child_pid minus_one) _ _ failed
          (await_child-kept name a _ starting))

  start_at-kept :
      (found : Option Daemon) (name : Text) (a : StartAnswers) (l : Legion)
      → I l
      → I (start_at found name a l).1
  unfolding start_at
  start_at-kept none name a l h = steady.reported sf_error l refl h
  start_at-kept (some d) name a l h =
      if_elim (λ (r : Outcome × Legion). I r.1) (is_inactive d.daemon_status) _ _
        (start_found-kept name a l h) (steady.reported sf_error l refl h)

  pub legion_start-kept :
      (name : Text) (a : StartAnswers) (l : Legion) → I l → I (legion_start name a l).1
  unfolding legion_start
  legion_start-kept name a l h = start_at-kept (legion_daemon_name_exists name l) name a l h

  stop_active-kept : (d : Daemon) (a : StopAnswers) (l : Legion) → I l → I (stop_active d a l).1
  unfolding stop_active
  stop_active-kept d a l h =
      let name = d.daemon_name in
      let asked =
        steady.reported (sf_stop name d.daemon_process_id) _ refl
          (steady.updated name (set_status status_stopping) l (λ e. refl) h) in
      let ended = steady.updated name (set_status status_exited) _ (λ e. refl) asked in
      let failed = steady.reported sf_error _ refl asked in
      let P = λ (r : Outcome × Legion). I r.1 in
      if_elim P (not a.signalled) _ _ failed (
        if_elim P (l.sigchld_flag || a.child_ended) _ _
          (if_elim P (eq_ℤ a.waited minus_one) _ _
            (steady.flagged true (l.sigalrm_flag || a.alarmed) _ (
              steady.reported (sf_crash name a.waited) _ refl
                (steady.updated name now_crashed _ (λ e. refl) failed)))
            (steady.flagged false (l.sigalrm_flag || a.alarmed) _
              (steady.reported (sf_term name a.waited) _ refl ended)))
          (if_elim P (l.sigalrm_flag || a.alarmed) _ _
            (steady.flagged l.sigchld_flag false _ (
              steady.reported sf_error _ refl
                (steady.reported (sf_kill name d.daemon_process_id) _ refl asked)))
            ended))

  stop_at-kept :
      (found : Option Daemon) (name : Text) (a : StopAnswers) (l : Legion)
      → I l
      → KeptIf I (stop_at found name a l)
  unfolding stop_at
  stop_at-kept none name a l h = tt
  stop_at-kept (some d) name a l h =
      if_elim (KeptIf I) (has_ended d.daemon_status) _ _
        (steady.reported (sf_reset name) _ refl
          (steady.updated name (set_status status_inactive) l (λ e. refl) h))
        (if_elim (KeptIf I) (not (is_active d.daemon_status)) _ _
          (steady.reported sf_error l refl h) (stop_active-kept d a l h))

  pub legion_stop-kept :
      (name : Text) (a : StopAnswers) (l : Legion) → I l → KeptIf I (legion_stop name a l)
  unfolding legion_stop
  legion_stop-kept name a l h = stop_at-kept (legion_daemon_name_exists name l) name a l h
