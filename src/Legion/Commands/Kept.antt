-- ===== src/Legion/Commands/Kept.antt =====
-- `legion_check_args` of hw4/src/cli.c: a predicate that the operations on the table keep is kept by
-- every command line.
use c_starter_projects.Prelude.{
  ℕ, ◌-◌, ◌≡◌, refl, not, ◌&&◌, if_elim, Option, none, some, List, [], ◌∷◌, ltb,
}
use c_starter_projects.Prelude.Strings.{Text, same_text}
use c_starter_projects.Legion.Daemons.{
  Daemon, Legion, Outcome, legion_error, legion_success, report, sf_error, sf_logrotate, is_active,
  legion_daemon_name_exists, legion_register, legion_unregister, legion_start, legion_stop,
  legion_status, StopAnswers,
}
use c_starter_projects.Legion.Daemons.Steady.{IsSteady, KeptIf, legion_start-kept, legion_stop-kept}
use c_starter_projects.Legion.Commands.{
  Slot, unset, holds, dangling, Arguments, Answers, RotateAnswers, Next, next_line, exited,
  and_then, rotate_at, legion_logrotate, goes_on, reporting, register_command, register_at,
  exit_with, with_name, with_text, sought, status_command, run_command, legion_check_args,
  word_help, word_quit, word_register, word_unregister, word_status, word_status_all, word_start,
  word_stop, word_logrotate, legion_quit,
}

abbrev pub LeftIf : (Legion → Type 0) → Option Legion → Type 0
LeftIf J none = Unit {0}
LeftIf J (some m) = J m

-- What the operations keep of the table while the CLI runs, and what the end of the process leaves.
pub record IsKept (I J : Legion → Type 0) : Type 0 where
  pub steady : IsSteady I
  pub registered :
      (arg_idx : ℕ) (third name exe args : Text) (l : Legion)
      → legion_daemon_name_exists name l ≡ none
      → I l
      → KeptIf I (legion_register arg_idx third name exe args l)
  pub unregistered : (name : Text) (l : Legion) → I l → I (legion_unregister name l).1
  pub quitted : (a : Text → StopAnswers) (l : Legion) → I l → LeftIf J (legion_quit a l)

abbrev pub NextIf : (Legion → Type 0) → (Legion → Type 0) → Option Next → Type 0
NextIf I J none = Unit {0}
NextIf I J (some (next_line l)) = I l
NextIf I J (some (exited l)) = J l

module _ (I J : Legion → Type 0) (kept : IsKept I J) where
  error_kept : (l : Legion) → I l → I (report sf_error l)
  error_kept l h = kept.steady.reported sf_error l refl h

  and_then-KeptIf :
      (r : Option (Outcome × Legion)) (k : Legion → Option (Outcome × Legion))
      → KeptIf I r
      → ((m : Legion) → I m → KeptIf I (k m))
      → KeptIf I (and_then r k)
  and_then-KeptIf none k h f = tt
  and_then-KeptIf (some r) k h f = f r.1 h

  rotate_at-KeptIf :
      (found : Option Daemon) (name : Text) (a : RotateAnswers) (l : Legion)
      → I l
      → KeptIf I (rotate_at found name a l)
  unfolding rotate_at
  rotate_at-KeptIf none name a l h = error_kept l h
  rotate_at-KeptIf (some d) name a l h =
      let stopped =
        and_then-KeptIf (legion_stop name a.first_stop (report (sf_logrotate name) l))
          (legion_stop name a.second_stop)
          (legion_stop-kept I kept.steady name a.first_stop (report (sf_logrotate name) l)
            (kept.steady.reported (sf_logrotate name) l refl h))
          (legion_stop-kept I kept.steady name a.second_stop) in
      if_elim (KeptIf I) (not (is_active d.daemon_status)) _ _ (error_kept l h) (
        if_elim (KeptIf I) (a.oldest_exists && not a.renamed) _ _ (error_kept l h) (
          and_then-KeptIf _ (λ m. some (legion_success, (legion_start name a.restart m).1)) stopped
            (λ m. legion_start-kept I kept.steady name a.restart m)))

  goes_on-NextIf : (r : Option (Outcome × Legion)) → KeptIf I r → NextIf I J (goes_on r)
  goes_on-NextIf none h = tt
  goes_on-NextIf (some r) h = h

  reporting-NextIf : (r : Outcome × Legion) → I r.1 → NextIf I J (reporting r)
  reporting-NextIf (legion_error, l) h = error_kept l h
  reporting-NextIf (legion_success, l) h = h

  sought-NextIf :
      (s : Slot) (ds : List Daemon) (k : Text → Option Next)
      → ((name : Text) → NextIf I J (k name))
      → NextIf I J (sought s ds k)
  sought-NextIf (holds t) ds k f = f t
  sought-NextIf unset [] k f = f []
  sought-NextIf dangling [] k f = f []
  sought-NextIf unset (d ∷ ds) k f = tt
  sought-NextIf dangling (d ∷ ds) k f = tt

  with_name-NextIf :
      (args : Arguments) (l : Legion) (k : Text → Option Next)
      → I l
      → ((name : Text) → NextIf I J (k name))
      → NextIf I J (with_name args l k)
  with_name-NextIf args l k h f =
      if_elim (NextIf I J) (ltb 1 (args.arg_idx - 1)) _ _ (error_kept l h)
        (sought-NextIf (args.arg 1) l.daemons k f)

  status-NextIf : (found : Option Daemon) (l : Legion) → I l → NextIf I J (status_command found l)
  status-NextIf none l h = error_kept l h
  status-NextIf (some d) l h = h

  fresh_name-NextIf :
      (slot : Slot) (arg_idx : ℕ) (name exe : Text) (l : Legion)
      → I l
      → legion_daemon_name_exists name l ≡ none
      → NextIf I J (register_at none slot arg_idx name exe l)
  unfolding register_at
  fresh_name-NextIf unset arg_idx name exe l h absent =
      goes_on-NextIf (legion_register arg_idx [] name exe [] l)
        (kept.registered arg_idx [] name exe [] l absent h)
  fresh_name-NextIf (holds third) arg_idx name exe l h absent =
      goes_on-NextIf (legion_register arg_idx third name exe third l)
        (kept.registered arg_idx third name exe third l absent h)
  fresh_name-NextIf dangling arg_idx name exe l h absent = tt

  register_at-NextIf :
      (found : Option Daemon) (slot : Slot) (arg_idx : ℕ) (name exe : Text) (l : Legion)
      → I l
      → legion_daemon_name_exists name l ≡ found
      → NextIf I J (register_at found slot arg_idx name exe l)
  unfolding register_at
  register_at-NextIf none slot arg_idx name exe l h e =
      fresh_name-NextIf slot arg_idx name exe l h e
  register_at-NextIf (some d) slot arg_idx name exe l h e = error_kept l h

  with_text-NextIf :
      (s : Slot) (k : Text → Option Next)
      → ((t : Text) → NextIf I J (k t))
      → NextIf I J (with_text s k)
  with_text-NextIf unset k f = tt
  with_text-NextIf (holds t) k f = f t
  with_text-NextIf dangling k f = tt

  exit_with-NextIf : (m : Option Legion) → LeftIf J m → NextIf I J (exit_with m)
  exit_with-NextIf none h = tt
  exit_with-NextIf (some m) h = h

  register_command-NextIf :
      (args : Arguments) (l : Legion) → I l → NextIf I J (register_command args l)
  unfolding register_command
  register_command-NextIf args l h = with_text-NextIf (args.arg 1) _ λ name.
      with_text-NextIf (args.arg 2) _ λ exe.
        register_at-NextIf (legion_daemon_name_exists name l) (args.arg 3) args.arg_idx name exe l h
          refl

  run_command-NextIf :
      (word : Text) (a : Answers) (args : Arguments) (l : Legion)
      → I l
      → NextIf I J (run_command word a args l)
  unfolding run_command legion_logrotate
  run_command-NextIf word a args l h = if_elim (NextIf I J) (same_text word word_help) _ _ h (
      if_elim (NextIf I J) (same_text word word_quit) _ _
        (exit_with-NextIf (legion_quit a.quitting l) (kept.quitted a.quitting l h))
        (if_elim (NextIf I J) (same_text word word_register) _ _
          (if_elim (NextIf I J) (ltb (args.arg_idx - 1) 2) _ _ (error_kept l h)
            (register_command-NextIf args l h))
          (if_elim (NextIf I J) (same_text word word_unregister) _ _
            (with_name-NextIf args l (λ name. reporting (legion_unregister name l)) h
              (λ name. reporting-NextIf (legion_unregister name l) (kept.unregistered name l h)))
            (if_elim (NextIf I J) (same_text word word_status) _ _
              (with_name-NextIf args l (λ name. status_command (legion_status name l) l) h
                (λ name. status-NextIf (legion_status name l) l h))
              (if_elim (NextIf I J) (same_text word word_status_all) _ _
                (if_elim I (ltb 0 (args.arg_idx - 1)) (report sf_error l) l (error_kept l h) h)
                (if_elim (NextIf I J) (same_text word word_start) _ _
                  (with_name-NextIf args l
                    (λ name. some (next_line (legion_start name a.starting l).1)) h
                    (λ name. legion_start-kept I kept.steady name a.starting l h))
                  (if_elim (NextIf I J) (same_text word word_stop) _ _
                    (with_name-NextIf args l (λ name. goes_on (legion_stop name a.stopping l)) h
                      (λ name.
                        goes_on-NextIf (legion_stop name a.stopping l)
                          (legion_stop-kept I kept.steady name a.stopping l h)))
                    (if_elim (NextIf I J) (same_text word word_logrotate) _ _
                      (with_name-NextIf args l
                        (λ name. goes_on (legion_logrotate name a.rotating l)) h
                        (λ name. goes_on-NextIf (legion_logrotate name a.rotating l) (
                          rotate_at-KeptIf (legion_daemon_name_exists name l) name a.rotating l h)))
                      (error_kept l h)))))))))

  pub check_args-NextIf :
      (a : Answers) (args : Arguments) (l : Legion) → I l → NextIf I J (legion_check_args a args l)
  unfolding legion_check_args
  check_args-NextIf a args l h =
      if_elim (NextIf I J) (ltb 0 args.arg_idx) _ _
        (with_text-NextIf (args.arg 0) (λ word. run_command word a args l)
          (λ word. run_command-NextIf word a args l h))
        h
