-- ===== src/Legion/Child/Buffers.antt =====
-- The buffers of the child in `legion_start` of hw4/src/cli.c.
use c_starter_projects.Prelude.{
  ℕ, suc, ◌+◌, ◌-◌, ◌<◌, ◌≤◌, ◌≡◌, refl, ap, zero, ltb, Option, none, some, [], ◌∷◌, ◌++◌, length,
  length-append, take, arith, if_elim,
}
use c_starter_projects.Prelude.Strings.{Text}
use c_starter_projects.Legion.Daemons.{Daemon, Legion}
use c_starter_projects.Legion.Child.{
  ChildAnswers, start_child, child_paths, both, run_child, log_path, logfile_dir, daemons_dir,
  snprintf, snprintf_max_len,
}

take-length_whole : (n : ℕ) (t : Text) → length t ≤ n → take n t ≡ t
take-length_whole zero [] h = refl
take-length_whole zero (c ∷ t) h = absurd (omega arith)
take-length_whole (suc n) [] h = refl
take-length_whole (suc n) (c ∷ t) h = ap (λ s. c ∷ s) (take-length_whole n t (omega arith))

snprintf_overruns :
    (size : ℕ) (t : Text) → length t < snprintf_max_len → size ≤ length t → snprintf size t ≡ none
snprintf_overruns size t short long =
    rw (take-length_whole (snprintf_max_len - 1) t (omega arith)) (ground (arith, long))

length-log_path : (name : Text) (v : ℕ) → length (log_path name v) ≡ length name + 11
unfolding log_path
length-log_path name v =
    omega (arith, length-append name (b'.' ∷ b'l' ∷ b'o' ∷ b'g' ∷ b'.' ∷ v ∷ []))

no_paths : (path name : Text) (v : ℕ) → length name < 100 → child_paths path name v ≡ none
unfolding child_paths
no_paths path name v h =
    let e = length-log_path name v in
    let env = snprintf (length daemons_dir + (length path - 2)) (daemons_dir ++ b':' ∷ path) in
    let over =
      snprintf_overruns (length logfile_dir + length name + 2) (log_path name v) (omega (arith, e))
        (omega (arith, e)) in
    if_elim (λ (o : Option (Text × Text)). o ≡ none) (ltb (length path) 2) none _ refl
      (ap (both env) over)

run_paths :
    (path : Option Text) (a : ChildAnswers) (l : Legion) (d : Daemon) (version : ℕ)
    → length d.daemon_name < 100
    → (elim path [ none ↦ none | some p ↦ run_child (child_paths p d.daemon_name version) d a l ])
      ≡ none
run_paths none a l d version h = refl
run_paths (some p) a l d version h =
    ap (λ o. run_child o d a l) (no_paths p d.daemon_name version h)

-- The child of a daemon whose name fits its array never comes to run the program of the daemon: the
-- path of the log file does not fit the object that is allocated for it, so that every run of it is
-- undefined.
pub start_child_overruns :
    (d : Daemon) (version : ℕ) (a : ChildAnswers) (l : Legion)
    → length d.daemon_name < 100
    → start_child d version a l ≡ none
unfolding start_child
start_child_overruns d version a l h = run_paths a.path_env_var a l d version h
