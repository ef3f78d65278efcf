-- ===== src/Legion/Daemons/Unique.antt =====
-- The names of the daemons of hw4/src/cli.c stay distinct.
use mathlib.Core.Path.{subst}
use c_starter_projects.Prelude.{
  ℕ, ◌≡◌, sym, ◌≢◌, if_elim, ◌&&◌, Option, none, some, List, [], ◌∷◌, All,
}
use c_starter_projects.Prelude.Strings.{Text, same_text}
use c_starter_projects.Legion.Daemons.{
  Daemon, Legion, legion_daemon_name_exists, legion_register, legion_unregister, take_out,
  unregister_at, fits, is_inactive,
}
use c_starter_projects.Legion.Daemons.Names.{names, names-write_found, find_daemon-absent}
use c_starter_projects.Legion.Daemons.Steady.{IsSteady, KeptIf}

abbrev pub Distinct : List Text → Type 0
Distinct [] = Unit {0}
Distinct (n ∷ ns) = All (λ m. m ≢ n) ns × Distinct ns

abbrev AllKept {ℓ} : (Text → Type ℓ) → Option (List Daemon) → Type ℓ
AllKept P none = Unit
AllKept P (some left) = All P (names left)

AllKept-cons {ℓ} :
    (P : Text → Type ℓ) (d : Daemon) (o : Option (List Daemon))
    → P d.daemon_name
    → AllKept P o
    → AllKept P (elim o [ none ↦ none | some left ↦ some (d ∷ left) ])
AllKept-cons P d none p h = tt
AllKept-cons P d (some left) p h = (p, h)

All-take_out {ℓ} :
    (P : Text → Type ℓ) (name : Text) (ds : List Daemon)
    → All P (names ds)
    → AllKept P (take_out name ds)
unfolding take_out
All-take_out P name [] h = tt
All-take_out P name (d ∷ rest) h =
    if_elim (AllKept P) (same_text d.daemon_name name) _ _
      (if_elim (AllKept P) (is_inactive d.daemon_status) _ _ h.1 tt)
      (AllKept-cons P d (take_out name rest) h.0 (All-take_out P name rest h.1))

abbrev DistinctIf : Option (List Daemon) → Type 0
DistinctIf none = Unit {0}
DistinctIf (some left) = Distinct (names left)

DistinctIf-cons :
    (d : Daemon) (o : Option (List Daemon))
    → AllKept (λ m. m ≢ d.daemon_name) o
    → DistinctIf o
    → DistinctIf (elim o [ none ↦ none | some left ↦ some (d ∷ left) ])
DistinctIf-cons d none k h = tt
DistinctIf-cons d (some left) k h = (k, h)

take_out-Distinct :
    (name : Text) (ds : List Daemon) → Distinct (names ds) → DistinctIf (take_out name ds)
unfolding take_out
take_out-Distinct name [] h = tt
take_out-Distinct name (d ∷ rest) h =
    if_elim DistinctIf (same_text d.daemon_name name) _ _
      (if_elim DistinctIf (is_inactive d.daemon_status) _ _ h.1 tt)
      (DistinctIf-cons d (take_out name rest) (All-take_out (λ m. m ≢ d.daemon_name) name rest h.0)
        (take_out-Distinct name rest h.1))

abbrev pub Fine : Legion → Type 0
Fine l = Distinct (names l.daemons)

pub Fine-IsSteady : IsSteady Fine
Fine-IsSteady = record {
  reported = λ e l quiet h. h;
  updated = λ name f l keeps h. subst Distinct (sym (names-write_found name f keeps l.daemons)) h;
  flagged = λ chld alrm l h. h;
}

pub register-Fine :
    (arg_idx : ℕ) (third name exe args : Text) (l : Legion)
    → legion_daemon_name_exists name l ≡ none
    → Fine l
    → KeptIf Fine (legion_register arg_idx third name exe args l)
unfolding legion_register legion_daemon_name_exists
register-Fine arg_idx third name exe args l absent h =
    if_elim (KeptIf Fine) (fits name && fits exe && fits args) _ _
      (find_daemon-absent name l.daemons absent, h) tt

unregister_at-Fine :
    (name : Text) (l : Legion) (o : Option (List Daemon))
    → DistinctIf o
    → Fine l
    → Fine (unregister_at o name l).1
unfolding unregister_at
unregister_at-Fine name l none k h = h
unregister_at-Fine name l (some left) k h = k

pub unregister-Fine : (name : Text) (l : Legion) → Fine l → Fine (legion_unregister name l).1
unfolding legion_unregister
unregister-Fine name l h =
    unregister_at-Fine name l (take_out name l.daemons) (take_out-Distinct name l.daemons h) h
