-- ===== src/Legion/Session/Ledger.antt =====
-- The ledger of a session of hw4/src/cli.c: at every prompt the reports of registrations and of
-- their ends leave the daemons of the table.
use mathlib.Core.Path.{subst}
use mathlib.Core.Bool.{false≢true}
use mathlib.Core.List.{append-nil, append_assoc}
use c_starter_projects.Prelude.{
  ◌≡◌, refl, ap, ◌∙◌, sym, Bool-cases, inl, inr, false, Option, none, some, List, [], ◌∷◌, ◌++◌,
  All, if_elim,
}
use c_starter_projects.Prelude.Strings.{Text, same_text, same_text→eq, same_text_self}
use c_starter_projects.Legion.Daemons.{
  Daemon, Legion, Event, sf_unregister, sf_fini, Outcome, StopAnswers, legion_stop, is_active,
}
use c_starter_projects.Legion.Daemons.Names.{names}
use c_starter_projects.Legion.Daemons.Steady.{IsSteady, KeptIf, legion_stop-kept}
use c_starter_projects.Legion.Daemons.Unique.{Fine, Fine-IsSteady, register-Fine, unregister-Fine}
use c_starter_projects.Legion.Daemons.Log.{
  registered, remove_first, Agrees, Agrees-IsSteady, logged-IsSteady, register-Agrees,
  unregister-Agrees,
}
use c_starter_projects.Legion.Commands.{legion_quit, stop_all, unregister_all, head_name}
use c_starter_projects.Legion.Commands.Kept.{IsKept, LeftIf}

module _ (I : Legion → Type 0) (steady : IsSteady I) where
  stop_then-LeftIf :
      (r : Option (Outcome × Legion)) (k : Legion → Option Legion)
      → KeptIf I r
      → ((m : Legion) → I m → LeftIf I (k m))
      → LeftIf I (elim r [ none ↦ none | some r' ↦ k r'.1 ])
  stop_then-LeftIf none k h f = tt
  stop_then-LeftIf (some r) k h f = f r.1 h

  stop_all-LeftIf :
      (ds : List Daemon) (a : Text → StopAnswers) (l : Legion) → I l → LeftIf I (stop_all ds a l)
  unfolding stop_all
  stop_all-LeftIf [] a l h = h
  stop_all-LeftIf (d ∷ rest) a l h =
      let stopped = legion_stop d.daemon_name (a d.daemon_name) l in
      if_elim (LeftIf I) (is_active d.daemon_status) _ _
        (stop_then-LeftIf stopped (stop_all rest a)
          (legion_stop-kept I steady d.daemon_name (a d.daemon_name) l h) (stop_all-LeftIf rest a))
        (stop_all-LeftIf rest a l h)

-- Only the name of the head can be left in the ledger.
abbrev pub AllHead : List Text → Type 0
AllHead = All (λ n. n ≡ head_name)

abbrev pub OnlyHeadLeft : Legion → Type 0
OnlyHeadLeft l = AllHead (registered l.events)

AllHead-snoc : (ns : List Text) (n : Text) → AllHead ns → n ≡ head_name → AllHead (ns ++ n ∷ [])
AllHead-snoc [] n h e = (e, tt)
AllHead-snoc (m ∷ ns) n h e = (h.0, AllHead-snoc ns n h.1 e)

differs_from_head :
    (m n : Text) → m ≡ head_name → same_text n head_name ≡ false → same_text m n ≡ false
differs_from_head m n e other = elim (Bool-cases (same_text m n)) [
  | inl same ↦
      let n_head : n ≡ head_name = sym (same_text→eq m n same) ∙ e in
      absurd
        (false≢true (sym other ∙ ap (λ t. same_text t head_name) n_head ∙ same_text_self head_name))
  | inr differs ↦ differs
]

remove_behind :
    (left : List Text) (n : Text) (rest : List Text)
    → AllHead left
    → same_text n head_name ≡ false
    → remove_first n (left ++ n ∷ rest) ≡ left ++ rest
unfolding remove_first
remove_behind [] n rest h other = rw (same_text_self n) refl
remove_behind (m ∷ left) n rest h other =
    rw (differs_from_head m n h.0 other) (ap (λ ns. m ∷ ns) (remove_behind left n rest h.1 other))

unregister_all-AllHead :
    (ds : List Daemon) (events : List Event) (left : List Text)
    → AllHead left
    → registered events ≡ left ++ names ds
    → AllHead (registered (unregister_all ds events))
unfolding unregister_all
unregister_all-AllHead [] events left h e = subst AllHead (sym (e ∙ append-nil left)) h
unregister_all-AllHead (d ∷ rest) events left h e =
    let n = d.daemon_name in
    elim (Bool-cases (same_text n head_name)) [
      | inl same ↦ rw same (
          unregister_all-AllHead rest events (left ++ n ∷ [])
            (AllHead-snoc left n h (same_text→eq n head_name same))
            (e ∙ sym (append_assoc left (n ∷ []) (names rest))))
      | inr other ↦ rw other (
          unregister_all-AllHead rest (sf_unregister n ∷ events) left h
            (ap (remove_first n) e ∙ remove_behind left n (names rest) h other))
    ]

quit_at-LeftIf :
    (ds : List Daemon) (o : Option Legion)
    → LeftIf (λ m. registered m.events ≡ names ds) o
    → LeftIf OnlyHeadLeft (elim o [
      | none ↦ none
      | some m ↦ some (record m { daemons = []; events = sf_fini ∷ unregister_all ds m.events })
    ])
quit_at-LeftIf ds none h = tt
quit_at-LeftIf ds (some m) h = unregister_all-AllHead ds m.events [] tt h

-- At a prompt: distinct names, and a ledger that has exactly them.
abbrev pub Coherent : Legion → Type 0
Coherent l = Fine l × Agrees l

pub quit-LeftIf :
    (a : Text → StopAnswers) (l : Legion) → Coherent l → LeftIf OnlyHeadLeft (legion_quit a l)
unfolding legion_quit
quit-LeftIf a l h =
    quit_at-LeftIf l.daemons (stop_all l.daemons a l)
      (stop_all-LeftIf _ (logged-IsSteady (names l.daemons)) l.daemons a l h.1)

KeptIf_both : (r : Option (Outcome × Legion)) → KeptIf Fine r → KeptIf Agrees r → KeptIf Coherent r
KeptIf_both none h k = tt
KeptIf_both (some r) h k = (h, k)

Coherent-IsSteady : IsSteady Coherent
Coherent-IsSteady = record {
  reported = λ e l quiet h. (h.0, Agrees-IsSteady.reported e l quiet h.1);
  updated = λ name f l keeps h.
      (Fine-IsSteady.updated name f l keeps h.0, Agrees-IsSteady.updated name f l keeps h.1);
  flagged = λ chld alrm l h. h;
}

pub Coherent-IsKept : IsKept Coherent OnlyHeadLeft
Coherent-IsKept = record {
  steady = Coherent-IsSteady;
  registered = λ n third name exe args l absent h.
      KeptIf_both _ (register-Fine n third name exe args l absent h.0)
        (register-Agrees n third name exe args l h.1);
  unregistered = λ name l h. (unregister-Fine name l h.0, unregister-Agrees name l h.1);
  quitted = quit-LeftIf;
}
