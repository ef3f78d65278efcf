-- ===== src/Legion/Daemons/Log.antt =====
-- The reports of hw4/src/cli.c against its table: the daemons that are registered by the log.
use mathlib.Core.Bool.{false≢true}
use c_starter_projects.Prelude.{
  ℕ, ◌≡◌, refl, ap, ◌∙◌, sym, Bool-cases, inl, inr, true, ◌&&◌, if_elim, Option, none, some, List,
  [], ◌∷◌, if◌then◌else◌,
}
use c_starter_projects.Prelude.Strings.{Text, same_text}
use c_starter_projects.Legion.Daemons.{
  Daemon, Event, sf_init, sf_register, sf_unregister, sf_start, sf_active, sf_stop, sf_kill,
  sf_term, sf_crash, sf_reset, sf_logrotate, sf_fini, sf_error, Legion, legion_register,
  legion_unregister, unregister_at, take_out, is_inactive, fits,
}
use c_starter_projects.Legion.Daemons.Names.{names, names-write_found}
use c_starter_projects.Legion.Daemons.Steady.{IsSteady, KeptIf, is_quiet}

unfoldable pub remove_first : Text → List Text → List Text
remove_first name [] = []
remove_first name (n ∷ ns) =
    let further = remove_first name ns in if same_text n name then ns else n ∷ further

-- The names that are registered and not unregistered, the last event being the first of the list.
abbrev pub registered : List Event → List Text
registered [] = []
registered (sf_register name args ∷ events) = name ∷ registered events
registered (sf_unregister name ∷ events) = remove_first name (registered events)
registered (_ ∷ events) = registered events

pub registered_quiet :
    (e : Event) (events : List Event)
    → is_quiet e ≡ true
    → registered (e ∷ events) ≡ registered events
registered_quiet (sf_register name args) events h = absurd (false≢true h)
registered_quiet (sf_unregister name) events h = absurd (false≢true h)
registered_quiet sf_init events h = refl
registered_quiet (sf_start name) events h = refl
registered_quiet (sf_active name pid) events h = refl
registered_quiet (sf_stop name pid) events h = refl
registered_quiet (sf_kill name pid) events h = refl
registered_quiet (sf_term name pid) events h = refl
registered_quiet (sf_crash name pid) events h = refl
registered_quiet (sf_reset name) events h = refl
registered_quiet (sf_logrotate name) events h = refl
registered_quiet sf_fini events h = refl
registered_quiet sf_error events h = refl

-- The log agrees with the table: same names, in the same order.
abbrev pub Agrees : Legion → Type 0
Agrees l = registered l.events ≡ names l.daemons

pub Agrees-IsSteady : IsSteady Agrees
Agrees-IsSteady = record {
  reported = λ e l quiet h. registered_quiet e l.events quiet ∙ h;
  updated = λ name f l keeps h. h ∙ sym (names-write_found name f keeps l.daemons);
  flagged = λ chld alrm l h. h;
}

-- The log of a table that was once, whatever becomes of the daemons.
pub logged-IsSteady : (ns : List Text) → IsSteady (λ l. registered l.events ≡ ns)
logged-IsSteady ns = record {
  reported = λ e l quiet h. registered_quiet e l.events quiet ∙ h;
  updated = λ name f l keeps h. h;
  flagged = λ chld alrm l h. h;
}

pub register-Agrees :
    (arg_idx : ℕ) (third name exe args : Text) (l : Legion)
    → Agrees l
    → KeptIf Agrees (legion_register arg_idx third name exe args l)
unfolding legion_register
register-Agrees arg_idx third name exe args l h =
    if_elim (KeptIf Agrees) (fits name && fits exe && fits args) _ _ (ap (λ ns. name ∷ ns) h) tt

abbrev NamesAre : List Text → Option (List Daemon) → Type 0
NamesAre ns none = Unit {0}
NamesAre ns (some left) = names left ≡ ns

NamesAre-cons :
    (d : Daemon) (ns : List Text) (o : Option (List Daemon))
    → NamesAre ns o
    → NamesAre (d.daemon_name ∷ ns) (elim o [ none ↦ none | some left ↦ some (d ∷ left) ])
NamesAre-cons d ns none h = tt
NamesAre-cons d ns (some left) h = ap (λ ms. d.daemon_name ∷ ms) h

take_out-NamesAre :
    (name : Text) (ds : List Daemon) → NamesAre (remove_first name (names ds)) (take_out name ds)
unfolding take_out remove_first
take_out-NamesAre name [] = tt
take_out-NamesAre name (d ∷ rest) =
    let inactive =
      if_elim (NamesAre (names rest)) (is_inactive d.daemon_status) (some rest) none refl tt in
    let further = NamesAre-cons d _ (take_out name rest) (take_out-NamesAre name rest) in
    elim (Bool-cases (same_text d.daemon_name name)) [
      | inl e ↦ rw e inactive
      | inr e ↦ rw e further
    ]

unregister_at-Agrees :
    (name : Text) (l : Legion) (o : Option (List Daemon))
    → NamesAre (remove_first name (names l.daemons)) o
    → Agrees l
    → Agrees (unregister_at o name l).1
unfolding unregister_at
unregister_at-Agrees name l none k h = h
unregister_at-Agrees name l (some left) k h = ap (remove_first name) h ∙ sym k

pub unregister-Agrees : (name : Text) (l : Legion) → Agrees l → Agrees (legion_unregister name l).1
unfolding legion_unregister
unregister-Agrees name l h =
    unregister_at-Agrees name l (take_out name l.daemons) (take_out-NamesAre name l.daemons) h
