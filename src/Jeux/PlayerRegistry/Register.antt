-- ===== src/Jeux/PlayerRegistry/Register.antt =====
-- `preg_register` of hw5/src/player_registry.c: its two outcomes, what every history of calls keeps,
-- and the duplicates that it lets in.
use mathlib.Core.Path.{subst}
use c_starter_projects.Prelude.{
  ℕ, suc, ◌<◌, ◌≡◌, refl, sym, ap, ◌∙◌, ◌≢◌, inl, inr, ◌⊎◌, none, some, List, [], ◌∷◌, ◌++◌, arith,
  All, All-append, length, length-append,
}
use c_starter_projects.Prelude.Int.{pos}
use c_starter_projects.Prelude.Strings.{Text}
use c_starter_projects.Jeux.Run.{Run, ok, ◌>>=◌, Returning}
use c_starter_projects.Jeux.Store.{null, write, null-cases, self-write}
use c_starter_projects.Jeux.Player.{Player, player_create, name_max_length, player_initial_rating}
use c_starter_projects.Jeux.PlayerRegistry.{
  PlayerRegistry, Players, preg_init, preg_player_exists, preg_register,
}
use c_starter_projects.Jeux.PlayerRegistry.Lookup.{
  IsLive, first_named, looked_at, player_exists-first_named, first_named-write, IsLive-write,
  looked_at-append, All-looked_at, first_named-looked_at,
}

abbrev pub new_player : Text → Player
new_player name = record {
  player_name = name;
  ref_count = pos 1;
  rating = player_initial_rating;
  player_lock = 1;
}

pub record IsWellFormed (preg : PlayerRegistry) (players : Players) : Type 0 where
  pub unlocked : preg.registry_lock ≡ 1
  pub counted : preg.player_count ≡ length preg.nodes
  pub live : All (IsLive players) preg.nodes

-- A name that fits, and an address that no node holds.
pub record IsRequest (preg : PlayerRegistry) (fresh : ℕ) (name : Text) : Type 0 where
  pub fits : length name < name_max_length
  pub usable : fresh ≢ null
  pub unused : All (λ p. p ≢ fresh) preg.nodes

abbrev pub lookup : PlayerRegistry → Players → Text → ℕ
lookup preg players name = first_named players name (looked_at preg.nodes)

-- The store with the new player, and the store after it is freed again.
abbrev pub created : Players → ℕ → Text → Players
created players fresh name = write players fresh (some (new_player name))

abbrev pub freed : Players → ℕ → Text → Players
freed players fresh name = write (created players fresh name) fresh none

abbrev pub appended : PlayerRegistry → ℕ → PlayerRegistry
appended preg fresh = record preg {
  nodes = preg.nodes ++ fresh ∷ [];
  player_count = suc preg.player_count;
}

module _ (preg : PlayerRegistry) (players : Players) (fresh : ℕ) (name : Text)
    (w : IsWellFormed preg players) (r : IsRequest preg fresh name) where
  create_ok : player_create name ≡ ok (new_player name)
  create_ok = unfold player_create in ground (arith, r.fits)

  IsLive-created : All (IsLive (created players fresh name)) preg.nodes
  IsLive-created = IsLive-write players fresh (some (new_player name)) preg.nodes r.unused w.live

  unseen : All (λ p. p ≢ fresh) (looked_at preg.nodes)
  unseen = All-looked_at (λ p. p ≢ fresh) preg.nodes r.unused

  exists_created :
      preg_player_exists preg (created players fresh name) name ≡ ok (lookup preg players name)
  exists_created =
      player_exists-first_named preg (created players fresh name) name IsLive-created
      ∙ ap ok (
          first_named-write players name fresh (some (new_player name)) (looked_at preg.nodes)
            unseen)

  exists_freed :
      preg_player_exists preg (freed players fresh name) name ≡ ok (lookup preg players name)
  exists_freed =
      player_exists-first_named preg (freed players fresh name) name
        (IsLive-write (created players fresh name) fresh none preg.nodes r.unused IsLive-created)
      ∙ ap ok (
          first_named-write (created players fresh name) name fresh none (looked_at preg.nodes)
            unseen
          ∙ first_named-write players name fresh (some (new_player name)) (looked_at preg.nodes)
              unseen)

  posted_same : record preg { registry_lock = 1 } ≡ preg
  posted_same = ap (λ k. record preg { registry_lock = k }) (sym w.unlocked)

  register_known :
      lookup preg players name ≢ null
      → preg_register fresh preg players name
        ≡ ok (lookup preg players name, preg, (freed players fresh name))
  unfolding preg_register
  register_known known =
      rw (create_ok, w.unlocked, exists_created, posted_same, exists_freed) (ground (arith, known))

  register_new :
      lookup preg players name ≡ null
      → preg_register fresh preg players name
        ≡ ok (fresh, appended preg fresh, (created players fresh name))
  unfolding preg_register
  register_new unknown = rw (create_ok, w.unlocked, exists_created, unknown) refl

-- For a well-formed registry, a name that fits its buffer and an unused address, `preg_register`
-- returns the player that `preg_player_exists` finds, with the registry as it was and the new
-- player freed; where none is found, it appends the new player and counts it. The reference count of
-- a player that is found is not increased, and that of a new player is one.
pub register_cases :
    (preg : PlayerRegistry) (players : Players) (fresh : ℕ) (name : Text)
    → IsWellFormed preg players
    → IsRequest preg fresh name
    → ((lookup preg players name ≢ null)
        × (preg_register fresh preg players name
            ≡ ok (lookup preg players name, preg, freed players fresh name)))
      ⊎ ((lookup preg players name ≡ null)
          × (preg_register fresh preg players name
              ≡ ok (fresh, appended preg fresh, created players fresh name)))
register_cases preg players fresh name w r = elim (null-cases (lookup preg players name)) [
  | inl unknown ↦ inr (unknown, register_new preg players fresh name w r unknown)
  | inr known ↦ inl (known, register_known preg players fresh name w r known)
]

-- The registries that `preg_register` makes from the first one, each time with a name that fits and
-- an unused address.
pub data PregReach : PlayerRegistry → Players → Type 0 where
  starts : (players : Players) → PregReach preg_init players
  registers :
      {preg : PlayerRegistry} {players : Players} {preg' : PlayerRegistry} {players' : Players}
      (fresh : ℕ) (name : Text) (p : ℕ)
      → PregReach preg players
      → IsRequest preg fresh name
      → preg_register fresh preg players name ≡ ok (p, preg', players')
      → PregReach preg' players'

-- The result of a call is a well-formed registry.
abbrev pub Keeps : Run (ℕ × PlayerRegistry × Players) → Type 0
Keeps = Returning (λ r. IsWellFormed r.1 r.2)

pub register-Keeps :
    (preg : PlayerRegistry) (players : Players) (fresh : ℕ) (name : Text)
    → IsWellFormed preg players
    → IsRequest preg fresh name
    → Keeps (preg_register fresh preg players name)
register-Keeps preg players fresh name w r =
    let live : All (IsLive (created players fresh name)) preg.nodes =
      IsLive-write players fresh (some (new_player name)) preg.nodes r.unused w.live in
    elim (register_cases preg players fresh name w r) [
      | inl (known, e) ↦ subst Keeps (sym e) (record {
        unlocked = w.unlocked;
        counted = w.counted;
        live = IsLive-write (created players fresh name) fresh none preg.nodes r.unused live;
      })
      | inr (unknown, e) ↦ subst Keeps (sym e) (record {
        unlocked = w.unlocked;
        counted = omega (arith, w.counted, length-append preg.nodes (fresh ∷ []));
        live =
            All-append (IsLive (created players fresh name)) preg.nodes (fresh ∷ []) live
              ((new_player name, self-write players fresh (some (new_player name))), tt);
      })
    ]

-- Every registry that `preg_register` makes from the first one is unlocked, counts its nodes, and
-- has a live player at each of them.
pub PregReach-IsWellFormed :
    {preg : PlayerRegistry} {players : Players} → PregReach preg players → IsWellFormed preg players
PregReach-IsWellFormed (starts players) =
    unfold preg_init in record { unlocked = refl; counted = refl; live = tt }
PregReach-IsWellFormed (registers fresh name p reach r e) =
    subst Keeps e (register-Keeps _ _ fresh name (PregReach-IsWellFormed reach) r)

-- In a well-formed registry with a node, a name that no node has is registered twice: the second
-- call, at another unused address, makes a second player of that name.
pub register_twice :
    (preg : PlayerRegistry) (players : Players) (first second p : ℕ) (rest : List ℕ) (name : Text)
    → IsWellFormed preg players
    → preg.nodes ≡ p ∷ rest
    → first_named players name preg.nodes ≡ null
    → IsRequest preg first name
    → IsRequest (appended preg first) second name
    → (preg_register first preg players name >>= λ left. preg_register second left.1 left.2 name)
      ≡ ok (
        second,
        appended (appended preg first) second,
        created (created players first name) second name,
      )
register_twice preg players first second p rest name w e unknown r₁ r₂ =
    let missing : lookup preg players name ≡ null =
      first_named-looked_at players name preg.nodes unknown in
    let still_missing : lookup (appended preg first) (created players first name) name ≡ null =
      ap (first_named (created players first name) name)
        (ap (λ n. looked_at (n ++ first ∷ [])) e ∙ looked_at-append p first rest ∙ sym e)
      ∙ first_named-write players name first (some (new_player name)) preg.nodes r₁.unused
      ∙ unknown in
    let w' : IsWellFormed (appended preg first) (created players first name) =
      subst Keeps (register_new preg players first name w r₁ missing)
        (register-Keeps preg players first name w r₁) in
    rw (register_new preg players first name w r₁ missing) (
      register_new (appended preg first) (created players first name) second name w' r₂
        still_missing)
