-- ===== src/Jeux/PlayerRegistry/Lookup.antt =====
-- What `preg_player_exists` of hw5/src/player_registry.c finds: the first player of that name among
-- the nodes that it looks at, which are all but the last one, or the only one.
use c_starter_projects.Prelude.{
  ℕ, ◌≡◌, refl, ap, ◌∙◌, ◌≢◌, Bool, false, Option, none, some, List, [], ◌∷◌, ◌++◌, arith, All,
  if◌then◌else◌,
}
use c_starter_projects.Prelude.Strings.{Text, same_text}
use c_starter_projects.Jeux.Run.{ok}
use c_starter_projects.Jeux.Store.{null, write, other-write}
use c_starter_projects.Jeux.Player.{Player, player_get_name}
use c_starter_projects.Jeux.PlayerRegistry.{
  PlayerRegistry, Players, named, exists_loop, exists_head, preg_player_exists,
}

abbrev pub matches : Players → Text → ℕ → Bool
matches players name p = elim (players p) [
  | none ↦ false
  | some player ↦ same_text player.player_name name
]

-- The first of the addresses whose player has the name, or NULL.
unfoldable pub first_named : Players → Text → List ℕ → ℕ
first_named players name [] = null
first_named players name (p ∷ rest) =
    let further = first_named players name rest in if matches players name p then p else further

abbrev pub but_last : List ℕ → List ℕ
but_last [] = []
but_last (p ∷ []) = []
but_last (p ∷ q ∷ rest) = p ∷ but_last (q ∷ rest)

-- The nodes whose players are looked at.
abbrev pub looked_at : List ℕ → List ℕ
looked_at [] = []
looked_at (p ∷ []) = p ∷ []
looked_at (p ∷ q ∷ rest) = p ∷ but_last (q ∷ rest)

abbrev pub IsLive : Players → ℕ → Type 0
IsLive players p = (player : Player) × (players p ≡ some player)

named_live :
    (players : Players) (name : Text) (p : ℕ)
    → IsLive players p
    → named players name p ≡ ok (matches players name p)
unfolding named
named_live players name p (player, e) = rw (named, player_get_name, matches, e) refl

loop-first_named :
    (players : Players) (name : Text) (nodes : List ℕ)
    → All (IsLive players) nodes
    → exists_loop players name nodes ≡ ok (first_named players name (but_last nodes))
unfolding exists_loop first_named
loop-first_named players name [] live = refl
loop-first_named players name (p ∷ []) live = refl
loop-first_named players name (p ∷ q ∷ rest) live =
    rw (named_live players name p live.0, loop-first_named players name (q ∷ rest) live.1)
      (ground arith)

head-first_named :
    (players : Players) (name : Text) (nodes : List ℕ)
    → All (IsLive players) nodes
    → exists_head players name nodes ≡ ok (first_named players name (looked_at nodes))
unfolding exists_head
head-first_named players name [] live = unfold first_named in refl
head-first_named players name (p ∷ []) live =
    rw (named_live players name p live.0) (unfold exists_loop first_named in ground arith)
head-first_named players name (p ∷ q ∷ rest) live =
    rw (named_live players name p live.0, loop-first_named players name (q ∷ rest) live.1)
      (unfold first_named in ground arith)

-- When the players of all nodes are live, `preg_player_exists` returns the first player of the name
-- among the nodes but the last one, or of the only node, and NULL when there is none.
pub player_exists-first_named :
    (preg : PlayerRegistry) (players : Players) (name : Text)
    → All (IsLive players) preg.nodes
    → preg_player_exists preg players name ≡ ok (first_named players name (looked_at preg.nodes))
unfolding preg_player_exists
player_exists-first_named preg players name live = head-first_named players name preg.nodes live

-- A player at another address changes nothing.
pub first_named-write :
    (players : Players) (name : Text) (fresh : ℕ) (left : Option Player) (nodes : List ℕ)
    → All (λ p. p ≢ fresh) nodes
    → first_named (write players fresh left) name nodes ≡ first_named players name nodes
unfolding first_named
first_named-write players name fresh left [] other = refl
first_named-write players name fresh left (p ∷ rest) other =
    rw
      (
        matches,
        other-write players fresh p left other.0,
        first_named-write players name fresh left rest other.1,
      )
      refl

pub IsLive-write :
    (players : Players) (fresh : ℕ) (left : Option Player) (nodes : List ℕ)
    → All (λ p. p ≢ fresh) nodes
    → All (IsLive players) nodes
    → All (IsLive (write players fresh left)) nodes
IsLive-write players fresh left [] other live = tt
IsLive-write players fresh left (p ∷ rest) other live = (
  (live.0.0, other-write players fresh p left other.0 ∙ live.0.1),
  IsLive-write players fresh left rest other.1 live.1,
)

but_last-append : (xs : List ℕ) (x : ℕ) → but_last (xs ++ x ∷ []) ≡ xs
but_last-append [] x = refl
but_last-append (p ∷ []) x = refl
but_last-append (p ∷ q ∷ rest) x = ap (λ t. p ∷ t) (but_last-append (q ∷ rest) x)

pub looked_at-append : (p x : ℕ) (rest : List ℕ) → looked_at ((p ∷ rest) ++ x ∷ []) ≡ p ∷ rest
looked_at-append p x [] = refl
looked_at-append p x (q ∷ rest) = ap (λ t. p ∷ t) (but_last-append (q ∷ rest) x)

All-but_last {ℓ} : (P : ℕ → Type ℓ) (nodes : List ℕ) → All P nodes → All P (but_last nodes)
All-but_last P [] h = tt
All-but_last P (p ∷ []) h = tt
All-but_last P (p ∷ q ∷ rest) h = (h.0, All-but_last P (q ∷ rest) h.1)

pub All-looked_at {ℓ} : (P : ℕ → Type ℓ) (nodes : List ℕ) → All P nodes → All P (looked_at nodes)
All-looked_at P [] h = tt
All-looked_at P (p ∷ []) h = h
All-looked_at P (p ∷ q ∷ rest) h = (h.0, All-but_last P (q ∷ rest) h.1)

first_named-but_last :
    (players : Players) (name : Text) (nodes : List ℕ)
    → first_named players name nodes ≡ null
    → first_named players name (but_last nodes) ≡ null
unfolding first_named
first_named-but_last players name [] h = refl
first_named-but_last players name (p ∷ []) h = refl
first_named-but_last players name (p ∷ q ∷ rest) h =
    ground (arith, h, first_named-but_last players name (q ∷ rest))

pub first_named-looked_at :
    (players : Players) (name : Text) (nodes : List ℕ)
    → first_named players name nodes ≡ null
    → first_named players name (looked_at nodes) ≡ null
first_named-looked_at players name [] h = h
first_named-looked_at players name (p ∷ []) h = h
first_named-looked_at players name (p ∷ q ∷ rest) h =
    first_named-but_last players name (p ∷ q ∷ rest) h
