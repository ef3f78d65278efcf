-- ===== src/Sfmm/Lists/Unlink.antt =====
-- A block out of a ring: `unlink`, and the walks of `sf_remove_from_free_list` of hw3/src/sfmm.c.
use mathlib.Core.Path.{subst}
use c_starter_projects.Prelude.{
  ℕ, zero, suc, ◌<◌, ◌≡◌, sym, ◌∙◌, ◌≢◌, true, false, some, List, [], ◌∷◌, ◌++◌, length, arith, All,
}
use c_starter_projects.Sfmm.Memory.{Memory, poke, next, prev}
use c_starter_projects.Sfmm.Lists.{unlink, walk_to}
use c_starter_projects.Sfmm.Lists.Ring.{
  Chain, Distinct, IsRow, IsRing, Apart-All, poke_other, Chain-poke-next, Chain-poke-prev,
}

pub All-before {ℓ} :
    (P : ℕ → Type ℓ) (us : List ℕ) (x : ℕ) (vs : List ℕ) → All P (us ++ x ∷ vs) → All P us
All-before P [] x vs h = tt
All-before P (u ∷ us) x vs h = (h.0, All-before P us x vs h.1)

pub All-at {ℓ} :
    (P : ℕ → Type ℓ) (us : List ℕ) (x : ℕ) (vs : List ℕ) → All P (us ++ x ∷ vs) → P x × All P vs
All-at P [] x vs h = h
All-at P (u ∷ us) x vs h = All-at P us x vs h.1

pub All-without {ℓ} :
    (P : ℕ → Type ℓ) (us : List ℕ) (x : ℕ) (vs : List ℕ) → All P (us ++ x ∷ vs) → All P (us ++ vs)
All-without P [] x vs h = h.1
All-without P (u ∷ us) x vs h = (h.0, All-without P us x vs h.1)

Distinct-without :
    (us : List ℕ) (x : ℕ) (vs : List ℕ) → Distinct (us ++ x ∷ vs) → Distinct (us ++ vs)
Distinct-without [] x vs h = h.1
Distinct-without (u ∷ us) x vs h =
    (All-without (λ y. y ≢ u) us x vs h.0, Distinct-without us x vs h.1)

-- The memory that `unlink` leaves, for the block's neighbours.
abbrev unlinked : ℕ → ℕ → Memory → Memory
unlinked p n mem = poke (next p) n (poke (prev n) p mem)

-- The neighbour before a block in a chain is the start or a block before it.
pub before-Chain {ℓ} :
    (P : ℕ → Type ℓ) (mem : Memory) (a x b : ℕ) (us vs : List ℕ)
    → Chain mem a (us ++ x ∷ vs) b
    → All P (a ∷ us)
    → P (mem (prev x))
before-Chain P mem a x b [] vs c h = subst P (sym c.1) h.0
before-Chain P mem a x b (u ∷ us) vs c h = before-Chain P mem u x b us vs c.2 h.1

-- The neighbour behind it is a block behind it or the end.
pub behind-Chain {ℓ} :
    (P : ℕ → Type ℓ) (mem : Memory) (a x b : ℕ) (us vs : List ℕ)
    → Chain mem a (us ++ x ∷ vs) b
    → All P vs
    → P b
    → P (mem (next x))
behind-Chain P mem a x b [] [] c h k = subst P (sym c.2.0) k
behind-Chain P mem a x b [] (v ∷ vs) c h k = subst P (sym c.2.0) h.0
behind-Chain P mem a x b (u ∷ us) vs c h k = behind-Chain P mem u x b us vs c.2 h k

at_neighbours :
    (mem : Memory) (a x b n : ℕ) (vs : List ℕ)
    → mem (prev x) ≡ a
    → mem (next x) ≡ n
    → Chain (unlinked a n mem) a vs b
    → Chain (unlinked (mem (prev x)) (mem (next x)) mem) a vs b
at_neighbours mem a x b n vs e k c =
    subst (λ p. Chain (unlinked p (mem (next x)) mem) a vs b) (sym e)
      (subst (λ q. Chain (unlinked a q mem) a vs b) (sym k) c)

unlinked-Chain :
    (mem : Memory) (a x b : ℕ) (us vs : List ℕ)
    → Chain mem a (us ++ x ∷ vs) b
    → Distinct (a ∷ us ++ x ∷ vs)
    → All IsRow (a ∷ us ++ x ∷ vs)
    → All (λ y. b ≢ y) (us ++ x ∷ vs)
    → IsRow b
    → Chain (unlinked (mem (prev x)) (mem (next x)) mem) a (us ++ vs) b
unlinked-Chain mem a x b [] [] c d r n rb =
    at_neighbours mem a x b b [] c.1 c.2.0 (ground arith, ground (arith, r.0))
unlinked-Chain mem a x b [] (v ∷ vs) c d r n rb =
    let m₁ = poke (prev v) a mem in
    let first : Chain m₁ v vs b =
      Chain-poke-prev mem v a v b vs r.1.1.0 r.1.1.0 (Apart-All v vs r.1.1.1 d.1.1.0) n.1.0 c.2.2 in
    let second : Chain (poke (next a) v m₁) v vs b =
      Chain-poke-next m₁ a v v b vs r.0 (Apart-All a (v ∷ vs) r.1.1 d.0.1) rb first in
    at_neighbours mem a x b v (v ∷ vs) c.1 c.2.0
      (ground arith, ground (arith, r.0, r.1.1.0), second)
unlinked-Chain mem a x b (u ∷ us) vs c d r n rb =
    let behind = All-at IsRow us x vs r.1.1 in
    let before = All-before IsRow us x vs r.1.1 in
    let p_row = before-Chain IsRow mem u x b us vs c.2 (r.1.0, before) in
    let n_row = behind-Chain IsRow mem u x b us vs c.2 behind.1 rb in
    let p_other =
      before-Chain (λ z. z ≢ a) mem u x b us vs c.2
        (d.0.0, All-before (λ z. z ≢ a) us x vs d.0.1) in
    let n_other =
      behind-Chain (λ z. z ≢ u) mem u x b us vs c.2 (All-at (λ z. z ≢ u) us x vs d.1.0).1 n.0 in
    let p = mem (prev x) in
    let q = mem (next x) in
    (
      poke_other (poke (prev q) p mem) (next p) (next a) q (omega (arith, p_other))
          ∙ poke_other mem (prev q) (next a) p (omega (arith, n_row, r.0))
          ∙ c.0,
      poke_other (poke (prev q) p mem) (next p) (prev u) q (omega (arith, p_row, r.1.0))
          ∙ poke_other mem (prev q) (prev u) p (omega (arith, n_other))
          ∙ c.1,
      unlinked-Chain mem u x b us vs c.2 d.1 r.1 n.1 rb,
    )

Distinct-at : (us : List ℕ) (x : ℕ) (vs : List ℕ) → Distinct (us ++ x ∷ vs) → All (λ y. y ≢ x) vs
Distinct-at [] x vs d = d.0
Distinct-at (u ∷ us) x vs d = Distinct-at us x vs d.1

pub All-sym : (h : ℕ) (xs : List ℕ) → All (λ y. y ≢ h) xs → All (λ y. h ≢ y) xs
All-sym h [] d = tt
All-sym h (x ∷ xs) d = (λ e. d.0 (sym e), All-sym h xs d.1)

-- In a ring, a block that is unlinked is the only one that leaves it.
pub unlink-IsRing :
    (mem : Memory) (h x : ℕ) (us vs : List ℕ)
    → IsRing mem h (us ++ x ∷ vs)
    → IsRing (unlink x mem) h (us ++ vs)
unfolding unlink
unlink-IsRing mem h x us vs ring =
    let sides = All-at (λ y. y ≢ h) us x vs ring.distinct.0 in
    let q = mem (next x) in
    let linked = poke (prev q) (mem (prev x)) mem in
    let q_other =
      behind-Chain (λ z. z ≢ x) mem h x h us vs ring.linked (Distinct-at us x vs ring.distinct.1)
        (λ e. sides.0 (sym e)) in
    let kept : linked (prev x) ≡ mem (prev x) =
      poke_other mem (prev q) (prev x) (mem (prev x)) (omega (arith, q_other)) in
    record {
      linked =
          subst (λ p. Chain (poke (next p) q linked) h (us ++ vs) h) (sym kept)
            (unlinked-Chain mem h x h us vs ring.linked ring.distinct ring.rows
              (All-sym h (us ++ x ∷ vs) ring.distinct.0) ring.rows.0);
      distinct = Distinct-without (h ∷ us) x vs ring.distinct;
      rows = All-without IsRow (h ∷ us) x vs ring.rows;
    }

pub walk_to_there :
    (mem : Memory) (h x a : ℕ) (us vs : List ℕ) (fuel : ℕ)
    → Chain mem a (us ++ x ∷ vs) h
    → All (λ y. y ≢ h) (us ++ x ∷ vs)
    → length us < fuel
    → walk_to fuel h x a mem ≡ some true
unfolding walk_to
walk_to_there mem h x a us vs zero c n f = absurd (omega arith)
walk_to_there mem h x a [] vs (suc fuel) c n f = ground (arith, c.0, n.0)
walk_to_there mem h x a (u ∷ us) vs (suc fuel) c n f =
    let rest : walk_to fuel h x u mem ≡ some true =
      walk_to_there mem h x u us vs fuel c.2 n.1 (omega arith) in
    rw (c.0, rest) (ground (arith, n.0))

pub walk_to_absent :
    (mem : Memory) (h x a : ℕ) (xs : List ℕ) (fuel : ℕ)
    → Chain mem a xs h
    → All (λ y. y ≢ h) xs
    → All (λ y. y ≢ x) xs
    → length xs < fuel
    → walk_to fuel h x a mem ≡ some false
unfolding walk_to
walk_to_absent mem h x a xs zero c n o f = absurd (omega arith)
walk_to_absent mem h x a [] (suc fuel) c n o f = rw c.0 (ground arith)
walk_to_absent mem h x a (y ∷ ys) (suc fuel) c n o f =
    let rest : walk_to fuel h x y mem ≡ some false =
      walk_to_absent mem h x y ys fuel c.2 n.1 o.1 (omega arith) in
    rw (c.0, rest) (ground (arith, n.0, o.0))
