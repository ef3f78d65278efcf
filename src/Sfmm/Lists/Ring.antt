-- ===== src/Sfmm/Lists/Ring.antt =====
-- A free list of hw3/src/sfmm.c as the list of its blocks: a doubly linked ring through a sentinel.
use mathlib.Core.Path.{subst}
use c_starter_projects.Prelude.{ℕ, ◌%◌, ◌≡◌, sym, ◌∙◌, ◌≢◌, List, [], ◌∷◌, arith, All}
use c_starter_projects.Sfmm.Memory.{Memory, poke, next, prev}
use c_starter_projects.Sfmm.Lists.{insert_after}

-- The links from `a` along the blocks to `b`, both ways.
abbrev pub Chain : Memory → ℕ → List ℕ → ℕ → Type 0
Chain mem a [] b = (mem (next a) ≡ b) × (mem (prev b) ≡ a)
Chain mem a (x ∷ xs) b = (mem (next a) ≡ x) × (mem (prev x) ≡ a) × Chain mem x xs b

abbrev pub Distinct : List ℕ → Type 0
Distinct [] = Unit {0}
Distinct (x ∷ xs) = All (λ y. y ≢ x) xs × Distinct xs

abbrev pub IsRow : ℕ → Type 0
IsRow a = a % 16 ≡ 0

-- The ring of a sentinel: its blocks are different rows of memory.
pub record IsRing (mem : Memory) (head : ℕ) (blocks : List ℕ) : Type 0 where
  pub linked : Chain mem head blocks head
  pub distinct : Distinct (head ∷ blocks)
  pub rows : All IsRow (head ∷ blocks)

pub poke_other : (mem : Memory) (p q v : ℕ) → q ≢ p → poke p v mem q ≡ mem q
poke_other mem p q v ne = ground arith

pub poke_same : (mem : Memory) (p v : ℕ) → poke p v mem p ≡ v
poke_same mem p v = ground arith

-- A block that is a row other than `y`.
abbrev pub Apart : ℕ → ℕ → Type 0
Apart y z = IsRow z × (z ≢ y)

pub Chain-poke-next :
    (mem : Memory) (y v a b : ℕ) (xs : List ℕ)
    → IsRow y
    → All (Apart y) (a ∷ xs)
    → IsRow b
    → Chain mem a xs b
    → Chain (poke (next y) v mem) a xs b
Chain-poke-next mem y v a b [] r o rb c = (
  poke_other mem (next y) (next a) v (omega (arith, o.0.1)) ∙ c.0,
  poke_other mem (next y) (prev b) v (omega arith) ∙ c.1,
)
Chain-poke-next mem y v a b (x ∷ xs) r o rb c = (
  poke_other mem (next y) (next a) v (omega (arith, o.0.1)) ∙ c.0,
  poke_other mem (next y) (prev x) v (omega (arith, o.1.0.0)) ∙ c.1,
  Chain-poke-next mem y v x b xs r o.1 rb c.2,
)

pub Chain-poke-prev :
    (mem : Memory) (y v a b : ℕ) (xs : List ℕ)
    → IsRow y
    → IsRow a
    → All (Apart y) xs
    → b ≢ y
    → Chain mem a xs b
    → Chain (poke (prev y) v mem) a xs b
Chain-poke-prev mem y v a b [] r ra o nb c = (
  poke_other mem (prev y) (next a) v (omega arith) ∙ c.0,
  poke_other mem (prev y) (prev b) v (omega (arith, nb)) ∙ c.1,
)
Chain-poke-prev mem y v a b (x ∷ xs) r ra o nb c = (
  poke_other mem (prev y) (next a) v (omega arith) ∙ c.0,
  poke_other mem (prev y) (prev x) v (omega (arith, o.0.1)) ∙ c.1,
  Chain-poke-prev mem y v x b xs r o.0.0 o.1 nb c.2,
)

pub Apart-All : (y : ℕ) (xs : List ℕ) → All IsRow xs → All (λ z. z ≢ y) xs → All (Apart y) xs
Apart-All y [] r d = tt
Apart-All y (x ∷ xs) r d = ((r.0, d.0), Apart-All y xs r.1 d.1)

-- The memory that `insert_after` leaves, for the block `o` that was first.
abbrev inserted : ℕ → ℕ → ℕ → Memory → Memory
inserted h x o mem = poke (next h) x (poke (prev x) h (poke (next x) o (poke (prev o) x mem)))

abbrev pub first_of : List ℕ → ℕ → ℕ
first_of [] h = h
first_of (y ∷ ys) h = y

pub first_link :
    (mem : Memory) (h : ℕ) (xs : List ℕ) → Chain mem h xs h → mem (next h) ≡ first_of xs h
first_link mem h [] c = c.0
first_link mem h (y ∷ ys) c = c.0

inserted-Chain :
    (mem : Memory) (h x : ℕ) (xs : List ℕ)
    → Chain mem h xs h
    → Distinct (h ∷ xs)
    → All IsRow (h ∷ xs)
    → IsRow x
    → All (λ y. y ≢ x) (h ∷ xs)
    → Chain (inserted h x (first_of xs h) mem) h (x ∷ xs) h
inserted-Chain mem h x [] c d r rx n =
    (ground arith, ground (arith, n.0), (ground (arith, n.0), ground (arith, n.0)))
inserted-Chain mem h x (y ∷ ys) c d r rx n =
    let m₁ = poke (prev y) x mem in
    let m₂ = poke (next x) y m₁ in
    let m₃ = poke (prev x) h m₂ in
    let first : Chain m₁ y ys h =
      Chain-poke-prev mem y x y h ys r.1.0 r.1.0 (Apart-All y ys r.1.1 d.1.0) (λ e. d.0.0 (sym e))
        c.2 in
    let second : Chain m₂ y ys h =
      Chain-poke-next m₁ x y y h ys rx (Apart-All x (y ∷ ys) r.1 n.1) r.0 first in
    let third : Chain m₃ y ys h =
      Chain-poke-prev m₂ x h y h ys rx r.1.0 (Apart-All x ys r.1.1 n.1.1) n.0 second in
    let fourth : Chain (poke (next h) x m₃) y ys h =
      Chain-poke-next m₃ h x y h ys r.0 (Apart-All h (y ∷ ys) r.1 d.0) r.0 third in
    (ground arith, ground (arith, n.0), (ground (arith, n.0), ground (arith, n.0, n.1.0), fourth))

-- A block that is put behind the sentinel of a ring, and is none of the ring, is its first.
pub insert_after-IsRing :
    (mem : Memory) (h x : ℕ) (xs : List ℕ)
    → IsRing mem h xs
    → IsRow x
    → All (λ y. y ≢ x) (h ∷ xs)
    → IsRing (insert_after h x mem) h (x ∷ xs)
unfolding insert_after
insert_after-IsRing mem h x xs ring rx n = record {
  linked =
      subst (λ o. Chain (inserted h x o mem) h (x ∷ xs) h) (sym (first_link mem h xs ring.linked))
        (inserted-Chain mem h x xs ring.linked ring.distinct ring.rows rx n);
  distinct = ((λ e. n.0 (sym e), ring.distinct.0), (n.1, ring.distinct.1));
  rows = (ring.rows.0, (rx, ring.rows.1));
}
