-- ===== src/Sfmm/Lists/Search.antt =====
-- The search of `sf_malloc` of hw3/src/sfmm.c through the free lists: a first fit.
use c_starter_projects.Prelude.{
  ℕ, zero, suc, ◌-◌, ◌<◌, ◌≤◌, ◌≡◌, refl, sym, ap, ◌∙◌, ◌≢◌, inl, inr, Bool-cases, false, Option,
  none, some, List, [], ◌∷◌, ◌++◌, length, arith, All, leb, ◌==◌, if◌then◌else◌, Bool,
}
use c_starter_projects.Sfmm.Memory.{Machine, Memory, sentinel, read_header, take_out_flags}
use c_starter_projects.Sfmm.Lists.{◌>>=◌, num_free_lists}
use c_starter_projects.Sfmm.Lists.Ring.{Chain}
use c_starter_projects.Sfmm.Lists.Table.{FreeLists}
use c_starter_projects.Sfmm.Lists.Removal.{Enough}
use c_starter_projects.Sfmm.Alloc.{first_fit, search_from}

module _ (m : Machine) (size : ℕ) (mem : Memory) where
  -- Whether a block has the size.
  abbrev pub is_large : ℕ → Bool
  is_large x = leb size (take_out_flags (read_header m mem x))

  -- The first block of a list that has the size.
  unfoldable pub first_large : List ℕ → Option ℕ
  first_large [] = none
  first_large (x ∷ xs) = let further = first_large xs in if is_large x then some x else further

  first_large-append :
      (xs ys : List ℕ)
      → first_large (xs ++ ys) ≡ elim (first_large xs) [ none ↦ first_large ys | some x ↦ some x ]
  unfolding first_large
  first_large-append [] ys = refl
  first_large-append (x ∷ xs) ys = elim (Bool-cases (is_large x)) [
    | inl large ↦ rw large refl
    | inr small ↦ rw small (first_large-append xs ys)
  ]

  first_fit-first_large :
      (fuel h a : ℕ) (xs : List ℕ)
      → Chain mem a xs h
      → All (λ y. y ≢ h) xs
      → length xs < fuel
      → first_fit m fuel h size a mem ≡ some (first_large xs)
  unfolding first_fit first_large
  first_fit-first_large zero h a xs c n f = absurd (omega arith)
  first_fit-first_large (suc fuel) h a [] c n f = rw c.0 (ground arith)
  first_fit-first_large (suc fuel) h a (x ∷ xs) c n f =
      let rest = first_fit-first_large fuel h x xs c.2 n.1 (omega arith) in
      let inside : (x == h) ≡ false = ground (arith, n.0) in
      elim (Bool-cases (is_large x)) [
        | inl large ↦ rw (c.0, inside, large) refl
        | inr small ↦ rw (c.0, inside, small, rest) refl
      ]

  -- The blocks of the last `left` lists, in their order.
  abbrev pub blocks_of : (ℕ → List ℕ) → ℕ → List ℕ
  blocks_of lists zero = []
  blocks_of lists (suc left) = lists (10 - suc left) ++ blocks_of lists left

  -- A search that has an answer for one list, and goes on behind it.
  first_of_both :
      (found further : Option ℕ)
      → elim found [ none ↦ some further | some x ↦ some (some x) ]
        ≡ some (elim found [ none ↦ further | some x ↦ some x ])
  first_of_both none further = refl
  first_of_both (some x) further = refl

  search_from-first_large :
      (lists : ℕ → List ℕ) (fuel left : ℕ)
      → FreeLists m mem lists
      → Enough lists fuel
      → left ≤ 10
      → search_from m fuel left size mem ≡ some (first_large (blocks_of lists left))
  unfolding search_from
  search_from-first_large lists fuel zero f enough le = unfold first_large in refl
  search_from-first_large lists fuel (suc left) f enough le =
      let i = 10 - suc left in
      let ring = f.rings i (omega arith) in
      let walk =
        first_fit-first_large fuel (sentinel m i) (sentinel m i) (lists i) ring.linked
          ring.distinct.0 (enough i (omega arith)) in
      let rest = search_from-first_large lists fuel left f enough (omega arith) in
      let here = first_large (lists i) in
      let further = first_large (blocks_of lists left) in
      ap
        (λ o. o >>= λ found. elim found as (λ x. Option (Option ℕ)) [
          | none ↦ search_from m fuel left size mem
          | some block ↦ some (some block)
        ])
        walk
      ∙ ap
          (λ o. elim here as (λ x. Option (Option ℕ)) [ none ↦ o | some block ↦ some (some block) ])
          rest
      ∙ first_of_both here further
      ∙ ap some (sym (first_large-append (lists i) (blocks_of lists left)))

-- With more fuel than any free list has blocks, the search of `sf_malloc` ends, and finds the first
-- block of the ten free lists, in their order, whose size is at least the one asked for.
pub search_from_lem :
    (m : Machine) (size : ℕ) (mem : Memory) (lists : ℕ → List ℕ) (fuel : ℕ)
    → FreeLists m mem lists
    → Enough lists fuel
    → search_from m fuel num_free_lists size mem
      ≡ some (first_large m size mem (blocks_of m size mem lists 10))
search_from_lem m size mem lists fuel f enough =
    search_from-first_large m size mem lists fuel 10 f enough (omega arith)
