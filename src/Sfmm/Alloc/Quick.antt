-- ===== src/Sfmm/Alloc/Quick.antt =====
-- `sf_malloc` of hw3/src/sfmm.c leaves each quick list with a length of at most five.
use c_starter_projects.Prelude.{
  ℕ, zero, suc, ◌+◌, ◌-◌, ◌≤◌, refl, sym, Bool, true, false, Option, none, some, if_elim, arith,
  ◌==◌, leb, ◌%◌, ◌^◌, Bool-cases, inl, inr,
}
use mathlib.Core.Path.{subst}
use c_starter_projects.Sfmm.Memory.{Machine, State, page_sz, read_header, take_out_flags}
use c_starter_projects.Sfmm.Lists.{num_free_lists, sf_remove_from_free_list}
use c_starter_projects.Prelude.Options.{After, After-bind, After-map}
use c_starter_projects.Sfmm.Lists.After.{SameQuick, KeepsQuick, sf_coalesce-SameQuick}
use c_starter_projects.Sfmm.Alloc.{
  update, int_is_negative, pop_quick, split_block, take_block, place_in, sf_mem_grow, join_page,
  grow_loop, missing_size, sf_init_lists, sf_init_first_page, extend, start_heap, reserve_grown,
  reserve_fit, reserve, sf_malloc, quick_from, search_from, block_size_for, announce_page,
  num_quick_lists,
}

-- The counters that the quick lists have for their lengths; QUICK_LIST_MAX is 5.
abbrev pub IsBounded : State → Type 0
IsBounded s = (i : ℕ) → s.quick_length i ≤ 5

pub IsBounded-same : (s t : State) → SameQuick t s → IsBounded s → IsBounded t
IsBounded-same s t e b i = subst (λ f. f i ≤ 5) (sym e.0) (b i)

pub update-bounded :
    (f : ℕ → ℕ) (i v : ℕ) → ((j : ℕ) → f j ≤ 5) → v ≤ 5 → (j : ℕ) → update f i v j ≤ 5
update-bounded f i v b le j = if_elim (λ n. n ≤ 5) (j == i) v (f j) le (b j)

-- The state of a result.
abbrev pub Behind {ℓ} : {A : Type ℓ} → A × State → Type 0
Behind r = IsBounded r.1

-- What holds behind an optional step that has a substitute.
After-else {ℓ κ λ₁ λ₂} :
    {A : Type ℓ} {B : Type κ} (P : A → Type λ₂) (Q : B → Type λ₁) (o : Option A) (b : Option B)
    (f : A → Option B)
    → After Q b
    → After P o
    → ((a : A) → P a → After Q (f a))
    → After Q (elim o [ none ↦ b | some a ↦ f a ])
After-else P Q none b f h p k = h
After-else P Q (some a) b f h p k = k a p

module _ (m : Machine) where
  pop_quick-IsBounded : (i : ℕ) (s : State) → IsBounded s → Behind (pop_quick m i s)
  unfolding pop_quick
  pop_quick-IsBounded i s b =
      update-bounded s.quick_length i (s.quick_length i - 1) b (omega (arith, b i))

  take_block-IsBounded :
      (fuel block : ℕ) (s : State) → IsBounded s → After IsBounded (take_block m fuel block s)
  unfolding take_block
  take_block-IsBounded fuel block s b =
      After-map IsBounded (sf_remove_from_free_list m fuel block s.mem) _ (λ m₁. b)

  place_in-IsBounded :
      (fuel block size : ℕ) (s : State)
      → IsBounded s
      → After IsBounded (place_in m fuel block size s)
  unfolding place_in
  place_in-IsBounded fuel block size s b =
      let old_size = take_out_flags (read_header m s.mem block) in
      elim (Bool-cases (leb 32 (old_size - size))) [
        | inl split ↦ rw split (unfold split_block in b)
        | inr whole ↦ rw whole (take_block-IsBounded fuel block s b)
      ]

  sf_mem_grow-SameQuick : (s : State) → After (λ t. SameQuick t s) (sf_mem_grow m s)
  unfolding sf_mem_grow
  sf_mem_grow-SameQuick s = elim (Bool-cases (m.can_grow s.sf_mem_end)) [
    | inl grows ↦ rw grows (refl, refl)
    | inr stays ↦ rw stays tt
  ]

  join_page-IsBounded :
      (fuel page : ℕ) (s : State) → IsBounded s → After IsBounded (join_page m fuel page s)
  unfolding join_page
  join_page-IsBounded fuel page s b =
      After-bind (KeepsQuick s) IsBounded _ _ (sf_coalesce-SameQuick m fuel page _ _ true _)
        (λ r e. IsBounded-same s r.1 e b)

  grow_loop-IsBounded :
      (fuel page size : ℕ) (s : State) → IsBounded s → After Behind (grow_loop m fuel page size s)
  unfolding grow_loop
  grow_loop-IsBounded zero page size s b = tt
  grow_loop-IsBounded (suc fuel) page size s b =
      let less = (size + (2 ^ 64 - page_sz)) % 2 ^ 64 in
      elim (Bool-cases (int_is_negative m size)) [
        | inl done ↦ rw done b
        | inr more ↦ rw more (
            After-else (λ t. SameQuick t s) Behind (sf_mem_grow m s) _ _ b (sf_mem_grow-SameQuick s)
              (λ s' e.
                After-bind IsBounded Behind (join_page m fuel page s') _
                  (join_page-IsBounded fuel page s' (IsBounded-same s s' e b))
                  (λ s'' b''. grow_loop-IsBounded fuel page less s'' b'')))
      ]

  extend-IsBounded : (fuel size : ℕ) (s : State) → IsBounded s → After Behind (extend m fuel size s)
  unfolding extend
  extend-IsBounded fuel size s b =
      grow_loop-IsBounded fuel (s.sf_mem_end - 16) (missing_size m size s) (announce_page m s)
        (unfold announce_page in b)

  sf_init_first_page-IsBounded : (s : State) → After IsBounded (sf_init_first_page m s)
  unfolding sf_init_first_page
  sf_init_first_page-IsBounded s =
      After-bind (λ t. SameQuick t (sf_init_lists m s)) IsBounded
        (sf_mem_grow m (sf_init_lists m s)) _ (sf_mem_grow-SameQuick (sf_init_lists m s))
        (λ t e. IsBounded-same (sf_init_lists m s) t e (unfold sf_init_lists in λ i. omega arith))

  start_heap-IsBounded : (s : State) → IsBounded s → After IsBounded (start_heap m s)
  start_heap-IsBounded s b = elim (Bool-cases (m.sf_mem_start == s.sf_mem_end)) [
    | inl empty ↦ rw empty (sf_init_first_page-IsBounded s)
    | inr begun ↦ rw begun b
  ]

  -- The rest of `sf_malloc`, for a call of itself that keeps the lists bounded.
  module _ (again : State → Option (ℕ × State))
      (k : (s : State) → IsBounded s → After Behind (again s)) where
    reserve_grown-IsBounded : (r : Bool × State) → Behind r → After Behind (reserve_grown m again r)
    unfolding reserve_grown
    reserve_grown-IsBounded (true, s) b = k s b
    reserve_grown-IsBounded (false, s) b = b

    reserve_fit-IsBounded :
        (fuel size : ℕ) (s : State) (found : Option ℕ)
        → IsBounded s
        → After Behind (reserve_fit m again fuel size s found)
    unfolding reserve_fit
    reserve_fit-IsBounded fuel size s none b =
        After-bind Behind Behind (extend m fuel size s) _ (extend-IsBounded fuel size s b)
          reserve_grown-IsBounded
    reserve_fit-IsBounded fuel size s (some block) b =
        After-bind IsBounded Behind (place_in m fuel block (block_size_for size) s) _
          (place_in-IsBounded fuel block (block_size_for size) s b) (λ s' b'. b')

    reserve-IsBounded :
        (fuel size : ℕ) (s : State) (quick : Option ℕ)
        → IsBounded s
        → After Behind (reserve m again fuel size s quick)
    unfolding reserve
    reserve-IsBounded fuel size s (some i) b = pop_quick-IsBounded i s b
    reserve-IsBounded fuel size s none b =
        After-map Behind (search_from m fuel num_free_lists (block_size_for size) s.mem) _
          (λ found. reserve_fit-IsBounded fuel size s found b)

-- When every quick list holds at most five blocks, and `sf_malloc` returns, every quick list holds
-- at most five blocks.
pub sf_malloc-IsBounded :
    (m : Machine) (fuel size : ℕ) (s : State) → IsBounded s → After Behind (sf_malloc m fuel size s)
unfolding sf_malloc
sf_malloc-IsBounded m zero size s b = tt
sf_malloc-IsBounded m (suc fuel) size s b =
    let reserved =
      After-bind IsBounded Behind (start_heap m s)
        (λ s₁.
          reserve m (sf_malloc m fuel size) fuel size s₁
            (quick_from m num_quick_lists (block_size_for size) s₁))
        (start_heap-IsBounded m s b)
        (λ s₁ b₁.
          reserve-IsBounded m (sf_malloc m fuel size) (sf_malloc-IsBounded m fuel size) fuel size s₁
            _ b₁) in
    elim (Bool-cases (size == 0)) [
      | inl nothing ↦ rw nothing b
      | inr some_bytes ↦ elim (Bool-cases (int_is_negative m size)) [
        | inl negative ↦ rw (some_bytes, negative) b
        | inr positive ↦ rw (some_bytes, positive) reserved
      ]
    ]
