-- ===== src/Sfmm/Alloc/Endless.antt =====
-- A call of `sf_malloc` of hw3/src/sfmm.c that calls itself without an end.
use mathlib.Core.Path.{subst}
use Prim.Native.Nat.{bit_xor}
use c_starter_projects.Prelude.{
  ℕ, zero, suc, ◌-◌, ◌≡◌, ◌≤◌, ◌<◌, ◌⊎◌, refl, sym, if◌then◌else◌, true, false, Option, none, some,
  List, [], ◌∷◌, All, arith, ◌==◌, Bool-cases, inl, inr, leb,
}
use c_starter_projects.Sfmm.Memory.{
  Machine, Memory, State, back, header, page_sz, poke, read_header, take_out_flags, is_allocated,
  without_flags, sentinel,
}
use c_starter_projects.Sfmm.Lists.{◌>>=◌}
use c_starter_projects.Sfmm.Lists.Ring.{Chain}
use c_starter_projects.Sfmm.Alloc.{
  first_fit, search_from, block_size_for, quick_from, num_quick_lists, int_is_negative,
  announce_page, missing_size, grow_loop, extend, reserve, reserve_fit, reserve_grown, sf_malloc,
}

module _ (m : Machine) (size : ℕ) where
  -- No block of a list has the size.
  abbrev pub AllShort : Memory → List ℕ → Type 0
  AllShort mem = All (λ x. leb size (take_out_flags (read_header m mem x)) ≡ false)

  -- A search that finds nothing, or does not end on its fuel.
  abbrev pub FindsNothing : Option (Option ℕ) → Type 0
  FindsNothing o = (o ≡ none) ⊎ (o ≡ some none)

  first_fit_short :
      (mem : Memory) (fuel h a : ℕ) (xs : List ℕ)
      → Chain mem a xs h
      → AllShort mem xs
      → FindsNothing (first_fit m fuel h size a mem)
  unfolding first_fit
  first_fit_short mem zero h a xs c o = inl refl
  first_fit_short mem (suc fuel) h a [] c o = inr (rw c.0 (ground arith))
  first_fit_short mem (suc fuel) h a (x ∷ xs) c o = elim (Bool-cases (x == h)) [
    | inl there ↦ inr (rw (c.0, there) refl)
    | inr inside ↦ rw (c.0, inside, o.0) (first_fit_short mem fuel h x xs c.2 o.1)
  ]

  search_step :
      (o further : Option (Option ℕ))
      → FindsNothing o
      → FindsNothing further
      → FindsNothing (
          o >>= λ found. elim found as (λ x. Option (Option ℕ)) [
            | none ↦ further
            | some block ↦ some (some block)
          ])
  search_step o further (inl e) f = inl (rw e refl)
  search_step o further (inr e) f = rw e f

  search_from_short :
      (mem : Memory) (lists : ℕ → List ℕ) (fuel left : ℕ)
      → ((i : ℕ) → i < 10 → Chain mem (sentinel m i) (lists i) (sentinel m i))
      → ((i : ℕ) → i < 10 → AllShort mem (lists i))
      → left ≤ 10
      → FindsNothing (search_from m fuel left size mem)
  unfolding search_from
  search_from_short mem lists fuel zero c o le = inr refl
  search_from_short mem lists fuel (suc left) c o le =
      let i = 10 - suc left in
      search_step (first_fit m fuel (sentinel m i) size (sentinel m i) mem)
        (search_from m fuel left size mem)
        (first_fit_short mem fuel (sentinel m i) (sentinel m i) (lists i) (c i (omega arith))
          (o i (omega arith)))
        (search_from_short mem lists fuel left c o (omega arith))

-- A heap that has no block for the request, whose last block is free and longer than the request,
-- and whose last row is the header of the page to come.
pub record IsStuck (m : Machine) (size : ℕ) (s : State) (lists : ℕ → List ℕ) : Type 0 where
  pub begun : (m.sf_mem_start == s.sf_mem_end) ≡ false
  pub no_quick : quick_from m num_quick_lists (block_size_for size) s ≡ none
  pub linked : (i : ℕ) → i < 10 → Chain s.mem (sentinel m i) (lists i) (sentinel m i)
  pub short : (i : ℕ) → i < 10 → AllShort m (block_size_for size) s.mem (lists i)
  pub end_free : is_allocated (read_header m s.mem s.global_end) ≡ false
  pub end_long :
      int_is_negative m (back size (without_flags (read_header m s.mem s.global_end))) ≡ true
  pub page_header : s.mem (header (s.sf_mem_end - 16)) ≡ bit_xor page_sz m.magic
  pub page_footer :
      s.mem (s.sf_mem_end - 16) ≡ bit_xor (without_flags (read_header m s.mem s.global_end)) m.magic

poke_at : (mem : Memory) (p v q : ℕ) → mem p ≡ v → poke p v mem q ≡ mem q
poke_at mem p v q e = ground arith

poke_again : (mem : Memory) (p v : ℕ) → mem p ≡ v → poke p v mem ≡ mem
poke_again mem p v e = λ i q. poke_at mem p v q e i

module _ (m : Machine) (size : ℕ) (s : State) (lists : ℕ → List ℕ)
    (stuck : IsStuck m size s lists) where
  announce_page_again : announce_page m s ≡ s
  unfolding announce_page
  announce_page_again =
      let page = s.sf_mem_end - 16 in
      let with_header : poke (header page) (bit_xor page_sz m.magic) s.mem ≡ s.mem =
        poke_again s.mem (header page) (bit_xor page_sz m.magic) stuck.page_header in
      let footer = bit_xor (without_flags (read_header m s.mem s.global_end)) m.magic in
      rw (stuck.end_free, with_header, poke_again s.mem page footer stuck.page_footer) refl

  nothing_missing : int_is_negative m (missing_size m size s) ≡ true
  unfolding missing_size
  nothing_missing =
      let end_size = without_flags (read_header m s.mem s.global_end) in
      subst
        (λ t.
          int_is_negative m
            (if is_allocated (read_header m t.mem s.global_end) then size else back size end_size)
          ≡ true)
        (sym announce_page_again) (rw stuck.end_free stuck.end_long)

  grow_loop_again :
      (fuel : ℕ) → (extend m fuel size s ≡ none) ⊎ (extend m fuel size s ≡ some (true, s))
  unfolding extend grow_loop
  grow_loop_again zero = inl refl
  grow_loop_again (suc fuel) = inr (rw (announce_page_again, nothing_missing) refl)

  -- The heap is as it was when `sf_malloc` calls itself.
  extend_again :
      (again : State → Option (ℕ × State)) (fuel : ℕ)
      → again s ≡ none
      → (extend m fuel size s >>= reserve_grown m again) ≡ none
  extend_again again fuel e = elim (grow_loop_again fuel) [
    | inl out ↦ rw out refl
    | inr done ↦ rw done (unfold reserve_grown in e)
  ]

  reserve_again :
      (again : State → Option (ℕ × State)) (fuel : ℕ)
      → again s ≡ none
      → reserve m again fuel size s none ≡ none
  unfolding reserve
  reserve_again again fuel e =
      elim (search_from_short m (block_size_for size) s.mem lists fuel 10 stuck.linked stuck.short
        (omega arith)) [
          | inl out ↦ rw out refl
          | inr nothing ↦ rw nothing (unfold reserve_fit in extend_again again fuel e)
        ]

  sf_malloc_again :
      (fuel : ℕ) → 0 < size → int_is_negative m size ≡ false → sf_malloc m fuel size s ≡ none
  unfolding sf_malloc
  sf_malloc_again zero p n = refl
  sf_malloc_again (suc fuel) p n =
      let rest = reserve_again (sf_malloc m fuel size) fuel (sf_malloc_again fuel p n) in
      let some_bytes : (size == 0) ≡ false = ground (arith, p) in
      rw (some_bytes, n, stuck.begun, stuck.no_quick, rest) refl

-- When no block is long enough for a request, the last block of the heap is free and longer than
-- the request without its header, and the next page has been announced, `sf_malloc` does not
-- return, whatever the fuel.
pub sf_malloc-IsStuck :
    (m : Machine) (size : ℕ) (s : State) (lists : ℕ → List ℕ)
    → IsStuck m size s lists
    → 0 < size
    → int_is_negative m size ≡ false
    → (fuel : ℕ) → sf_malloc m fuel size s ≡ none
sf_malloc-IsStuck m size s lists stuck p n fuel = sf_malloc_again m size s lists stuck fuel p n
