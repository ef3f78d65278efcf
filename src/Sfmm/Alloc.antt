-- ===== src/Sfmm/Alloc.antt =====
-- `sf_malloc` of hw3/src/sfmm.c.
pub mod BlockSize
pub mod Endless
pub mod Quick
mod Tests
use Prim.Native.Nat.{bit_and, bit_or, bit_xor}
use c_starter_projects.Prelude.{
  ℕ, zero, suc, ◌+◌, ◌-◌, ◌*◌, ◌/◌, ◌%◌, ◌^◌, Bool, true, false, not, ◌&&◌, ◌||◌, Option, none,
  some, List, [], ◌∷◌, ◌++◌, ltb, leb, ◌==◌, if◌then◌else◌,
}
use c_starter_projects.Sfmm.Memory.{
  Machine, Memory, State, null, page_sz, this_block_allocated, prev_block_allocated, poke, header,
  next, prev, payload, back, without_flags, is_allocated, has_prev_allocated, take_out_flags,
  read_header, set_header, set_prev_footer, sf_set_block_footer, sf_get_block_sz, sentinel,
}
use c_starter_projects.Sfmm.Lists.{
  ◌>>=◌, num_free_lists, sf_put_in_free_list, cut_out, sf_remove_from_free_list, sf_coalesce,
}

abbrev pub num_quick_lists : ℕ
num_quick_lists = 10

abbrev pub update : (ℕ → ℕ) → ℕ → ℕ → ℕ → ℕ
update f i v j = if j == i then v else f j

-- The two loops of `sf_malloc` over the block size. Each ends within sixteen rounds.
unfoldable pub pad_to_row : (fuel block_size : ℕ) → ℕ
pad_to_row zero n = n
pad_to_row (suc fuel) n = let rest = pad_to_row fuel (n + 1) in if n % 16 == 0 then n else rest

unfoldable pub pad_payload : (fuel block_size payload_sz : ℕ) → ℕ
pad_payload zero n payload_sz = n
pad_payload (suc fuel) n payload_sz =
    let rest = pad_payload fuel (n + 1) (payload_sz + 1) in
    if not (n % 16 == 0) || ltb payload_sz 24 then rest else n

unfoldable pub block_size_for : ℕ → ℕ
block_size_for size =
    let padded = pad_to_row 16 (size + 8) in pad_payload 40 padded (size + (padded - (size + 8)))

module _ (m : Machine) where
  -- The search of the quick lists: the list whose first block has the size.
  unfoldable pub quick_from : (left size : ℕ) → State → Option ℕ
  quick_from zero size s = none
  quick_from (suc left) size s =
      let i = num_quick_lists - suc left in
      let further = quick_from left size s in
      if ltb 0 (s.quick_length i)
        && (take_out_flags (read_header m s.mem (s.quick_first i)) == size)
      then some i
      else further

  unfoldable pub pop_quick : ℕ → State → ℕ × State
  pop_quick i s = (
    payload (s.quick_first i),
    record s {
      quick_length = update s.quick_length i (s.quick_length i - 1);
      quick_first = update s.quick_first i (s.mem (next (s.quick_first i)));
    },
  )

  -- The walk along one free list, to the first block of at least the size: `some none` is the end
  -- of the list.
  unfoldable pub first_fit : (fuel head size cur : ℕ) → Memory → Option (Option ℕ)
  first_fit zero head size cur mem = none
  first_fit (suc fuel) head size cur mem =
      let further = first_fit fuel head size (mem (next cur)) mem in
      if mem (next cur) == head
      then some none
      else if leb size (take_out_flags (read_header m mem (mem (next cur))))
      then some (some (mem (next cur)))
      else further

  unfoldable pub search_from : (fuel left size : ℕ) → Memory → Option (Option ℕ)
  unfolding first_fit
  search_from fuel zero size mem = some none
  search_from fuel (suc left) size mem = do
    let head = sentinel m (num_free_lists - suc left)
    let further = search_from fuel left size mem
    found ← first_fit fuel head size head mem
    elim found [ none ↦ further | some block ↦ some (some block) ]

  -- The block is cut, and the rest goes to a free list.
  unfoldable pub split_block : (block size old_size : ℕ) → State → State
  split_block block size old_size s =
      let rest = block + size in
      let m₁ = set_header m rest (bit_or (old_size - size) prev_block_allocated) s.mem in
      let m₂ = set_prev_footer m rest (bit_or size this_block_allocated) m₁ in
      let m₃ = cut_out block (sf_set_block_footer m rest m₂) in
      let m₄ = sf_put_in_free_list m rest (old_size - size) m₃ in
      record s {
        mem =
            set_header m block (bit_or (bit_or size this_block_allocated) prev_block_allocated) m₄;
        global_end = if ltb s.global_end rest then rest else s.global_end;
      }

  -- The block is taken as a whole.
  unfoldable pub take_block : (fuel block : ℕ) → State → Option State
  take_block fuel block s = do
    m₁ ← sf_remove_from_free_list m fuel block s.mem
    let flagged = bit_or (read_header m m₁ block) this_block_allocated
    let word =
        if bit_and (read_header m m₁ s.global_end) this_block_allocated == this_block_allocated
        then bit_or flagged prev_block_allocated
        else flagged
    some (record s {
      mem = set_header m block word m₁;
      global_end = if ltb s.global_end block then block else s.global_end;
    })

  unfoldable pub place_in : (fuel block size : ℕ) → State → Option State
  unfolding split_block take_block
  place_in fuel block size s =
      let old_size = take_out_flags (read_header m s.mem block) in
      let taken = take_block fuel block s in
      if leb 32 (old_size - size) then some (split_block block size old_size s) else taken

  -- The header of the page to come, in the last row of the heap.
  unfoldable pub announce_page : State → State
  announce_page s =
      let end_word = read_header m s.mem s.global_end in
      let page = s.sf_mem_end - 16 in
      let word = if is_allocated end_word then bit_or page_sz prev_block_allocated else page_sz in
      record s {
        mem = set_prev_footer m page (without_flags end_word) (set_header m page word s.mem);
      }

  -- The low 32 bits of a word, as an int, are negative.
  abbrev pub int_is_negative : ℕ → Bool
  int_is_negative w = leb (2 ^ 31) (w % 2 ^ 32)

  unfoldable pub sf_mem_grow : State → Option State
  sf_mem_grow s =
      if m.can_grow s.sf_mem_end
      then some (record s { sf_mem_end = s.sf_mem_end + page_sz })
      else none

  -- A round of the loop that grows the heap, behind `sf_mem_grow`.
  unfoldable pub join_page : (fuel page : ℕ) → State → Option State
  join_page fuel page s = do
    let mem' = sf_set_block_footer m page (set_header m page page_sz s.mem)
    joined ←
        sf_coalesce m fuel page (sf_get_block_sz m mem' page) (bit_xor (mem' page) m.magic) true
          (record s { mem = mem' })
    some joined.1

  -- The loop: `size` is what is still missing, `none` is a loop out of fuel, and the Boolean says
  -- whether all the memory could be had.
  unfoldable pub grow_loop : (fuel page size : ℕ) → State → Option (Bool × State)
  unfolding sf_mem_grow join_page
  grow_loop zero page size s = none
  grow_loop (suc fuel) page size s =
      let grown = sf_mem_grow s in
      let less = (size + (2 ^ 64 - page_sz)) % 2 ^ 64 in
      if int_is_negative size then some (true, s) else elim grown [
        | none ↦ some (false, record s { out_of_memory = true })
        | some s' ↦ join_page fuel page s' >>= (λ s''. grow_loop fuel page less s'')
      ]

  -- What the loop starts from: nothing of the last block, when that block is free. Its size is read
  -- before the page is announced, and whether it is free is read behind that.
  unfoldable pub missing_size : ℕ → State → ℕ
  unfolding announce_page
  missing_size size s =
      let end_size = without_flags (read_header m s.mem s.global_end) in
      let end_word = read_header m (announce_page s).mem s.global_end in
      if is_allocated end_word then size else back size end_size

  unfoldable pub init_free_lists : ℕ → Memory → Memory
  init_free_lists zero mem = mem
  init_free_lists (suc left) mem =
      let head = sentinel m (num_free_lists - suc left) in
      init_free_lists left (poke (next head) head (poke (prev head) head mem))

  unfoldable pub sf_init_lists : State → State
  sf_init_lists s = record s {
    mem = init_free_lists num_free_lists s.mem;
    quick_length = λ i. 0;
    quick_first = λ i. null;
  }

  unfoldable pub sf_init_first_page : State → Option State
  unfolding sf_init_lists sf_mem_grow init_free_lists
  sf_init_first_page s = do
    let page = s.sf_mem_end
    grown ← sf_mem_grow (sf_init_lists s)
    let m₁ = poke page 0 (set_header m page 4080 grown.mem)
    let m₂ = poke (page + 4080) (bit_xor 4080 m.magic) m₁
    let m₃ = poke (next (sentinel m 7)) page m₂
    some (record grown {
      mem = poke (next page) (sentinel m 7) (poke (prev page) (sentinel m 7) m₃);
      global_end = m.sf_mem_start;
    })

  -- The part of `sf_malloc` behind the search for memory that has been freed before: the page is
  -- announced and the heap grows.
  unfoldable pub extend : (fuel size : ℕ) → State → Option (Bool × State)
  unfolding announce_page grow_loop
  extend fuel size s = grow_loop fuel (s.sf_mem_end - 16) (missing_size size s) (announce_page s)

  abbrev pub start_heap : State → Option State
  start_heap s = if m.sf_mem_start == s.sf_mem_end then sf_init_first_page s else some s

  -- The rest of `sf_malloc`, for what each search finds; `again` is its call of itself.
  unfoldable pub reserve_grown : (State → Option (ℕ × State)) → Bool × State → Option (ℕ × State)
  reserve_grown again (true, s) = again s
  reserve_grown again (false, s) = some (null, s)

  unfoldable pub reserve_fit :
      (State → Option (ℕ × State)) → (fuel size : ℕ) → State → Option ℕ → Option (ℕ × State)
  unfolding place_in extend reserve_grown
  reserve_fit again fuel size s none = extend fuel size s >>= reserve_grown again
  reserve_fit again fuel size s (some block) =
      place_in fuel block (block_size_for size) s >>= λ s'. some (payload block, s')

  unfoldable pub reserve :
      (State → Option (ℕ × State)) → (fuel size : ℕ) → State → Option ℕ → Option (ℕ × State)
  unfolding pop_quick search_from reserve_fit
  reserve again fuel size s (some i) = some (pop_quick i s)
  reserve again fuel size s none =
      search_from fuel num_free_lists (block_size_for size) s.mem >>= reserve_fit again fuel size s

  -- The result is the address of the payload. `none` is a call that has not returned on the fuel,
  -- or an undefined one, when there is no memory for the first page.
  unfoldable pub sf_malloc : (fuel size : ℕ) → State → Option (ℕ × State)
  unfolding block_size_for quick_from reserve sf_init_first_page
  sf_malloc zero size s = none
  sf_malloc (suc fuel) size s =
      let reserved = start_heap s >>= λ s₁.
      reserve (sf_malloc fuel size) fuel size s₁
        (quick_from num_quick_lists (block_size_for size) s₁) in
      if size == 0
      then some (null, s)
      else if int_is_negative size
      then some (null, record s { out_of_memory = true })
      else reserved
