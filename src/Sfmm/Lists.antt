-- ===== src/Sfmm/Lists.antt =====
-- The free lists and quick lists of hw3/src/sfmm.c. Loops over a list run on fuel, since a list that
-- is not well formed may have no end: `none` is a loop that has run out of it.
pub mod Ring
pub mod After
pub mod Unlink
pub mod Search
pub mod Table
pub mod Removal
mod Tests
pub use c_starter_projects.Prelude.Options.{◌>>=◌}
use Prim.Native.Nat.{bit_and, bit_or, bit_xor}
use c_starter_projects.Prelude.{
  ℕ, zero, suc, ◌+◌, ◌-◌, ◌*◌, ◌/◌, ◌%◌, ◌^◌, Bool, true, false, not, ◌&&◌, ◌||◌, Option, none,
  some, List, [], ◌∷◌, ◌++◌, ltb, leb, ◌==◌, if◌then◌else◌,
}
use c_starter_projects.Sfmm.Memory.{
  Machine, Memory, State, null, page_sz, this_block_allocated, prev_block_allocated, poke, header,
  next, prev, back, without_flags, is_allocated, take_out_flags, read_header, set_header,
  set_prev_footer, sf_set_block_footer, sf_get_block_sz, sentinel,
}

abbrev pub num_free_lists : ℕ
num_free_lists = 10

-- The free list for a block size.
unfoldable pub free_list_index : ℕ → ℕ
free_list_index n =
    if leb n 32
    then 0
    else if leb n 64
    then 1
    else if leb n 128
    then 2
    else if leb n 256
    then 3
    else if leb n 512
    then 4
    else if leb n 1024
    then 5
    else if leb n 2048
    then 6
    else if leb n 4096
    then 7
    else if leb n 8192
    then 8
    else 9

-- A block behind a sentinel.
unfoldable pub insert_after : ℕ → ℕ → Memory → Memory
insert_after head block mem =
    let old_next = mem (next head) in
    poke (next head) block
      (poke (prev block) head (poke (next block) old_next (poke (prev old_next) block mem)))

-- A block out of its list.
unfoldable pub unlink : ℕ → Memory → Memory
unlink block mem =
    let linked = poke (prev (mem (next block))) (mem (prev block)) mem in
    poke (next (linked (prev block))) (mem (next block)) linked

-- A block out of its list, the way `sf_malloc` and `sf_realloc` take one that they split.
unfoldable pub cut_out : ℕ → Memory → Memory
cut_out block mem =
    let new_prev = mem (prev block) in
    let new_next = mem (next block) in
    poke (prev new_next) new_prev (poke (next new_prev) new_next mem)

-- The walk of `sf_remove_from_free_list` along one list: whether the block is there.
unfoldable pub walk_to : (fuel head block cur : ℕ) → Memory → Option Bool
walk_to zero head block cur mem = none
walk_to (suc fuel) head block cur mem =
    let further = walk_to fuel head block (mem (next cur)) mem in
    if mem (next cur) == head
    then some false
    else if mem (next cur) == block
    then some true
    else further

-- The four cases of `sf_coalesce`, with what each makes of the memory.
unfoldable pub merge_which :
    (past_free next_free : Bool) (alone : Memory) (with_past with_next with_both : Option Memory)
    → State
    → Option (Bool × State)
merge_which false false alone with_past with_next with_both s =
    some (false, record s { mem = alone })
merge_which true false alone with_past with_next with_both s =
    with_past >>= (λ mem'. some (true, record s { mem = mem' }))
merge_which false true alone with_past with_next with_both s =
    with_next >>= (λ mem'. some (true, record s { mem = mem' }))
merge_which true true alone with_past with_next with_both s =
    with_both >>= (λ mem'. some (true, record s { mem = mem' }))

module _ (m : Machine) where
  unfoldable pub sf_put_in_free_list_helper : ℕ → ℕ → Memory → Memory
  unfolding insert_after
  sf_put_in_free_list_helper block index mem = insert_after (sentinel m index) block mem

  unfoldable pub sf_put_in_free_list : ℕ → ℕ → Memory → Memory
  unfolding free_list_index sf_put_in_free_list_helper
  sf_put_in_free_list block size mem = sf_put_in_free_list_helper block (free_list_index size) mem

  -- The `for` loop, with `left` lists left to look at.
  unfoldable pub remove_from : (fuel left block : ℕ) → Memory → Option Memory
  unfolding walk_to unlink
  remove_from fuel zero block mem = some mem
  remove_from fuel (suc left) block mem = do
    let head = sentinel m (num_free_lists - suc left)
    let further = remove_from fuel left block mem
    found ← walk_to fuel head block head mem
    if found then some (unlink block mem) else further

  unfoldable pub sf_remove_from_free_list : (fuel block : ℕ) → Memory → Option Memory
  unfolding remove_from
  sf_remove_from_free_list fuel block mem = remove_from fuel num_free_lists block mem

  -- The block that `sf_coalesce` leaves, in the free list of its size.
  unfoldable pub merged : (block size past_size : ℕ) → Memory → Memory
  merged block size past_size mem =
      let headed = set_header m block (bit_or size prev_block_allocated) mem in
      let footed = set_prev_footer m block (bit_or past_size this_block_allocated) headed in
      sf_put_in_free_list block size (sf_set_block_footer m block footed)

  -- Whether there is a free block at an address: inside the heap, and not allocated. The variables
  -- past_block_all and next_block_all of the source.
  abbrev pub is_free : Memory → ℕ → Bool
  is_free mem p = bit_and (read_header m mem p) this_block_allocated == 0

  -- The state of the heap, and whether blocks were merged.
  unfoldable pub sf_coalesce :
      (fuel middle size prev_footer : ℕ) (making_large_page : Bool) → State → Option (Bool × State)
  unfolding sf_remove_from_free_list merged sf_put_in_free_list merge_which
  sf_coalesce fuel middle size prev_footer making_large_page s = do
    let past = if ltb 0 prev_footer then back middle prev_footer else null
    let following = (middle + size) % 2 ^ 64
    let past_inside = not (ltb past m.sf_mem_start || leb (s.sf_mem_end - 16) past)
    let next_inside =
        not (leb (s.sf_mem_end - 16) following || leb following m.sf_mem_start)
        && not making_large_page
    let past_free = past_inside && is_free s.mem past
    let next_free = next_inside && is_free s.mem following
    let past_size = if past_inside then without_flags (read_header m s.mem past) else 0
    let next_size = without_flags (read_header m s.mem following)
    let alone = sf_put_in_free_list middle size s.mem
    let with_past =
        sf_remove_from_free_list fuel middle s.mem
        >>= (λ m₁. sf_remove_from_free_list fuel past m₁)
        >>= (λ m₂. some (merged past (size + past_size) past_size m₂))
    let with_next =
        sf_remove_from_free_list fuel middle s.mem
        >>= (λ m₁. sf_remove_from_free_list fuel following m₁)
        >>= (λ m₂. some (merged middle (size + next_size) past_size m₂))
    let with_both =
        sf_remove_from_free_list fuel middle s.mem
        >>= (λ m₁. sf_remove_from_free_list fuel past m₁)
        >>= (λ m₂. sf_remove_from_free_list fuel following m₂)
        >>= (λ m₃. some (merged past (size + past_size + next_size) past_size m₃))
    merge_which past_free next_free alone with_past with_next with_both s
