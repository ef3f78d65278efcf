-- ===== src/Sfmm/Release.antt =====
-- `sf_free` and `sf_realloc` of hw3/src/sfmm.c, with the quick lists. A read or a write outside the
-- heap, which C leaves undefined, reads or writes the memory there.
pub mod Quick
pub mod Stack
pub mod Resize
mod Tests
use Prim.Native.Nat.{bit_and, bit_or, bit_xor}
use c_starter_projects.Prelude.{
  ℕ, zero, suc, ◌+◌, ◌-◌, ◌*◌, ◌/◌, ◌%◌, ◌^◌, Bool, true, false, not, ◌&&◌, ◌||◌, Option, none,
  some, List, [], ◌∷◌, ◌++◌, ltb, leb, ◌==◌, if◌then◌else◌,
}
use c_starter_projects.Sfmm.Memory.{
  Machine, Memory, State, null, page_sz, this_block_allocated, prev_block_allocated, poke, header,
  next, prev, payload, back, without_flags, is_allocated, has_prev_allocated, take_out_flags,
  read_header, set_header, set_prev_footer, sf_set_block_footer, sf_get_block_sz, sentinel,
}
use c_starter_projects.Sfmm.Lists.{
  ◌>>=◌, num_free_lists, sf_put_in_free_list, cut_out, sf_remove_from_free_list, sf_coalesce,
}
use c_starter_projects.Sfmm.Alloc.{update, sf_malloc, pad_to_row, split_block}

-- A call ends with a result, or by `abort`.
pub data Ending {ℓ} (A : Type ℓ) : Type ℓ where
  returns : A → Ending A
  aborts : Ending A

abbrev pub ended : Option State → Option (Ending State)
ended none = none
ended (some s) = some (returns s)

abbrev pub after_free : ℕ → Option (Ending State) → Option (Ending (ℕ × State))
after_free result none = none
after_free result (some (returns s)) = some (returns (result, s))
after_free result (some aborts) = some aborts

-- The quick list of a block size.
unfoldable pub quick_list_index : ℕ → Option ℕ
quick_list_index size =
    if size == 32
    then some 0
    else if size == 48
    then some 1
    else if size == 64
    then some 2
    else if size == 80
    then some 3
    else if size == 96
    then some 4
    else if size == 112
    then some 5
    else if size == 128
    then some 6
    else if size == 144
    then some 7
    else if size == 160
    then some 8
    else if size == 176
    then some 9
    else none

-- A call behind its checks.
unfoldable pub checked {ℓ} :
    {A : Type ℓ} (valid consistent : Bool) → Option (Ending A) → Option (Ending A)
checked false consistent call = some aborts
checked true false call = some aborts
checked true true call = call

-- The ways of `sf_realloc`: it frees the block, keeps it as it is, moves it to a bigger one, cuts
-- it, or gives up and returns NULL.
pub data Change : Type 0 where
  frees keeps moves shrinks gives_up : Change

unfoldable pub change_of : (size rsize : ℕ) → Change
change_of size rsize =
    let difference = pad_to_row 16 (rsize + 8) in
    if rsize == 0
    then frees
    else if size == rsize + 8
    then keeps
    else if ltb size rsize
    then moves
    else if ltb rsize size
    then if ltb ((size + (2 ^ 64 - difference)) % 2 ^ 64) 32 then keeps else shrinks
    else gives_up

unfoldable pub pad_smaller : (fuel size : ℕ) → ℕ
pad_smaller zero n = n
pad_smaller (suc fuel) n =
    let rest = pad_smaller fuel (n + 1) in if not (n % 16 == 0) || leb n 16 then rest else n

-- `memcpy` of `words` words.
unfoldable pub copy_words : (words to from : ℕ) → Memory → Memory
copy_words zero to from mem = mem
copy_words (suc n) to from mem = copy_words n (to + 8) (from + 8) (poke to (mem from) mem)

module _ (m : Machine) where
  -- The first loop of `sf_flush_quick_list`: the blocks of the list lose their flags, and are kept
  -- in an array.
  unfoldable pub clear_blocks : (fuel block : ℕ) → Memory → Option (List ℕ × Memory)
  clear_blocks zero block mem = none
  clear_blocks (suc fuel) block mem =
      let cleared =
        sf_set_block_footer m block
          (set_header m block (without_flags (read_header m mem block)) mem) in
      let further = clear_blocks fuel (cleared (next block)) cleared in
      if block == null
      then some ([], mem)
      else elim further [ none ↦ none | some (blocks, mem') ↦ some (block ∷ blocks, mem') ]

  -- The second loop. The footer of the previous block is handed on with MAGIC in it.
  unfoldable pub coalesce_each : (fuel : ℕ) → List ℕ → State → Option State
  coalesce_each fuel [] s = some s
  coalesce_each fuel (block ∷ blocks) s =
      sf_coalesce m fuel block (sf_get_block_sz m s.mem block) (s.mem block) false s >>= λ r.
      coalesce_each fuel blocks r.1

  unfoldable pub sf_flush_quick_list : (fuel block index : ℕ) → State → Option State
  unfolding clear_blocks coalesce_each
  sf_flush_quick_list fuel block index s =
      let flushed = clear_blocks fuel (s.quick_first index) s.mem >>= λ r.
      coalesce_each fuel r.0 (record s {
        mem = poke (next block) null r.1;
        quick_length = update s.quick_length index 1;
        quick_first = update s.quick_first index block;
      }) in
      if not (s.quick_length index == 0) then flushed else some s

  unfoldable pub push_quick : (block index : ℕ) → State → State
  push_quick block index s =
      let old_first = s.quick_first index in
      record s {
        mem = poke (next block) (if not (old_first == null) then old_first else null) s.mem;
        quick_length = update s.quick_length index (s.quick_length index + 1);
        quick_first = update s.quick_first index block;
      }

  unfoldable pub sf_put_in_quick_list_helper : (fuel block index : ℕ) → State → Option State
  unfolding sf_flush_quick_list push_quick
  sf_put_in_quick_list_helper fuel block index s =
      let flushed = sf_flush_quick_list fuel block index s in
      if s.quick_length index == 5 then flushed else some (push_quick block index s)

  -- The checks at the head of `sf_free` and of `sf_realloc`: the block has a valid header. A header
  -- outside the heap is read like any other memory, before the check of the bounds.
  unfoldable pub is_valid_block : (pp : ℕ) → State → Bool
  is_valid_block pp s =
      let block = back pp 16 in
      let word = read_header m s.mem block in
      let size = take_out_flags word in
      not (block == null)
      && (pp % 16 == 0)
      && is_allocated word
      && not (ltb size 32)
      && (size % 16 == 0)
      && not (ltb pp m.sf_mem_start)
      && not (ltb s.sf_mem_end (block + size))

  -- The check of the block before, when the header says that it is free. It takes the address at a
  -- distance of the size of this block.
  unfoldable pub past_is_consistent : (upper_bound : Bool) (pp : ℕ) → State → Bool
  past_is_consistent upper_bound pp s =
      let block = back pp 16 in
      let word = read_header m s.mem block in
      let past = back block (take_out_flags word) in
      (bit_and word prev_block_allocated) == prev_block_allocated
      || ltb past m.sf_mem_start
      || (upper_bound && leb s.sf_mem_end past)
      || (bit_and (read_header m s.mem past) this_block_allocated == 0)

  -- `sf_free` of a block that is not of a size for a quick list.
  unfoldable pub free_block : (fuel block : ℕ) → State → Option State
  free_block fuel block s =
      let word = read_header m s.mem block in
      let size = take_out_flags word in
      let after = block + size in
      let after_word = read_header m s.mem after in
      let m₁ =
        sf_set_block_footer m after
          (set_header m after (after_word - bit_and after_word prev_block_allocated) s.mem) in
      let own = if has_prev_allocated (word - 4) then bit_or size prev_block_allocated else size in
      let m₂ = sf_set_block_footer m block (set_header m block own m₁) in
      sf_coalesce m fuel block size (without_flags (bit_xor (m₂ block) m.magic)) false
        (record s { mem = m₂ })
      >>= λ r. some r.1

  -- `sf_free` of a valid block, for its quick list.
  unfoldable pub free_to : (fuel block : ℕ) → State → Option ℕ → Option State
  unfolding sf_put_in_quick_list_helper free_block
  free_to fuel block s (some index) = sf_put_in_quick_list_helper fuel block index s
  free_to fuel block s none = free_block fuel block s

  unfoldable pub sf_free : (fuel pp : ℕ) → State → Option (Ending State)
  unfolding is_valid_block past_is_consistent free_to quick_list_index checked
  sf_free fuel pp s =
      let block = back pp 16 in
      let freed =
        free_to fuel block s (quick_list_index (take_out_flags (read_header m s.mem block))) in
      checked (is_valid_block pp s) (past_is_consistent true pp s) (ended freed)

  -- The branch for a bigger block: the copy goes from the block's first row, the footer of the block
  -- before it, to the payload of the new block.
  unfoldable pub move_block : (fuel block size : ℕ) → ℕ × State → Option (Ending (ℕ × State))
  unfolding copy_words sf_free
  move_block fuel block size (new, s) =
      let copied = record s { mem = copy_words ((size - 8) / 8) new block s.mem } in
      if new == null
      then some (returns (null, s))
      else after_free new (sf_free fuel (block + 16) copied)

  -- The branch for a smaller block. The rest is taken out of a list by the links in the payload,
  -- and put into a free list, before `sf_coalesce` puts it there again.
  unfoldable pub shrink_block : (fuel block size rsize : ℕ) → State → Option (Ending (ℕ × State))
  unfolding pad_smaller
  shrink_block fuel block size rsize s =
      let kept = pad_smaller 32 (rsize + 8) in
      let rest = block + kept in
      let rest_size = (size + (2 ^ 64 - kept)) % 2 ^ 64 in
      let m₁ = set_header m rest (bit_or rest_size prev_block_allocated) s.mem in
      let m₂ = set_prev_footer m rest (bit_or kept this_block_allocated) m₁ in
      let m₃ = cut_out block (sf_set_block_footer m rest m₂) in
      let m₄ = sf_put_in_free_list m rest rest_size m₃ in
      let cut = record s {
        mem =
            set_header m block (bit_or (bit_or kept this_block_allocated) prev_block_allocated) m₄;
        global_end = if ltb s.global_end rest then rest else s.global_end;
      } in
      sf_coalesce m fuel rest rest_size (without_flags (bit_xor (cut.mem rest) m.magic)) false cut
      >>= λ r. some (returns (payload block, r.1))

  -- `sf_realloc` of a valid block, of the size `size`.
  unfoldable pub resize : Change → (fuel pp size rsize : ℕ) → State → Option (Ending (ℕ × State))
  resize frees fuel pp size rsize s = after_free null (sf_free fuel pp s)
  resize keeps fuel pp size rsize s = some (returns (pp, s))
  resize moves fuel pp size rsize s = sf_malloc m fuel rsize s >>= move_block fuel (back pp 16) size
  resize shrinks fuel pp size rsize s = shrink_block fuel (back pp 16) size rsize s
  resize gives_up fuel pp size rsize s = some (returns (null, s))

  unfoldable pub sf_realloc : (fuel pp rsize : ℕ) → State → Option (Ending (ℕ × State))
  unfolding change_of resize is_valid_block past_is_consistent checked
  sf_realloc fuel pp rsize s =
      let size = take_out_flags (read_header m s.mem (back pp 16)) in
      let resized = resize (change_of size rsize) fuel pp size rsize s in
      checked (is_valid_block pp s) (past_is_consistent false pp s) resized
