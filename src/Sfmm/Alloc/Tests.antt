-- ===== src/Sfmm/Alloc/Tests.antt =====
-- Heaps for the theorems on `sf_malloc` of hw3/src/sfmm.c.
use Prim.Native.Nat.{bit_xor}
use c_starter_projects.Prelude.{
  ℕ, ◌+◌, ◌*◌, ◌/◌, ◌≡◌, refl, true, false, none, List, [], ◌∷◌, arith, leb, ◌==◌, if◌then◌else◌,
}
use c_starter_projects.Sfmm.Memory.{Machine, Memory, State, sentinel, take_out_flags}
use c_starter_projects.Sfmm.Lists.Ring.{Chain}
use c_starter_projects.Sfmm.Lists.Table.{set_list, by_index}
use c_starter_projects.Sfmm.Alloc.{block_size_for, pad_payload, pad_to_row, quick_from, sf_malloc}
use c_starter_projects.Sfmm.Alloc.BlockSize.{rounded_up, block_size_for_lem}
use c_starter_projects.Sfmm.Alloc.Endless.{AllShort, IsStuck, sf_malloc-IsStuck}

abbrev machine : Machine
machine = record { heads = 4096; sf_mem_start = 8192; magic = 3; can_grow = λ p. true }

block_size_for_lem_example :
    block_size_for 100 ≡ (if leb (rounded_up (100 + 8)) 32 then 32 else rounded_up (100 + 8))
block_size_for_lem_example = block_size_for_lem 100 (omega arith)

-- A heap of one page, which is one free block of 4080 bytes, in the list 7.
abbrev page : Memory
page q =
    if q == 8200
    then bit_xor 4080 3
    else if q == 12272
    then bit_xor 4080 3
    else if q == 12280
    then bit_xor 4096 3
    else if q == 8208
    then 4320
    else if q == 8216
    then 4320
    else if q == 4336
    then 8192
    else if q == 4344
    then 8192
    else q / 32 * 32

abbrev one_page : State
one_page = record {
  mem = page;
  sf_mem_end = 12288;
  quick_length = λ i. 0;
  quick_first = λ i. 0;
  global_end = 8192;
  out_of_memory = false;
}

abbrev page_blocks : ℕ → List ℕ
page_blocks = set_list (λ i. []) 7 (8192 ∷ [])

one_page-IsStuck : IsStuck machine 4075 one_page page_blocks
unfolding block_size_for quick_from take_out_flags pad_payload pad_to_row
one_page-IsStuck = record {
  begun = refl;
  no_quick = refl;
  linked = λ i b.
      by_index (λ j ys. Chain page (sentinel machine j) ys (sentinel machine j)) (λ j. []) 7
        (8192 ∷ []) i (λ e. (refl, refl, (refl, refl)))
        (λ ne. (ground (arith, b, ne), ground (arith, b, ne)));
  short = λ i b.
      by_index (λ j ys. AllShort machine (block_size_for 4075) page ys) (λ j. []) 7 (8192 ∷ []) i
        (λ e. (refl, tt)) (λ ne. tt);
  end_free = refl;
  end_long = refl;
  page_header = refl;
  page_footer = refl;
}

sf_malloc-IsStuck_example : sf_malloc machine 50 4075 one_page ≡ none
sf_malloc-IsStuck_example =
    sf_malloc-IsStuck machine 4075 one_page page_blocks one_page-IsStuck (omega arith) refl 50
