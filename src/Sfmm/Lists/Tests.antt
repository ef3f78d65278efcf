-- ===== src/Sfmm/Lists/Tests.antt =====
-- Heaps for the theorems on the free lists of hw3/src/sfmm.c.
use Prim.Native.Nat.{bit_xor}
use c_starter_projects.Prelude.{
  ℕ, ◌*◌, ◌/◌, ◌≡◌, refl, true, some, List, [], ◌∷◌, ◌++◌, arith, ltb, ◌==◌, if◌then◌else◌,
}
use c_starter_projects.Sfmm.Memory.{Machine, Memory, take_out_flags}
use c_starter_projects.Sfmm.Lists.{
  free_list_index, num_free_lists, sf_put_in_free_list, sf_remove_from_free_list,
}
use c_starter_projects.Sfmm.Lists.Table.{
  FreeLists, IsNew, IsClass, set_list, put_in_free_list-FreeLists,
}
use c_starter_projects.Sfmm.Lists.Removal.{Enough, remove_from_free_list-FreeLists}
use c_starter_projects.Sfmm.Lists.Search.{first_large, blocks_of, search_from_lem}
use c_starter_projects.Sfmm.Alloc.{search_from}

-- The sentinels are from 4096 on, and the heap from 8192 on.
abbrev machine : Machine
machine = record { heads = 4096; sf_mem_start = 8192; magic = 3; can_grow = λ p. true }

-- Empty lists, and the header of a block of 64 bytes.
abbrev empty_heap : Memory
empty_heap q = if ltb q 4416 then q / 32 * 32 else if q == 8200 then bit_xor 64 3 else 0

abbrev no_blocks : ℕ → List ℕ
no_blocks i = []

empty_heap-FreeLists : FreeLists machine empty_heap no_blocks
empty_heap-FreeLists = record {
  rings = λ i b. record {
    linked = (ground (arith, b), ground (arith, b));
    distinct = (tt, tt);
    rows = (omega arith, tt);
  };
  apart = λ i j bi bj ne. ((omega (arith, ne), tt), tt);
}

block-IsNew : IsNew machine no_blocks 8192
block-IsNew = (refl, λ i b. (omega (arith, b), tt))

first-IsClass : IsClass 64 1
first-IsClass = record { listed = omega arith; above = λ h. omega arith; up_to = λ h. omega arith }

put_in_free_list-FreeLists_example :
    FreeLists machine
      (sf_put_in_free_list machine 8192 64 empty_heap)
      (set_list no_blocks 1 (8192 ∷ no_blocks 1))
put_in_free_list-FreeLists_example =
    put_in_free_list-FreeLists machine empty_heap no_blocks 8192 64 1 empty_heap-FreeLists
      block-IsNew first-IsClass

abbrev heap : Memory
heap = sf_put_in_free_list machine 8192 64 empty_heap

abbrev blocks : ℕ → List ℕ
blocks = set_list no_blocks 1 (8192 ∷ no_blocks 1)

heap-FreeLists : FreeLists machine heap blocks
heap-FreeLists =
    put_in_free_list-FreeLists machine empty_heap no_blocks 8192 64 1 empty_heap-FreeLists
      block-IsNew first-IsClass

blocks-Enough : Enough blocks 3
unfolding free_list_index
blocks-Enough i b = ground (arith, b)

remove_from_free_list-FreeLists_example :
    (left : Memory) × (sf_remove_from_free_list machine 3 8192 heap ≡ some left)
    × FreeLists machine left (set_list blocks 1 ([] ++ []))
unfolding free_list_index
remove_from_free_list-FreeLists_example =
    remove_from_free_list-FreeLists machine heap blocks 3 8192 1 [] [] heap-FreeLists blocks-Enough
      (omega arith) refl

search_from_lem_example :
    search_from machine 3 num_free_lists 48 heap
    ≡ some (first_large machine 48 heap (blocks_of machine 48 heap blocks 10))
search_from_lem_example = search_from_lem machine 48 heap blocks 3 heap-FreeLists blocks-Enough

-- The block of 64 bytes is found for 48 bytes.
search_finds : search_from machine 3 num_free_lists 48 heap ≡ some (some 8192)
unfolding search_from sf_put_in_free_list take_out_flags
search_finds = refl
