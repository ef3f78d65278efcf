-- ===== src/Sfmm/Release/Tests.antt =====
-- Heaps for the theorems on `sf_free` and `sf_realloc` of hw3/src/sfmm.c.
use Prim.Native.Nat.{bit_xor}
use c_starter_projects.Prelude.{◌≡◌, refl, true, false, some, [], ◌∷◌, arith, ◌==◌, if◌then◌else◌}
use c_starter_projects.Sfmm.Memory.{Machine, State, null, take_out_flags}
use c_starter_projects.Prelude.Options.{After}
use c_starter_projects.Sfmm.Alloc.Quick.{IsBounded}
use c_starter_projects.Sfmm.Release.{
  returns, is_valid_block, past_is_consistent, push_quick, sf_free, checked, free_to,
  quick_list_index, sf_put_in_quick_list_helper,
}
use c_starter_projects.Prelude.{ℕ, List}
use c_starter_projects.Sfmm.Memory.{payload}
use c_starter_projects.Sfmm.Alloc.{pop_quick}
use c_starter_projects.Sfmm.Release.Stack.{QuickLists, with_block, put_in_quick_list-QuickLists}
use c_starter_projects.Sfmm.Release.Quick.{Left, calls, malloc, free, realloc, calls-IsBounded}

abbrev machine : Machine
machine = record { heads = 4096; sf_mem_start = 8192; magic = 3; can_grow = λ p. true }

-- A page that starts with a block of 64 bytes in use, behind one in use.
abbrev in_use : State
in_use = record {
  mem = λ q. if q == 8200 then bit_xor 70 3 else 0;
  sf_mem_end = 12288;
  quick_length = λ i. 0;
  quick_first = λ i. null;
  global_end = 8192;
  out_of_memory = false;
}

freed : sf_free machine 1 8208 in_use ≡ some (returns (push_quick machine 8192 2 in_use))
unfolding sf_free is_valid_block past_is_consistent take_out_flags checked free_to quick_list_index
    sf_put_in_quick_list_helper
freed = refl

calls-IsBounded_example :
    After (Left IsBounded) (calls machine 2 (free 8208 ∷ malloc 50 ∷ realloc 8208 50 ∷ []) in_use)
calls-IsBounded_example =
    calls-IsBounded machine 2 (free 8208 ∷ malloc 50 ∷ realloc 8208 50 ∷ []) in_use
      (λ i. omega arith)

abbrev no_quick_blocks : ℕ → List ℕ
no_quick_blocks i = []

in_use-QuickLists : QuickLists in_use no_quick_blocks
in_use-QuickLists = λ i. record { linked = refl; counted = refl }

put_in_quick_list-QuickLists_example :
    (after : State) × (sf_put_in_quick_list_helper machine 1 8192 2 in_use ≡ some after)
    × QuickLists after (with_block no_quick_blocks 2 8192)
    × ((pop_quick machine 2 after).0 ≡ payload 8192)
    × QuickLists (pop_quick machine 2 after).1 no_quick_blocks
put_in_quick_list-QuickLists_example =
    put_in_quick_list-QuickLists machine 1 8192 2 in_use no_quick_blocks in_use-QuickLists
      (omega arith) (omega arith) (λ i. tt)
