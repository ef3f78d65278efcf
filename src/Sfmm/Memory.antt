-- ===== src/Sfmm/Memory.antt =====
-- The memory that hw3/src/sfmm.c works on, and the words that it keeps there. Memory is the function
-- from byte addresses to the 64-bit words at them; the addresses that are used are multiples of 8.
-- A block at `p` has its `prev_footer` at `p`, its `header` at `p + 8`, its links `next` and `prev`
-- at `p + 16` and `p + 24`, and its payload at `p + 16`.
use Prim.Native.Nat.{bit_and, bit_xor}
use c_starter_projects.Prelude.{ℕ, ◌+◌, ◌-◌, ◌*◌, ◌/◌, ◌%◌, ◌^◌, Bool, ◌==◌, if◌then◌else◌}

-- What the allocator does not choose: the addresses of `sf_free_list_heads` and of the heap, the
-- value of `sf_magic`, and whether `sf_mem_grow` succeeds when the heap ends at an address.
pub record Machine : Type 0 where
  pub heads : ℕ
  pub sf_mem_start : ℕ
  pub magic : ℕ
  pub can_grow : ℕ → Bool

abbrev pub Memory : Type 0
Memory = ℕ → ℕ

-- The globals of the allocator. A quick list has a length and a first block.
pub record State : Type 0 where
  pub mem : Memory
  pub sf_mem_end : ℕ
  pub quick_length : ℕ → ℕ
  pub quick_first : ℕ → ℕ
  pub global_end : ℕ
  pub out_of_memory : Bool

abbrev pub null : ℕ
null = 0

abbrev pub page_sz : ℕ
page_sz = 4096

abbrev pub this_block_allocated : ℕ
this_block_allocated = 4

abbrev pub prev_block_allocated : ℕ
prev_block_allocated = 2

-- An assignment through a pointer.
abbrev pub poke : ℕ → ℕ → Memory → Memory
poke p v mem q = if q == p then v else mem q

abbrev pub header : ℕ → ℕ
header p = p + 8

abbrev pub next : ℕ → ℕ
next p = p + 16

abbrev pub prev : ℕ → ℕ
prev p = p + 24

abbrev pub payload : ℕ → ℕ
payload p = p + 16

-- `p - n` on 64-bit addresses.
abbrev pub back : ℕ → ℕ → ℕ
back p n = (p + (2 ^ 64 - n)) % 2 ^ 64

-- `w & ~0x7`
abbrev pub without_flags : ℕ → ℕ
without_flags w = w / 8 * 8

-- `(w & THIS_BLOCK_ALLOCATED) == 0x4`, and the same for the previous block.
abbrev pub is_allocated : ℕ → Bool
is_allocated w = bit_and w this_block_allocated == this_block_allocated

abbrev pub has_prev_allocated : ℕ → Bool
has_prev_allocated w = bit_and w prev_block_allocated == prev_block_allocated

-- The size as the loops compute it, by subtraction of the flags that are set.
unfoldable pub take_out_flags : ℕ → ℕ
take_out_flags w =
    let v = if is_allocated w then w - 4 else w in if has_prev_allocated v then v - 2 else v

module _ (m : Machine) where
  -- The header of the block at `p`, with MAGIC taken off, and the word to store for one.
  abbrev pub read_header : Memory → ℕ → ℕ
  read_header mem p = bit_xor (mem (header p)) m.magic

  abbrev pub set_header : ℕ → ℕ → Memory → Memory
  set_header p w mem = poke (header p) (bit_xor w m.magic) mem

  abbrev pub set_prev_footer : ℕ → ℕ → Memory → Memory
  set_prev_footer p w mem = poke p (bit_xor w m.magic) mem

  unfoldable pub sf_set_block_footer : ℕ → Memory → Memory
  sf_set_block_footer p mem =
      poke ((p + without_flags (read_header mem p)) % 2 ^ 64) (mem (header p)) mem

  unfoldable pub sf_get_block_sz : Memory → ℕ → ℕ
  sf_get_block_sz mem p = without_flags (read_header mem p)

  abbrev pub sentinel : ℕ → ℕ
  sentinel i = m.heads + 32 * i
