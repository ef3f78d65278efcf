-- ===== src/Sfmm/Release/Resize.antt =====
-- What `sf_realloc` of hw3/src/sfmm.c does with a valid block, by the sizes.
use c_starter_projects.Prelude.{ℕ, ◌+◌, ◌^◌, ◌≡◌, ◌≤◌, ◌<◌, ◌∙◌, refl, ap, true, false, some, arith}
use c_starter_projects.Sfmm.Memory.{Machine, State, back, null, read_header, take_out_flags}
use c_starter_projects.Sfmm.Alloc.BlockSize.{rounded_up, pad_to_row-rounded_up}
use c_starter_projects.Sfmm.Release.{
  returns, is_valid_block, past_is_consistent, sf_realloc, checked, change_of, keeps, gives_up,
  resize,
}

-- A block of a good size, and a request that it has room for, and not for 32 bytes more: nothing is
-- done.
change_of-keeps :
    (size rsize : ℕ)
    → 0 < rsize
    → rounded_up (rsize + 8) ≤ size
    → size < rounded_up (rsize + 8) + 32
    → size < 2 ^ 64
    → change_of size rsize ≡ keeps
unfolding change_of
change_of-keeps size rsize p fits close word =
    rw (pad_to_row-rounded_up 16 (rsize + 8) (omega arith)) (ground arith)

change_of-gives_up : (size rsize : ℕ) → 0 < rsize → rsize ≡ size → change_of size rsize ≡ gives_up
unfolding change_of
change_of-gives_up size rsize p e = ground arith

-- A call on a block that passes the checks.
abbrev pub Accepts : Machine → ℕ → State → Type 0
Accepts m pp s = (is_valid_block m pp s ≡ true) × (past_is_consistent m false pp s ≡ true)

abbrev pub size_at : Machine → ℕ → State → ℕ
size_at m pp s = take_out_flags (read_header m s.mem (back pp 16))

resized :
    (m : Machine) (fuel pp rsize : ℕ) (s : State)
    → Accepts m pp s
    → sf_realloc m fuel pp rsize s
      ≡ resize m (change_of (size_at m pp s) rsize) fuel pp (size_at m pp s) rsize s
unfolding sf_realloc checked
resized m fuel pp rsize s ok = rw (ok.0, ok.1) refl

-- `sf_realloc` of a block that passes the checks, to a size that it has room for, and not for 32
-- bytes more, returns the pointer and changes nothing.
pub sf_realloc-keeps :
    (m : Machine) (fuel pp rsize : ℕ) (s : State)
    → Accepts m pp s
    → 0 < rsize
    → rounded_up (rsize + 8) ≤ size_at m pp s
    → size_at m pp s < rounded_up (rsize + 8) + 32
    → size_at m pp s < 2 ^ 64
    → sf_realloc m fuel pp rsize s ≡ some (returns (pp, s))
sf_realloc-keeps m fuel pp rsize s ok p fits close word =
    let size = size_at m pp s in
    resized m fuel pp rsize s ok
    ∙ ap (λ c. resize m c fuel pp size rsize s) (change_of-keeps size rsize p fits close word)
    ∙ (unfold resize in refl)

-- `sf_realloc` of a block that passes the checks, to a size that is exactly the size of the whole
-- block, returns NULL and changes nothing.
pub sf_realloc-gives_up :
    (m : Machine) (fuel pp rsize : ℕ) (s : State)
    → Accepts m pp s
    → 0 < rsize
    → rsize ≡ size_at m pp s
    → sf_realloc m fuel pp rsize s ≡ some (returns (null, s))
sf_realloc-gives_up m fuel pp rsize s ok p e =
    let size = size_at m pp s in
    resized m fuel pp rsize s ok
    ∙ ap (λ c. resize m c fuel pp size rsize s) (change_of-gives_up size rsize p e)
    ∙ (unfold resize in refl)
