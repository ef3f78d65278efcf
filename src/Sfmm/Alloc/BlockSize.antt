-- ===== src/Sfmm/Alloc/BlockSize.antt =====
-- The block size that `sf_malloc` of hw3/src/sfmm.c computes in two loops.
use c_starter_projects.Prelude.{
  ℕ, zero, suc, ◌+◌, ◌-◌, ◌*◌, ◌/◌, ◌%◌, ◌≤◌, ◌<◌, ◌≡◌, refl, ◌∙◌, inl, inr, false, Bool-cases,
  arith, ltb, leb, leb→le, ◌==◌, if◌then◌else◌,
}
use c_starter_projects.Sfmm.Alloc.{pad_to_row, pad_payload, block_size_for}

-- The next multiple of 16.
abbrev pub rounded_up : ℕ → ℕ
rounded_up n = (n + 15) / 16 * 16

pub pad_to_row-rounded_up :
    (fuel n : ℕ) → rounded_up n < n + fuel → pad_to_row fuel n ≡ rounded_up n
unfolding pad_to_row
pad_to_row-rounded_up zero n h = absurd (omega arith)
pad_to_row-rounded_up (suc fuel) n h = elim (Bool-cases (n % 16 == 0)) [
  | inl even ↦ rw even (ground arith)
  | inr odd ↦
      let same : rounded_up (n + 1) ≡ rounded_up n = ground arith in
      rw odd (pad_to_row-rounded_up fuel (n + 1) (omega arith) ∙ same)
]

pad_payload_small : pad_payload 40 16 8 ≡ 32
unfolding pad_payload
pad_payload_small = refl

pad_payload_done : (fuel n p : ℕ) → n % 16 ≡ 0 → 24 ≤ p → pad_payload (suc fuel) n p ≡ n
unfolding pad_payload
pad_payload_done fuel n p h k = let large : ltb p 24 ≡ false = ground arith in rw (h, large) refl

at_least : (n : ℕ) → 32 ≤ n → n ≡ (if leb n 32 then 32 else n)
at_least n h = ground arith

padding : ℕ → ℕ
padding size = pad_payload 40 (rounded_up (size + 8)) (size + (rounded_up (size + 8) - (size + 8)))

small :
    (size : ℕ)
    → 0 < size
    → size ≤ 8
    → padding size ≡ (if leb (rounded_up (size + 8)) 32 then 32 else rounded_up (size + 8))
unfolding padding
small size h k =
    let row : rounded_up (size + 8) ≡ 16 = omega arith in
    let room : size + (16 - (size + 8)) ≡ 8 = omega arith in rw (row, room) pad_payload_small

large :
    (size : ℕ)
    → 8 < size
    → padding size ≡ (if leb (rounded_up (size + 8)) 32 then 32 else rounded_up (size + 8))
unfolding padding
large size h =
    pad_payload_done 39 (rounded_up (size + 8)) (size + (rounded_up (size + 8) - (size + 8)))
      (omega arith) (omega arith)
    ∙ at_least (rounded_up (size + 8)) (omega arith)

-- For every positive size the loops end with the smallest multiple of 16 that has room for the size and a
-- header of 8 bytes, and with 32 where that multiple is less.
pub block_size_for_lem :
    (size : ℕ)
    → 0 < size
    → block_size_for size ≡ (if leb (rounded_up (size + 8)) 32 then 32 else rounded_up (size + 8))
unfolding block_size_for padding
block_size_for_lem size h =
    let padded : pad_to_row 16 (size + 8) ≡ rounded_up (size + 8) =
      pad_to_row-rounded_up 16 (size + 8) (omega arith) in
    rw padded (elim (Bool-cases (leb size 8)) [
      | inl tiny ↦ small size h (leb→le size 8 tiny)
      | inr more ↦ large size (ground arith)
    ])
