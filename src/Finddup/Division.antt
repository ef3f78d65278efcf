-- ===== src/Finddup/Division.antt =====
-- rc_crc32 of hw2/src/crc32.c takes an octet at a time, with its table; the checksum itself is the
-- remainder of a division that takes the message bit by bit, the low bit of each octet first.
use Prim.Native.Nat.{differ, bit_and, bit_xor}
use native.Mathlib.Nat.{pow-suc}
use c_starter_projects.Prelude.{
  ℕ, zero, suc, ◌*◌, ◌/◌, ◌%◌, ◌^◌, ◌<◌, ◌≡◌, refl, ap, sym, ◌∙◌, List, [], ◌∷◌, ◌++◌, All, arith,
  Bool-cases, inl, inr, ◌⊎◌, ◌==◌,
}
use c_starter_projects.Prelude.Bits.{bit_xor-zero, bit_xor_fields, bit_xor_twice, bit_and_low_mask}
use c_starter_projects.Prelude.Bits.Xor.{bit_xor_comm, bit_xor_assoc, half-bit_xor, low-bit_xor}
use c_starter_projects.Finddup.Contents.{divide_bit, table_entry, crc_loop, rc_crc32}

abbrev divisor : ℕ
divisor = 0xedb88320

-- The register after the bits of a message.
abbrev pub shift_register : ℕ → List ℕ → ℕ
shift_register crc [] = crc
shift_register crc (bit ∷ bits) = shift_register (divide_bit (bit_xor crc bit)) bits

abbrev pub bits_of : (count : ℕ) → ℕ → List ℕ
bits_of zero octet = []
bits_of (suc n) octet = octet % 2 ∷ bits_of n (octet / 2)

abbrev pub message_bits : List ℕ → List ℕ
message_bits [] = []
message_bits (octet ∷ bytes) = bits_of 8 octet ++ message_bits bytes

divide_even : (a : ℕ) → a % 2 ≡ 0 → divide_bit a ≡ a / 2
divide_even a h = rw h refl

divide_odd : (a : ℕ) → a % 2 ≡ 1 → divide_bit a ≡ bit_xor (a / 2) divisor
divide_odd a h = rw h refl

parity : (a : ℕ) → (a % 2 ≡ 0) ⊎ (a % 2 ≡ 1)
parity a = elim (Bool-cases (a % 2 == 1)) [
  | inl e ↦ inr (ground (arith, e))
  | inr e ↦ inl (ground (arith, e))
]

low_of : (a b i j : ℕ) → a % 2 ≡ i → b % 2 ≡ j → bit_xor a b % 2 ≡ differ i j
low_of a b i j h k = rw (sym h, sym k) (low-bit_xor a b)

move_right : (a b c : ℕ) → bit_xor (bit_xor a b) c ≡ bit_xor (bit_xor a c) b
move_right a b c =
    bit_xor_assoc a b c ∙ ap (bit_xor a) (bit_xor_comm b c) ∙ sym (bit_xor_assoc a c b)

both_twice : (a b d : ℕ) → bit_xor (bit_xor a d) (bit_xor b d) ≡ bit_xor a b
both_twice a b d =
    sym (bit_xor_assoc (bit_xor a d) b d)
    ∙ ap (λ t. bit_xor t d) (move_right a d b)
    ∙ bit_xor_twice (bit_xor a b) d

-- A round of the division is linear.
divide_bit-bit_xor : (a b : ℕ) → divide_bit (bit_xor a b) ≡ bit_xor (divide_bit a) (divide_bit b)
divide_bit-bit_xor a b = elim (parity a) [
  | inl ea ↦ elim (parity b) [
    | inl eb ↦
        rw (divide_even a ea, divide_even b eb)
          (divide_even (bit_xor a b) (low_of a b 0 0 ea eb) ∙ half-bit_xor a b)
    | inr eb ↦
        rw (divide_even a ea, divide_odd b eb)
          (divide_odd (bit_xor a b) (low_of a b 0 1 ea eb)
            ∙ ap (λ t. bit_xor t divisor) (half-bit_xor a b)
            ∙ bit_xor_assoc (a / 2) (b / 2) divisor)
  ]
  | inr ea ↦ elim (parity b) [
    | inl eb ↦
        rw (divide_odd a ea, divide_even b eb)
          (divide_odd (bit_xor a b) (low_of a b 1 0 ea eb)
            ∙ ap (λ t. bit_xor t divisor) (half-bit_xor a b)
            ∙ move_right (a / 2) (b / 2) divisor)
    | inr eb ↦
        rw (divide_odd a ea, divide_odd b eb)
          (divide_even (bit_xor a b) (low_of a b 1 1 ea eb)
            ∙ half-bit_xor a b
            ∙ sym (both_twice (a / 2) (b / 2) divisor))
  ]
]

divide_times : ℕ → ℕ → ℕ
divide_times zero rem = rem
divide_times (suc n) rem = divide_times n (divide_bit rem)

divide_times-bit_xor :
    (n a b : ℕ) → divide_times n (bit_xor a b) ≡ bit_xor (divide_times n a) (divide_times n b)
unfolding divide_times
divide_times-bit_xor zero a b = refl
divide_times-bit_xor (suc n) a b =
    ap (divide_times n) (divide_bit-bit_xor a b)
    ∙ divide_times-bit_xor n (divide_bit a) (divide_bit b)

-- The low bits of an octet are those that the next rounds test.
divide_octet :
    (n crc octet : ℕ)
    → octet < 2 ^ n
    → divide_times n (bit_xor crc octet) ≡ shift_register crc (bits_of n octet)
unfolding divide_times
divide_octet zero crc octet h = ap (bit_xor crc) (omega (arith, h)) ∙ bit_xor-zero crc
divide_octet (suc n) crc octet h =
    let double : bit_xor (octet / 2 * 2) (octet % 2) ≡ octet =
      bit_xor_fields 1 (octet / 2) (octet % 2) (omega arith) ∙ omega arith in
    let apart : bit_xor crc octet ≡ bit_xor (bit_xor crc (octet % 2)) (octet / 2 * 2) =
      ap (bit_xor crc) (sym double ∙ bit_xor_comm (octet / 2 * 2) (octet % 2))
      ∙ sym (bit_xor_assoc crc (octet % 2) (octet / 2 * 2)) in
    let even : divide_bit (octet / 2 * 2) ≡ octet / 2 =
      divide_even (octet / 2 * 2) (omega arith) ∙ omega arith in
    let first : divide_bit (bit_xor crc octet)
        ≡ bit_xor (divide_bit (bit_xor crc (octet % 2))) (octet / 2) =
      ap divide_bit apart
      ∙ divide_bit-bit_xor (bit_xor crc (octet % 2)) (octet / 2 * 2)
      ∙ ap (bit_xor (divide_bit (bit_xor crc (octet % 2)))) even in
    ap (divide_times n) first
    ∙ divide_octet n (divide_bit (bit_xor crc (octet % 2))) (octet / 2)
        (omega (arith, h, pow-suc 2 n))

divide_shifted : (n q : ℕ) → divide_times n (q * 2 ^ n) ≡ q
unfolding divide_times
divide_shifted zero q = omega arith
divide_shifted (suc n) q =
    let double : q * 2 ^ suc n ≡ q * 2 ^ n * 2 =
      omega (arith, ap (λ (t : ℕ). q * t) (pow-suc 2 n)) in
    let half : divide_bit (q * 2 ^ suc n) ≡ q * 2 ^ n =
      ap divide_bit double ∙ divide_even (q * 2 ^ n * 2) (omega arith) ∙ omega arith in
    ap (divide_times n) half ∙ divide_shifted n q

-- A step of the loop, with the table, is eight rounds.
table_step :
    (crc octet : ℕ)
    → bit_xor (crc / 256) (table_entry (bit_xor (bit_and crc 0xff) octet))
      ≡ divide_times 8 (bit_xor crc octet)
unfolding table_entry divide_times
table_step crc octet =
    let low : bit_and crc 0xff ≡ crc % 256 = bit_and_low_mask 8 crc in
    let whole : bit_xor (crc / 256 * 256) (crc % 256) ≡ crc =
      bit_xor_fields 8 (crc / 256) (crc % 256) (omega arith) ∙ omega arith in
    let index = bit_xor (bit_and crc 0xff) octet in
    let apart : bit_xor crc octet ≡ bit_xor (crc / 256 * 256) index =
      ap (λ t. bit_xor t octet) (sym whole)
      ∙ bit_xor_assoc (crc / 256 * 256) (crc % 256) octet
      ∙ ap (λ t. bit_xor (crc / 256 * 256) (bit_xor t octet)) (sym low) in
    sym (
      ap (divide_times 8) apart
      ∙ divide_times-bit_xor 8 (crc / 256 * 256) index
      ∙ ap (λ t. bit_xor t (divide_times 8 index)) (divide_shifted 8 (crc / 256)))

shift_register-append :
    (crc : ℕ) (xs ys : List ℕ)
    → shift_register crc (xs ++ ys) ≡ shift_register (shift_register crc xs) ys
shift_register-append crc [] ys = refl
shift_register-append crc (x ∷ xs) ys = shift_register-append (divide_bit (bit_xor crc x)) xs ys

crc_loop-shift_register :
    (crc : ℕ) (bytes : List ℕ)
    → All (λ b. b < 256) bytes
    → crc_loop crc bytes ≡ shift_register crc (message_bits bytes)
unfolding crc_loop
crc_loop-shift_register crc [] h = refl
crc_loop-shift_register crc (octet ∷ bytes) h =
    ap (λ c. crc_loop c bytes) (table_step crc octet ∙ divide_octet 8 crc octet h.0)
    ∙ crc_loop-shift_register (shift_register crc (bits_of 8 octet)) bytes h.1
    ∙ sym (shift_register-append crc (bits_of 8 octet) (message_bits bytes))

-- For every message of bytes, the checksum with the table is the one of the division bit by bit,
-- from the complement of the given one, and complemented in the end.
pub rc_crc32-shift_register :
    (crc : ℕ) (bytes : List ℕ)
    → All (λ b. b < 256) bytes
    → rc_crc32 crc bytes
      ≡ bit_xor (shift_register (bit_xor crc 0xffff_ffff) (message_bits bytes)) 0xffff_ffff
unfolding rc_crc32
rc_crc32-shift_register crc bytes h =
    ap (λ t. bit_xor t 0xffff_ffff) (crc_loop-shift_register (bit_xor crc 0xffff_ffff) bytes h)
