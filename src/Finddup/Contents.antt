-- ===== src/Finddup/Contents.antt =====
-- The files that hw2/src/finddup.c compares: their checksum, with rc_crc32 of hw2/src/crc32.c, and
-- `fullcmp`. Offsets into the file of names stand for the names; a file is the list of its bytes, or
-- `none` when it cannot be opened, which ends the program.
use Prim.Native.Nat.{bit_and, bit_xor}
use c_starter_projects.Prelude.{
  ℕ, ◌+◌, ◌/◌, ◌%◌, ◌^◌, Bool, true, false, Option, none, some, List, [], ◌∷◌, ◌++◌, ltb, ◌==◌,
  if◌then◌else◌,
}
use c_starter_projects.Prelude.Options.{◌>>=◌}
use c_starter_projects.Prelude.Int.{ℤ, pos, ◌-ℤ◌, eq_ℤ}

pub record Filedesc : Type 0 where
  pub nameloc : ℕ
  pub file_length : ℕ
  pub crc32 : ℕ
  pub device : ℕ
  pub inode : ℕ
  pub has_crc : Bool
  pub is_dup : Bool
  pub is_link : Bool

-- A round of the division: one bit.
abbrev pub divide_bit : ℕ → ℕ
divide_bit rem = if rem % 2 == 1 then bit_xor (rem / 2) 0xedb88320 else rem / 2

-- An entry of the table, with the index as the first remainder.
unfoldable pub table_entry : ℕ → ℕ
table_entry i =
    divide_bit
      (divide_bit (divide_bit (divide_bit (divide_bit (divide_bit (divide_bit (divide_bit i)))))))

unfoldable pub crc_loop : ℕ → List ℕ → ℕ
unfolding table_entry
crc_loop crc [] = crc
crc_loop crc (octet ∷ bytes) =
    crc_loop (bit_xor (crc / 256) (table_entry (bit_xor (bit_and crc 0xff) octet))) bytes

unfoldable pub rc_crc32 : (crc : ℕ) → List ℕ → ℕ
unfolding crc_loop
rc_crc32 crc buf = bit_xor (crc_loop (bit_xor crc 0xffff_ffff) buf) 0xffff_ffff

-- The lines that `getline` reads, each with its newline.
unfoldable pub lines_of : (line : List ℕ) → List ℕ → List (List ℕ)
lines_of [] [] = []
lines_of (b ∷ line) [] = (b ∷ line) ∷ []
lines_of line (b ∷ bytes) =
    let further = lines_of [] bytes in
    let longer = lines_of (line ++ b ∷ []) bytes in
    if b == b'\n' then (line ++ b ∷ []) ∷ further else longer

-- What `strlen` sees of a line.
unfoldable pub before_nul : List ℕ → List ℕ
before_nul [] = []
before_nul (b ∷ bytes) = let rest = before_nul bytes in if b == 0 then [] else b ∷ rest

unfoldable pub sum_crcs : List (List ℕ) → ℕ
unfolding rc_crc32 before_nul
sum_crcs [] = 0
sum_crcs (line ∷ rest) = (rc_crc32 0 (before_nul line) + sum_crcs rest) % 2 ^ 32

-- `fullcmp` keeps the byte of the first file in a `char`, which is signed: 255 is EOF.
abbrev pub signed_char : ℕ → ℤ
signed_char b = if ltb b 128 then pos b else pos b -ℤ pos 256

-- `getc`, EOF being -1.
abbrev pub getc_of : List ℕ → ℤ
getc_of [] = pos 0 -ℤ pos 1
getc_of (b ∷ bytes) = pos b

abbrev pub rest_of : List ℕ → List ℕ
rest_of [] = []
rest_of (b ∷ bytes) = bytes

-- The loop: whether it ends with `ch` at EOF.
unfoldable pub compare_loop : List ℕ → List ℕ → Bool
unfolding ◌-ℤ◌
compare_loop [] second = true
compare_loop (b ∷ first) second =
    let further = compare_loop first (rest_of second) in
    if b == 255 then true else if eq_ℤ (signed_char b) (getc_of second) then further else false

module _ (contents : ℕ → Option (List ℕ)) where
  unfoldable pub get_crc : Filedesc → Option ℕ
  unfolding sum_crcs lines_of
  get_crc f = elim (contents f.nameloc) [
    | none ↦ none
    | some bytes ↦ some (sum_crcs (lines_of [] bytes))
  ]

  -- `none` when a file cannot be opened, and else whether 0 is returned.
  unfoldable pub fullcmp : Filedesc → Filedesc → Option Bool
  unfolding compare_loop
  fullcmp f g = elim (contents f.nameloc) [
    | none ↦ none
    | some first ↦ elim (contents g.nameloc) [
      | none ↦ none
      | some second ↦ some (compare_loop first second)
    ]
  ]

  -- The checksum of a file that has none yet.
  unfoldable pub with_crc : Filedesc → Option Filedesc
  with_crc f =
      let computed = get_crc f >>= λ c. some (record f { crc32 = c; has_crc = true }) in
      if f.has_crc then some f else computed
