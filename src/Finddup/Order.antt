-- ===== src/Finddup/Order.antt =====
-- `comp1` of hw2/src/finddup.c, which `qsort` compares two files by. The four fields are 64 bits wide,
-- and their differences are cut to an `int`.
use c_starter_projects.Prelude.{
  ℕ, ◌+◌, ◌-◌, ◌%◌, ◌^◌, ◌<◌, ◌≡◌, sym, Bool, true, false, ◌&&◌, ◌||◌, arith, ltb, ◌==◌,
  if◌then◌else◌,
}
use c_starter_projects.Prelude.Int.{ℤ, pos, negsuc, eq_ℤ}
use c_starter_projects.Finddup.Contents.{Filedesc}

abbrev pub signed32 : ℕ → ℤ
signed32 w = if ltb w (2 ^ 31) then pos w else negsuc (2 ^ 32 - w - 1)

-- The difference as a word of 64 bits, cut to 32 of them.
unfoldable pub int_difference : ℕ → ℕ → ℤ
int_difference a b = signed32 ((a + 2 ^ 64 - b) % 2 ^ 64 % 2 ^ 32)

-- `||` for the last value that is computed.
abbrev pub or_else : ℤ → ℤ → ℤ
or_else a b = if eq_ℤ a (pos 0) then b else a

unfoldable pub comp1 : Filedesc → Filedesc → ℤ
unfolding int_difference
comp1 p q = or_else (int_difference p.file_length q.file_length) (
    or_else (int_difference p.crc32 q.crc32)
      (or_else (int_difference p.device q.device) (int_difference p.inode q.inode)))

abbrev pub is_negative : ℤ → Bool
is_negative (pos n) = false
is_negative (negsuc n) = true

-- The order of the lists of the four fields.
abbrev pub comes_first : Filedesc → Filedesc → Bool
comes_first p q =
    ltb p.file_length q.file_length
    || ((p.file_length == q.file_length)
        && (ltb p.crc32 q.crc32
            || ((p.crc32 == q.crc32)
                && (ltb p.device q.device || ((p.device == q.device) && ltb p.inode q.inode)))))

abbrev pub same_fields : Filedesc → Filedesc → Bool
same_fields p q =
    (p.file_length == q.file_length)
    && ((p.crc32 == q.crc32) && ((p.device == q.device) && (p.inode == q.inode)))

abbrev pub IsSmall : Filedesc → Type 0
IsSmall p = (p.file_length < 2 ^ 31) × (p.crc32 < 2 ^ 31) × (p.device < 2 ^ 31) × (p.inode < 2 ^ 31)

int_difference_sign :
    (a b : ℕ)
    → a < 2 ^ 31
    → b < 2 ^ 31
    → (is_negative (int_difference a b) ≡ ltb a b) × (eq_ℤ (int_difference a b) (pos 0) ≡ (a == b))
unfolding int_difference
int_difference_sign a b h k = (ground (arith, h, k), ground (arith, h, k))

or_else_sign :
    (d r : ℤ)
    → (is_negative (or_else d r) ≡ (is_negative d || (eq_ℤ d (pos 0) && is_negative r)))
      × (eq_ℤ (or_else d r) (pos 0) ≡ (eq_ℤ d (pos 0) && eq_ℤ r (pos 0)))
or_else_sign (pos n) r = (ground arith, ground arith)
or_else_sign (negsuc n) r = (ground arith, ground arith)

-- The sign of a difference and of what follows it, when both are those of the fields.
next_field :
    (d r : ℤ) (lt eq less same : Bool)
    → (is_negative d ≡ lt) × (eq_ℤ d (pos 0) ≡ eq)
    → (is_negative r ≡ less) × (eq_ℤ r (pos 0) ≡ same)
    → (is_negative (or_else d r) ≡ (lt || (eq && less)))
      × (eq_ℤ (or_else d r) (pos 0) ≡ (eq && same))
next_field d r lt eq less same h k = rw (sym h.0, sym h.1, sym k.0, sym k.1) (or_else_sign d r)

-- For two files whose fields are below 2 ^ 31, `comp1` is negative exactly when the fields of the
-- first come before those of the second, as lists, and 0 exactly when they are the same.
pub comp1_lem :
    (p q : Filedesc)
    → IsSmall p
    → IsSmall q
    → (is_negative (comp1 p q) ≡ comes_first p q) × (eq_ℤ (comp1 p q) (pos 0) ≡ same_fields p q)
unfolding comp1
comp1_lem p q h k =
    next_field _ _ _ _ _ _ (int_difference_sign p.file_length q.file_length h.0 k.0) (
      next_field _ _ _ _ _ _ (int_difference_sign p.crc32 q.crc32 h.1 k.1) (
        next_field _ _ _ _ _ _ (int_difference_sign p.device q.device h.2 k.2)
          (int_difference_sign p.inode q.inode h.3 k.3)))
