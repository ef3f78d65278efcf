-- ===== src/Prelude/Bits.antt =====
-- Laws of `bit_xor` and `bit_and` at variables, from the recursion on binary digits that they mean.
pub mod Xor
use Prim.Native.Nat.{
  min, digits, bitwise, differ, bit_and, bit_xor, bit_and-bitwise, bit_xor-bitwise,
}
use native.Mathlib.Nat.{
  pow-suc, one-le-pow, mod-lt, div-add-mod, mod-eq_of_lt, add-mul-mod_self_right,
  div-div-eq-div-mul,
}
use c_starter_projects.Prelude.{
  ℕ, zero, suc, ◌+◌, ◌-◌, ◌*◌, ◌/◌, ◌%◌, ◌^◌, ◌≤◌, ◌<◌, ◌≡◌, refl, ap, ◌∙◌, arith,
}

-- Any fuel that is at least the first number gives the same digits.
enough_digits :
    (z : ℕ → ℕ) (f : ℕ → ℕ → ℕ) (fuel n a b : ℕ)
    → a ≤ fuel
    → a ≤ n
    → digits z f fuel a b ≡ digits z f n a b
enough_digits z f zero zero zero b h k = refl
enough_digits z f zero (suc n) zero b h k = refl
enough_digits z f (suc fuel) zero zero b h k = refl
enough_digits z f (suc fuel) (suc n) zero b h k = refl
enough_digits z f zero n (suc a) b h k = absurd (omega arith)
enough_digits z f (suc fuel) zero (suc a) b h k = absurd (omega arith)
enough_digits z f (suc fuel) (suc n) (suc a) b h k =
    ap (λ t. t * 2 + f (suc a % 2) (b % 2))
      (enough_digits z f fuel n (suc a / 2) (b / 2) (omega arith) (omega arith))

digit_step :
    (z : ℕ → ℕ) (f : ℕ → ℕ → ℕ) (a b : ℕ)
    → bitwise z f (suc a) b ≡ bitwise z f (suc a / 2) (b / 2) * 2 + f (suc a % 2) (b % 2)
digit_step z f a b =
    ap (λ t. t * 2 + f (suc a % 2) (b % 2))
      (enough_digits z f a (suc a / 2) (suc a / 2) (b / 2) (omega arith) (omega arith))

pub bit_xor_step : (a b : ℕ) → bit_xor a b ≡ bit_xor (a / 2) (b / 2) * 2 + differ (a % 2) (b % 2)
bit_xor_step zero b = simp bit_xor-bitwise (omega arith)
bit_xor_step (suc a) b = simp bit_xor-bitwise (digit_step (λ y. y) differ a b)

pub bit_and_step :
    (n mask : ℕ) → bit_and n mask ≡ min (n % 2) (mask % 2) + 2 * bit_and (n / 2) (mask / 2)
bit_and_step zero mask = simp bit_and-bitwise (omega arith)
bit_and_step (suc n) mask = simp bit_and-bitwise (omega (arith, digit_step (λ y. 0) min n mask))

differ_of_zero : (x y : ℕ) → x ≡ 0 → differ x y ≡ y
differ_of_zero x y e = rw e

differ-zero : (x : ℕ) → differ x 0 ≡ x
differ-zero zero = refl
differ-zero (suc x) = refl

differ_twice : (x y : ℕ) → x < 2 → y < 2 → differ (differ x y) y ≡ x
differ_twice zero zero h k = refl
differ_twice zero (suc zero) h k = refl
differ_twice (suc zero) zero h k = refl
differ_twice (suc zero) (suc zero) h k = refl
differ_twice x (suc (suc y)) h k = absurd (omega arith)
differ_twice (suc (suc x)) y h k = absurd (omega arith)

differ-lt-two : (x y : ℕ) → x < 2 → y < 2 → differ x y < 2
differ-lt-two zero y h k = k
differ-lt-two (suc x) zero h k = h
differ-lt-two (suc x) (suc y) h k = differ-lt-two x y (omega arith) (omega arith)

bit_xor-zero_below : (n a : ℕ) → a < n → bit_xor a 0 ≡ a
bit_xor-zero_below zero a h = absurd (omega arith)
bit_xor-zero_below (suc n) zero h = refl
bit_xor-zero_below (suc n) (suc a) h = omega (
  arith,
  bit_xor_step (suc a) 0,
  differ-zero (suc a % 2),
  bit_xor-zero_below n (suc a / 2) (omega arith),
)

pub bit_xor-zero : (a : ℕ) → bit_xor a 0 ≡ a
bit_xor-zero a = bit_xor-zero_below (suc a) a (omega arith)

-- A number of `k` bits under a number shifted by `k` is added to it.
pub bit_xor_fields : (k q r : ℕ) → r < 2 ^ k → bit_xor (q * 2 ^ k) r ≡ q * 2 ^ k + r
bit_xor_fields zero q r h = ground (arith, bit_xor-zero (q * 1))
bit_xor_fields (suc k) q r h =
    let double : q * 2 ^ suc k ≡ q * 2 ^ k * 2 =
      omega (arith, ap (λ (t : ℕ). q * t) (pow-suc 2 k)) in
    let small : r < 2 ^ k * 2 = omega (arith, pow-suc 2 k) in
    let half : q * 2 ^ suc k / 2 ≡ q * 2 ^ k = omega arith in
    omega (
      arith,
      bit_xor_step (q * 2 ^ suc k) r,
      differ_of_zero (q * 2 ^ suc k % 2) (r % 2) (omega arith),
      bit_xor_fields k q (r / 2) (omega arith),
      ap (λ t. bit_xor t (r / 2)) half,
    )

-- The same mask a second time gives the number back.
bit_xor_twice_below : (n a m : ℕ) → a ≤ n → m ≤ n → bit_xor (bit_xor a m) m ≡ a
bit_xor_twice_below zero zero zero h k = refl
bit_xor_twice_below zero (suc a) m h k = absurd (omega arith)
bit_xor_twice_below zero a (suc m) h k = absurd (omega arith)
bit_xor_twice_below (suc n) a m h k =
    let c = bit_xor a m in
    let bit = differ-lt-two (a % 2) (m % 2) (omega arith) (omega arith) in
    let high : c / 2 ≡ bit_xor (a / 2) (m / 2) = omega (arith, bit_xor_step a m) in
    let low : c % 2 ≡ differ (a % 2) (m % 2) = omega (arith, bit_xor_step a m) in
    omega (
      arith,
      bit_xor_step c m,
      ap (λ t. bit_xor t (m / 2)) high,
      ap (λ t. differ t (m % 2)) low,
      differ_twice (a % 2) (m % 2) (omega arith) (omega arith),
      bit_xor_twice_below n (a / 2) (m / 2) (omega arith) (omega arith),
    )

pub bit_xor_twice : (a m : ℕ) → bit_xor (bit_xor a m) m ≡ a
bit_xor_twice a m = bit_xor_twice_below (a + m) a m (omega arith) (omega arith)

bit_and-zero_below : (n a : ℕ) → a ≤ n → bit_and a 0 ≡ 0
bit_and-zero_below n zero h = refl
bit_and-zero_below zero (suc a) h = absurd (omega arith)
bit_and-zero_below (suc n) (suc a) h =
    omega (arith, bit_and_step (suc a) 0, bit_and-zero_below n (suc a / 2) (omega arith))

-- The remainder by an even number, from that of the half.
mod_double : (a n : ℕ) → 0 < n → a % (n * 2) ≡ a / 2 % n * 2 + a % 2
mod_double a n h =
    let q = a / 2 / n in
    let r = a / 2 % n * 2 + a % 2 in
    let small : r < n * 2 = omega (arith, mod-lt (a / 2) h) in
    let whole : a ≡ r + q * (n * 2) = omega (arith, div-add-mod (a / 2) n) in
    ap (λ t. t % (n * 2)) whole ∙ add-mul-mod_self_right r q (n * 2) ∙ mod-eq_of_lt small

-- A mask of `k` low bits.
pub bit_and_low_mask : (k a : ℕ) → bit_and a (2 ^ k - 1) ≡ a % 2 ^ k
bit_and_low_mask zero a = omega (arith, bit_and-zero_below a a (omega arith))
bit_and_low_mask (suc k) a =
    let p : 2 ^ suc k ≡ 2 ^ k * 2 = pow-suc 2 k in
    let pos : 1 ≤ 2 ^ k = one-le-pow k 2 (omega arith) in
    let half : (2 ^ suc k - 1) / 2 ≡ 2 ^ k - 1 = omega arith in
    omega (
      arith,
      bit_and_step a (2 ^ suc k - 1),
      ap (λ t. bit_and (a / 2) t) half,
      bit_and_low_mask k (a / 2),
      ap (λ (t : ℕ). a % t) p,
      mod_double a (2 ^ k) pos,
    )

-- A mask shifted by `k` bits selects from the number shifted down.
pub bit_and_shifted : (k a m : ℕ) → bit_and a (m * 2 ^ k) ≡ bit_and (a / 2 ^ k) m * 2 ^ k
bit_and_shifted zero a m =
    let same : m * 1 ≡ m = omega arith in
    let same' : a / 1 ≡ a = omega arith in rw (same, same') (omega arith)
bit_and_shifted (suc k) a m =
    let p : 2 ^ suc k ≡ 2 ^ k * 2 = pow-suc 2 k in
    let double : m * 2 ^ suc k ≡ m * 2 ^ k * 2 = omega (arith, ap (λ (t : ℕ). m * t) p) in
    let half : m * 2 ^ suc k / 2 ≡ m * 2 ^ k = omega arith in
    let twice : 2 * 2 ^ k ≡ 2 ^ suc k = omega arith in
    let down : a / 2 / 2 ^ k ≡ a / 2 ^ suc k =
      div-div-eq-div-mul a 2 (2 ^ k) ∙ ap (λ (t : ℕ). a / t) twice in
    let x = bit_and (a / 2 ^ suc k) m in
    omega (
      arith,
      bit_and_step a (m * 2 ^ suc k),
      ap (λ t. bit_and (a / 2) t) half,
      bit_and_shifted k (a / 2) m,
      ap (λ t. bit_and t m * 2 ^ k) down,
      ap (λ (t : ℕ). x * t) p,
    )
