-- ===== src/Common/Bits.antt =====
-- Laws of `&` and `|` on native numbers: masks of low bits, disjoint fields, and bytes by table.
use Prim.Native.Nat.{
  ℕ, zero, suc, ◌+◌, ◌*◌, ◌/◌, ◌%◌, ◌^◌, ◌≤◌, ◌<◌, min, max, bit_and, bit_or, digits,
  bit_and-bitwise, bit_or-bitwise,
}
use native.Mathlib.Nat.{pow-suc}
use mathlib.Core.Path.{◌≡◌, refl, sym, ap, ◌∙◌}
use mathlib.Core.Bool.{Bool, true, ◌&&◌}
use native.Mathlib.Omega.{arith}
use ucb.Common.Tests.{◌==◌}

module _ (z : ℕ → ℕ) (f : ℕ → ℕ → ℕ) where
  digits-zero : (n b : ℕ) → digits z f n 0 b ≡ z b
  digits-zero zero b = refl
  digits-zero (suc n) b = refl

  -- Any two counts of digits that suffice give the same number.
  digits-count : (n m a b : ℕ) → a ≤ n → a ≤ m → digits z f n a b ≡ digits z f m a b
  digits-count n m zero b p q = digits-zero n b ∙ sym (digits-zero m b)
  digits-count zero m (suc a) b p q = absurd (omega arith)
  digits-count (suc n) zero (suc a) b p q = absurd (omega arith)
  digits-count (suc n) (suc m) (suc a) b p q =
      ap (λ r. r * 2 + f (suc a % 2) (b % 2))
        (digits-count n m (suc a / 2) (b / 2) (omega arith) (omega arith))

-- The lowest bit, and the others.
bit_and-low : (a b : ℕ) → bit_and a b ≡ bit_and (a / 2) (b / 2) * 2 + min (a % 2) (b % 2)
bit_and-low zero b = omega (arith, bit_and-bitwise 0 b, bit_and-bitwise 0 (b / 2))
bit_and-low (suc a) b = omega (
  arith,
  bit_and-bitwise (suc a) b,
  bit_and-bitwise (suc a / 2) (b / 2),
  digits-count (λ _. 0) min a (suc a / 2) (suc a / 2) (b / 2) (omega arith) (omega arith),
)

bit_or-low : (a b : ℕ) → bit_or a b ≡ bit_or (a / 2) (b / 2) * 2 + max (a % 2) (b % 2)
bit_or-low zero b = omega (arith, bit_or-bitwise 0 b, bit_or-bitwise 0 (b / 2))
bit_or-low (suc a) b = omega (
  arith,
  bit_or-bitwise (suc a) b,
  bit_or-bitwise (suc a / 2) (b / 2),
  digits-count (λ y. y) max a (suc a / 2) (suc a / 2) (b / 2) (omega arith) (omega arith),
)

bit_and-zero_below : (n a : ℕ) → a ≤ n → bit_and a 0 ≡ 0
bit_and-zero_below n zero h = refl
bit_and-zero_below zero (suc a) h = absurd (omega arith)
bit_and-zero_below (suc n) (suc a) h =
    omega (arith, bit_and-low (suc a) 0, bit_and-zero_below n (suc a / 2) (omega arith))

bit_or-zero_below : (n a : ℕ) → a ≤ n → bit_or a 0 ≡ a
bit_or-zero_below n zero h = refl
bit_or-zero_below zero (suc a) h = absurd (omega arith)
bit_or-zero_below (suc n) (suc a) h =
    omega (arith, bit_or-low (suc a) 0, bit_or-zero_below n (suc a / 2) (omega arith))

bit_or-double : (q b : ℕ) → bit_or q (b / 2) ≡ q + b / 2 → bit_or (q * 2) b ≡ q * 2 + b
bit_or-double q b h =
    let half : q * 2 / 2 ≡ q = omega arith in
    let low : bit_or (q * 2) b ≡ bit_or q (b / 2) * 2 + max (q * 2 % 2) (b % 2) =
      rw half at (bit_or-low (q * 2) b) in
    omega arith

-- Fields that share no bit: `|` is the sum.
pub bit_or-disjoint : (k a b : ℕ) → b < 2 ^ k → bit_or (a * 2 ^ k) b ≡ a * 2 ^ k + b
bit_or-disjoint zero a b h =
    let e : b ≡ 0 = omega arith in
    rw e (omega (arith, bit_or-zero_below (a * 2 ^ 0) (a * 2 ^ 0) (omega arith)))
bit_or-disjoint (suc k) a b h =
    let p : 2 ^ suc k ≡ 2 ^ k * 2 = pow-suc 2 k in
    let q : a * 2 ^ suc k ≡ a * 2 ^ k * 2 = rw p (omega arith) in
    let below : b / 2 < 2 ^ k = omega arith in
    rw q (bit_or-double (a * 2 ^ k) b (bit_or-disjoint k a (b / 2) below))

-- A mask of ones is a remainder.
mask1 : (a : ℕ) → bit_and a 1 ≡ a % 2
mask1 a = omega (arith, bit_and-low a 1, bit_and-zero_below (a / 2) (a / 2) (omega arith))

mask2 : (a : ℕ) → bit_and a 3 ≡ a % 4
mask2 a = omega (arith, bit_and-low a 3, mask1 (a / 2))

pub bit_and_7 : (a : ℕ) → bit_and a 7 ≡ a % 8
bit_and_7 a = omega (arith, bit_and-low a 7, mask2 (a / 2))

pub bit_and_f : (a : ℕ) → bit_and a 0xf ≡ a % 16
bit_and_f a = omega (arith, bit_and-low a 0xf, bit_and_7 (a / 2))

pub bit_and_1f : (a : ℕ) → bit_and a 0x1f ≡ a % 32
bit_and_1f a = omega (arith, bit_and-low a 0x1f, bit_and_f (a / 2))

pub bit_and_3f : (a : ℕ) → bit_and a 0x3f ≡ a % 64
bit_and_3f a = omega (arith, bit_and-low a 0x3f, bit_and_1f (a / 2))

-- Every value of a byte, by evaluation.
every_below : ℕ → (ℕ → Bool) → Bool
every_below zero p = true
every_below (suc n) p = p n && every_below n p

every_below-lt : (n : ℕ) (p : ℕ → Bool) (x : ℕ) → every_below n p ≡ true → x < n → p x ≡ true
unfolding every_below
every_below-lt zero p x h lt = absurd (omega arith)
every_below-lt (suc n) p x h lt = ground (arith, every_below-lt n p x)

prefix_table :
    every_below 256 (λ c.
      (bit_and c 0xc0 == c / 64 * 64)
      && (bit_and c 0xe0 == c / 32 * 32)
      && (bit_and c 0xf0 == c / 16 * 16)
      && (bit_and c 0xf8 == c / 8 * 8))
    ≡ true
unfolding every_below
prefix_table = refl

-- The masks of high bits, on a byte.
pub bit_and_high :
    (c : ℕ)
    → c < 256
    → (bit_and c 0xc0 ≡ c / 64 * 64)
      × (bit_and c 0xe0 ≡ c / 32 * 32)
      × (bit_and c 0xf0 ≡ c / 16 * 16)
      × (bit_and c 0xf8 ≡ c / 8 * 8)
bit_and_high c h = ground (arith, every_below-lt 256 _ c prefix_table h)
