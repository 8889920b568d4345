-- ===== src/Utf8/Fields.antt =====
-- The shifts, masks and unions of src/ucb/unicode.c as arithmetic.
use Prim.Native.Nat.{bit_and, bit_or}
use ucb.Common.{ℕ, ◌+◌, ◌*◌, ◌%◌, ◌<◌, ◌≡◌, ◌∙◌, arith}
use ucb.Common.Bits.{bit_or-disjoint, bit_and_7, bit_and_f, bit_and_1f, bit_and_3f}
use ucb.Utf8.{fetch2, fetch3, fetch4}

join6 : (x y : ℕ) → bit_or (x * 64) (bit_and y 0x3f) ≡ x * 64 + y % 64
join6 x y = rw bit_and_3f (bit_or-disjoint 6 x (y % 64) (omega arith))

join12 : (x y : ℕ) → bit_or (x * 4096) (bit_and y 0x3f * 64) ≡ (x * 64 + y % 64) * 64
join12 x y = rw bit_and_3f (bit_or-disjoint 12 x (y % 64 * 64) (omega arith) ∙ omega arith)

join18 : (x y : ℕ) → bit_or (x * 262144) (bit_and y 0x3f * 4096) ≡ (x * 64 + y % 64) * 4096
join18 x y = rw bit_and_3f (bit_or-disjoint 18 x (y % 64 * 4096) (omega arith) ∙ omega arith)

pub fetch2-eq : (b0 b1 : ℕ) → fetch2 b0 b1 ≡ b0 % 32 * 64 + b1 % 64
unfolding fetch2
fetch2-eq b0 b1 = rw bit_and_1f (join6 (b0 % 32) b1)

pub fetch3-eq : (b0 b1 b2 : ℕ) → fetch3 b0 b1 b2 ≡ (b0 % 16 * 64 + b1 % 64) * 64 + b2 % 64
unfolding fetch3
fetch3-eq b0 b1 b2 = rw (bit_and_f, join12 (b0 % 16) b1) (join6 (b0 % 16 * 64 + b1 % 64) b2)

pub fetch4-eq :
    (b0 b1 b2 b3 : ℕ) → fetch4 b0 b1 b2 b3 ≡ ((b0 % 8 * 64 + b1 % 64) * 64 + b2 % 64) * 64 + b3 % 64
unfolding fetch4
fetch4-eq b0 b1 b2 b3 =
    rw (bit_and_7, join18 (b0 % 8) b1, join12 (b0 % 8 * 64 + b1 % 64) b2)
      (join6 ((b0 % 8 * 64 + b1 % 64) * 64 + b2 % 64) b3)

-- The leading bits of an encoded byte.
pub lead2 : (x : ℕ) → x < 32 → bit_or 0xc0 x ≡ 192 + x
lead2 x h = bit_or-disjoint 5 6 x h

pub lead3 : (x : ℕ) → x < 16 → bit_or 0xe0 x ≡ 224 + x
lead3 x h = bit_or-disjoint 4 14 x h

pub lead4 : (x : ℕ) → x < 8 → bit_or 0xf0 x ≡ 240 + x
lead4 x h = bit_or-disjoint 3 30 x h

pub tail_byte : (x : ℕ) → bit_or 0x80 (bit_and x 0x3f) % 256 ≡ 128 + x % 64
tail_byte x = rw (bit_and_3f, bit_or-disjoint 6 2 (x % 64) (omega arith)) (omega arith)
