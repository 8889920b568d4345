-- ===== src/Utf8.antt =====
-- UTF-8 in src/ucb/unicode.c: fetching, iterating, validating and encoding code points.
-- A text is the list of its bytes, from the current position to its end; a read at or past the end
-- is a fault. Bytes are below 256 and `ucb_cp` values below 2 ^ 32.
pub mod Scalar
pub mod Fields
pub mod Encode
pub mod Step
pub mod Validate
pub mod Cut
pub mod Iterate
mod Tests
use Prim.Native.Nat.{bit_and, bit_or}
use ucb.Common.{
  ℕ, zero, suc, ◌+◌, ◌*◌, ◌/◌, ◌%◌, ◌^◌, Bool, true, false, not, ◌&&◌, ◌||◌, Option, none, some,
  List, [], ◌∷◌, ◌++◌, ltb, leb, ◌==◌, if◌then◌else◌, length, drop,
}
use ucb.Common.Outcome.{Outcome, ok, fault, ◌>>=◌}

pub fetch2 : ℕ → ℕ → ℕ
fetch2 b0 b1 = bit_or (bit_and b0 0x1f * 2 ^ 6) (bit_and b1 0x3f)

pub fetch3 : ℕ → ℕ → ℕ → ℕ
fetch3 b0 b1 b2 =
    bit_or (bit_or (bit_and b0 0x0f * 2 ^ 12) (bit_and b1 0x3f * 2 ^ 6)) (bit_and b2 0x3f)

pub fetch4 : ℕ → ℕ → ℕ → ℕ → ℕ
fetch4 b0 b1 b2 b3 =
    bit_or
      (bit_or (bit_or (bit_and b0 0x07 * 2 ^ 18) (bit_and b1 0x3f * 2 ^ 12))
        (bit_and b2 0x3f * 2 ^ 6))
      (bit_and b3 0x3f)

-- The branches of ucb_uc_next_valid, by the number of bytes that they read.
next2 : ℕ → List ℕ → Outcome (ℕ × List ℕ)
next2 b0 [] = fault
next2 b0 (b1 ∷ s) = ok (fetch2 b0 b1, s)

next3 : ℕ → List ℕ → Outcome (ℕ × List ℕ)
next3 b0 (b1 ∷ b2 ∷ s) = ok (fetch3 b0 b1 b2, s)
next3 b0 _ = fault

next4 : ℕ → List ℕ → Outcome (ℕ × List ℕ)
next4 b0 (b1 ∷ b2 ∷ b3 ∷ s) = ok (fetch4 b0 b1 b2 b3, s)
next4 b0 _ = fault

-- The code point, and the position after it.
pub next_valid : List ℕ → Outcome (ℕ × List ℕ)
unfolding next2 next3 next4
next_valid [] = fault
next_valid (b0 ∷ s) =
    if ltb b0 0x80
    then ok (b0, s)
    else if bit_and b0 0xe0 == 0xc0
    then next2 b0 s
    else if bit_and b0 0xf0 == 0xe0
    then next3 b0 s
    else next4 b0 s

-- What ucb_uc_validate finds at a position: a sequence of so many bytes, one that is cut off by the
-- end of the text, or bytes that are no sequence.
pub data Check : Type 0 where
  next cut : ℕ → Check
  bad : Check

is_cont : ℕ → Bool
is_cont b = bit_and b 0xc0 == 0x80

check2 : ℕ → List ℕ → Check
unfolding is_cont
check2 c [] = cut 2
check2 c (b1 ∷ s) = if not (is_cont b1) then bad else if ltb (fetch2 c b1) 0x80 then bad else next 2

check3_bytes : ℕ → ℕ → ℕ → Check
unfolding is_cont
check3_bytes c b1 b2 =
    if not (is_cont b1) || not (is_cont b2)
    then bad
    else if ltb (fetch3 c b1 b2) 0x800
    then bad
    else if leb 0xd800 (fetch3 c b1 b2) && leb (fetch3 c b1 b2) 0xdfff
    then bad
    else next 3

check3 : ℕ → List ℕ → Check
unfolding check3_bytes
check3 c (b1 ∷ b2 ∷ s) = check3_bytes c b1 b2
check3 c _ = cut 3

check4_bytes : ℕ → ℕ → ℕ → ℕ → Check
unfolding is_cont
check4_bytes c b1 b2 b3 =
    if not (is_cont b1) || not (is_cont b2) || not (is_cont b3)
    then bad
    else if ltb (fetch4 c b1 b2 b3) 0x10000 || ltb 0x10ffff (fetch4 c b1 b2 b3)
    then bad
    else next 4

check4 : ℕ → List ℕ → Check
unfolding check4_bytes
check4 c (b1 ∷ b2 ∷ b3 ∷ s) = check4_bytes c b1 b2 b3
check4 c _ = cut 4

unfoldable pub check_at : ℕ → List ℕ → Check
unfolding check2 check3 check4
check_at c s =
    if ltb c 0x80
    then next 1
    else if bit_and c 0xe0 == 0xc0
    then check2 c s
    else if bit_and c 0xf0 == 0xe0
    then check3 c s
    else if bit_and c 0xf8 == 0xf0
    then check4 c s
    else bad

-- The result of ucb_uc_validate: true, or the error with its position (for a sequence that is cut
-- off, also the bytes that it needs and those that are left).
pub data Verdict : Type 0 where
  valid : Verdict
  truncated : ℕ → ℕ → ℕ → Verdict
  invalid : ℕ → Verdict
  out_of_fuel : Verdict

-- The loop at position `i`, with the bytes from there on.
unfoldable pub validate_loop : ℕ → ℕ → List ℕ → Verdict
validate_loop fuel i [] = valid
validate_loop zero i (c ∷ s) = out_of_fuel
validate_loop (suc fuel) i (c ∷ s) = elim (check_at c s) [
  | next n ↦ validate_loop fuel (i + n) (drop n (c ∷ s))
  | cut n ↦ truncated i n (length (c ∷ s))
  | bad ↦ invalid i
]

unfoldable pub validate : List ℕ → Verdict
unfolding validate_loop check_at
validate s = validate_loop (length s) 0 s

-- Shifts to the right, and the cast to uint8_t.
abbrev byte : ℕ → ℕ
byte n = n % 2 ^ 8

-- The bytes written to `dst`, or `none` for -1.
pub encode_codepoint : ℕ → Option (List ℕ)
encode_codepoint cp =
    if leb cp 0x7f
    then some (byte cp ∷ [])
    else if leb cp 0x7ff
    then some (byte (bit_or 0xc0 (cp / 2 ^ 6)) ∷ byte (bit_or 0x80 (bit_and cp 0x3f)) ∷ [])
    else if leb cp 0xffff
    then (if leb 0xd800 cp && leb cp 0xdfff
        then none
        else some (
            byte (bit_or 0xe0 (cp / 2 ^ 12))
            ∷ byte (bit_or 0x80 (bit_and (cp / 2 ^ 6) 0x3f))
            ∷ byte (bit_or 0x80 (bit_and cp 0x3f))
            ∷ []))
    else if leb cp 0x10ffff
    then some (
        byte (bit_or 0xf0 (cp / 2 ^ 18))
        ∷ byte (bit_or 0x80 (bit_and (cp / 2 ^ 12) 0x3f))
        ∷ byte (bit_or 0x80 (bit_and (cp / 2 ^ 6) 0x3f))
        ∷ byte (bit_or 0x80 (bit_and cp 0x3f))
        ∷ [])
    else none

-- The same call with `dst` NULL: only the number of bytes.
encode_length : ℕ → Option ℕ
encode_length cp =
    if leb cp 0x7f
    then some 1
    else if leb cp 0x7ff
    then some 2
    else if leb cp 0xffff
    then (if leb 0xd800 cp && leb cp 0xdfff then none else some 3)
    else if leb cp 0x10ffff
    then some 4
    else none

-- FOR_EACH_CODEPOINT: the code points that the loop sees, on fuel for the bytes.
pub iterate : ℕ → List ℕ → Outcome (List ℕ)
iterate fuel [] = ok []
iterate zero (c ∷ s) = fault
iterate (suc fuel) (c ∷ s) = do
  (cp, rest) ← next_valid (c ∷ s)
  cps ← iterate fuel rest
  ok (cp ∷ cps)

count_loop : ℕ → List ℕ → ℕ → Outcome ℕ
count_loop fuel [] num = ok num
count_loop zero (c ∷ s) num = fault
count_loop (suc fuel) (c ∷ s) num = do
  (cp, rest) ← next_valid (c ∷ s)
  count_loop fuel rest (num + 1)

pub num_cp : List ℕ → Outcome ℕ
unfolding count_loop next_valid
num_cp s = count_loop (length s) s 0
