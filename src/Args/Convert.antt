-- ===== src/Args/Convert.antt =====
-- The converters of src/ucb/argparse.c. A text is the list of its bytes before the NUL. strtoll and
-- strtoull are those of the C library at base 10, on texts that do not start with white space: a
-- sign, digits, and the rest; 64 bits hold `long` and `size_t`.
use ucb.Common.{
  ℕ, ◌+◌, ◌-◌, ◌*◌, ◌^◌, Bool, true, false, ◌&&◌, ◌||◌, Option, none, some, List, [], ◌∷◌, leb,
  ◌==◌, if◌then◌else◌,
}

-- An integer with its sign; `minus 0` is not read differently from `plus 0`.
pub data Signed : Type 0 where
  plus minus : ℕ → Signed

abbrev pub is_digit : ℕ → Bool
is_digit c = leb 48 c && leb c 57

abbrev pub is_space_char : ℕ → Bool
is_space_char c = (c == 32) || (leb 9 c && leb c 13)

abbrev lower : ℕ → ℕ
lower c = if leb 65 c && leb c 90 then c + 32 else c

unfoldable ieq : List ℕ → List ℕ → Bool
ieq [] [] = true
ieq [] (d ∷ b) = false
ieq (c ∷ a) [] = false
ieq (c ∷ a) (d ∷ b) = (lower c == lower d) && ieq a b

-- The value of the digits at the start, behind the value `acc`, and the rest.
unfoldable pub read_digits : ℕ → List ℕ → ℕ × List ℕ
read_digits acc [] = (acc, [])
read_digits acc (c ∷ s) = elim (is_digit c) [
  | true ↦ read_digits (acc * 10 + (c - 48)) s
  | false ↦ (acc, c ∷ s)
]

-- No digit is no number.
unfoldable pub read_number : (ℕ → Signed) → List ℕ → Option (Signed × List ℕ)
unfolding read_digits
read_number sign [] = none
read_number sign (c ∷ s) =
    if is_digit c then (let r = read_digits 0 (c ∷ s) in some (sign r.0, r.1)) else none

unfoldable pub read_signed : List ℕ → Option (Signed × List ℕ)
unfolding read_number
read_signed [] = none
read_signed (c ∷ s) =
    if c == 45
    then read_number minus s
    else if c == 43
    then read_number plus s
    else read_number plus (c ∷ s)

-- `low` is the largest magnitude below zero, `high` the largest number.
abbrev pub in_range : ℕ → ℕ → Signed → Bool
in_range low high (plus n) = leb n high
in_range low high (minus n) = leb n low

-- The whole text, and no ERANGE.
unfoldable pub accepted : ℕ → ℕ → Option (Signed × List ℕ) → Option Signed
accepted low high none = none
accepted low high (some (x, [])) = if in_range low high x then some x else none
accepted low high (some (x, c ∷ s)) = none

unfoldable pub parse_ll : List ℕ → Option Signed
unfolding read_signed accepted
parse_ll [] = none
parse_ll (c ∷ s) =
    if is_space_char c then none else accepted (2 ^ 63) (2 ^ 63 - 1) (read_signed (c ∷ s))

unfoldable pub parse_ull : List ℕ → Option Signed
unfolding read_signed accepted
parse_ull [] = none
parse_ull (c ∷ s) =
    if is_space_char c || (c == 45) then none else accepted 0 (2 ^ 64 - 1) (read_signed (c ∷ s))

-- A number that the type of the destination holds.
unfoldable pub within : ℕ → ℕ → Option Signed → Option Signed
within low high none = none
within low high (some x) = if in_range low high x then some x else none

-- "true", "1", "yes", "on"; "false", "0", "no", "off".
unfoldable pub parse_bool_lit : List ℕ → Option Bool
unfolding ieq
parse_bool_lit s =
    if ieq s (116 ∷ 114 ∷ 117 ∷ 101 ∷ [])
      || ieq s (49 ∷ [])
      || ieq s (121 ∷ 101 ∷ 115 ∷ [])
      || ieq s (111 ∷ 110 ∷ [])
    then some true
    else if ieq s (102 ∷ 97 ∷ 108 ∷ 115 ∷ 101 ∷ [])
        || ieq s (48 ∷ [])
        || ieq s (110 ∷ 111 ∷ [])
        || ieq s (111 ∷ 102 ∷ 102 ∷ [])
    then some false
    else none
