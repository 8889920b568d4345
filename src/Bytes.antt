-- ===== src/Bytes.antt =====
-- Sizes with units: ucb_bytes_parse of src/ucb/units/bytes.c, and the suffixes that ucb_bytes_to_str
-- prints. A text is the list of its bytes before the NUL. The type double and its operations are a
-- parameter; `strtod` gives the value, how many bytes it has read, and whether errno and isfinite
-- accept the value.
pub mod Printed
mod Tests
use ucb.Common.{
  ℕ, zero, suc, ◌+◌, ◌-◌, ◌^◌, get_elem?, Bool, true, false, not, ◌&&◌, ◌||◌, Option, none, some,
  List, [], ◌∷◌, ◌++◌, ltb, leb, ◌==◌, if◌then◌else◌, length,
}

-- `outside_table`: a read past BYTES_UNITS.
pub data Error : Type 0 where
  no_digit trailing_point bad_number out_of_bounds too_long trailing_text unknown_unit : Error
  invalid_unit outside_table : Error

pub data Result {ℓ} (A : Type ℓ) : Type ℓ where
  done : A → Result A
  failed : Error → Result A

-- The type double: the operations of C that the code uses. The conversions are those of whole
-- numbers, of_nat of a literal and to_nat of a cast.
pub record Double {ℓ} (D : Type ℓ) : Type ℓ where
  pub of_nat : ℕ → D
  pub half : D
  pub mul : D → D → D
  pub add : D → D → D
  pub floor : D → D
  pub geq : D → D → Bool
  pub to_nat : D → ℕ

infixl 5 ◌>>=◌ ◌>>◌
abbrev ◌>>=◌ {ℓ κ} : {A : Type ℓ} {B : Type κ} → Result A → (A → Result B) → Result B
done a >>= f = f a
failed e >>= f = failed e

abbrev pub ◌>>◌ {ℓ} : {B : Type ℓ} → Result (Unit {0}) → Result B → Result B
m >> k = m >>= λ _. k

abbrev pub require : Bool → Error → Result (Unit {0})
require true e = done tt
require false e = failed e

abbrev given {ℓ} : {A : Type ℓ} → Option A → Error → Result A
given none e = failed e
given (some a) e = done a

-- BYTES_UNITS, by the index of the unit: B, kB to EB, KiB to EiB, with their factors, of which each is
-- a whole number that a double holds.
abbrev pub units : List (List ℕ × ℕ)
units =
    (66 ∷ [], 1)
    ∷ (107 ∷ 66 ∷ [], 10 ^ 3)
    ∷ (77 ∷ 66 ∷ [], 10 ^ 6)
    ∷ (71 ∷ 66 ∷ [], 10 ^ 9)
    ∷ (84 ∷ 66 ∷ [], 10 ^ 12)
    ∷ (80 ∷ 66 ∷ [], 10 ^ 15)
    ∷ (69 ∷ 66 ∷ [], 10 ^ 18)
    ∷ (75 ∷ 105 ∷ 66 ∷ [], 2 ^ 10)
    ∷ (77 ∷ 105 ∷ 66 ∷ [], 2 ^ 20)
    ∷ (71 ∷ 105 ∷ 66 ∷ [], 2 ^ 30)
    ∷ (84 ∷ 105 ∷ 66 ∷ [], 2 ^ 40)
    ∷ (80 ∷ 105 ∷ 66 ∷ [], 2 ^ 50)
    ∷ (69 ∷ 105 ∷ 66 ∷ [], 2 ^ 60)
    ∷ []

abbrev pub is_space : ℕ → Bool
is_space c = (c == 32) || (c == 9)

abbrev pub is_digit : ℕ → Bool
is_digit c = leb 48 c && leb c 57

-- isalpha and tolower, in the C locale.
abbrev is_alpha : ℕ → Bool
is_alpha c = (leb 65 c && leb c 90) || (leb 97 c && leb c 122)

abbrev lower : ℕ → ℕ
lower c = if leb 65 c && leb c 90 then c + 32 else c

unfoldable pub skip_spaces : List ℕ → List ℕ
skip_spaces [] = []
skip_spaces (c ∷ s) = if is_space c then skip_spaces s else c ∷ s

-- Digits and one point: the number's bytes and the rest.
unfoldable pub scan_number : Bool → List ℕ → List ℕ × List ℕ
scan_number seen_dot [] = ([], [])
scan_number seen_dot (c ∷ s) =
    if is_digit c
    then (let r = scan_number seen_dot s in (c ∷ r.0, r.1))
    else if (c == 46) && not seen_dot
    then (let r = scan_number true s in (c ∷ r.0, r.1))
    else ([], c ∷ s)

unfoldable pub ends_in_point : List ℕ → Bool
ends_in_point [] = false
ends_in_point (c ∷ []) = c == 46
ends_in_point (c ∷ d ∷ s) = ends_in_point (d ∷ s)

-- The letters of the unit in lower case, `slen` of them before, and the rest; not more than seven.
unfoldable pub scan_suffix : ℕ → List ℕ → Option (List ℕ × List ℕ)
scan_suffix slen [] = some ([], [])
scan_suffix slen (c ∷ s) = elim (is_alpha c) [
  | false ↦ some ([], c ∷ s)
  | true ↦ elim (leb 8 (slen + 1)) [
    | true ↦ none
    | false ↦ elim (scan_suffix (slen + 1) s) [ none ↦ none | some r ↦ some (lower c ∷ r.0, r.1) ]
  ]
]

-- strchr, as an index.
unfoldable pub index_of : ℕ → List ℕ → Option ℕ
index_of c [] = none
index_of c (d ∷ s) = elim (d == c) [
  | true ↦ some 0
  | false ↦ elim (index_of c s) [ none ↦ none | some i ↦ some (i + 1) ]
]

-- What follows the prefix: binary, decimal, or no unit.
unfoldable pub is_binary : List ℕ → Option Bool
is_binary [] = some true
is_binary (r ∷ []) = if r == 105 then some true else if r == 98 then some false else none
is_binary (r ∷ q ∷ []) = if (r == 105) && (q == 98) then some true else none
is_binary (r ∷ q ∷ p ∷ s) = none

abbrev prefixes : List ℕ
prefixes = 107 ∷ 109 ∷ 103 ∷ 116 ∷ 112 ∷ 101 ∷ []

unfoldable pub unit_index : List ℕ → Result ℕ
unfolding index_of is_binary
unit_index [] = done 0
unit_index (c ∷ rest) = if (c == 98) && (length rest == 0) then done 0 else (do
  found ← given (index_of c prefixes) unknown_unit
  let power = found + 1
  binary ← given (is_binary rest) invalid_unit
  done (if binary then 7 + power - 1 else power))

-- Behind the number: the unit, and nothing else.
unfoldable pub parse_unit : List ℕ → Result ℕ
unfolding skip_spaces scan_suffix unit_index
parse_unit s = do
  (letters, rest) ← given (scan_suffix 0 (skip_spaces s)) too_long
  require (length (skip_spaces rest) == 0) trailing_text
  unit_index letters

module _ {ℓ} {D : Type ℓ} (double : Double D) where
  -- The value in bytes, rounded, where it is not negative and below 2 ^ 64 (BYTES_LIMIT).
  unfoldable pub to_bytes : D → ℕ → Result ℕ
  to_bytes value factor =
      let scaled = double.mul value (double.of_nat factor) in
      let rounded = double.floor (double.add scaled double.half) in
      if not (double.geq scaled (double.of_nat 0)) || double.geq rounded (double.of_nat (2 ^ 64))
      then failed out_of_bounds
      else done (double.to_nat rounded)

module _ {ℓ} {D : Type ℓ} (double : Double D) (strtod : List ℕ → D × ℕ × Bool) where
  -- At the number `p`, whose bytes and rest have been scanned.
  unfoldable pub parse_scanned : List ℕ → List ℕ → List ℕ → Result (ℕ × ℕ)
  unfolding ends_in_point parse_unit to_bytes
  parse_scanned p num rest = do
    require (not (ends_in_point num)) trailing_point
    let v = strtod p
    require (v.1 == length num) bad_number
    require v.2 out_of_bounds
    idx ← parse_unit rest
    unit ← given (get_elem? units idx) outside_table
    bytes ← to_bytes double v.0 unit.1
    done (bytes, idx)

  unfoldable pub parse_at : List ℕ → Result (ℕ × ℕ)
  unfolding scan_number parse_scanned
  parse_at [] = failed no_digit
  parse_at (c ∷ s) = do
    require (is_digit c) no_digit
    let r = scan_number false (c ∷ s)
    parse_scanned (c ∷ s) r.0 r.1

  -- The number of bytes and the index of the unit.
  unfoldable pub parse : List ℕ → Result (ℕ × ℕ)
  unfolding skip_spaces parse_at
  parse s = parse_at (skip_spaces s)
