-- ===== src/Bytes/Tests.antt =====
-- Runs of ucb_bytes_parse of src/ucb/units/bytes.c, and its theorem at a concrete input.
use ucb.Common.{ℕ, ◌+◌, ◌-◌, ◌*◌, ◌/◌, leb, ◌≡◌, refl, Bool, true, List, [], ◌∷◌, if◌then◌else◌}
use ucb.Bytes.{
  done, failed, trailing_point, out_of_bounds, Double, to_bytes, unknown_unit, is_digit,
  skip_spaces, scan_number, ends_in_point, scan_suffix, index_of, is_binary, unit_index, parse_unit,
  parse_scanned, parse_at, parse,
}

-- Whole numbers read by digits.
abbrev read_digits : ℕ → ℕ → List ℕ → ℕ × ℕ × Bool
read_digits value n [] = (value, n, true)
read_digits value n (c ∷ s) =
    if is_digit c then read_digits (value * 10 + (c - 48)) (n + 1) s else (value, n, true)

abbrev strtod : List ℕ → ℕ × ℕ × Bool
strtod s = let r = read_digits 0 0 s in (r.0 * 2, r.1, r.2)

-- Numbers by their halves; a product drops those of its factors.
abbrev halves : Double ℕ
halves = record {
  of_nat = λ n. n * 2;
  half = 1;
  mul = λ x y. (x / 2) * (y / 2) * 2;
  add = λ x y. x + y;
  floor = λ x. x / 2 * 2;
  geq = λ x y. leb y x;
  to_nat = λ x. x / 2;
}

-- "12Kb " is decimal, "12k" binary; "1. B" and "1 xB" are errors.
decimal : parse halves strtod (49 ∷ 50 ∷ 75 ∷ 98 ∷ 32 ∷ []) ≡ done (12000, 1)
unfolding parse parse_at parse_scanned to_bytes parse_unit skip_spaces scan_number ends_in_point
    scan_suffix index_of is_binary unit_index
decimal = refl

binary : parse halves strtod (49 ∷ 50 ∷ 107 ∷ []) ≡ done (12288, 7)
unfolding parse parse_at parse_scanned to_bytes parse_unit skip_spaces scan_number ends_in_point
    scan_suffix index_of is_binary unit_index
binary = refl

pointed : parse halves strtod (49 ∷ 46 ∷ 32 ∷ 66 ∷ []) ≡ failed trailing_point
unfolding parse parse_at parse_scanned to_bytes parse_unit skip_spaces scan_number ends_in_point
    scan_suffix index_of is_binary unit_index
pointed = refl

foreign : parse halves strtod (49 ∷ 32 ∷ 120 ∷ 66 ∷ []) ≡ failed unknown_unit
unfolding parse parse_at parse_scanned to_bytes parse_unit skip_spaces scan_number ends_in_point
    scan_suffix index_of is_binary unit_index
foreign = refl

-- "20 EB" is past 64 bits.
large : parse halves strtod (50 ∷ 48 ∷ 69 ∷ 66 ∷ []) ≡ failed out_of_bounds
unfolding parse parse_at parse_scanned to_bytes parse_unit skip_spaces scan_number ends_in_point
    scan_suffix index_of is_binary unit_index
large = refl
