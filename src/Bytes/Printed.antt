-- ===== src/Bytes/Printed.antt =====
-- Sizes as src/ucb/units/bytes.c prints them, a decimal number, a space and a suffix, read back by
-- ucb_bytes_parse.
use ucb.Common.{
  ℕ, suc, ◌*◌, ◌^◌, ◌≤◌, ◌<◌, leb, ltb, if◌then◌else◌, ◌≡◌, Bool, ◌&&◌, true, List, [], ◌∷◌, ◌++◌,
  All,
}
use ucb.Bytes.{Result, done, failed, out_of_bounds, Double, is_digit, parse_unit}

abbrev Digits : List ℕ → Type 0
Digits s = All (λ c. is_digit c ≡ true) s

-- Digits, at least one, with no point or with more digits behind a point.
pub data Decimal : List ℕ → Type 0 where
  whole : (c : ℕ) (s : List ℕ) → Digits (c ∷ s) → Decimal (c ∷ s)
  pointed :
      (c : ℕ) (s : List ℕ) (d : ℕ) (t : List ℕ)
      → Digits (c ∷ s)
      → Digits (d ∷ t)
      → Decimal ((c ∷ s) ++ (46 ∷ d ∷ t))

-- A factor is at least one, and a double holds it.
abbrev is_factor : ℕ → Bool
is_factor f = ltb 0 f && ltb f (2 ^ 64)

-- Behind a space, these suffixes are the units from index `u` on, with such factors.
abbrev Reads : ℕ → List (List ℕ × ℕ) → Type 0
Reads u [] = Unit
Reads u (t ∷ ts) = ((parse_unit (32 ∷ t.0) ≡ done u) × (is_factor t.1 ≡ true)) × Reads (suc u) ts

-- What the code relies on of the type double. Whole numbers up to 2 ^ 53 are exact, as are halves
-- below 2 ^ 52, and rounding keeps the order.
pub record IsDouble {ℓ} {D : Type ℓ} (double : Double D) : Type ℓ where
  pub product :
      (m k : ℕ)
      → 0 < k
      → k < 2 ^ 64
      → m * k < 2 ^ 52
      → double.mul (double.of_nat m) (double.of_nat k) ≡ double.of_nat (m * k)
  pub large_product :
      (m k : ℕ)
      → 2 ^ 64 ≤ m * k
      → double.geq (double.mul (double.of_nat m) (double.of_nat k)) (double.of_nat (2 ^ 64)) ≡ true
  pub half_up :
      (n : ℕ)
      → n < 2 ^ 52
      → double.floor (double.add (double.of_nat n) double.half) ≡ double.of_nat n
  pub large_floor :
      (x : D)
      → double.geq x (double.of_nat (2 ^ 64)) ≡ true
      → double.geq (double.floor (double.add x double.half)) (double.of_nat (2 ^ 64)) ≡ true
  pub compare : (m k : ℕ) → m < 2 ^ 52 → double.geq (double.of_nat m) (double.of_nat k) ≡ leb k m
  pub cast : (n : ℕ) → n < 2 ^ 52 → double.to_nat (double.of_nat n) ≡ n

module _ {ℓ} {D : Type ℓ} (double : Double D) (laws : IsDouble double)
    (strtod : List ℕ → D × ℕ × Bool) where
  -- The value in bytes where 52 bits hold it, and an error where 64 bits do not.
  abbrev Sized : ℕ → ℕ → Result (ℕ × ℕ)
  Sized n u = if ltb n (2 ^ 64) then done (n, u) else failed out_of_bounds
