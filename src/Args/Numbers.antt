-- ===== src/Args/Numbers.antt =====
-- Decimal numbers on the command line: the integer converters of src/ucb/argparse.c against the
-- value of a numeral by its places.
use ucb.Common.{
  ℕ, ◌+◌, ◌-◌, ◌*◌, ◌^◌, ◌≡◌, refl, ap, ◌∙◌, Bool, true, false, none, some, List, [], ◌∷◌, leb,
  ◌==◌, if◌then◌else◌, All, arith,
}
use native.Mathlib.Nat.{add-mul, mul_assoc, zero-mul}
use ucb.Args.Convert.{
  Signed, plus, minus, is_digit, is_space_char, read_digits, read_number, read_signed, in_range,
  accepted, parse_ll, parse_ull, within,
}
use ucb.Args.{
  Opt, int, uint, number, Store, write, Error, invalid_value, error, done, failed, stored_as,
  or_fail, convert_store,
}

-- Ten to the number of the digits, and the value of a numeral.
abbrev weight : List ℕ → ℕ
weight [] = 1
weight (c ∷ s) = 10 * weight s

abbrev pub place : List ℕ → ℕ
place [] = 0
place (c ∷ s) = (c - 48) * weight s + place s

abbrev pub Digits : List ℕ → Type 0
Digits s = All (λ c. is_digit c ≡ true) s

read_digits-place :
    (acc : ℕ) (s : List ℕ) → Digits s → read_digits acc s ≡ (acc * weight s + place s, [])
unfolding read_digits
read_digits-place acc [] h = let e : acc ≡ acc * 1 + 0 = omega arith in ap (λ n. (n, [])) e
read_digits-place acc (c ∷ s) (h, hs) =
    let e : (acc * 10 + (c - 48)) * weight s + place s
        ≡ acc * (10 * weight s) + ((c - 48) * weight s + place s) =
      omega (arith, add-mul (acc * 10) (c - 48) (weight s), mul_assoc acc 10 (weight s)) in
    rw (read_digits, h) (read_digits-place (acc * 10 + (c - 48)) s hs ∙ ap (λ n. (n, [])) e)

-- A decimal numeral with its value: digits, at least one, behind a sign or none.
pub data Numeral : List ℕ → Signed → Type 0 where
  bare : (c : ℕ) (s : List ℕ) → Digits (c ∷ s) → Numeral (c ∷ s) (plus (place (c ∷ s)))
  positive : (c : ℕ) (s : List ℕ) → Digits (c ∷ s) → Numeral (43 ∷ c ∷ s) (plus (place (c ∷ s)))
  negative : (c : ℕ) (s : List ℕ) → Digits (c ∷ s) → Numeral (45 ∷ c ∷ s) (minus (place (c ∷ s)))

read_number-place :
    (sign : ℕ → Signed) (c : ℕ) (s : List ℕ)
    → Digits (c ∷ s)
    → read_number sign (c ∷ s) ≡ some (sign (place (c ∷ s)), [])
unfolding read_number
read_number-place sign c s (h, hs) =
    let e : 0 * weight (c ∷ s) + place (c ∷ s) ≡ place (c ∷ s) =
      omega (arith, zero-mul (weight (c ∷ s))) in
    rw h (
      ap (λ r. some (sign r.0, r.1)) (read_digits-place 0 (c ∷ s) (h, hs))
      ∙ ap (λ n. some (sign n, [])) e)

digit-no_sign : (c : ℕ) → is_digit c ≡ true → ((c == 45) ≡ false) × ((c == 43) ≡ false)
digit-no_sign c h = ground arith

digit-no_space : (c : ℕ) → is_digit c ≡ true → is_space_char c ≡ false
digit-no_space c h = ground arith

read_signed-Numeral : (s : List ℕ) (x : Signed) → Numeral s x → read_signed s ≡ some (x, [])
unfolding read_signed
read_signed-Numeral _ _ (bare c s (h, hs)) =
    let (no_minus, no_plus) = digit-no_sign c h in
    rw (no_minus, no_plus) (read_number-place plus c s (h, hs))
read_signed-Numeral _ _ (positive c s h) = read_number-place plus c s h
read_signed-Numeral _ _ (negative c s h) = read_number-place minus c s h

-- A numeral is read where 64 bits hold it.
parse_ll-Numeral :
    (s : List ℕ) (x : Signed)
    → Numeral s x
    → parse_ll s ≡ (if in_range (2 ^ 63) (2 ^ 63 - 1) x then some x else none)
unfolding parse_ll accepted
parse_ll-Numeral _ _ (bare c s (h, hs)) =
    rw (digit-no_space c h, read_signed-Numeral _ _ (bare c s (h, hs))) refl
parse_ll-Numeral _ _ (positive c s h) = rw (read_signed-Numeral _ _ (positive c s h)) refl
parse_ll-Numeral _ _ (negative c s h) = rw (read_signed-Numeral _ _ (negative c s h)) refl

parse_ull-Numeral :
    (s : List ℕ) (x : Signed)
    → Numeral s x
    → parse_ull s
      ≡ elim x [ plus n ↦ (if leb n (2 ^ 64 - 1) then some (plus n) else none) | minus n ↦ none ]
unfolding parse_ull accepted
parse_ull-Numeral _ _ (bare c s (h, hs)) =
    let (no_minus, no_plus) = digit-no_sign c h in
    rw (digit-no_space c h, read_signed-Numeral _ _ (bare c s (h, hs)), no_minus) refl
parse_ull-Numeral _ _ (positive c s h) = rw (read_signed-Numeral _ _ (positive c s h)) refl
parse_ull-Numeral _ _ (negative c s h) = refl

-- What 32 bits hold, 64 do.
within-int :
    (x : Signed)
    → within (2 ^ 31) (2 ^ 31 - 1) (if in_range (2 ^ 63) (2 ^ 63 - 1) x then some x else none)
      ≡ (if in_range (2 ^ 31) (2 ^ 31 - 1) x then some x else none)
unfolding within
within-int (plus n) = ground arith
within-int (minus n) = ground arith

within-uint :
    (x : Signed)
    → within 0
        (2 ^ 32 - 1)
        (elim x [ plus n ↦ (if leb n (2 ^ 64 - 1) then some (plus n) else none) | minus n ↦ none ])
      ≡ elim x [ plus n ↦ (if leb n (2 ^ 32 - 1) then some (plus n) else none) | minus n ↦ none ]
unfolding within
within-uint (plus n) = ground arith
within-uint (minus n) = refl

stored_if {ℓ} :
    {F : Type ℓ} (o : Opt) (st : Store F) (x : Signed) (e : Error) (b : Bool)
    → stored_as o number st (or_fail (if b then some x else none) e)
      ≡ (if b then done (write o.dest (number x) st) else failed (error e))
stored_if o st x e true = refl
stored_if o st x e false = refl

module _ {ℓ} {F : Type ℓ} (strtof strtod : List ℕ → F × ℕ × Bool) (zero_real : F) where
  -- For an option of type int a decimal numeral is stored with its value just where 32 bits hold it,
  -- and is an error else; for one of type uint so too, and a numeral with a minus is an error.
  pub convert_store-Numeral :
      (o : Opt) (s : List ℕ) (x : Signed) (st : Store F)
      → Numeral s x
      → (convert_store strtof strtod zero_real (record o { type = int }) s st ≡ (
          if in_range (2 ^ 31) (2 ^ 31 - 1) x
          then done (write o.dest (number x) st)
          else failed (error (invalid_value o.canon s))))
        × (convert_store strtof strtod zero_real (record o { type = uint }) s st ≡ elim x [
          | plus n ↦
              (if leb n (2 ^ 32 - 1)
                then done (write o.dest (number (plus n)) st)
                else failed (error (invalid_value o.canon s)))
          | minus n ↦ failed (error (invalid_value o.canon s))
        ])
  unfolding convert_store
  convert_store-Numeral o s x st n = (
    rw (parse_ll-Numeral s x n, within-int x) (stored_if o st x (invalid_value o.canon s) _),
    rw (parse_ull-Numeral s x n, within-uint x) (as_uint x),
  )
    where
      as_uint :
          (x : Signed)
          → stored_as o number st (
              or_fail
                (elim x [
                  | plus n ↦ (if leb n (2 ^ 32 - 1) then some (plus n) else none)
                  | minus n ↦ none
                ])
                (invalid_value o.canon s))
            ≡ elim x [
              | plus n ↦
                  (if leb n (2 ^ 32 - 1)
                    then done (write o.dest (number (plus n)) st)
                    else failed (error (invalid_value o.canon s)))
              | minus n ↦ failed (error (invalid_value o.canon s))
            ]
      as_uint (plus n) = stored_if o st (plus n) (invalid_value o.canon s) (leb n (2 ^ 32 - 1))
      as_uint (minus n) = refl
