-- ===== src/Utf8/Cut.antt =====
-- ucb_uc_validate of src/ucb/unicode.c on a text and on its parts.
use ucb.Common.{
  ℕ, zero, suc, ◌+◌, ◌≤◌, ◌<◌, ◌≡◌, refl, sym, ◌∙◌, List, [], ◌∷◌, ◌++◌, length, drop, arith,
}
use ucb.Utf8.{
  Check, next, cut, bad, check2, check3, check4, check3_bytes, check4_bytes, check_at, valid,
  validate_loop, validate,
}
use ucb.Utf8.Validate.{validate_loop-step}

-- A sequence has a byte at least, and ends with the text or before.
check_at-next : (c n : ℕ) (s : List ℕ) → check_at c s ≡ next n → (0 < n) × (n ≤ length (c ∷ s))
unfolding check_at check2 check3 check4 check3_bytes check4_bytes
check_at-next c n [] e = ground arith
check_at-next c n (b1 ∷ []) e = ground arith
check_at-next c n (b1 ∷ b2 ∷ []) e = ground arith
check_at-next c n (b1 ∷ b2 ∷ b3 ∷ s) e = ground arith

-- What follows a sequence does not change it.
check_at-append : (c n : ℕ) (s t : List ℕ) → check_at c s ≡ next n → check_at c (s ++ t) ≡ next n
unfolding check_at check2 check3 check4
check_at-append c n [] t e = ground arith
check_at-append c n (b1 ∷ []) t e = ground arith
check_at-append c n (b1 ∷ b2 ∷ []) t e = ground arith
check_at-append c n (b1 ∷ b2 ∷ b3 ∷ s) t e = e

-- A valid text starts with a sequence, behind which it is valid.
validate_loop-next :
    (fuel i c : ℕ) (s : List ℕ)
    → validate_loop (suc fuel) i (c ∷ s) ≡ valid
    → (n : ℕ) × (check_at c s ≡ next n) × (validate_loop fuel (i + n) (drop n (c ∷ s)) ≡ valid)
unfolding validate_loop
validate_loop-next fuel i c s h = by_check (check_at c s) refl
  where
    by_check :
        (k : Check)
        → check_at c s ≡ k
        → (n : ℕ) × (check_at c s ≡ next n) × (validate_loop fuel (i + n) (drop n (c ∷ s)) ≡ valid)
    by_check (next n) e = (n, e, rw (validate_loop, e) at h)
    by_check (cut n) e = absurd (ground arith)
    by_check bad e = absurd (ground arith)

length-drop_le : (n : ℕ) (s : List ℕ) → length (drop n s) ≤ length s
length-drop_le zero s = omega arith
length-drop_le (suc n) [] = omega arith
length-drop_le (suc n) (c ∷ s) = omega (arith, length-drop_le n s)

length-drop_next :
    (n : ℕ) (s : List ℕ) (fuel : ℕ) → 0 < n → length s ≤ suc fuel → length (drop n s) ≤ fuel
length-drop_next zero s fuel h le = absurd (omega arith)
length-drop_next (suc n) [] fuel h le = omega arith
length-drop_next (suc n) (c ∷ s) fuel h le = omega (arith, length-drop_le n s)

drop-append : (n : ℕ) (s t : List ℕ) → n ≤ length s → drop n (s ++ t) ≡ drop n s ++ t
drop-append zero s t h = refl
drop-append (suc n) [] t h = absurd (omega arith)
drop-append (suc n) (c ∷ s) t h = drop-append n s t (omega arith)

-- Validity is independent of the position, and of fuel past the length of the text.
validate_loop-refuel :
    (fuel fuel' i j : ℕ) (s : List ℕ)
    → validate_loop fuel i s ≡ valid
    → length s ≤ fuel'
    → validate_loop fuel' j s ≡ valid
unfolding validate_loop
validate_loop-refuel fuel fuel' i j [] h le = refl
validate_loop-refuel zero fuel' i j (c ∷ s) h le = absurd (ground arith)
validate_loop-refuel (suc fuel) zero i j (c ∷ s) h le = absurd (omega arith)
validate_loop-refuel (suc fuel) (suc fuel') i j (c ∷ s) h le =
    let (n, e, rest) = validate_loop-next fuel i c s h in
    validate_loop-step fuel' j n (c ∷ s) e
    ∙ validate_loop-refuel fuel fuel' (i + n) (j + n) (drop n (c ∷ s)) rest
        (length-drop_next n (c ∷ s) fuel' (check_at-next c n s e).0 le)

validate_loop-cut :
    (fuel fuel' i j : ℕ) (s t : List ℕ)
    → validate_loop fuel i s ≡ valid
    → validate_loop fuel' j (s ++ t) ≡ valid
    → validate t ≡ valid
unfolding validate_loop validate
validate_loop-cut fuel fuel' i j [] t h k =
    validate_loop-refuel fuel' (length t) j 0 t k (omega arith)
validate_loop-cut zero fuel' i j (c ∷ s) t h k = absurd (ground arith)
validate_loop-cut (suc fuel) zero i j (c ∷ s) t h k = absurd (ground arith)
validate_loop-cut (suc fuel) (suc fuel') i j (c ∷ s) t h k =
    let (n, e, rest) = validate_loop-next fuel i c s h in
    let (m, f, rest') = validate_loop-next fuel' j c (s ++ t) k in
    let again : next m ≡ next n = sym f ∙ check_at-append c n s t e in
    let same : m ≡ n = cc in
    validate_loop-cut fuel fuel' (i + n) (j + n) (drop n (c ∷ s)) t rest
      (rw (← drop-append n (c ∷ s) t (check_at-next c n s e).1) (rw same at rest'))

-- What stands behind a valid text in a valid text is valid.
pub validate-cut :
    (s t : List ℕ) → validate s ≡ valid → validate (s ++ t) ≡ valid → validate t ≡ valid
unfolding validate
validate-cut s t h k = validate_loop-cut (length s) (length (s ++ t)) 0 0 s t h k
