-- ===== src/Vector/Sorted.antt =====
-- The signs of the comparisons of include/ucb/container/templates/vector_template.h along a sorted
-- vector.
use ucb.Common.{
  ℕ, zero, suc, ◌-◌, ◌^◌, ◌≤◌, ◌<◌, ◌≡◌, refl, ◌⊎◌, some, List, [], ◌∷◌, ltb, ◌==◌, if◌then◌else◌,
  length, take, drop, get_elem?, arith, All,
}
use ucb.Vector.Search.{Find, hit, gap, out_of_fuel}

-- 0, 1 or 2, as the result is below, at or above zero.
abbrev pub sign : ℕ → ℕ
sign r = if ltb r (2 ^ 31) then 0 else if r == 2 ^ 31 then 1 else 2

module _ {ℓ} {A : Type ℓ} (func : A → A → ℕ) (val : A) where
  -- The value compares above the first elements, equal to the next and below the last ones.
  abbrev pub Falling : List A → Type 0
  Falling [] = Unit
  Falling (x ∷ c) = All (λ y. sign (func val y) ≤ sign (func val x)) c × Falling c

  abbrev pub Below : List A → Type 0
  Below c = All (λ x. func val x < 2 ^ 31) c

  abbrev pub Above : List A → Type 0
  Above c = All (λ x. 2 ^ 31 < func val x) c

  -- The sign at an index, and 0 past the end.
  pub sign_at : List A → ℕ → ℕ
  sign_at [] i = 0
  sign_at (x ∷ c) zero = sign (func val x)
  sign_at (x ∷ c) (suc i) = sign_at c i

  pub sign_at-get :
      (c : List A) (i : ℕ) (x : A) → get_elem? c i ≡ some x → sign_at c i ≡ sign (func val x)
  unfolding sign_at
  sign_at-get [] i x e = absurd cc
  sign_at-get (y ∷ c) zero x e = let same : y ≡ x = cc in rw same refl
  sign_at-get (y ∷ c) (suc i) x e = sign_at-get c i x e

  sign_at-All : (c : List A) (s i : ℕ) → All (λ y. sign (func val y) ≤ s) c → sign_at c i ≤ s
  unfolding sign_at
  sign_at-All [] s i a = omega arith
  sign_at-All (x ∷ c) s zero a = a.0
  sign_at-All (x ∷ c) s (suc i) a = sign_at-All c s i a.1

  pub sign_at-falls : (c : List A) (i j : ℕ) → Falling c → i ≤ j → sign_at c j ≤ sign_at c i
  unfolding sign_at
  sign_at-falls [] i j f h = omega arith
  sign_at-falls (x ∷ c) zero zero f h = omega arith
  sign_at-falls (x ∷ c) zero (suc j) f h = sign_at-All c (sign (func val x)) j f.0
  sign_at-falls (x ∷ c) (suc i) zero f h = absurd (omega arith)
  sign_at-falls (x ∷ c) (suc i) (suc j) f h = sign_at-falls c i j f.1 (omega arith)

  pub sign_at-end : (c : List A) (i : ℕ) → length c ≤ i → sign_at c i ≡ 0
  unfolding sign_at
  sign_at-end [] i h = refl
  sign_at-end (x ∷ c) zero h = absurd (omega arith)
  sign_at-end (x ∷ c) (suc i) h = sign_at-end c i (omega arith)

  All-Below : (c : List A) → All (λ y. sign (func val y) ≤ 0) c → Below c
  All-Below [] a = tt
  All-Below (x ∷ c) (h, a) = (ground arith, All-Below c a)

  pub drop-Below : (c : List A) (k : ℕ) → Falling c → sign_at c k ≡ 0 → Below (drop k c)
  unfolding sign_at
  drop-Below [] zero f e = tt
  drop-Below [] (suc k) f e = tt
  drop-Below (x ∷ c) zero f e = (ground arith, All-Below c (rw e at f.0))
  drop-Below (x ∷ c) (suc k) f e = drop-Below c k f.1 e

  -- Up to an element that the value compares above.
  pub take-Above : (c : List A) (k : ℕ) → Falling c → sign_at c k ≡ 2 → Above (take (suc k) c)
  unfolding sign_at
  take-Above [] k f e = absurd (omega arith)
  take-Above (x ∷ c) zero f e = (ground arith, tt)
  take-Above (x ∷ c) (suc k) f e =
      let s = sign_at-All c (sign (func val x)) k f.0 in (ground arith, take-Above c k f.1 e)

  -- What the loop has found, by the signs on its two sides.
  abbrev pub Stops : List A → Find → Type 0
  Stops c (hit m) = (m < length c) × (sign_at c m ≡ 1) × (sign_at c (suc m) ≡ 0)
  Stops c (gap k) = (k ≤ length c) × ((k ≡ 0) ⊎ (sign_at c (k - 1) ≡ 2)) × (sign_at c k ≡ 0)
  Stops c out_of_fuel = ⊥
