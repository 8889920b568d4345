-- ===== src/Vector/Arrays.antt =====
-- What the moves and stores of include/ucb/container/templates/vector_template.h do to an array.
use ucb.Common.{
  ℕ, zero, suc, ◌+◌, ◌-◌, ◌≤◌, ◌<◌, ◌≡◌, refl, ap, List, [], ◌∷◌, ◌++◌, length, length-append,
  length-take, take, drop, arith, some, get_elem?,
}
use ucb.Common.Outcome.{ok}
use ucb.Vector.{stored, store, moved, memmove, load, unwritten, enlarge}

module _ {ℓ} {A : Type ℓ} where
  pub take-exact : (k : ℕ) (xs ys : List A) → length xs ≡ k → take k (xs ++ ys) ≡ xs
  take-exact zero [] ys e = refl
  take-exact zero (x ∷ xs) ys e = absurd (omega arith)
  take-exact (suc k) [] ys e = absurd (omega arith)
  take-exact (suc k) (x ∷ xs) ys e = ap (◌∷◌ x) (take-exact k xs ys (omega arith))

  pub take-within : (k : ℕ) (xs ys : List A) → k ≤ length xs → take k (xs ++ ys) ≡ take k xs
  take-within zero xs ys h = refl
  take-within (suc k) [] ys h = absurd (omega arith)
  take-within (suc k) (x ∷ xs) ys h = ap (◌∷◌ x) (take-within k xs ys (omega arith))

  pub length-drop : (n : ℕ) (xs : List A) → length (drop n xs) ≡ length xs - n
  length-drop zero xs = omega arith
  length-drop (suc n) [] = omega arith
  length-drop (suc n) (x ∷ xs) = omega (arith, length-drop n xs)

  pub take-shorter : (i n : ℕ) (xs : List A) → i ≤ n → take i (take n xs) ≡ take i xs
  take-shorter zero n xs h = refl
  take-shorter (suc i) zero xs h = absurd (omega arith)
  take-shorter (suc i) (suc n) [] h = refl
  take-shorter (suc i) (suc n) (x ∷ xs) h = ap (◌∷◌ x) (take-shorter i n xs (omega arith))

  pub drop-take : (i m n : ℕ) (xs : List A) → n ≡ i + m → drop i (take n xs) ≡ take m (drop i xs)
  drop-take zero m n xs e = let f : n ≡ m = omega arith in rw f refl
  drop-take (suc i) m zero xs e = absurd (omega arith)
  drop-take (suc i) zero (suc n) [] e = refl
  drop-take (suc i) (suc m) (suc n) [] e = refl
  drop-take (suc i) m (suc n) (x ∷ xs) e = drop-take i m n xs (omega arith)

  length-unwritten : (junk : ℕ → A) (i n : ℕ) → length (unwritten junk i n) ≡ n
  unfolding unwritten
  length-unwritten junk i zero = refl
  length-unwritten junk i (suc n) = ap suc (length-unwritten junk (i + 1) n)

  pub length-enlarge :
      (junk : ℕ → A) (n : ℕ) (d : List A) → length d ≤ n → length (enlarge junk n d) ≡ n
  length-enlarge junk n d h = omega (
    arith,
    length-append d (unwritten junk (length d) (n - length d)),
    length-unwritten junk (length d) (n - length d),
  )

  pub length-stored : (i : ℕ) (x : A) (d : List A) → length (stored i x d) ≡ length d
  unfolding stored
  length-stored i x [] = refl
  length-stored zero x (y ∷ d) = refl
  length-stored (suc i) x (y ∷ d) = ap suc (length-stored i x d)

  -- A store before the end of what is kept.
  pub take-stored :
      (i k : ℕ) (x : A) (d : List A)
      → i < k
      → k ≤ length d
      → take k (stored i x d) ≡ take i d ++ (x ∷ drop (suc i) (take k d))
  unfolding stored
  take-stored i zero x d h l = absurd (omega arith)
  take-stored i (suc k) x [] h l = absurd (omega arith)
  take-stored zero (suc k) x (y ∷ d) h l = refl
  take-stored (suc i) (suc k) x (y ∷ d) h l =
      ap (◌∷◌ y) (take-stored i k x d (omega arith) (omega arith))

  pub length-moved :
      (dst src n : ℕ) (d : List A)
      → dst + n ≤ length d
      → src + n ≤ length d
      → length (moved dst src n d) ≡ length d
  length-moved dst src n d h k = omega (
    arith,
    length-append (take dst d ++ take n (drop src d)) (drop (dst + n) d),
    length-append (take dst d) (take n (drop src d)),
    length-take dst d (omega arith),
    length-take n (drop src d) (omega (arith, length-drop src d)),
    length-drop (dst + n) d,
  )

  -- The elements from `i` on move up by one, and `x` goes to `i`.
  pub insert-moved :
      (i m k : ℕ) (x : A) (d : List A)
      → k ≡ i + m
      → k < length d
      → take (suc k) (stored i x (moved (suc i) i m d)) ≡ take i d ++ (x ∷ take m (drop i d))
  unfolding stored
  insert-moved i m k x [] e h = absurd (omega arith)
  insert-moved zero m k x (y ∷ d) e h =
      let f : k ≡ m = omega arith in
      rw f (ap (◌∷◌ x) (take-exact m (take m (y ∷ d)) _ (length-take m (y ∷ d) (omega arith))))
  insert-moved (suc i) m zero x (y ∷ d) e h = absurd (omega arith)
  insert-moved (suc i) m (suc k) x (y ∷ d) e h =
      let f : suc (suc i) + m ≡ suc (suc i + m) = omega arith in
      rw f (ap (◌∷◌ y) (insert-moved i m k x d (omega arith) (omega arith)))

  -- The elements behind `i` move down by one.
  pub remove-moved :
      (i m k : ℕ) (d : List A)
      → k ≡ i + m
      → k < length d
      → take k (moved i (suc i) m d) ≡ take i d ++ take m (drop (suc i) d)
  remove-moved i m k d e h = take-exact k (take i d ++ take m (drop (suc i) d)) _ (
      omega (
        arith,
        length-append (take i d) (take m (drop (suc i) d)),
        length-take i d (omega arith),
        length-take m (drop (suc i) d) (omega (arith, length-drop (suc i) d)),
      ))

  pub load-some :
      (d : List A) (i n : ℕ)
      → i < n
      → n ≤ length d
      → (x : A) × (load d i ≡ ok x) × (get_elem? (take n d) i ≡ some x)
  load-some [] i n h l = absurd (omega arith)
  load-some (x ∷ d) i zero h l = absurd (omega arith)
  load-some (x ∷ d) zero (suc n) h l = (x, refl, refl)
  load-some (x ∷ d) (suc i) (suc n) h l = load-some d i n (omega arith) (omega arith)

  pub store-stored : (i : ℕ) (x : A) (d : List A) → i < length d → store i x d ≡ ok (stored i x d)
  unfolding store
  store-stored i x d h = ground arith

  pub memmove-moved :
      (dst src n : ℕ) (d : List A)
      → dst + n ≤ length d
      → src + n ≤ length d
      → memmove dst src n d ≡ ok (moved dst src n d)
  unfolding memmove
  memmove-moved dst src n d h k = ground arith
