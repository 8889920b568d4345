-- ===== src/Vector/Insertion.antt =====
-- Insertion into a sorted vector, of include/ucb/container/templates/vector_template.h.
use ucb.Common.{
  ap, ap₂, ◌∙◌, length-append, ℕ, zero, suc, ◌+◌, ◌*◌, ◌^◌, max, ◌≤◌, ◌<◌, ◌≡◌, some, List, [], ◌∷◌,
  ◌++◌, length, take, drop, get_elem?, arith, All,
}
use ucb.Common.Outcome.{granted, Returns, returns, Returns-bind, Returns-map}
use ucb.Vector.{Vector, default_capacity, push_back}
use ucb.Vector.Arrays.{take-shorter, drop-take}
use ucb.Vector.Elements.{contents, IsValid, length-contents, Holds, insert-Holds, push_back-insert}
use ucb.Vector.Search.{Find, hit, gap, out_of_fuel, ins_index, insert_sorted_with}
use ucb.Vector.Sorted.{sign, Falling, Below, Above}
use ucb.Vector.Finds.{Found, matched, between, find_with-Found}

module _ {ℓ} {A : Type ℓ} (func : A → A → ℕ) (val : A) where
  -- The value goes behind the elements that are not above it, and before those that are.
  pub record Inserted (v : Vector A) (r : ℕ × Vector A) : Type ℓ where
    pub within : r.0 ≤ v.size
    pub before : All (λ x. 2 ^ 31 ≤ func val x) (take r.0 (contents v))
    pub behind : Below func val (drop r.0 (contents v))
    pub holds :
        Holds
          (take r.0 (contents v) ++ (val ∷ drop r.0 (contents v)))
          (max v.capacity (v.size * 2 + default_capacity))
          r.1

  All-weaken : (c : List A) → Above func val c → All (λ x. 2 ^ 31 ≤ func val x) c
  All-weaken [] a = tt
  All-weaken (x ∷ c) (h, a) = (omega arith, All-weaken c a)

  All-get :
      (c : List A) (m : ℕ) (x : A) {s : ℕ}
      → All (λ y. sign (func val y) ≤ s) c
      → get_elem? c m ≡ some x
      → sign (func val x) ≤ s
  All-get [] m x a e = absurd cc
  All-get (y ∷ c) zero x a e = let same : y ≡ x = cc in rw (← same) a.0
  All-get (y ∷ c) (suc m) x a e = All-get c m x a.1 e

  get_elem?-lt : (c : List A) (m : ℕ) (x : A) → get_elem? c m ≡ some x → m < length c
  get_elem?-lt [] m x e = absurd cc
  get_elem?-lt (y ∷ c) zero x e = omega arith
  get_elem?-lt (y ∷ c) (suc m) x e = omega (arith, get_elem?-lt c m x e)

  -- The elements up to one that compares equal are not above the value.
  take-before :
      (c : List A) (m : ℕ) (x : A)
      → Falling func val c
      → get_elem? c m ≡ some x
      → func val x ≡ 2 ^ 31
      → All (λ y. 2 ^ 31 ≤ func val y) (take (suc m) c)
  take-before [] m x f e s = absurd cc
  take-before (y ∷ c) zero x f e s = let same : y ≡ x = cc in (rw same (omega arith), tt)
  take-before (y ∷ c) (suc m) x f e s =
      let le = All-get c m x f.0 e in (ground arith, take-before c m x f.1 e s)

  -- Where the search has ended, and the index that follows from it.
  Found-index :
      (v : Vector A) (p : Find)
      → IsValid v
      → Falling func val (contents v)
      → Found func val (contents v) p
      → let i = ins_index p in
        (i ≤ v.size)
        × All (λ x. 2 ^ 31 ≤ func val x) (take i (contents v))
        × Below func val (drop i (contents v))
  unfolding ins_index
  Found-index v (hit m) h f (matched x at s below) =
      let next : m + 1 ≡ suc m = omega arith in
      let lt = get_elem?-lt (contents v) m x at in
      rw next (omega (arith, length-contents v h), take-before (contents v) m x f at s, below)
  Found-index v (gap k) h f (between le above below) =
      (omega (arith, length-contents v h), All-weaken _ above, below)
  Found-index v out_of_fuel h f e = elim e [ ]

  -- On a sorted vector, where memory suffices, the value is inserted behind the elements that are
  -- not above it and before those that are, at the index that is returned.
  pub insert_sorted_with-Inserted :
      (junk : ℕ → A) (v : Vector A)
      → IsValid v
      → Falling func val (contents v)
      → v.size < 2 ^ 63
      → Returns (Inserted v) (insert_sorted_with func val junk granted v)
  unfolding insert_sorted_with
  insert_sorted_with-Inserted junk v h f small =
      Returns-bind (find_with-Found func val v h f) λ p found.
        let (le, before, behind) = Found-index v p h f found in
        Returns-bind (insert-Holds junk v (ins_index p) val h le small)
          λ w k. returns (record { within = le; before = before; behind = behind; holds = k })

module _ {ℓ} {A : Type ℓ} where
  -- A push at the end puts the value behind the elements.
  pub push_back-Appended :
      (junk : ℕ → A) (v : Vector A) (x : A)
      → IsValid v
      → v.size < 2 ^ 63
      → Returns
          (λ w. IsValid w × (contents w ≡ contents v ++ (x ∷ [])) × (w.size ≡ suc v.size))
          (push_back junk granted v x)
  push_back-Appended junk v x h small =
      let all : take v.size (contents v) ≡ contents v =
        take-shorter v.size v.size v.elements (omega arith) in
      let nothing : drop v.size (contents v) ≡ [] =
        drop-take v.size 0 v.size v.elements (omega arith) in
      rw (push_back-insert junk granted v x h) (
        Returns-map (insert-Holds junk v v.size x h (omega arith) small) λ w k.
          let same : contents w ≡ contents v ++ (x ∷ []) =
            k.same ∙ ap₂ (λ a b. a ++ (x ∷ b)) all nothing in
          (
            k.valid,
            same,
            omega (
              arith,
              length-contents w k.valid,
              ap length same,
              length-append (contents v) (x ∷ []),
              length-contents v h,
            ),
          ))
