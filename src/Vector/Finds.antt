-- ===== src/Vector/Finds.antt =====
-- The search of include/ucb/container/templates/vector_template.h on a vector that is sorted, and
-- insertion by it.
use ucb.Common.{
  ℕ, zero, suc, ◌+◌, ◌-◌, ◌/◌, ◌^◌, ◌≤◌, ◌<◌, ◌≡◌, refl, ◌⊎◌, inl, inr, true, false, some, List,
  ltb, ◌==◌, length, length-take, take, drop, get_elem?, get_elem?-some, arith, Bool-cases,
}
use ucb.Common.Outcome.{ok, ◌>>=◌, Returns, returns, Returns-map}
use ucb.Vector.{Vector, load}
use ucb.Vector.Arrays.{load-some}
use ucb.Vector.Elements.{contents, IsValid, length-contents, array-live}
use ucb.Vector.Search.{Find, hit, gap, out_of_fuel, find_right, find_loop, find_with}
use ucb.Vector.Sorted.{
  sign, Falling, Below, Above, sign_at, sign_at-get, sign_at-falls, sign_at-end, drop-Below,
  take-Above, Stops,
}

module _ {ℓ} {A : Type ℓ} (func : A → A → ℕ) (val : A) where
  -- The turns of the two loops.
  module _ (fuel : ℕ) (d : List A) where
    module _ (mid end : ℕ) where
      right_last :
          ltb (mid + 1) end ≡ false → find_right func val (suc fuel) d mid end ≡ ok (hit mid)
      unfolding find_right
      right_last e = rw (find_right, e) refl

      right_same :
          (y : A)
          → ltb (mid + 1) end ≡ true
          → load d (mid + 1) ≡ ok y
          → (func val y == 2 ^ 31) ≡ true
          → find_right func val (suc fuel) d mid end ≡ find_right func val fuel d (mid + 1) end
      unfolding find_right
      right_same y e l s = rw (find_right, e, l) (rw (◌>>=◌, s) refl)

      right_other :
          (y : A)
          → ltb (mid + 1) end ≡ true
          → load d (mid + 1) ≡ ok y
          → (func val y == 2 ^ 31) ≡ false
          → find_right func val (suc fuel) d mid end ≡ ok (hit mid)
      unfolding find_right
      right_other y e l s = rw (find_right, e, l) (rw (◌>>=◌, s) refl)

    module _ (low end : ℕ) where
      loop_over : ltb low end ≡ false → find_loop func val (suc fuel) d low end ≡ ok (gap low)
      unfolding find_loop
      loop_over e = rw (find_loop, e) refl

      module _ (y : A) (e : ltb low end ≡ true)
          (l : load d (low + (end - 1 - low) / 2) ≡ ok y) where
        loop_same :
            (func val y == 2 ^ 31) ≡ true
            → find_loop func val (suc fuel) d low end
              ≡ find_right func val end d (low + (end - 1 - low) / 2) end
        unfolding find_loop
        loop_same s = rw (find_loop, e, l) (rw (◌>>=◌, s) refl)

        loop_lower :
            (func val y == 2 ^ 31) ≡ false
            → ltb (func val y) (2 ^ 31) ≡ true
            → find_loop func val (suc fuel) d low end
              ≡ find_loop func val fuel d low (low + (end - 1 - low) / 2)
        unfolding find_loop
        loop_lower s t = rw (find_loop, e, l) (rw (◌>>=◌, s, t) refl)

        loop_higher :
            (func val y == 2 ^ 31) ≡ false
            → ltb (func val y) (2 ^ 31) ≡ false
            → find_loop func val (suc fuel) d low end
              ≡ find_loop func val fuel d (low + (end - 1 - low) / 2 + 1) end
        unfolding find_loop
        loop_higher s t = rw (find_loop, e, l) (rw (◌>>=◌, s, t) refl)

  module _ (d : List A) (n : ℕ) (long : n ≤ length d) (f : Falling func val (take n d)) where
    at_index :
        (i : ℕ)
        → i < n
        → (x : A) × (load d i ≡ ok x) × (sign_at func val (take n d) i ≡ sign (func val x))
    at_index i h =
        let (x, loads, at) = load-some d i n h long in
        (x, loads, sign_at-get func val (take n d) i x at)

    find_right-Stops :
        (fuel mid end : ℕ)
        → mid < end
        → end ≤ n
        → end ≤ fuel + mid
        → sign_at func val (take n d) mid ≡ 1
        → sign_at func val (take n d) end ≡ 0
        → Returns (Stops func val (take n d)) (find_right func val fuel d mid end)
    find_right-Stops zero mid end h e l s z = absurd (omega arith)
    find_right-Stops (suc fuel) mid end h e l s z =
        let size = length-take n d long in
        let next : mid + 1 ≡ suc mid = omega arith in
        elim (Bool-cases (ltb (mid + 1) end)) [
          | inl more ↦
              let (y, loads, at) = at_index (mid + 1) (ground arith) in
              let falls = sign_at-falls func val (take n d) mid (mid + 1) f (omega arith) in
              elim (Bool-cases (func val y == 2 ^ 31)) [
                | inl same ↦ rw (right_same fuel d mid end y more loads same) (
                    find_right-Stops fuel (mid + 1) end (ground arith) e (omega arith)
                      (ground arith) z)
                | inr other ↦
                    let below : sign_at func val (take n d) (mid + 1) ≡ 0 = ground arith in
                    rw (right_other fuel d mid end y more loads other)
                      (returns (omega arith, s, rw (← next) below))
              ]
          | inr last ↦
              let at_end : suc mid ≡ end = ground arith in
              rw (right_last fuel d mid end last) (returns (omega arith, s, rw at_end z))
        ]

    find_loop-Stops :
        (fuel low end : ℕ)
        → low ≤ end
        → end ≤ n
        → end < fuel + low
        → (low ≡ 0) ⊎ (sign_at func val (take n d) (low - 1) ≡ 2)
        → sign_at func val (take n d) end ≡ 0
        → Returns (Stops func val (take n d)) (find_loop func val fuel d low end)
    find_loop-Stops zero low end h e l s z = absurd (omega arith)
    find_loop-Stops (suc fuel) low end h e l s z =
        let size = length-take n d long in
        let mid = low + (end - 1 - low) / 2 in
        elim (Bool-cases (ltb low end)) [
          | inr over ↦
              let met : low ≡ end = ground arith in
              rw (loop_over fuel d low end over) (returns (omega arith, s, rw met z))
          | inl more ↦
              let lt : low < end = ground arith in
              let (y, loads, at) = at_index mid (omega arith) in
              elim (Bool-cases (func val y == 2 ^ 31)) [
                | inl same ↦
                    rw (loop_same fuel d low end y more loads same)
                      (find_right-Stops end mid end (omega arith) e (omega arith) (ground arith) z)
                | inr other ↦ elim (Bool-cases (ltb (func val y) (2 ^ 31))) [
                  | inl lower ↦ rw (loop_lower fuel d low end y more loads other lower) (
                      find_loop-Stops fuel low mid (omega arith) (omega arith) (omega arith) s
                        (ground arith))
                  | inr higher ↦
                      let above : sign_at func val (take n d) mid ≡ 2 = ground arith in
                      let back : mid + 1 - 1 ≡ mid = omega arith in
                      rw (loop_higher fuel d low end y more loads other higher) (
                        find_loop-Stops fuel (mid + 1) end (omega arith) e (omega arith)
                          (inr (rw back above)) z)
                ]
              ]
        ]

  -- Where a search ends: at the last element that compares equal, with none but lower ones behind
  -- it; or between those that the value is above and those that it is below.
  pub data Found (c : List A) : Find → Type ℓ where
    matched :
        {m : ℕ} (x : A)
        → get_elem? c m ≡ some x
        → func val x ≡ 2 ^ 31
        → Below func val (drop (suc m) c)
        → Found c (hit m)
    between :
        {k : ℕ}
        → k ≤ length c
        → Above func val (take k c)
        → Below func val (drop k c)
        → Found c (gap k)

  Stops-Found : (c : List A) (p : Find) → Falling func val c → Stops func val c p → Found c p
  Stops-Found c (hit m) f (h, s, z) =
      let (x, at) = get_elem?-some c m h in
      let sign_x = sign_at-get func val c m x at in
      matched x at (ground arith) (drop-Below func val c (suc m) f z)
  Stops-Found c out_of_fuel f e = absurd e
  Stops-Found c (gap zero) f (h, s, z) = between h tt (drop-Below func val c zero f z)
  Stops-Found c (gap (suc k)) f (h, inl s, z) = absurd (omega arith)
  Stops-Found c (gap (suc k)) f (h, inr s, z) =
      let back : suc k - 1 ≡ k = omega arith in
      between h (take-Above func val c k f (rw back at s)) (drop-Below func val c (suc k) f z)

  -- On a sorted vector the search ends within its fuel and the array: at the last element that
  -- compares equal, or else at the insert point.
  pub find_with-Found :
      (v : Vector A)
      → IsValid v
      → Falling func val (contents v)
      → Returns (Found (contents v)) (find_with func val v)
  unfolding find_with
  find_with-Found v h f =
      let long : v.size ≤ length v.elements = omega (arith, h.filled, h.room) in
      let end = sign_at-end func val (contents v) v.size (omega (arith, length-contents v h)) in
      rw (array-live v h) (
        Returns-map
          (find_loop-Stops v.elements v.size long f (suc v.size) 0 v.size (omega arith)
            (omega arith) (omega arith) (inl refl) end)
          λ p s. Stops-Found (contents v) p f s)
