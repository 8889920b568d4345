-- ===== src/Vector/Shrink.antt =====
-- Copying a vector of include/ucb/container/templates/vector_template.h, and what fitting and a
-- failed growth leave behind.
use ucb.Common.{
  ℕ, ◌*◌, ◌%◌, ◌^◌, max, ◌≤◌, ◌<◌, ◌≡◌, refl, true, false, ltb, leb, ◌==◌, if◌then◌else◌, ◌&&◌,
  length, length-append, length-take, take, drop, arith,
}
use ucb.Common.Outcome.{
  aborted, fatal, Realloc, granted, null, fault, ◌>>=◌, Returns, returns, Returns-bind,
}
use ucb.Vector.{
  Vector, default_capacity, reserve, clear, fit, insert, push_back, get, free_vector, copy_vector,
}
use ucb.Vector.Arrays.{take-exact, length-drop}
use ucb.Vector.Elements.{contents, IsValid, Holds, array-live, reserve-Reserved}

-- The capacity that is asked for when a vector is copied.
abbrev wanted : ℕ → ℕ
wanted n = if n == 0 then default_capacity else n

module _ {ℓ} {A : Type ℓ} where
  -- A copy has the elements of the source, whatever the destination had, where memory suffices.
  copy_vector-Holds :
      (junk : ℕ → A) (dst src : Vector A)
      → IsValid dst
      → IsValid src
      → Returns
          (λ (done, w).
            (done ≡ true) × Holds (contents src) (max (wanted src.capacity) dst.capacity) w)
          (copy_vector junk granted dst src)
  unfolding copy_vector
  copy_vector-Holds junk dst src h k =
      let empty : IsValid (clear dst) = record {
        filled = h.filled;
        room = omega arith;
        live = h.live;
      } in
      Returns-bind (reserve-Reserved junk (clear dst) src.capacity _ empty refl) λ (b, w) r.
        let enough : src.size ≤ length w.elements =
          ground (arith, r.room, r.valid.filled, k.room) in
        let there : src.size ≤ length src.elements = omega (arith, k.room, k.filled) in
        let fits : (leb src.size (length w.elements) && leb src.size (length src.elements)) ≡ true =
          ground arith in
        let short = length-take src.size src.elements there in
        rw (r.succeeds, array-live w r.valid, array-live src k, fits)
          (returns (
            refl,
            record {
              valid = record {
                filled = omega (
                  arith,
                  length-append (take src.size src.elements) (drop src.size w.elements),
                  length-drop src.size w.elements,
                  r.valid.filled,
                );
                room = omega (arith, r.valid.filled);
                live = r.valid.live;
              };
              same = take-exact src.size (contents src) (drop src.size w.elements) short;
              within = r.within;
            },
          ))

  -- Fitting a vector that has capacity and no element frees its array and keeps the pointer and the
  -- capacity: the next push writes to freed memory, and freeing the vector frees the array again.
  pub fit-empty :
      (junk : ℕ → A) (mem : Realloc) (v : Vector A) (x : A)
      → IsValid v
      → v.size ≡ 0
      → 0 < v.capacity
      → ((fit mem v >>= λ w. push_back junk mem w x) ≡ fault)
        × ((fit mem v >>= free_vector) ≡ fault)
  unfolding fit push_back free_vector
  fit-empty junk mem v x h e more =
      let spare : ltb v.size v.capacity ≡ true = ground arith in
      let none_left : (v.size == 0) ≡ true = ground arith in
      (
        rw (spare, array-live v h, none_left, spare) refl,
        rw (spare, array-live v h, none_left) refl,
      )

  -- Where a vector with an array has to grow and there is no memory, an insertion aborts the
  -- program, unless the user has set a handler of fatal errors that returns: then nothing is reported
  -- to the caller, the size is the same, the element is not there, and the array has been freed, so
  -- that the next read faults.
  pub insert-no_memory :
      (junk : ℕ → A) (v : Vector A) (index i : ℕ) (x : A)
      → IsValid v
      → index ≤ v.size
      → v.size ≡ v.capacity
      → 0 < v.capacity
      → v.capacity < 2 ^ 63
      → i < v.size
      → (insert junk fatal v index x ≡ aborted)
        × Returns (λ w. (w.size ≡ v.size) × (get w i ≡ fault)) (insert junk null v index x)
  unfolding insert reserve get
  insert-no_memory junk v index i x h le full more small lt =
      let inside : leb index v.size ≡ true = ground arith in
      let at_end : (v.size == v.capacity) ≡ true = ground arith in
      let twice : v.capacity * 2 % 2 ^ 64 ≡ v.capacity * 2 = omega arith in
      let positive : (v.capacity * 2 == 0) ≡ false = ground arith in
      let beyond : leb (v.capacity * 2) v.capacity ≡ false = ground arith in
      let owned : ltb 0 v.capacity ≡ true = ground arith in
      let reads : ltb i v.size ≡ true = ground arith in
      (
        rw (inside, at_end, twice, positive, beyond, array-live v h) refl,
        rw (inside, at_end, twice, positive, beyond, array-live v h, owned)
            (returns (refl, rw reads refl)),
      )
