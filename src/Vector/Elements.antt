-- ===== src/Vector/Elements.antt =====
-- The operations of include/ucb/container/templates/vector_template.h against the list of elements.
use ucb.Common.{
  ℕ, suc, ◌+◌, ◌-◌, ◌*◌, ◌%◌, ◌^◌, max, ◌≤◌, ◌<◌, ◌≡◌, refl, sym, ap, ap₂, ◌∙◌, inl, inr, Bool,
  true, false, ◌&&◌, List, ◌∷◌, ◌++◌, ltb, leb, ◌==◌, if◌then◌else◌, length, length-take, take,
  drop, arith, Bool-cases,
}
use ucb.Common.Outcome.{Realloc, granted, ok, aborted, Returns, returns, Returns-bind, Returns-map}
use ucb.Vector.{
  Vector, default_capacity, array, moved, reserve, insert_room, insert, push_back, push_front,
}
use ucb.Vector.Arrays.{
  take-within, take-shorter, drop-take, length-enlarge, length-stored, take-stored, length-moved,
  insert-moved, store-stored, memmove-moved,
}

-- The capacity that insert asks for: twice the old one, or the default.
asked-more :
    (c : ℕ)
    → c < 2 ^ 63
    → let n = if (c * 2 % 2 ^ 64) == 0 then default_capacity else (c * 2 % 2 ^ 64) in
      (c < n) × (n ≤ c * 2 + default_capacity)
asked-more c h = ground arith

module _ {ℓ} {A : Type ℓ} where
  abbrev pub contents : Vector A → List A
  contents v = take v.size v.elements

  pub record IsValid (v : Vector A) : Type 0 where
    pub filled : length v.elements ≡ v.capacity
    pub room : v.size ≤ v.capacity
    pub live : v.lost ≡ false

  pub length-contents : (v : Vector A) → IsValid v → length (contents v) ≡ v.size
  length-contents v h = length-take v.size v.elements (omega (arith, h.filled, h.room))

  -- The vector after a call: valid, with these elements, and no more capacity than given.
  pub record Holds (c : List A) (bound : ℕ) (w : Vector A) : Type ℓ where
    pub valid : IsValid w
    pub same : contents w ≡ c
    pub within : w.capacity ≤ bound

  pub array-live : (v : Vector A) → IsValid v → array v ≡ ok v.elements
  array-live v h = rw h.live refl

  -- What ucb_vector_reserve leaves where memory suffices: room for `n`.
  pub record Reserved (v : Vector A) (n : ℕ) (r : Bool × Vector A) : Type ℓ where
    pub succeeds : r.0 ≡ true
    pub valid : IsValid r.1
    pub same : contents r.1 ≡ contents v
    pub same_size : r.1.size ≡ v.size
    pub room : n ≤ r.1.capacity
    pub within : r.1.capacity ≤ max n v.capacity

  pub reserve-Reserved :
      (junk : ℕ → A) (v : Vector A) (asked n : ℕ)
      → IsValid v
      → (if asked == 0 then default_capacity else asked) ≡ n
      → Returns (Reserved v n) (reserve junk granted v asked)
  unfolding reserve
  reserve-Reserved junk v asked n h e = elim (Bool-cases (leb n v.capacity)) [
    | inl enough ↦
        rw (e, enough)
          (returns (record {
            succeeds = refl;
            valid = h;
            same = refl;
            same_size = refl;
            room = ground arith;
            within = ground arith;
          }))
    | inr short ↦
        let more : v.capacity < n = ground arith in
        rw (e, short, h.live)
          (returns (record {
            succeeds = refl;
            valid = record {
              filled = length-enlarge junk n v.elements (omega (arith, h.filled));
              room = omega (arith, h.room);
              live = refl;
            };
            same = take-within v.size v.elements _ (omega (arith, h.filled, h.room));
            same_size = refl;
            room = omega arith;
            within = omega arith;
          }))
  ]

  insert_room-Holds :
      (v : Vector A) (index : ℕ) (x : A)
      → IsValid v
      → index ≤ v.size
      → v.size < v.capacity
      → Returns
          (Holds (take index (contents v) ++ (x ∷ drop index (contents v))) v.capacity)
          (insert_room v index x)
  unfolding insert_room
  insert_room-Holds v index x h i r =
      let one : v.size + 1 ≡ suc v.size = omega arith in
      rw (array-live v h) (elim (Bool-cases (ltb index v.size)) [
        | inl inside ↦
            let m = v.size - index in
            let next : index + 1 ≡ suc index = omega arith in
            let sum : v.size ≡ index + m = ground arith in
            let up : suc index + m ≤ length v.elements = omega (arith, h.filled) in
            let low : index + m ≤ length v.elements = omega (arith, h.filled) in
            let d = moved (suc index) index m v.elements in
            let long : length d ≡ length v.elements = length-moved _ _ _ v.elements up low in
            rw
              (
                inside,
                next,
                memmove-moved _ _ _ v.elements up low,
                store-stored index x d (omega arith),
              )
              (returns (record {
                valid = record {
                  filled = length-stored index x d ∙ long ∙ h.filled;
                  room = omega arith;
                  live = h.live;
                };
                same =
                    rw
                      (
                        one,
                        take-shorter index v.size v.elements i,
                        drop-take index m v.size v.elements sum,
                      )
                      (insert-moved index m v.size x v.elements sum (omega (arith, h.filled)));
                within = omega arith;
              }))
        | inr last ↦
            let end : index ≡ v.size = ground arith in
            rw (last, store-stored index x v.elements (omega (arith, h.filled)))
              (returns (record {
                valid = record {
                  filled = length-stored index x v.elements ∙ h.filled;
                  room = omega arith;
                  live = h.live;
                };
                same =
                    rw (one, end)
                      (take-stored v.size (suc v.size) x v.elements (omega arith)
                          (omega (arith, h.filled))
                        ∙ ap₂ (λ c e. c ++ (x ∷ e))
                            (sym (take-shorter v.size v.size v.elements (omega arith)))
                            (drop-take (suc v.size) 0 (suc v.size) v.elements (omega arith)
                              ∙ sym (drop-take v.size 0 v.size v.elements (omega arith))));
                within = omega arith;
              }))
      ])

  -- Where memory suffices, `x` stands at the index, behind the elements before it and before the
  -- others.
  pub insert-Holds :
      (junk : ℕ → A) (v : Vector A) (index : ℕ) (x : A)
      → IsValid v
      → index ≤ v.size
      → v.size < 2 ^ 63
      → Returns
          (Holds
            (take index (contents v) ++ (x ∷ drop index (contents v)))
            (max v.capacity (v.size * 2 + default_capacity)))
          (insert junk granted v index x)
  unfolding insert
  insert-Holds junk v index x h i small =
      let inside : leb index v.size ≡ true = ground arith in
      elim (Bool-cases (v.size == v.capacity)) [
        | inl full ↦
            rw (inside, full)
              (Returns-bind (reserve-Reserved junk v (v.capacity * 2 % 2 ^ 64) _ h refl) λ (b, w) k.
                let c : v.size ≡ v.capacity = ground arith in
                let (more, less) = asked-more v.capacity (omega arith) in
                let fits : w.size < w.capacity = omega (arith, k.same_size, k.room) in
                rw k.succeeds (
                  Returns-map
                    (insert_room-Holds w index x k.valid (omega (arith, k.same_size)) fits)
                    λ u m. record {
                      valid = m.valid;
                      same = m.same ∙ ap (λ l. take index l ++ (x ∷ drop index l)) k.same;
                      within = omega (arith, m.within, k.within);
                    }))
        | inr free ↦
            rw (inside, free)
              (Returns-map (insert_room-Holds v index x h i (ground (arith, h.room)))
                λ u m. record { valid = m.valid; same = m.same; within = omega (arith, m.within) })
      ]

  pub insert-beyond :
      (junk : ℕ → A) (mem : Realloc) (v : Vector A) (index : ℕ) (x : A)
      → v.size < index
      → insert junk mem v index x ≡ aborted
  unfolding insert
  insert-beyond junk mem v index x h =
      let outside : leb index v.size ≡ false = ground arith in rw outside refl

  -- A push is an insertion at the end or at the start, done without one where there is room.
  pub push_back-insert :
      (junk : ℕ → A) (mem : Realloc) (v : Vector A) (x : A)
      → IsValid v
      → push_back junk mem v x ≡ insert junk mem v v.size x
  unfolding push_back insert insert_room
  push_back-insert junk mem v x h = elim (Bool-cases (ltb v.size v.capacity)) [
    | inl more ↦
        let inside : leb v.size v.size ≡ true = ground arith in
        let free : (v.size == v.capacity) ≡ false = ground arith in
        let last : ltb v.size v.size ≡ false = ground arith in rw (more, inside, free, last) refl
    | inr full ↦ rw full refl
  ]

  pub push_front-insert :
      (junk : ℕ → A) (mem : Realloc) (v : Vector A) (x : A)
      → push_front junk mem v x ≡ insert junk mem v 0 x
  unfolding push_front insert insert_room
  push_front-insert junk mem v x = elim (Bool-cases ((v.size == 0) && ltb 0 v.capacity)) [
    | inl quick ↦
        let inside : leb 0 v.size ≡ true = ground arith in
        let free : (v.size == v.capacity) ≡ false = ground arith in
        let last : ltb 0 v.size ≡ false = ground arith in rw (quick, inside, free, last) refl
    | inr slow ↦ rw slow refl
  ]
