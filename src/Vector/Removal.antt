-- ===== src/Vector/Removal.antt =====
-- Removing, reading and writing elements, of include/ucb/container/templates/vector_template.h,
-- against the list of elements.
use ucb.Common.{
  ℕ, suc, ◌+◌, ◌-◌, ◌≤◌, ◌<◌, ◌≡◌, refl, sym, ◌∙◌, inl, inr, true, false, some, ◌∷◌, ◌++◌, ltb,
  length, take, drop, get_elem?, arith, Bool-cases, append-nil,
}
use ucb.Common.Outcome.{ok, aborted, Returns, returns}
use ucb.Vector.{Vector, remove, pop_back, pop_front, get, set}
use ucb.Vector.Arrays.{
  take-shorter, drop-take, length-stored, take-stored, length-moved, remove-moved, load-some,
  store-stored, memmove-moved,
}
use ucb.Vector.Elements.{contents, IsValid, Holds, array-live}

module _ {ℓ} {A : Type ℓ} where
  -- What a call that takes an element out returns and leaves.
  abbrev Took : Vector A → ℕ → A × Vector A → Type ℓ
  Took v i (x, w) =
      (get_elem? (contents v) i ≡ some x)
      × Holds (take i (contents v) ++ drop (suc i) (contents v)) v.capacity w

  pub remove-Took :
      (v : Vector A) (index : ℕ)
      → IsValid v
      → index < v.size
      → Returns (Took v index) (remove v index)
  unfolding remove
  remove-Took v index h i =
      let (x, loads, at) = load-some v.elements index v.size i (omega (arith, h.filled, h.room)) in
      let inside : ltb index v.size ≡ true = ground arith in
      let some_left : ltb 0 v.size ≡ true = ground arith in
      rw (inside, some_left, array-live v h, loads)
        (elim (Bool-cases (ltb index (v.size - 1))) [
          | inl before ↦
              let m = v.size - index - 1 in
              let next : index + 1 ≡ suc index = omega arith in
              let low : index + m ≤ length v.elements = ground (arith, h.filled, h.room) in
              let up : suc index + m ≤ length v.elements = ground (arith, h.filled, h.room) in
              rw (before, next, memmove-moved _ _ _ v.elements low up)
                (returns (
                  at,
                  record {
                    valid = record {
                      filled = length-moved _ _ _ v.elements low up ∙ h.filled;
                      room = omega (arith, h.room);
                      live = h.live;
                    };
                    same =
                        rw
                          (
                            take-shorter index v.size v.elements (omega arith),
                            drop-take (suc index) m v.size v.elements (ground arith),
                          )
                          (remove-moved index m (v.size - 1) v.elements (ground arith)
                            (omega (arith, h.filled, h.room)));
                    within = omega arith;
                  },
                ))
          | inr last ↦
              let end : v.size - 1 ≡ index = ground arith in
              rw last (
                returns (
                  at,
                  record {
                    valid = record {
                      filled = h.filled;
                      room = omega (arith, h.room);
                      live = h.live;
                    };
                    same =
                        rw
                          (
                            end,
                            take-shorter index v.size v.elements (omega arith),
                            drop-take (suc index) 0 v.size v.elements (omega arith),
                          )
                          (sym (append-nil (take index v.elements)));
                    within = omega arith;
                  },
                ))
        ])

  -- The pops are removals of the last and of the first element.
  pub pop_back-remove : (v : Vector A) → IsValid v → 0 < v.size → pop_back v ≡ remove v (v.size - 1)
  unfolding pop_back remove
  pop_back-remove v k h =
      let some_left : ltb 0 v.size ≡ true = ground arith in
      let inside : ltb (v.size - 1) v.size ≡ true = ground arith in
      let last : ltb (v.size - 1) (v.size - 1) ≡ false = ground arith in
      rw (some_left, inside, array-live v k, last) refl

  pub pop_front-remove : (v : Vector A) → pop_front v ≡ remove v 0
  unfolding pop_front remove
  pop_front-remove v =
      let same : v.size - 0 - 1 ≡ v.size - 1 = omega arith in
      elim (Bool-cases (ltb 0 v.size)) [
        | inl some_left ↦ rw (some_left, same) refl
        | inr none_left ↦ rw none_left refl
      ]

  pub remove-beyond : (v : Vector A) (index : ℕ) → v.size ≤ index → remove v index ≡ aborted
  unfolding remove
  remove-beyond v index h = let outside : ltb index v.size ≡ false = ground arith in rw outside refl

  pub pop_back-empty : (v : Vector A) → v.size ≡ 0 → pop_back v ≡ aborted
  unfolding pop_back
  pop_back-empty v e = let none_left : ltb 0 v.size ≡ false = ground arith in rw none_left refl

  pub get-contents :
      (v : Vector A) (index : ℕ)
      → IsValid v
      → index < v.size
      → (x : A) × (get v index ≡ ok x) × (get_elem? (contents v) index ≡ some x)
  unfolding get
  get-contents v index h i =
      let (x, loads, at) = load-some v.elements index v.size i (omega (arith, h.filled, h.room)) in
      let inside : ltb index v.size ≡ true = ground arith in
      (x, rw (inside, array-live v h) loads, at)

  pub set-Holds :
      (v : Vector A) (index : ℕ) (x : A)
      → IsValid v
      → index < v.size
      → Returns
          (Holds (take index (contents v) ++ (x ∷ drop (suc index) (contents v))) v.capacity)
          (set v index x)
  unfolding set
  set-Holds v index x h i =
      let inside : ltb index v.size ≡ true = ground arith in
      rw (inside, array-live v h, store-stored index x v.elements (omega (arith, h.filled, h.room)))
        (returns (record {
          valid = record {
            filled = length-stored index x v.elements ∙ h.filled;
            room = h.room;
            live = h.live;
          };
          same =
              rw (take-shorter index v.size v.elements (omega arith))
                (take-stored index v.size x v.elements i (omega (arith, h.filled, h.room)));
          within = omega arith;
        }))

  pub get-beyond : (v : Vector A) (index : ℕ) → v.size ≤ index → get v index ≡ aborted
  unfolding get
  get-beyond v index h = let outside : ltb index v.size ≡ false = ground arith in rw outside refl

  pub set-beyond : (v : Vector A) (index : ℕ) (x : A) → v.size ≤ index → set v index x ≡ aborted
  unfolding set
  set-beyond v index x h = let outside : ltb index v.size ≡ false = ground arith in rw outside refl
