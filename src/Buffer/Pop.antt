-- ===== src/Buffer/Pop.antt =====
-- Reading from and shortening a buffer in src/ucb/buffer.c, against the list of the stored bytes.
use ucb.Common.{
  ℕ, zero, suc, ◌+◌, ◌-◌, ◌≤◌, ◌<◌, ◌≡◌, refl, sym, ap, ◌∙◌, ◌⊎◌, inl, inr, true, false, none, List,
  [], ◌∷◌, ◌++◌, leb, ◌==◌, length, length-append, take, drop, arith, Bool-cases,
}
use ucb.Common.Outcome.{aborted, ◌>>=◌, Returns, returns, Returns-bind, Returns-map}
use ucb.Buffer.{
  heap, is_heap, Buffer, contents, size_max, grow_by, grow, ensure, push, fit, can_ensure,
}
use ucb.Buffer.Stack.{pop}
use ucb.Buffer.Memory.{length-take, take-take}
use ucb.Buffer.Room.{
  IsValid, Meets, resize-Resized, Roomy, CanHold, ensure-Roomy, eq_heap_of_is_heap,
  eq_fixed_of_not_is_heap,
}
use ucb.Buffer.Push.{push_appends, grow_by-fixed, grow_by-overflow}

-- The bytes from `off` on, `n` of them, after the bytes before them.
take-add : (off n : ℕ) (s : List ℕ) → take (off + n) s ≡ take off s ++ take n (drop off s)
take-add zero n s = ap (λ k. take k s) (omega arith)
take-add (suc off) n [] = let e : suc off + n ≡ suc (off + n) = omega arith in rw e (nothing n)
  where
    nothing : (n : ℕ) → [] ≡ take {A = ℕ} n []
    nothing zero = refl
    nothing (suc n) = refl
take-add (suc off) n (b ∷ s) =
    let e : suc off + n ≡ suc (off + n) = omega arith in rw e (ap (◌∷◌ b) (take-add off n s))

drop-take :
    (off n m : ℕ) (s : List ℕ) → off + n ≤ m → take n (drop off (take m s)) ≡ take n (drop off s)
drop-take zero n m s h = take-take n m s (omega arith)
drop-take (suc off) n zero s h = absurd (omega arith)
drop-take (suc off) n (suc m) [] h = refl
drop-take (suc off) n (suc m) (b ∷ s) h = drop-take off n m s (omega arith)

length-drop : (n : ℕ) (s : List ℕ) → length (drop n s) ≡ length s - n
length-drop zero s = omega arith
length-drop (suc n) [] = omega arith
length-drop (suc n) (b ∷ s) = omega (arith, length-drop n s)

-- The last `n` stored bytes, and what is left.
pub record Popped (buf : Buffer) (n : ℕ) (r : List ℕ × Buffer) : Type 0 where
  pub stored : contents buf ≡ contents r.1 ++ r.0
  pub count : length r.0 ≡ n
  pub valid : IsValid r.1

-- Popping from a valid buffer takes exactly the last bytes off, and asking for more than there are
-- is reported and aborts.
pub pop_takes_last :
    (buf : Buffer) (n : ℕ)
    → IsValid buf
    → (n ≤ buf.size) × Returns (Popped buf n) (pop buf n) ⊎ (buf.size < n) × (pop buf n ≡ aborted)
unfolding pop
pop_takes_last buf n v = elim (Bool-cases (leb n buf.size)) [
  | inl enough ↦
      let fits : n ≤ buf.size = ground arith in
      let total : buf.size ≡ buf.size - n + n = omega arith in
      inl (
        fits,
        rw enough (
            returns (record {
              stored = ap (λ k. take k buf.bytes) total ∙ take-add (buf.size - n) n buf.bytes;
              count = omega (
                arith,
                v.within,
                v.memory,
                length-take n (drop (buf.size - n) buf.bytes),
                length-drop (buf.size - n) buf.bytes,
              );
              valid = record {
                within = omega (arith, v.within);
                memory = v.memory;
                bounded = v.bounded;
              };
            })),
      )
  | inr short ↦ inr (ground arith, rw short)
]

append_cancel :
    (xs ys us vs : List ℕ) → length xs ≡ length us → xs ++ ys ≡ us ++ vs → (xs ≡ us) × (ys ≡ vs)
append_cancel [] ys [] vs h e = (refl, e)
append_cancel [] ys (u ∷ us) vs h e = absurd (omega arith)
append_cancel (x ∷ xs) ys [] vs h e = absurd (omega arith)
append_cancel (x ∷ xs) ys (u ∷ us) vs h e =
    let tails : xs ++ ys ≡ us ++ vs = cc in
    let (same, rest) = append_cancel xs ys us vs (omega arith) tails in (ground (arith, same), rest)

length-contents : (buf : Buffer) → IsValid buf → length (contents buf) ≡ buf.size
length-contents buf v = omega (arith, length-take buf.size buf.bytes, v.within, v.memory)

pop-back :
    (buf : Buffer) (s : List ℕ) (q : Buffer)
    → length (contents buf) ≡ buf.size
    → contents q ≡ contents buf ++ s
    → IsValid q
    → Returns (λ r. (r.0 ≡ s) × (contents r.1 ≡ contents buf)) (pop q (length s))
pop-back buf s q size stored v =
    let total : q.size ≡ length (contents buf) + length s =
      omega (arith, length-contents q v, ap length stored, length-append (contents buf) s) in
    elim (pop_takes_last q (length s) v) [
      | inr (short, stop) ↦ absurd (omega arith)
      | inl (enough, popped) ↦ Returns-map popped λ (out, left) p.
          let both = sym stored ∙ p.stored in
          let len : length (contents buf) ≡ length (contents left) = omega (
            arith,
            ap length both,
            length-append (contents buf) s,
            length-append (contents left) out,
            p.count,
          ) in
          let (front, back) = append_cancel (contents buf) s (contents left) out len both in
          (sym back, sym front)
    ]

module _ (junk : ℕ → ℕ) where
  -- Popping as many bytes as were pushed gives them back, and the buffer stores what it did before.
  push-pop :
      (buf : Buffer) (s : List ℕ)
      → IsValid buf
      → CanHold buf (length s)
      → Returns
          (λ r. (r.0 ≡ s) × (contents r.1 ≡ contents buf))
          (push junk true buf s >>= λ (pushed, q). pop q (length s))
  push-pop buf s v can =
      Returns-bind (push_appends junk buf s v can)
        λ (pushed, q) h. pop-back buf s q (length-contents buf v) h.stored h.valid

  -- Fitting a valid heap buffer, where memory suffices, leaves a capacity of just the stored bytes,
  -- which stay.
  fit_keeps :
      (buf : Buffer)
      → IsValid buf
      → buf.backing ≡ heap
      → Returns
          (λ r. (r.0 ≡ true) × (r.1.alloc ≡ buf.size) × (contents r.1 ≡ contents buf) × IsValid r.1)
          (fit junk true buf)
  unfolding fit
  fit_keeps buf v h = elim (Bool-cases (buf.size == buf.alloc)) [
    | inl tight ↦ rw tight (returns (refl, ground arith, refl, v))
    | inr loose ↦ rw loose (
        Returns-map (resize-Resized junk buf buf.size v h (omega (arith, v.within, v.bounded)))
          λ r rs.
            let size : r.1.size ≡ buf.size = ground (arith, rs.size) in
            (rs.done, rs.capacity, rs.kept ∙ ap (λ k. take k buf.bytes) size, rs.valid))
  ]

  -- With no grow function can_ensure says exactly whether ensure, given memory, makes room; where it
  -- says no, ensure reports an error and aborts.
  can_ensure_decides :
      (buf : Buffer) (n : ℕ)
      → IsValid buf
      → buf.grow_func ≡ none
      → (can_ensure buf n ≡ true) × Returns (Roomy junk buf n) (ensure junk true buf n)
        ⊎ (can_ensure buf n ≡ false) × (ensure junk true buf n ≡ aborted)
  unfolding can_ensure ensure grow grow_by
  can_ensure_decides buf n v h = elim (Bool-cases (leb n (buf.alloc - buf.size))) [
    | inl fits ↦ inl (rw fits, ensure-Roomy junk buf n v (inl (ground (arith, v.within))))
    | inr more ↦ elim (Bool-cases (is_heap buf.backing)) [
      | inr static ↦ inr (
        rw (more, static),
        rw more (
            grow_by-fixed junk buf.grow_func buf _ true
              (eq_fixed_of_not_is_heap buf.backing static)),
      )
      | inl on_heap ↦ elim (Bool-cases (leb n (size_max - buf.size))) [
        | inl small ↦ inl (
          rw (more, on_heap, small),
          ensure-Roomy junk buf n v (
              inr (
                eq_heap_of_is_heap buf.backing on_heap,
                rw (h, Meets) tt,
                ground (arith, v.within, v.bounded),
              )),
        )
        | inr large ↦
            let over : leb (n - (buf.alloc - buf.size)) (size_max - buf.alloc) ≡ false =
              ground (arith, v.within, v.bounded) in
            inr (
              rw (more, on_heap, large),
              rw more (grow_by-overflow junk buf.grow_func buf _ true h over),
            )
      ]
    ]
  ]
