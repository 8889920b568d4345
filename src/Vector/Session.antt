-- ===== src/Vector/Session.antt =====
-- Sequences of calls on a vector of include/ucb/container/templates/vector_template.h, where memory
-- suffices: the vector against the list of its elements.
use ucb.Common.{
  ℕ, zero, suc, ◌+◌, ◌-◌, ◌^◌, ◌≤◌, ◌<◌, ◌≡◌, refl, ap, inl, inr, Option, none, some, List, [], ◌∷◌,
  ◌++◌, ltb, leb, if◌then◌else◌, length, length-append, length-take, take, drop, get_elem?, arith,
  Bool-cases,
}
use ucb.Common.Outcome.{granted, Outcome, ok, aborted, ◌>>=◌, Returns-inv}
use ucb.Vector.{Vector, default_capacity}
use ucb.Vector
use ucb.Vector.Arrays.{length-drop}
use ucb.Vector.Elements.{
  contents, IsValid, length-contents, Holds, insert-Holds, insert-beyond, push_back-insert,
  push_front-insert,
}
use ucb.Vector.Removal.{
  remove-Took, pop_back-remove, pop_front-remove, remove-beyond, pop_back-empty, get-contents,
  set-Holds, get-beyond, set-beyond,
}

pub data Op {ℓ} (A : Type ℓ) : Type ℓ where
  insert set : ℕ → A → Op A
  remove get : ℕ → Op A
  push_back push_front : A → Op A
  pop_back pop_front : Op A

-- `none` for a call that returns nothing.
module _ {ℓ} {A : Type ℓ} where
  pub step : (ℕ → A) → Vector A → Op A → Outcome (Option A × Vector A)
  step junk v (insert i x) = do w ← Vector.insert junk granted v i x; ok (none, w)
  step junk v (set i x) = do w ← Vector.set v i x; ok (none, w)
  step junk v (remove i) = do (x, w) ← Vector.remove v i; ok (some x, w)
  step junk v (get i) = do x ← Vector.get v i; ok (some x, v)
  step junk v (push_back x) = do w ← Vector.push_back junk granted v x; ok (none, w)
  step junk v (push_front x) = do w ← Vector.push_front junk granted v x; ok (none, w)
  step junk v pop_back = do (x, w) ← Vector.pop_back v; ok (some x, w)
  step junk v pop_front = do (x, w) ← Vector.pop_front v; ok (some x, w)

  pub run : (ℕ → A) → Vector A → List (Op A) → Outcome (List (Option A))
  unfolding step
  run junk v [] = ok []
  run junk v (o ∷ os) = do (r, w) ← step junk v o; rs ← run junk w os; ok (r ∷ rs)

  -- The same on the list; an index past it aborts the program.
  unfoldable pub found : Option A → (A → Outcome (Option A × List A)) → Outcome (Option A × List A)
  found none k = aborted
  found (some x) k = k x

  unfoldable pub take_out : List A → ℕ → Outcome (Option A × List A)
  unfolding found
  take_out l i = found (get_elem? l i) (λ x. ok (some x, take i l ++ drop (suc i) l))

  unfoldable pub put_in : List A → ℕ → A → Outcome (Option A × List A)
  put_in l i x = if leb i (length l) then ok (none, take i l ++ (x ∷ drop i l)) else aborted

  unfoldable pub list_step : List A → Op A → Outcome (Option A × List A)
  unfolding found take_out put_in
  list_step l (insert i x) = put_in l i x
  list_step l (set i x) = found (get_elem? l i) (λ y. ok (none, take i l ++ (x ∷ drop (suc i) l)))
  list_step l (remove i) = take_out l i
  list_step l (get i) = found (get_elem? l i) (λ x. ok (some x, l))
  list_step l (push_back x) = put_in l (length l) x
  list_step l (push_front x) = put_in l 0 x
  list_step l pop_back = if ltb 0 (length l) then take_out l (length l - 1) else aborted
  list_step l pop_front = take_out l 0

  unfoldable pub list_run : List A → List (Op A) → Outcome (List (Option A))
  unfolding list_step
  list_run l [] = ok []
  list_run l (o ∷ os) = do (r, k) ← list_step l o; rs ← list_run k os; ok (r ∷ rs)

  -- A call on the vector and on its list: the same reply and the elements, at most one more than
  -- before; or both abort.
  data Agrees (n : ℕ) : Outcome (Option A × Vector A) → Outcome (Option A × List A) → Type ℓ where
    answers :
        {r : Option A} {w : Vector A} {l : List A}
        → IsValid w
        → contents w ≡ l
        → w.size ≤ suc n
        → Agrees n (ok (r, w)) (ok (r, l))
    aborts : Agrees n aborted aborted

  Holds-answers :
      {n : ℕ} {w : Vector A} {l : List A} {b : ℕ} {r : Option A}
      → Holds l b w
      → length l ≤ suc n
      → Agrees n (ok (r, w)) (ok (r, l))
  Holds-answers {w = w} h short =
      answers h.valid h.same (omega (arith, length-contents w h.valid, ap length h.same))

  length-inserted :
      (i : ℕ) (x : A) (l : List A)
      → i ≤ length l
      → length (take i l ++ (x ∷ drop i l)) ≡ suc (length l)
  length-inserted i x l h =
      omega (arith, length-append (take i l) (x ∷ drop i l), length-take i l h, length-drop i l)

  pub length-replaced :
      (i : ℕ) (x : A) (l : List A)
      → i < length l
      → length (take i l ++ (x ∷ drop (suc i) l)) ≡ length l
  length-replaced i x l h = omega (
    arith,
    length-append (take i l) (x ∷ drop (suc i) l),
    length-take i l (omega arith),
    length-drop (suc i) l,
  )

  pub length-removed :
      (i : ℕ) (l : List A) → i < length l → length (take i l ++ drop (suc i) l) + 1 ≡ length l
  length-removed i l h = omega (
    arith,
    length-append (take i l) (drop (suc i) l),
    length-take i l (omega arith),
    length-drop (suc i) l,
  )

  get_elem?-none : (l : List A) (i : ℕ) → length l ≤ i → get_elem? l i ≡ none
  get_elem?-none [] i h = refl
  get_elem?-none (x ∷ l) zero h = absurd (omega arith)
  get_elem?-none (x ∷ l) (suc i) h = get_elem?-none l i (omega arith)

  module _ (junk : ℕ → A) (v : Vector A) (h : IsValid v) (small : v.size < 2 ^ 63) where
    put_in-Agrees :
        (i : ℕ) (x : A)
        → Agrees v.size
            (Vector.insert junk granted v i x >>= λ w. ok (none, w))
            (put_in (contents v) i x)
    unfolding put_in
    put_in-Agrees i x =
        let size = length-contents v h in
        elim (Bool-cases (leb i v.size)) [
          | inl e ↦
              let le : i ≤ v.size = ground arith in
              let (w, f, k) = Returns-inv (insert-Holds junk v i x h le small) in
              rw (f, size, e)
                (Holds-answers k (omega (arith, length-inserted i x (contents v) (omega arith))))
          | inr e ↦
              let f = insert-beyond junk granted v i x (ground arith) in rw (f, size, e) aborts
        ]

    take_out-Agrees :
        (i : ℕ)
        → Agrees v.size (Vector.remove v i >>= λ (x, w). ok (some x, w)) (take_out (contents v) i)
    unfolding take_out found
    take_out-Agrees i =
        let size = length-contents v h in
        elim (Bool-cases (ltb i v.size)) [
          | inl e ↦
              let lt : i < v.size = ground arith in
              let ((x, w), f, (at, k)) = Returns-inv (remove-Took v i h lt) in
              rw (f, at)
                (Holds-answers k (omega (arith, length-removed i (contents v) (omega arith))))
          | inr e ↦
              let f = remove-beyond v i (ground arith) in
              rw (f, get_elem?-none (contents v) i (ground arith)) aborts
        ]

    step-Agrees : (o : Op A) → Agrees v.size (step junk v o) (list_step (contents v) o)
    unfolding step list_step found take_out put_in
    step-Agrees (insert i x) = put_in-Agrees i x
    step-Agrees (set i x) = elim (Bool-cases (ltb i v.size)) [
      | inl e ↦
          let lt : i < v.size = ground arith in
          let (w, f, k) = Returns-inv (set-Holds v i x h lt) in
          let (y, g, at) = get-contents v i h lt in
          rw (f, at)
            (Holds-answers k (
              omega (
                arith,
                length-contents v h,
                length-replaced i x (contents v) (omega (arith, length-contents v h)),
              )))
      | inr e ↦
          let out : v.size ≤ i = ground arith in
          rw
            (
              set-beyond v i x out,
              get_elem?-none (contents v) i (omega (arith, length-contents v h)),
            )
            aborts
    ]
    step-Agrees (remove i) = take_out-Agrees i
    step-Agrees (get i) = elim (Bool-cases (ltb i v.size)) [
      | inl e ↦
          let (y, g, at) = get-contents v i h (ground arith) in
          rw (g, at) (answers h refl (omega arith))
      | inr e ↦
          let out : v.size ≤ i = ground arith in
          rw
            (get-beyond v i out, get_elem?-none (contents v) i (omega (arith, length-contents v h)))
            aborts
    ]
    step-Agrees (push_back x) =
        rw (push_back-insert junk granted v x h, length-contents v h)
          (rw (length-contents v h) at (put_in-Agrees v.size x))
    step-Agrees (push_front x) = rw (push_front-insert junk granted v x) (put_in-Agrees 0 x)
    step-Agrees pop_back = elim (Bool-cases (ltb 0 v.size)) [
      | inl e ↦
          rw (pop_back-remove v h (ground arith), length-contents v h, e)
            (take_out-Agrees (v.size - 1))
      | inr e ↦ rw (pop_back-empty v (ground arith), length-contents v h, e) aborts
    ]
    step-Agrees pop_front = rw (pop_front-remove v) (take_out-Agrees 0)

  -- What follows the two calls is the same, if it is on the vector and on its elements.
  Agrees-bind :
      {n : ℕ} {m : Outcome (Option A × Vector A)} {k : Outcome (Option A × List A)}
      (f : Vector A → Outcome (List (Option A))) (g : List A → Outcome (List (Option A)))
      → Agrees n m k
      → ((w : Vector A) → IsValid w → w.size ≤ suc n → f w ≡ g (contents w))
      → (m >>= λ (r, w). f w >>= λ rs. ok (r ∷ rs)) ≡ (k >>= λ (r, l). g l >>= λ rs. ok (r ∷ rs))
  Agrees-bind f g (answers {r} {w} valid same less) h =
      rw (← same) (ap (λ m. m >>= λ rs. ok (r ∷ rs)) (h w valid less))
  Agrees-bind f g aborts h = refl

  -- No sequence of insertions, removals, pushes, pops, reads and writes tells a valid vector, where
  -- memory suffices, from the list of its elements: every call replies as the list does, and the
  -- program aborts just where an index is past the list.
  pub session_refines :
      (junk : ℕ → A) (os : List (Op A)) (v : Vector A)
      → IsValid v
      → v.size + length os < 2 ^ 63
      → run junk v os ≡ list_run (contents v) os
  unfolding run list_run
  session_refines junk [] v h small = refl
  session_refines junk (o ∷ os) v h small =
      Agrees-bind (λ w. run junk w os) (λ l. list_run l os) (step-Agrees junk v h (omega arith) o)
        (λ w valid less. session_refines junk os w valid (omega arith))
