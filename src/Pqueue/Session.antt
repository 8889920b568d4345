-- ===== src/Pqueue/Session.antt =====
-- Sequences of calls of src/ucb/container/pqueue.c by one client, where memory suffices and data is
-- borrowed: the queue against the list of its items.
use ucb.Common.{
  ℕ, ◌≡◌, refl, ap, ◌∙◌, Bool, true, Option, none, some, List, [], ◌∷◌, ◌==◌, length, inr,
}
use ucb.Common.Outcome.{granted, Outcome, ok, ◌>>=◌, Returns, returns, Returns-bind, Returns-inv}
use ucb.Pqueue.{Bucket, Pqueue}
use ucb.Pqueue
use ucb.Pqueue.Take
use ucb.Pqueue.Contents.{contents, insert_stable, count_ge, IsValid}
use ucb.Pqueue.Push.{entry, push_refines}
use ucb.Pqueue.Remove.{pop_first, pop_refines, peek_refines, size_refines, empty_refines}

pub data Op {ℓ} (A : Type ℓ) : Type ℓ where
  push : A → ℕ → Op A
  pop peek size empty : Op A

pub data Reply {ℓ} (A : Type ℓ) : Type ℓ where
  position : Option ℕ → Reply A
  item : Option A → Reply A
  count : ℕ → Reply A
  test : Bool → Reply A

module _ {ℓ} {A : Type ℓ} where
  pub step : Pqueue A → Op A → Outcome (Reply A × Pqueue A)
  step q (push x p) = do (r, q', freed) ← Pqueue.push q x p true granted; ok (position r, q')
  step q pop = do (r, q') ← Take.pop q; ok (item r, q')
  step q peek = do (r, q') ← Take.peek q; ok (item r, q')
  step q size = do (r, q') ← Take.size q; ok (count r, q')
  step q empty = do (r, q') ← Take.empty q; ok (test r, q')

  pub run : Pqueue A → List (Op A) → Outcome (List (Reply A))
  unfolding step
  run q [] = ok []
  run q (o ∷ ops) = do (r, q') ← step q o; rs ← run q' ops; ok (r ∷ rs)

  -- The same on the list of the items with their priorities.
  unfoldable pub list_step : List (ℕ × A) → Op A → Reply A × List (ℕ × A)
  list_step l (push x p) = (position (some (count_ge p l)), insert_stable p x l)
  list_step l pop = (item (pop_first l).0, (pop_first l).1)
  list_step l peek = (item (pop_first l).0, l)
  list_step l size = (count (length l), l)
  list_step l empty = (test (length l == 0), l)

  unfoldable pub list_run : List (ℕ × A) → List (Op A) → List (Reply A)
  unfolding list_step
  list_run l [] = []
  list_run l (o ∷ ops) = (list_step l o).0 ∷ list_run (list_step l o).1 ops

  -- A valid queue of borrowed data that stands for the list.
  abbrev Stands : List (ℕ × A) → Pqueue A → Type ℓ
  Stands l q = (contents q.buckets ≡ l) × IsValid q × (q.data_clone ≡ none)

  -- One call replies as the list does, and leaves a queue that stands for the list after it.
  step_refines :
      (q : Pqueue A) (o : Op A)
      → IsValid q
      → q.data_clone ≡ none
      → let (r, l) = list_step (contents q.buckets) o in
        Returns (λ s. (s.0 ≡ r) × Stands l s.1) (step q o)
  unfolding step list_step entry
  step_refines q (push x p) v b =
      Returns-bind (push_refines q x x p granted v (inr refl) (rw (b, entry)))
        λ (r, q', freed) (h, _).
          returns (ap position h.position, (h.stable, h.valid, h.same_clone ∙ b))
  step_refines q pop v b =
      Returns-bind (pop_refines q v) λ (r, q') (e, w, (same, _, _)).
        returns (ap (λ t. item t.0) e, (ap (λ t. t.1) e, w, same ∙ b))
  step_refines q peek v b = rw (peek_refines q v) (returns (refl, (refl, v, b)))
  step_refines q size v b = rw (size_refines q v) (returns (refl, (refl, v, b)))
  step_refines q empty v b = rw (empty_refines q v) (returns (refl, (refl, v, b)))

  -- No sequence of calls tells a valid queue from the list of its items: every call returns, with
  -- the reply of the list.
  pub run_refines :
      (ops : List (Op A)) (q : Pqueue A)
      → IsValid q
      → q.data_clone ≡ none
      → run q ops ≡ ok (list_run (contents q.buckets) ops)
  unfolding run list_run
  run_refines [] q v b = refl
  run_refines (o ∷ ops) q v b =
      let ((r, q'), e, (reply, (after, valid, borrowed))) = Returns-inv (step_refines q o v b) in
      rw (e, run_refines ops q' valid borrowed, reply, after)
