-- ===== src/Pool/Order.antt =====
-- Which task a worker of src/ucb/threads/threadpool.c takes.
use ucb.Common.{
  ℕ, ◌+◌, ◌%◌, ◌^◌, ◌≤◌, ◌≡◌, refl, sym, ap, ◌∙◌, false, none, some, List, [], ◌∷◌, ◌++◌, length,
  arith, All,
}
use ucb.Common.Outcome.{Returns, Returns-map}
use ucb.Pqueue.{Bucket}
use ucb.Pqueue.BinarySearch.{AllBelow, Descending}
use ucb.Pqueue.Contents.{tag, contents, Counted}
use ucb.Task.{Task}
use ucb.Pool.{Pool, Turn, wait, leave, perform, worker_turn}
use ucb.Pool.Sections.{Holds, queue, Turned, worker_turn-Turned}

module _ {ℓ} {A : Type ℓ} (p : ℕ) where
  abbrev NoHigher : List (ℕ × A) → Type 0
  NoHigher l = All (λ x. x.0 ≤ p) l

  tag-NoHigher :
      (q : ℕ) (xs : List A) (l : List (ℕ × A)) → q ≤ p → NoHigher l → NoHigher (tag q xs ++ l)
  tag-NoHigher q [] l h a = a
  tag-NoHigher q (x ∷ xs) l h a = (h, tag-NoHigher q xs l h a)

  contents-NoHigher : (bs : List (Bucket A)) → AllBelow p bs → NoHigher (contents bs)
  contents-NoHigher [] h = tt
  contents-NoHigher (b ∷ bs) (h, k) =
      tag-NoHigher b.priority b.items (contents bs) (omega arith) (contents-NoHigher bs k)

-- The first item has the highest priority.
first-NoHigher {ℓ} :
    {A : Type ℓ} (bs : List (Bucket A)) (p : ℕ) (x : A) (l : List (ℕ × A))
    → Descending bs
    → Counted bs
    → contents bs ≡ (p, x) ∷ l
    → NoHigher p l
first-NoHigher [] p x l d c e = absurd cc
first-NoHigher {A = A} (b ∷ bs) p x l d c e = head b.items refl
  where
    head : (xs : List A) → b.items ≡ xs → NoHigher p l
    head [] f = let short : length b.items ≡ 0 = ap length f in absurd (omega arith)
    head (y ∷ ys) f =
        let g : (b.priority, y) ∷ (tag b.priority ys ++ contents bs) ≡ (p, x) ∷ l = rw f at e in
        let others : tag b.priority ys ++ contents bs ≡ l = cc in
        let level : b.priority ≡ p = cc in
        rw (← others, ← level)
          (tag-NoHigher b.priority b.priority ys (contents bs) (omega arith)
            (contents-NoHigher b.priority bs d.0))

-- A worker that holds the lock of a pool that is not stopped takes the first task of the queue: no
-- other has a higher priority. The others stay in order, and the worker is counted.
worker_takes_first :
    (p : Pool) (prio : ℕ) (t : Task) (l : List (ℕ × Task))
    → Holds p
    → p.stop ≡ false
    → queue p ≡ (prio, t) ∷ l
    → Returns
        (λ (turn, q).
          (turn ≡ perform (some t))
          × (queue q ≡ l)
          × (q.num_running ≡ (p.num_running + 1) % 2 ^ 64)
          × NoHigher prio l)
        (worker_turn p)
worker_takes_first p prio t l h live first =
    Returns-map (worker_turn-Turned p h) (λ (turn, q). taken turn q)
  where
    taken :
        (turn : Turn) (q : Pool)
        → Turned p (turn, q)
        → (turn ≡ perform (some t))
          × (queue q ≡ l)
          × (q.num_running ≡ (p.num_running + 1) % 2 ^ 64)
          × NoHigher prio l
    taken wait q (same, live, none_left) = absurd cc
    taken leave q (same, stops) = absurd cc
    taken (perform none) q e = absurd e
    taken (perform (some u)) q (prio', tasks, same, first', live', holds) =
        let g : (prio', u) ∷ contents tasks.buckets ≡ (prio, t) ∷ l = sym first' ∙ first in
        let others : contents tasks.buckets ≡ l = cc in
        let task : u ≡ t = cc in
        (
          ap (λ v. perform (some v)) task,
          rw same others,
          rw same refl,
          first-NoHigher p.tasks.buckets prio t l h.valid.descending h.valid.counted first,
        )
