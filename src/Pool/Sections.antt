-- ===== src/Pool/Sections.antt =====
-- What the critical sections of src/ucb/threads/threadpool.c do, on a queue that is valid.
use ucb.Common.{
  ℕ, ◌+◌, ◌%◌, ◌^◌, ◌≡◌, refl, ap, ◌∙◌, Bool, true, false, not, ◌&&◌, ◌||◌, Option, none, some,
  List, [], ◌∷◌, ltb, ◌==◌, if◌then◌else◌, length, arith, Bool-cases, inl, inr,
}
use mathlib.Core.Bool.{and-false}
use ucb.Common.Outcome.{ok, ◌>>=◌, Returns, returns, Returns-bind}
use ucb.Pqueue.{Pqueue}
use ucb.Pqueue.Take
use ucb.Pqueue.Contents.{contents, IsValid}
use ucb.Pqueue.Remove.{pop_first, pop_refines, empty_refines}
use ucb.Pqueue.Clear.{items, clear_lem}
use ucb.Task.{Task}
use ucb.Pool.{Pool, Turn, wait, leave, perform, worker_turn, wait_test, must_start, discard}

-- A queue of the pool: valid, of borrowed tasks that it frees.
pub record Holds (p : Pool) : Type 0 where
  pub valid : IsValid p.tasks
  pub borrows : p.tasks.data_clone ≡ none
  pub frees : p.tasks.data_free ≡ true

abbrev pub queue : Pool → List (ℕ × Task)
queue p = contents p.tasks.buckets

-- The pool with the count of a worker that has taken a task.
abbrev taking : Pool → Pqueue Task → Pool
taking p q = record p { tasks = q; num_running = (p.num_running + 1) % 2 ^ 64 }

abbrev pub Turned : Pool → Turn × Pool → Type 0
Turned p (wait, q) = (q ≡ p) × (p.stop ≡ false) × (queue p ≡ [])
Turned p (leave, q) = (q ≡ p) × (p.stop ≡ true)
Turned p (perform none, q) = ⊥
Turned p (perform (some t), q) =
    (prio : ℕ) × (tasks : Pqueue Task) × (q ≡ taking p tasks)
    × (queue p ≡ (prio, t) ∷ contents tasks.buckets)
    × (p.stop ≡ false)
    × Holds q

pub nil-length {ℓ} : {A : Type ℓ} (xs : List A) → (length xs == 0) ≡ true → xs ≡ []
nil-length [] h = refl
nil-length (x ∷ xs) h = absurd (ground arith)

-- A pop of a queue that is not empty, seen from the pool.
pop-Turned :
    (p : Pool)
    → Holds p
    → p.stop ≡ false
    → (length (queue p) == 0) ≡ false
    → Returns (Turned p) (Take.pop p.tasks >>= λ (task, q). ok (perform task, taking p q))
pop-Turned p h live some_left =
    Returns-bind (pop_refines p.tasks h.valid) λ (task, q) (e, v, (same_clone, same_free, _)).
      returns (picked task q e v (same_clone ∙ h.borrows) (same_free ∙ h.frees) (queue p) refl)
  where
    picked :
        (task : Option Task) (q : Pqueue Task)
        → (task, contents q.buckets) ≡ pop_first (queue p)
        → IsValid q
        → q.data_clone ≡ none
        → q.data_free ≡ true
        → (l : List (ℕ × Task)) → queue p ≡ l
        → Turned p (perform task, taking p q)
    picked task q e v b f [] d =
        let z : (0 == 0) ≡ false = rw d at some_left in absurd (ground arith)
    picked none q e v b f ((prio, t) ∷ l) d =
        let z : none ≡ some t = rw d at (ap (λ x. x.0) e) in absurd cc
    picked (some u) q e v b f ((prio, t) ∷ l) d =
        let first : some u ≡ some t = rw d at (ap (λ x. x.0) e) in
        let same : u ≡ t = cc in
        let rest : contents q.buckets ≡ l = rw d at (ap (λ x. x.1) e) in
        (prio, q, refl, rw (d, same, rest) refl, live, record { valid = v; borrows = b; frees = f })

-- The tests of a worker, on any three results.
module _ {ℓ} {A : Type ℓ} (waits leaves takes : A) (is_empty stops : Bool) where
  abbrev tests : A
  tests = if is_empty && not stops then waits else (if stops then leaves else takes)

  turn_leaves : stops ≡ true → tests ≡ leaves
  turn_leaves e = rw (e, and-false is_empty) refl

  turn_waits : stops ≡ false → is_empty ≡ true → tests ≡ waits
  turn_waits e f = rw (e, f) refl

  turn_takes : stops ≡ false → is_empty ≡ false → tests ≡ takes
  turn_takes e f = rw (e, f) refl

-- A worker with the lock waits exactly where there is no task and no stop, returns where there is a
-- stop, and else takes the first task of the queue.
pub worker_turn-Turned : (p : Pool) → Holds p → Returns (Turned p) (worker_turn p)
unfolding worker_turn
worker_turn-Turned p h = rw (empty_refines p.tasks h.valid) (elim (Bool-cases p.stop) [
  | inl stops ↦ rw (turn_leaves _ _ _ _ _ stops) (returns (refl, stops))
  | inr live ↦ elim (Bool-cases (length (queue p) == 0)) [
    | inl e ↦ rw (turn_waits _ _ _ _ _ live e) (returns (refl, live, nil-length (queue p) e))
    | inr e ↦ rw (turn_takes _ _ _ _ _ live e) (pop-Turned p h live e)
  ]
])

-- ucb_threadpool_wait_all goes on waiting exactly while a task runs or is queued.
pub wait_test_lem :
    (p : Pool) → Holds p → wait_test p ≡ ok (ltb 0 p.num_running || not (length (queue p) == 0), p)
unfolding wait_test
wait_test_lem p h =
    rw (empty_refines p.tasks h.valid)
      (elim (Bool-cases (ltb 0 p.num_running)) [ inl e ↦ rw e refl | inr e ↦ rw e refl ])

pub must_start_lem :
    (p : Pool) → Holds p → must_start p ≡ ok (not p.running && not (length (queue p) == 0), p)
unfolding must_start
must_start_lem p h =
    rw (empty_refines p.tasks h.valid)
      (elim (Bool-cases p.running) [ inl e ↦ rw e refl | inr e ↦ rw e refl ])

-- The tasks that are discarded are those of the queue, and none stays.
pub record Discarded (p : Pool) (r : List Task × Pool) : Type 0 where
  pub freed : r.0 ≡ items (queue p)
  pub tasks : Pqueue Task
  pub after : r.1 ≡ record p { tasks = tasks }
  pub none_left : contents tasks.buckets ≡ []
  pub holds : Holds r.1

pub discard-Discarded : (p : Pool) → Holds p → Returns (Discarded p) (discard p)
unfolding discard
discard-Discarded p h =
    Returns-bind (clear_lem p.tasks h.valid) λ (freed, q) (e, none_left, (clone, frees, _), v).
      returns (record {
        freed = rw h.frees at e;
        tasks = q;
        after = refl;
        none_left = none_left;
        holds = record { valid = v; borrows = clone ∙ h.borrows; frees = frees ∙ h.frees };
      })
