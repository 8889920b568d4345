-- ===== src/Pool/Conserve.antt =====
-- No task of src/ucb/threads/threadpool.c is lost or run twice: the tasks that were added against
-- those in the queue, with a worker, run, and discarded.
use ucb.Common.{
  ℕ, ◌+◌, ◌^◌, ◌<◌, ◌≡◌, refl, sym, ap, ◌∙◌, inl, inr, Bool, false, not, ◌&&◌, Option, none, some,
  List, ◌++◌, length, arith, Bool-cases, ◌==◌,
}
use ucb.Common.Outcome.{granted, ok, Returns, returns, Returns-at, Returns-bind, Returns-map}
use ucb.Task.{Task, set_to}
use ucb.Pool.{Pool, Turn, wait, leave, perform, Added, with_callback, start_loop, joined, reaped}
use ucb.Pool.System.{
  Worker, unstarted, ready, holding, after_turn, Caller, away, wait_awake, System, fresh, Becomes,
  total, launch, run_by, replicate,
}
use ucb.Pool.Steps.{
  WorkerStep, turn, work, done, Heard, entered, start_threads, wait_loop, wait_started, wait_all,
  join_loop, join_pool, Step, worker, stirs, stirs_caller, add, set_default, starts, waits,
  waits_again, joins, joins_again, join_thread, join_end, reap_thread, reap_end, Reach, later,
}
use ucb.Pool.Census.{total-Becomes, total-replicate}
use ucb.Pool.Reachable.{Reach-Inv}
use ucb.Pool.Sections.{
  Holds, queue, Turned, worker_turn-Turned, wait_test_lem, must_start_lem, Discarded,
  discard-Discarded,
}
use ucb.Pool.AddTask.{AddedTo, add_task-AddedTo, add_task-unset}
use ucb.Pool.Balance.{Inv}
use ucb.Pool.CallerSteps.{
  idle, start_threads-on, start_threads-all, start_threads-some, wait_awake-cases,
  start_threads-Inv,
}
use ucb.Pool.JoinSteps.{join_pool-on, join_pool-off}
use ucb.Pool.Weights.{
  total-append, held, queued, queued-insert, total-items, held-broadcast, held-launch, held-Heard,
}

-- For a weight of tasks: what was added is accounted for.
module _ (f : Task → ℕ) where
  abbrev accounted : System → ℕ
  accounted s =
      queued f (queue s.pool) + total (held f) s.workers + total f s.ran + total f s.dropped

  abbrev Kept : System → Type 0
  Kept s = total f s.added ≡ accounted s

  Turned-Kept :
      (s : System) (t : Turn) (p : Pool) {i : ℕ} {ws : List Worker}
      → Turned s.pool (t, p)
      → Becomes ready (after_turn t) i s.workers ws
      → Kept s
      → Kept (record s { pool = p; workers = ws })
  Turned-Kept s wait p (same, live, none_left) m k =
      rw same (omega (arith, total-Becomes (held f) m, k))
  Turned-Kept s leave p (same, stops) m k = rw same (omega (arith, total-Becomes (held f) m, k))
  Turned-Kept s (perform none) p e m k = absurd e
  Turned-Kept s (perform (some t)) p (prio, tasks, same, first, live, holds) m k =
      rw same (omega (arith, total-Becomes (held f) m, ap (queued f) first, k))

  run_by-held : (t : Option Task) → total f (run_by t) ≡ held f (holding t)
  run_by-held none = refl
  run_by-held (some t) = omega arith

  WorkerStep-Kept : {s t : System} → WorkerStep s t → Inv s → Kept s → Kept t
  WorkerStep-Kept {s} (turn {t} {p} e m) h k =
      Turned-Kept s t p (Returns-at (worker_turn-Turned s.pool h.holds) e) m k
  WorkerStep-Kept {s} (work {t} m) h k =
      omega (arith, total-Becomes (held f) m, run_by-held t, total-append f (run_by t) s.ran, k)
  WorkerStep-Kept (done m) h k = omega (arith, total-Becomes (held f) m, k)

  -- A section of the caller.
  start_threads-Kept :
      (results : List Bool) (next : Caller) (s : System)
      → Inv s
      → Kept s
      → Kept (start_threads results next s)
  start_threads-Kept results next s h k =
      let n = start_loop results in
      elim (Bool-cases s.pool.running) [
        | inl on ↦ rw (start_threads-on results next s on) k
        | inr off ↦
            let (none_held, held_later) =
              held-launch f n s.workers ((idle s h off).0 ∙ sym h.size) in
            elim (Bool-cases (n == s.pool.num_threads)) [
              | inl all ↦ rw (start_threads-all results next s off all) (omega arith)
              | inr few_on ↦
                  rw (start_threads-some results next s off few_on)
                    (omega (arith, held-broadcast f (launch n s.workers)))
            ]
      ]

  wait_loop-Kept : (s : System) → Inv s → Kept s → Returns Kept (wait_loop s)
  unfolding wait_loop
  wait_loop-Kept s h k = rw (wait_test_lem s.pool h.holds) (returns k)

  wait_started-Kept : (s : System) → Inv s → Kept s → Returns Kept (wait_started s)
  unfolding wait_started
  wait_started-Kept s h k = elim (wait_awake-cases s.caller (wait_loop s) (ok s)) [
    | inl e ↦ rw e (wait_loop-Kept s h k)
    | inr e ↦ rw e (returns k)
  ]

  wait_all-Kept :
      (results : List Bool) (s : System)
      → Inv s
      → s.caller ≡ away
      → length results ≡ s.pool.num_threads
      → Kept s
      → Returns Kept (wait_all results s)
  unfolding wait_all
  wait_all-Kept results s h e l k =
      let live : s.pool.stop ≡ false = rw e at h.phase in
      rw (must_start_lem s.pool h.holds)
        (elim (Bool-cases (not s.pool.running && not (length (queue s.pool) == 0))) [
          | inl must ↦ rw must (
              wait_started-Kept (start_threads results wait_awake s)
                (start_threads-Inv results wait_awake s h live l (λ _ _ _. (refl, refl)))
                (start_threads-Kept results wait_awake s h k))
          | inr skip ↦ rw skip (wait_loop-Kept s h k)
        ])

  emptied-Kept :
      (s : System) (r : List Task × Pool)
      → Kept s
      → Discarded s.pool r
      → Kept (record s { pool = r.1; dropped = r.0 ++ s.dropped })
  emptied-Kept s (freed, p) k d = rw d.after (
      omega (
        arith,
        k,
        ap (queued f) d.none_left,
        total-append f freed s.dropped,
        ap (total f) d.freed,
        total-items f (queue s.pool),
      ))

  join_pool-Kept : (s : System) → Inv s → Kept s → Returns Kept (join_pool s)
  unfolding join_loop
  join_pool-Kept s h k = elim (Bool-cases s.pool.running) [
    | inl on ↦ rw (join_pool-on s on) (returns (omega (arith, k, held-broadcast f s.workers)))
    | inr off ↦
        rw (join_pool-off s off)
          (Returns-bind (discard-Discarded s.pool h.holds) λ r d. returns (emptied-Kept s r k d))
  ]

  join_loop-Kept : {s : System} → Inv s → Kept s → Kept (join_loop s)
  unfolding join_loop
  join_loop-Kept h k = k

  joined-Kept :
      (s : System)
      → Inv s
      → Kept s
      → Returns
          (λ (freed, p). Kept (record s { pool = p; caller = away; dropped = freed ++ s.dropped }))
          (joined s.pool)
  joined-Kept s h k =
      let q : Holds (reaped s.pool) = record {
        valid = h.holds.valid;
        borrows = h.holds.borrows;
        frees = h.holds.frees;
      } in
      Returns-map (discard-Discarded (reaped s.pool) q)
        (λ r d. emptied-Kept (record s { pool = reaped s.pool; caller = away }) r k d)

  added-Kept :
      (s : System) (t : Task) (clone_ok node_ok : Bool) (r : Added) (ws : List Worker)
      → AddedTo s.pool t clone_ok node_ok r
      → Heard r.signals s.workers ws
      → Kept s
      → Kept (record s { pool = r.after; workers = ws; added = entered r t ++ s.added })
  added-Kept s t clone_ok node_ok r ws a m k = elim (Bool-cases r.added) [
    | inl e ↦
        let q = rw e at (ap (queued f) a.queued) in
        rw (a.after, e)
          (omega (arith, k, q, queued-insert f t.priority t (queue s.pool), held-Heard f _ _ _ m))
    | inr e ↦
        let q = rw e at (ap (queued f) a.queued) in
        rw (a.after, e) (omega (arith, k, q, held-Heard f _ _ _ m))
  ]

  Step-Kept : {s t : System} → Step s t → Inv s → Kept s → Kept t
  Step-Kept (worker w) h k = WorkerStep-Kept w h k
  Step-Kept (stirs m) h k = omega (arith, total-Becomes (held f) m, k)
  Step-Kept stirs_caller h k = k
  Step-Kept {s} (add memory t clone_ok node_ok {r} {ws} e m) h k =
      elim (Bool-cases (set_to t.func)) [
        | inl g ↦
            added-Kept s (with_callback s.pool.dflt_callback t) clone_ok node_ok r ws
              (Returns-at (add_task-AddedTo s.pool memory t clone_ok node_ok h.holds g) e) m k
        | inr g ↦ let stops = add_task-unset s.pool memory t clone_ok node_ok granted g in absurd cc
      ]
  Step-Kept set_default h k = k
  Step-Kept {s} (starts results c l) h k = start_threads-Kept results away s h k
  Step-Kept {s} (waits results c l e) h k = Returns-at (wait_all-Kept results s h c l k) e
  Step-Kept {s} (waits_again c e) h k = Returns-at (wait_loop-Kept s h k) e
  Step-Kept {s} (joins c e) h k = Returns-at (join_pool-Kept s h k) e
  Step-Kept (joins_again c) h k = join_loop-Kept h k
  Step-Kept (join_thread c m) h k = omega (arith, total-Becomes (held f) m, k)
  Step-Kept {s} (join_end c e) h k = Returns-at (joined-Kept s h k) e
  Step-Kept (reap_thread c m) h k = omega (arith, total-Becomes (held f) m, k)
  Step-Kept (reap_end c) h k = k

  fresh-Kept : (n : ℕ) → Kept (fresh n)
  fresh-Kept n =
      let (u, l) = total-replicate n in
      omega (arith, (held-launch f 0 (replicate n unstarted) (u ∙ sym l)).0)

  -- No task is lost, and none is run or discarded twice: whatever weight is given to tasks, those
  -- that were queued by ucb_threadpool_add_task weigh as much as those that are in the queue, held
  -- by a worker that is about to run them, run, and discarded.
  pub tasks_accounted :
      {n : ℕ} {s : System}
      → 0 < n
      → n < 2 ^ 64
      → Reach n s
      → total f s.added
        ≡ queued f (queue s.pool) + total (held f) s.workers + total f s.ran + total f s.dropped
  tasks_accounted {n} z g Reach.initial = fresh-Kept n
  tasks_accounted z g (later r e) = Step-Kept e (Reach-Inv z g r) (tasks_accounted z g r)
