-- ===== src/Pool/Settled.antt =====
-- What ucb_threadpool_wait_all and ucb_threadpool_join of src/ucb/threads/threadpool.c promise when
-- they return, and what `num_running` counts.
use ucb.Common.{
  ℕ, ◌+◌, ◌^◌, ◌≤◌, ◌<◌, ◌≡◌, ◌≢◌, refl, sym, ap, ◌∙◌, inl, inr, Bool, false, not, ◌&&◌, ◌||◌, List,
  [], ◌∷◌, length, arith, Bool-cases, ltb, ◌==◌,
}
use ucb.Common.Outcome.{ok, Returns, returns, Returns-at, Returns-map}
use ucb.Pqueue.Clear.{items}
use ucb.Task.{Task}
use ucb.Pool.{start_loop, joined, reaped}
use ucb.Pool.System.{
  Worker, unstarted, ready, asleep, exited, holding, finished, away, wait_awake, joining, System,
  total,
}
use ucb.Pool.Steps.{
  start_threads, wait_loop, wait_started, wait_all, Reach, later, waits, waits_again,
}
use ucb.Pool.Census.{is_unstarted, is_active, everyone}
use ucb.Pool.Sections.{Holds, queue, nil-length, wait_test_lem, must_start_lem, discard-Discarded}
use ucb.Pool.Balance.{Inv}
use ucb.Pool.CallerSteps.{
  start_threads-on, start_threads-all, start_threads-some, wait_awake-cases, start_threads-Inv,
}
use ucb.Pool.Reachable.{Reach-Inv}
use ucb.Pool.Weights.{held, queued}
use ucb.Pool.Conserve.{tasks_accounted}

-- `num_running` is the number of workers between taking a task and the section after it, which is
-- at most the number of threads: it never wraps.
pub num_running_counts :
    {n : ℕ} {s : System}
    → 0 < n
    → n < 2 ^ 64
    → Reach n s
    → (s.pool.num_running ≡ total is_active s.workers) × (s.pool.num_running ≤ s.pool.num_threads)
num_running_counts {s = s} z f r =
    let h = Reach-Inv z f r in
    let sum = everyone s.workers in (h.count, omega (arith, h.count, h.size))

-- Nothing runs and nothing is queued.
abbrev Drained : System → Type 0
Drained t = (t.pool.num_running ≡ 0) × (queue t.pool ≡ [])

wait_loop-Drained : (s : System) → Inv s → Returns (λ t. t.caller ≡ away → Drained t) (wait_loop s)
unfolding wait_loop
wait_loop-Drained s h =
    rw (wait_test_lem s.pool h.holds)
      (elim (Bool-cases (ltb 0 s.pool.num_running || not (length (queue s.pool) == 0))) [
        | inl more ↦ rw more (returns (λ e. absurd cc))
        | inr over ↦
            rw over (returns (λ e. (ground arith, nil-length (queue s.pool) (ground arith))))
      ])

start_threads-waits :
    (results : List Bool) (s : System) → (start_threads results wait_awake s).caller ≢ away
start_threads-waits results s = elim (Bool-cases s.pool.running) [
  | inl on ↦ rw (start_threads-on results wait_awake s on) (λ e. absurd cc)
  | inr off ↦ elim (Bool-cases (start_loop results == s.pool.num_threads)) [
    | inl all ↦ rw (start_threads-all results wait_awake s off all) (λ e. absurd cc)
    | inr few_on ↦ rw (start_threads-some results wait_awake s off few_on) (λ e. absurd cc)
  ]
]

wait_started-Drained :
    (s : System)
    → Inv s
    → s.caller ≢ away
    → Returns (λ t. t.caller ≡ away → Drained t) (wait_started s)
unfolding wait_started
wait_started-Drained s h c = elim (wait_awake-cases s.caller (wait_loop s) (ok s)) [
  | inl e ↦ rw e (wait_loop-Drained s h)
  | inr e ↦ rw e (returns (λ d. absurd (c d)))
]

wait_all-Drained :
    (results : List Bool) (s : System)
    → Inv s
    → s.caller ≡ away
    → length results ≡ s.pool.num_threads
    → Returns (λ t. t.caller ≡ away → Drained t) (wait_all results s)
unfolding wait_all
wait_all-Drained results s h e l =
    let live : s.pool.stop ≡ false = rw e at h.phase in
    rw (must_start_lem s.pool h.holds)
      (elim (Bool-cases (not s.pool.running && not (length (queue s.pool) == 0))) [
        | inl must ↦ rw must (
            wait_started-Drained (start_threads results wait_awake s)
              (start_threads-Inv results wait_awake s h live l (λ _ _ _. (refl, refl)))
              (start_threads-waits results s))
        | inr skip ↦ rw skip (wait_loop-Drained s h)
      ])

-- A section of ucb_threadpool_wait_all, by a call or after a wake-up.
pub data Waits (s t : System) : Type 0 where
  called :
      (results : List Bool)
      → s.caller ≡ away
      → length results ≡ s.pool.num_threads
      → wait_all results s ≡ ok t
      → Waits s t
  woken : s.caller ≡ wait_awake → wait_loop s ≡ ok t → Waits s t

Waits-Drained : {s t : System} → Inv s → Waits s t → t.caller ≡ away → Drained t
Waits-Drained {s} h (called results c l e) = Returns-at (wait_all-Drained results s h c l) e
Waits-Drained {s} h (woken c e) = Returns-at (wait_loop-Drained s h) e

Waits-Reach : {n : ℕ} {s t : System} → Reach n s → Waits s t → Reach n t
Waits-Reach r (called results c l e) = later r (waits results c l e)
Waits-Reach r (woken c e) = later r (waits_again c e)

-- Workers that are not active hold no task.
held-inactive : (f : Task → ℕ) (ws : List Worker) → total is_active ws ≡ 0 → total (held f) ws ≡ 0
held-inactive f [] e = refl
held-inactive f (unstarted ∷ ws) e = omega (arith, held-inactive f ws (omega arith))
held-inactive f (ready ∷ ws) e = omega (arith, held-inactive f ws (omega arith))
held-inactive f (asleep ∷ ws) e = omega (arith, held-inactive f ws (omega arith))
held-inactive f (exited ∷ ws) e = omega (arith, held-inactive f ws (omega arith))
held-inactive f (holding t ∷ ws) e = absurd (omega arith)
held-inactive f (finished ∷ ws) e = absurd (omega arith)

-- When ucb_threadpool_wait_all returns from its loop, no task runs and none is queued; every task
-- that was ever queued has been run, once, or was discarded by a join. The loop is not reached where
-- the pool has to be started and a thread cannot be: then the call gives up, with the tasks queued.
pub wait_all_done :
    (f : Task → ℕ) {n : ℕ} {s t : System}
    → 0 < n
    → n < 2 ^ 64
    → Reach n s
    → Waits s t
    → t.caller ≡ away
    → (t.pool.num_running ≡ 0)
      × (queue t.pool ≡ [])
      × (total f t.added ≡ total f t.ran + total f t.dropped)
wait_all_done f {s = s} {t} z g r w c =
    let (idle, empty) = Waits-Drained (Reach-Inv z g r) w c in
    let after = Waits-Reach r w in
    let h = Reach-Inv z g after in
    (
      idle,
      empty,
      omega (
        arith,
        tasks_accounted f z g after,
        held-inactive f t.workers (sym h.count ∙ idle),
        ap (queued f) empty,
      ),
    )

-- When ucb_threadpool_join has joined every thread, its last section returns: no task runs, exactly
-- the tasks that were still queued are discarded, and the pool can be started again.
pub join_done :
    {n : ℕ} {s : System}
    → 0 < n
    → n < 2 ^ 64
    → Reach n s
    → s.caller ≡ joining s.pool.num_threads
    → Returns
        (λ (freed, p).
          (freed ≡ items (queue s.pool))
          × (queue p ≡ [])
          × (p.num_running ≡ 0)
          × (p.running ≡ false)
          × (p.stop ≡ false)
          × (total is_unstarted s.workers ≡ p.num_threads))
        (joined s.pool)
join_done {s = s} z g r c =
    let h = Reach-Inv z g r in
    let (on, st, u, x) = rw c at h.phase in
    let q : Holds (reaped s.pool) = record {
      valid = h.holds.valid;
      borrows = h.holds.borrows;
      frees = h.holds.frees;
    } in
    Returns-map (discard-Discarded (reaped s.pool) q)
      λ (freed, p) d. rw d.after (d.freed, d.none_left, h.count ∙ x, refl, refl, u)
