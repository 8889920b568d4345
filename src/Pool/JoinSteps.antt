-- ===== src/Pool/JoinSteps.antt =====
-- The sections of ucb_threadpool_join, and the end of a partial start, of
-- src/ucb/threads/threadpool.c, keep the invariant of Pool.Balance.
use ucb.Common.{ℕ, ◌≡◌, refl, ◌∙◌, inl, inr, Bool, true, false, List, ◌++◌, ltb, arith, Bool-cases}
use ucb.Common.Outcome.{ok, ◌>>=◌, Returns, returns, Returns-map, Returns-bind}
use ucb.Task.{Task}
use ucb.Pool.{Pool, discard, reaped, joined}
use ucb.Pool.System.{away, join_asleep, join_awake, joining, System, broadcast, total}
use ucb.Pool.Steps.{join_loop, join_pool}
use ucb.Pool.Census.{is_unstarted, census-broadcast}
use ucb.Pool.Sections.{Discarded, discard-Discarded}
use ucb.Pool.Balance.{Tally, Mode, Inv}
use ucb.Pool.CallerSteps.{flagged, away-Inv}

-- The test of ucb_threadpool_join, in a pool that is stopped.
pub join_loop-Inv : (s : System) → Inv s → s.caller ≡ join_awake → Inv (join_loop s)
unfolding join_loop
join_loop-Inv s h e =
    let (ru, st, u) = rw e at h.phase in
    elim (Bool-cases (ltb 0 s.pool.num_running)) [
      | inl more ↦ rw more (away-Inv s join_asleep h (ru, st, u, ground (arith, h.count)))
      | inr over ↦ rw over (away-Inv s (joining 0) h (ru, st, u, ground (arith, h.count)))
    ]

stopping :
    (ru st : Bool) (n q : ℕ) (t : Tally)
    → ru ≡ true
    → st ≡ false
    → Mode ru st n q t
    → t.unstarted ≡ 0
stopping false st n q t e f m = absurd (ground arith)
stopping true true n q t e f m = absurd (ground arith)
stopping true false n q t e f m = m.0

Mode-emptied : (ru st : Bool) (n q : ℕ) (t : Tally) → Mode ru st n q t → Mode ru st n 0 t
Mode-emptied false false n q t m = m
Mode-emptied false true n q t m = m
Mode-emptied true false n q t m = (m.0, m.1, inl refl)
Mode-emptied true true n q t m = m

-- A discard of the tasks between two calls.
emptied :
    (s : System) (r : List Task × Pool)
    → Inv s
    → s.caller ≡ away
    → Discarded s.pool r
    → Inv (record s { pool = r.1; dropped = r.0 ++ s.dropped })
emptied s (freed, p) h e d = rw d.after (record {
  holds = rw d.after at d.holds;
  size = h.size;
  some_threads = h.some_threads;
  few = h.few;
  count = h.count;
  mode = rw d.none_left (Mode-emptied _ _ _ _ _ h.mode);
  phase = rw e (rw e at h.phase);
})

pub join_pool-off :
    (s : System)
    → s.pool.running ≡ false
    → join_pool s
      ≡ (discard s.pool >>= λ (freed, p). ok (record s { pool = p; dropped = freed ++ s.dropped }))
unfolding join_pool
join_pool-off s e = rw e refl

pub join_pool-on :
    (s : System)
    → s.pool.running ≡ true
    → join_pool s
      ≡ ok (
          join_loop (record s {
            pool = flagged s.pool true true;
            workers = broadcast s.workers;
            caller = join_awake;
          }))
unfolding join_pool join_loop
join_pool-on s e = rw e refl

-- The stop, and the broadcast.
stopped-Inv :
    (s : System)
    → Inv s
    → s.pool.running ≡ true
    → s.pool.stop ≡ false
    → Inv (record s {
      pool = flagged s.pool true true;
      workers = broadcast s.workers;
      caller = join_awake;
    })
stopped-Inv s h on live =
    let (bu, ba, be, bx, bl) = census-broadcast s.workers in
    let u = stopping _ _ _ _ _ on live h.mode in
    record {
      holds = record { valid = h.holds.valid; borrows = h.holds.borrows; frees = h.holds.frees };
      size = omega (arith, h.size);
      some_threads = h.some_threads;
      few = h.few;
      count = omega (arith, h.count);
      mode = ba;
      phase = (refl, refl, omega arith);
    }

pub join_pool-Inv : (s : System) → Inv s → s.caller ≡ away → Returns Inv (join_pool s)
join_pool-Inv s h e =
    let live : s.pool.stop ≡ false = rw e at h.phase in
    elim (Bool-cases s.pool.running) [
      | inl on ↦ rw (join_pool-on s on) (returns (join_loop-Inv _ (stopped-Inv s h on live) refl))
      | inr off ↦
          rw (join_pool-off s off)
            (Returns-bind (discard-Discarded s.pool h.holds) λ r d. returns (emptied s r h e d))
    ]

-- The last section of a join or of a partial start: every thread has been joined.
pub reaped-Inv :
    (s : System)
    → Inv s
    → total is_unstarted s.workers ≡ s.pool.num_threads
    → Inv (record s { pool = reaped s.pool; caller = away })
reaped-Inv s h u = record {
  holds = record { valid = h.holds.valid; borrows = h.holds.borrows; frees = h.holds.frees };
  size = h.size;
  some_threads = h.some_threads;
  few = h.few;
  count = h.count;
  mode = u;
  phase = refl;
}

pub joined-Inv :
    (s : System) (i : ℕ)
    → Inv s
    → s.caller ≡ joining i
    → i ≡ s.pool.num_threads
    → Returns
        (λ (freed, p). Inv (record s { pool = p; caller = away; dropped = freed ++ s.dropped }))
        (joined s.pool)
joined-Inv s i h e all =
    let (ru, st, u, x) = rw e at h.phase in
    let k = reaped-Inv s h (u ∙ all) in
    Returns-map (discard-Discarded (reaped s.pool) k.holds)
      (λ r d. emptied (record s { pool = reaped s.pool; caller = away }) r k refl d)
