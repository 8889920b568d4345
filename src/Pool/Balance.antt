-- ===== src/Pool/Balance.antt =====
-- The invariant of the pool of src/ucb/threads/threadpool.c: how the flags, the counter, the queue
-- and the place of the caller agree with where the workers stand.
use ucb.Common.{ℕ, ◌+◌, ◌^◌, ◌<◌, ◌≡◌, ◌⊎◌, Bool, true, false, List, length}
use ucb.Pool.System.{
  Worker, Caller, away, wait_asleep, wait_awake, join_asleep, join_awake, joining, reaping, System,
  is_asleep, total,
}
use ucb.Pool.Census.{is_unstarted, is_ready, is_exited, is_active}
use ucb.Pool.Sections.{Holds, queue}

-- The workers, counted by where they stand.
pub record Tally : Type 0 where
  pub unstarted : ℕ
  pub ready : ℕ
  pub asleep : ℕ
  pub exited : ℕ
  pub active : ℕ

abbrev pub tally : List Worker → Tally
tally ws = record {
  unstarted = total is_unstarted ws;
  ready = total is_ready ws;
  asleep = total is_asleep ws;
  exited = total is_exited ws;
  active = total is_active ws;
}

-- By `running` and `stop`, for `n` threads and a queue of `q` tasks: nobody was started; all are
-- in the loop, and somebody will see a task that is queued; or nobody will sleep any more.
abbrev pub Mode : Bool → Bool → ℕ → ℕ → Tally → Type 0
Mode false false n q t = t.unstarted ≡ n
Mode false true n q t = ⊥
Mode true false n q t = (t.unstarted ≡ 0) × (t.exited ≡ 0) × ((q ≡ 0) ⊎ (0 < t.ready + t.active))
Mode true true n q t = t.asleep ≡ 0

-- By the place of the caller.
abbrev pub Phase : Caller → Bool → Bool → ℕ → ℕ → Tally → Type 0
Phase away ru st n q t = st ≡ false
Phase wait_asleep ru st n q t = (ru ≡ true) × (st ≡ false) × (0 < t.active + q)
Phase wait_awake ru st n q t = (ru ≡ true) × (st ≡ false)
Phase join_asleep ru st n q t = (ru ≡ true) × (st ≡ true) × (t.unstarted ≡ 0) × (0 < t.active)
Phase join_awake ru st n q t = (ru ≡ true) × (st ≡ true) × (t.unstarted ≡ 0)
Phase (joining i) ru st n q t = (ru ≡ true) × (st ≡ true) × (t.unstarted ≡ i) × (t.active ≡ 0)
Phase (reaping i k) ru st n q t =
    (ru ≡ true) × (st ≡ true) × (t.unstarted + k ≡ n + i) × (t.active ≡ 0)

pub record Inv (s : System) : Type 0 where
  pub holds : Holds s.pool
  pub size : length s.workers ≡ s.pool.num_threads
  pub some_threads : 0 < s.pool.num_threads
  pub few : s.pool.num_threads < 2 ^ 64
  pub count : s.pool.num_running ≡ total is_active s.workers
  pub mode :
      Mode s.pool.running s.pool.stop s.pool.num_threads (length (queue s.pool)) (tally s.workers)
  pub phase :
      Phase s.caller s.pool.running s.pool.stop s.pool.num_threads
        (length (queue s.pool))
        (tally s.workers)

-- One worker has moved: the tallies before and after, for the two places by their counts.
pub record Shift (n : ℕ) (from to t v : Tally) : Type 0 where
  pub unstarted : v.unstarted + from.unstarted ≡ t.unstarted + to.unstarted
  pub ready : v.ready + from.ready ≡ t.ready + to.ready
  pub asleep : v.asleep + from.asleep ≡ t.asleep + to.asleep
  pub exited : v.exited + from.exited ≡ t.exited + to.exited
  pub active : v.active + from.active ≡ t.active + to.active
  pub everyone : t.unstarted + t.ready + t.asleep + t.exited + t.active ≡ n

abbrev no_one : Tally
no_one = record { unstarted = 0; ready = 0; asleep = 0; exited = 0; active = 0 }

abbrev pub at_ready : Tally
at_ready = record no_one { ready = 1 }

abbrev pub at_asleep : Tally
at_asleep = record no_one { asleep = 1 }

abbrev pub at_exited : Tally
at_exited = record no_one { exited = 1 }

abbrev pub at_unstarted : Tally
at_unstarted = record no_one { unstarted = 1 }

abbrev pub at_active : Tally
at_active = record no_one { active = 1 }
