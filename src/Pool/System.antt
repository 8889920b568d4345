-- ===== src/Pool/System.antt =====
-- The pool of src/ucb/threads/threadpool.c as a system: its workers, and one caller that starts it,
-- waits for it and joins it, while any thread adds tasks. A step is one critical section, the run
-- of one task, or the join of one thread; the mutex orders the sections, in any order.
use ucb.Common.{ℕ, zero, suc, ◌≡◌, Option, none, some, List, [], ◌∷◌, ◌+◌}
use ucb.Task.{Task}
use ucb.Pool.{Pool, fresh_pool, Turn, wait, leave, perform}

-- A thread of the pool: not started, about to take the lock (also after a wake-up), waiting on
-- task_notify, outside the lock with a task that is still to run or has run, or returned.
pub data Worker : Type 0 where
  unstarted ready asleep exited : Worker
  holding : Option Task → Worker
  finished : Worker

abbrev pub after_turn : Turn → Worker
after_turn wait = asleep
after_turn leave = exited
after_turn (perform t) = holding t

-- The caller: outside the pool's functions; in ucb_threadpool_wait_all or ucb_threadpool_join,
-- waiting on finished_notify or about to test again; joining the thread of an index, at the end of
-- a join or after a start of `started` workers that was partial.
pub data Caller : Type 0 where
  away wait_asleep wait_awake join_asleep join_awake : Caller
  joining : (i : ℕ) → Caller
  reaping : (i started : ℕ) → Caller

-- `added`, `ran` and `dropped` record the tasks that were queued, run and discarded.
pub record System : Type 0 where
  pub pool : Pool
  pub workers : List Worker
  pub caller : Caller
  pub added : List Task
  pub ran : List Task
  pub dropped : List Task

abbrev pub replicate : ℕ → Worker → List Worker
replicate zero w = []
replicate (suc n) w = w ∷ replicate n w

-- ucb_threadpool_new, where every allocation succeeds.
abbrev pub fresh : ℕ → System
fresh n = record {
  pool = fresh_pool n;
  workers = replicate n unstarted;
  caller = away;
  added = [];
  ran = [];
  dropped = [];
}

-- The worker at the index, `a`, becomes `b`.
pub data Becomes (a b : Worker) : ℕ → List Worker → List Worker → Type 0 where
  here : {ws : List Worker} → Becomes a b 0 (a ∷ ws) (b ∷ ws)
  there :
      {i : ℕ} {w : Worker} {ws vs : List Worker}
      → Becomes a b i ws vs
      → Becomes a b (suc i) (w ∷ ws) (w ∷ vs)

abbrev pub is_asleep : Worker → ℕ
is_asleep asleep = 1
is_asleep _ = 0

abbrev pub total {ℓ} : {A : Type ℓ} → (A → ℕ) → List A → ℕ
total w [] = 0
total w (x ∷ xs) = w x + total w xs

-- ucb_cond_signal on task_notify wakes one thread that waits on it, if there is any.
pub data Signal : List Worker → List Worker → Type 0 where
  wakes : {i : ℕ} {ws vs : List Worker} → Becomes asleep ready i ws vs → Signal ws vs
  unheard : {ws : List Worker} → total is_asleep ws ≡ 0 → Signal ws ws

-- ucb_cond_broadcast wakes them all.
abbrev pub wake : Worker → Worker
wake asleep = ready
wake w = w

abbrev pub broadcast : List Worker → List Worker
broadcast [] = []
broadcast (w ∷ ws) = wake w ∷ broadcast ws

-- ucb_thread_start on the first `k` threads.
abbrev pub launch : ℕ → List Worker → List Worker
launch zero ws = ws
launch (suc k) [] = []
launch (suc k) (w ∷ ws) = ready ∷ launch k ws

-- ucb_cond_signal on finished_notify, on which only the caller waits.
abbrev pub notify : Caller → Caller
notify wait_asleep = wait_awake
notify join_asleep = join_awake
notify c = c

abbrev pub run_by : Option Task → List Task
run_by none = []
run_by (some t) = t ∷ []
