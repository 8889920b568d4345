-- ===== src/Pool.antt =====
-- The thread pool: src/ucb/threads/threadpool.c.
-- Here are the critical sections: what a thread does to the pool between taking `pool->lock` and
-- giving it back or waiting on a condition, every access of the pool being inside one. Pool.System
-- interleaves them. The queue is the priority queue of Pqueue, with no mutex of its own.
-- Whether an allocation or the start of a thread succeeds is an argument.
pub mod System
pub mod Steps
pub mod Sections
pub mod AddTask
pub mod AddFailure
pub mod Census
pub mod Balance
pub mod Shifts
pub mod Preserve
pub mod CallerSteps
pub mod JoinSteps
pub mod Adding
pub mod Reachable
pub mod Progress
pub mod Weights
pub mod Conserve
pub mod Order
pub mod Settled
mod Tests
use ucb.Common.{
  ℕ, zero, suc, ◌+◌, ◌-◌, ◌%◌, ◌^◌, Bool, true, false, not, ◌&&◌, ◌||◌, Option, none, some, List,
  [], ◌∷◌, ltb, ◌==◌, if◌then◌else◌, length,
}
use ucb.Common.Outcome.{Realloc, Outcome, ok, ◌>>=◌, ◌>>◌, verify}
use ucb.Pqueue.{Pqueue, is_some, empty_queue}
use ucb.Pqueue
use ucb.Pqueue.Take
use ucb.Task.{Task, set_to, task_clone}

-- `num_threads` is a size_t, as is `num_running`.
pub record Pool : Type 0 where
  pub tasks : Pqueue Task
  pub num_threads : ℕ
  pub num_running : ℕ
  pub running : Bool
  pub stop : Bool
  pub dflt_callback : Option ℕ

abbrev pub fresh_pool : ℕ → Pool
fresh_pool n = record {
  tasks = empty_queue false none true;
  num_threads = n;
  num_running = 0;
  running = false;
  stop = false;
  dflt_callback = none;
}

-- What a worker does after its first section: wait, return, or run the task it has popped.
pub data Turn : Type 0 where
  wait leave : Turn
  perform : Option Task → Turn

-- From the lock, or a wake-up, to the unlock before the task or the next wait.
unfoldable pub worker_turn : Pool → Outcome (Turn × Pool)
unfolding Take.empty Take.pop
worker_turn p = do
  (is_empty, q) ← Take.empty p.tasks
  if is_empty && not p.stop
      then ok (wait, record p { tasks = q })
      else (if p.stop then ok (leave, record p { tasks = q }) else (do
        (task, q') ← Take.pop q
        ok (perform task, record p { tasks = q'; num_running = (p.num_running + 1) % 2 ^ 64 })))

-- The section after the task: `num_running--`.
abbrev pub worker_done : Pool → Pool
worker_done p = record p { num_running = (p.num_running + 2 ^ 64 - 1) % 2 ^ 64 }

-- `added`: the result of the call. `freed`: the task given back to the allocator. `signals`:
-- task_notify is signalled.
pub record Added : Type 0 where
  pub added : Bool
  pub freed : List Task
  pub signals : Bool
  pub after : Pool

-- The clone, with the default callback where it has none.
abbrev pub with_callback : Option ℕ → Task → Task
with_callback dflt t =
    if not (set_to t.callback) && set_to dflt then record t { callback = dflt } else t

module _ (p : Pool) where
  unfoldable pub add_queued : Task → Bool → Realloc → Outcome Added
  unfolding is_some
  add_queued t node_ok grow = do
    (pos, q, given_back) ← Pqueue.push p.tasks t t.priority node_ok grow
    let success = is_some pos
    ok (record {
      added = success;
      freed = if success then [] else t ∷ [];
      signals = success && p.running;
      after = record p { tasks = q };
    })

  unfoldable pub add_clone : Option Task → Bool → Realloc → Outcome Added
  unfolding add_queued
  add_clone none node_ok grow =
      ok (record { added = false; freed = []; signals = false; after = p })
  add_clone (some t) node_ok grow = add_queued (with_callback p.dflt_callback t) node_ok grow

  -- `memory` is what the clone's memory holds before it is written.
  unfoldable pub add_task : Task → Task → Bool → Bool → Realloc → Outcome Added
  unfolding add_clone task_clone
  add_task memory t clone_ok node_ok grow = do
    verify (set_to t.func)
    add_clone (task_clone clone_ok memory (some t)) node_ok grow

-- The loop over ucb_thread_start, which stops at the first failure.
unfoldable pub start_loop : List Bool → ℕ
start_loop [] = 0
start_loop (true ∷ results) = suc (start_loop results)
start_loop (false ∷ results) = 0

-- `started`: what start_loop gives. `stop` with a broadcast says that some could not start.
abbrev pub start_impl : Pool → ℕ → ℕ × Pool
start_impl p started =
    if p.running
    then (p.num_threads, p)
    else (started, record p { running = true; stop = not (started == p.num_threads) })

-- `while (num_running > 0 || !empty)` in ucb_threadpool_wait_all.
unfoldable pub wait_test : Pool → Outcome (Bool × Pool)
unfolding Take.empty
wait_test p =
    if ltb 0 p.num_running
    then ok (true, p)
    else (do (is_empty, q) ← Take.empty p.tasks; ok (not is_empty, record p { tasks = q }))

-- The test at the start of ucb_threadpool_wait_all: start the pool first.
unfoldable pub must_start : Pool → Outcome (Bool × Pool)
unfolding Take.empty
must_start p =
    if p.running
    then ok (false, p)
    else (do (is_empty, q) ← Take.empty p.tasks; ok (not is_empty, record p { tasks = q }))

-- The last section of ucb_threadpool_reap_partial.
abbrev pub reaped : Pool → Pool
reaped p = record p { running = false; stop = false }

-- ucb_pqueue_clear on the tasks: those that are freed.
unfoldable pub discard : Pool → Outcome (List Task × Pool)
unfolding Take.clear
discard p = do (freed, q) ← Take.clear p.tasks; ok (freed, record p { tasks = q })

-- The last section of ucb_threadpool_join.
abbrev pub joined : Pool → Outcome (List Task × Pool)
joined p = discard (reaped p)

abbrev num_running_of : Pool → ℕ
num_running_of p = p.num_running

unfoldable num_queued : Pool → Outcome (ℕ × Pool)
unfolding Take.size
num_queued p = do (n, q) ← Take.size p.tasks; ok (n, record p { tasks = q })

abbrev pub set_default_callback : Pool → Option ℕ → Pool
set_default_callback p callback = record p { dflt_callback = callback }
