-- ===== src/Pool/Tests.antt =====
-- Runs of the pool of src/ucb/threads/threadpool.c, and its theorems at concrete inputs.
use ucb.Common.{
  ℕ, zero, suc, ◌+◌, ◌^◌, ◌≤◌, ◌≡◌, refl, ◌⊎◌, true, false, none, some, List, [], ◌∷◌, arith,
}
use ucb.Common.Outcome.{granted, ok, Returns}
use ucb.Pqueue.{
  Pqueue, Bucket, lock, unlock, search_loop, search_bucket, access, append_at, insert_at,
  num_items_at, ins_pos_loop, ins_pos, pushed, push_bucket, place, push_node, give_back, push_data,
  push_clone, push_with, push, is_some, empty_queue,
}
use ucb.Task.{Task, task_clone}
use ucb.Pqueue.Take
use ucb.Pqueue.Clear.{items}
use ucb.Pool.{
  Pool, fresh_pool, add_task, add_queued, add_clone, leave, perform, joined, worker_turn,
  start_loop, wait_test, must_start,
}
use ucb.Pool.System.{
  unstarted, ready, holding, finished, away, wait_asleep, wait_awake, joining, System, fresh, total,
  here, there,
}
use ucb.Pool.Steps.{
  WorkerStep, turn, work, done, start_threads, wait_loop, wait_all, worker, add, starts, waits,
  joins, join_thread, join_pool, join_loop, Reach, later,
}
use ucb.Pool.Census.{is_unstarted, is_active}
use ucb.Pool.Sections.{Holds, queue}
use ucb.Pool.AddTask.{AddedTo, add_task-AddedTo}
use ucb.Pool.Weights.{held, queued}
use ucb.Pool.Conserve.{tasks_accounted}
use ucb.Pool.Progress.{stay, move, work_left, Run-bounded, Rests, moves_or_Rests}
use ucb.Pool.Settled.{Waits, woken, num_running_counts, wait_all_done, join_done}

abbrev urgent : Task
urgent = record { func = some 1; arg = 7; callback = none; priority = 2 ^ 31 + 5 }

abbrev one_queued : Pqueue Task
one_queued = record (empty_queue false none true) {
  buckets = record { priority = 2 ^ 31 + 5; items = urgent ∷ []; num_items = 1 } ∷ [];
}

add_first :
    add_task (fresh_pool 2) urgent urgent true true granted
    ≡ ok (record {
      added = true;
      freed = [];
      signals = false;
      after = record (fresh_pool 2) { tasks = one_queued };
    })
unfolding add_task add_queued add_clone task_clone lock unlock search_loop search_bucket access
    append_at insert_at num_items_at ins_pos_loop ins_pos pushed push_bucket place push_node
    give_back push_data push_clone push_with push is_some
add_first = refl

-- A pool of two threads: a task is added, the pool started, the task taken; the caller waits, and
-- the task is run.
abbrev queued_state : System
queued_state = record (fresh 2) {
  pool = record (fresh_pool 2) { tasks = one_queued };
  added = urgent ∷ [];
}

abbrev started_state : System
started_state = record queued_state {
  pool = record queued_state.pool { running = true };
  workers = ready ∷ ready ∷ [];
}

abbrev busy_state : System
busy_state = record started_state {
  pool = record started_state.pool { tasks = empty_queue false none true; num_running = 1 };
  workers = ready ∷ holding (some urgent) ∷ [];
}

abbrev waiting_state : System
waiting_state = record busy_state { caller = wait_asleep }

abbrev run_state : System
run_state = record waiting_state { workers = ready ∷ finished ∷ []; ran = urgent ∷ [] }

abbrev awake_state : System
awake_state = record run_state {
  pool = record run_state.pool { num_running = 0 };
  workers = ready ∷ ready ∷ [];
  caller = wait_awake;
}

abbrev over_state : System
over_state = record awake_state { caller = away }

started_reached : Reach 2 started_state
unfolding start_threads start_loop
started_reached =
    later (later Reach.initial (add urgent urgent true true add_first refl))
      (starts (true ∷ true ∷ []) refl refl)

takes : worker_turn started_state.pool ≡ ok (perform (some urgent), busy_state.pool)
unfolding worker_turn Take.empty Take.pop Take.pop_buckets Take.pop_head lock unlock access
takes = refl

take_step : WorkerStep started_state busy_state
take_step = turn takes (there here)

busy_reached : Reach 2 busy_state
busy_reached = later started_reached (worker take_step)

waiting_reached : Reach 2 waiting_state
unfolding wait_all must_start wait_loop wait_test
waiting_reached = later busy_reached (waits (true ∷ true ∷ []) refl refl refl)

awake_reached : Reach 2 awake_state
awake_reached =
    later (later waiting_reached (worker (work (there here)))) (worker (done (there here)))

over-Waits : Waits awake_state over_state
unfolding wait_loop wait_test Take.empty lock unlock
over-Waits = woken refl refl

tasks_accounted_example :
    total (λ t. t.arg) busy_state.added
    ≡ queued (λ t. t.arg) (queue busy_state.pool)
      + total (held (λ t. t.arg)) busy_state.workers
      + total (λ t. t.arg) busy_state.ran
      + total (λ t. t.arg) busy_state.dropped
tasks_accounted_example = tasks_accounted (λ t. t.arg) (omega arith) (omega arith) busy_reached

wait_all_done_example :
    (over_state.pool.num_running ≡ 0)
    × (queue over_state.pool ≡ [])
    × (total (λ t. t.arg) over_state.added
        ≡ total (λ t. t.arg) over_state.ran + total (λ t. t.arg) over_state.dropped)
wait_all_done_example =
    wait_all_done (λ t. t.arg) (omega arith) (omega arith) awake_reached over-Waits refl

num_running_counts_example :
    (busy_state.pool.num_running ≡ total is_active busy_state.workers)
    × (busy_state.pool.num_running ≤ busy_state.pool.num_threads)
num_running_counts_example = num_running_counts (omega arith) (omega arith) busy_reached

Run-bounded_example : 1 + work_left busy_state ≤ work_left started_state
Run-bounded_example = Run-bounded (omega arith) (omega arith) started_reached (move take_step stay)

moves_or_Rests_example : ((t : System) × WorkerStep busy_state t) ⊎ Rests busy_state
moves_or_Rests_example = moves_or_Rests (omega arith) (omega arith) busy_reached refl

-- A join before any worker has taken the task.
abbrev stopping_state : System
stopping_state = record started_state {
  pool = record started_state.pool { stop = true };
  caller = joining 0;
}

abbrev joined_state : System
joined_state = record stopping_state { workers = unstarted ∷ unstarted ∷ []; caller = joining 2 }

leaves : worker_turn stopping_state.pool ≡ ok (leave, stopping_state.pool)
unfolding worker_turn Take.empty lock unlock
leaves = refl

stopping_reached : Reach 2 stopping_state
unfolding join_pool join_loop
stopping_reached = later started_reached (joins refl refl)

joined_reached : Reach 2 joined_state
joined_reached =
    later
      (later
        (later (later stopping_reached (worker (turn leaves here)))
          (worker (turn leaves (there here))))
        (join_thread refl here))
      (join_thread refl (there here))

join_done_example :
    Returns
      (λ (freed, p).
        (freed ≡ items (queue joined_state.pool))
        × (queue p ≡ [])
        × (p.num_running ≡ 0)
        × (p.running ≡ false)
        × (p.stop ≡ false)
        × (total is_unstarted joined_state.workers ≡ p.num_threads))
      (joined joined_state.pool)
join_done_example = join_done (omega arith) (omega arith) joined_reached refl

started_Holds : Holds started_state.pool
unfolding is_some
started_Holds = record {
  valid = record {
    descending = (tt, tt);
    counted = (refl, omega arith, tt);
    room = omega arith;
    initial = omega arith;
    live = refl;
    owned = refl;
    unlocked = cc;
  };
  borrows = refl;
  frees = refl;
}

add_task-AddedTo_example :
    Returns
      (AddedTo started_state.pool urgent true false)
      (add_task started_state.pool urgent urgent true false granted)
add_task-AddedTo_example =
    add_task-AddedTo started_state.pool urgent urgent true false started_Holds refl

-- Sixteen tasks of priorities that no other has.
abbrev countdown : ℕ → List (Bucket Task)
countdown zero = []
countdown (suc n) =
    record { priority = n; items = record urgent { priority = n } ∷ []; num_items = 1 }
    ∷ countdown n

abbrev full_pool : Pool
full_pool = record started_state.pool { tasks = record one_queued { buckets = countdown 16 } }

full_Holds : Holds full_pool
unfolding is_some
full_Holds = record {
  valid = record {
    descending = omega arith;
    counted = omega arith;
    room = omega arith;
    initial = omega arith;
    live = refl;
    owned = refl;
    unlocked = cc;
  };
  borrows = refl;
  frees = refl;
}
