-- ===== src/Pool/Steps.antt =====
-- The steps of the pool of src/ucb/threads/threadpool.c, and the states they lead to.
use ucb.Common.{
  ℕ, suc, ◌≡◌, Bool, true, false, List, [], ◌∷◌, ◌++◌, ltb, ◌==◌, if◌then◌else◌, length,
}
use ucb.Common.Outcome.{granted, Outcome, ok, ◌>>=◌}
use ucb.Task.{Task}
use ucb.Pool.{
  Pool, Turn, worker_turn, worker_done, Added, add_task, with_callback, set_default_callback,
  start_impl, start_loop, wait_test, must_start, reaped, joined, discard,
}
use ucb.Pool.System.{
  Worker, unstarted, ready, asleep, exited, holding, finished, after_turn, Caller, away,
  wait_asleep, wait_awake, join_asleep, join_awake, joining, reaping, System, fresh, Becomes,
  Signal, broadcast, launch, notify, run_by,
}

-- The steps of ucb_threadpool_worker.
pub data WorkerStep (s : System) : System → Type 0 where
  turn :
      {t : Turn} {p : Pool} {i : ℕ} {ws : List Worker}
      → worker_turn s.pool ≡ ok (t, p)
      → Becomes ready (after_turn t) i s.workers ws
      → WorkerStep s (record s { pool = p; workers = ws })
  work :
      {t : _} {i : ℕ} {ws : List Worker}
      → Becomes (holding t) finished i s.workers ws
      → WorkerStep s (record s { workers = ws; ran = run_by t ++ s.ran })
  done :
      {i : ℕ} {ws : List Worker}
      → Becomes finished ready i s.workers ws
      → WorkerStep s
          (record s { pool = worker_done s.pool; workers = ws; caller = notify s.caller })

-- The starts of the threads in a section of the caller, which goes on with `next` if all succeed.
unfoldable pub start_threads : List Bool → Caller → System → System
start_threads results next s =
    let k = start_loop results in
    let (n, p) = start_impl s.pool k in
    let ws = if s.pool.running then s.workers else launch k s.workers in
    if n == s.pool.num_threads
    then record s { pool = p; workers = ws; caller = next }
    else record s { pool = p; workers = broadcast ws; caller = reaping 0 n }

-- The loop of ucb_threadpool_wait_all up to a wait or the end.
unfoldable pub wait_loop : System → Outcome System
wait_loop s = do
  (more, p) ← wait_test s.pool
  ok (record s { pool = p; caller = if more then wait_asleep else away })

-- After the start, `wait_awake` says that every thread was started.
unfoldable pub wait_started : System → Outcome System
unfolding wait_loop
wait_started s = elim s.caller [ wait_awake ↦ wait_loop s | _ ↦ ok s ]

unfoldable pub wait_all : List Bool → System → Outcome System
unfolding start_threads wait_started
wait_all results s = do
  (must, p) ← must_start s.pool
  if must
      then wait_started (start_threads results wait_awake (record s { pool = p }))
      else wait_loop (record s { pool = p })

-- The loop of ucb_threadpool_join up to a wait or the first ucb_thread_join.
unfoldable pub join_loop : System → System
join_loop s = record s { caller = if ltb 0 s.pool.num_running then join_asleep else joining 0 }

unfoldable pub join_pool : System → Outcome System
unfolding join_loop
join_pool s =
    if s.pool.running
    then ok (
        join_loop
          (record s { pool = record s.pool { stop = true }; workers = broadcast s.workers }))
    else (do (freed, p) ← discard s.pool; ok (record s { pool = p; dropped = freed ++ s.dropped }))

-- What ucb_threadpool_add_task leaves: the workers it may have woken, and the task, if queued.
abbrev pub Heard : Bool → List Worker → List Worker → Type 0
Heard true ws vs = Signal ws vs
Heard false ws vs = ws ≡ vs

abbrev pub entered : Added → Task → List Task
entered r t = if r.added then t ∷ [] else []

pub data Step (s : System) : System → Type 0 where
  worker : {t : System} → WorkerStep s t → Step s t
  -- A wake-up that no signal caused.
  stirs :
      {i : ℕ} {ws : List Worker}
      → Becomes asleep ready i s.workers ws
      → Step s (record s { workers = ws })
  stirs_caller : Step s (record s { caller = notify s.caller })
  -- By any thread. The memory for a larger array of the queue suffices.
  add :
      (memory t : Task) (clone_ok node_ok : Bool) {r : Added} {ws : List Worker}
      → add_task s.pool memory t clone_ok node_ok granted ≡ ok r
      → Heard r.signals s.workers ws
      → Step s (record s {
        pool = r.after;
        workers = ws;
        added = entered r (with_callback s.pool.dflt_callback t) ++ s.added;
      })
  set_default : {c : _} → Step s (record s { pool = set_default_callback s.pool c })
  -- ucb_threadpool_start, with the result of ucb_thread_start for each thread.
  starts :
      (results : List Bool)
      → s.caller ≡ away
      → length results ≡ s.pool.num_threads
      → Step s (start_threads results away s)
  waits :
      (results : List Bool) {t : System}
      → s.caller ≡ away
      → length results ≡ s.pool.num_threads
      → wait_all results s ≡ ok t
      → Step s t
  waits_again : {t : System} → s.caller ≡ wait_awake → wait_loop s ≡ ok t → Step s t
  joins : {t : System} → s.caller ≡ away → join_pool s ≡ ok t → Step s t
  joins_again : s.caller ≡ join_awake → Step s (join_loop s)
  -- ucb_thread_join returns when the thread has.
  join_thread :
      {i : ℕ} {ws : List Worker}
      → s.caller ≡ joining i
      → Becomes exited unstarted i s.workers ws
      → Step s (record s { workers = ws; caller = joining (suc i) })
  join_end :
      {freed : List Task} {p : Pool}
      → s.caller ≡ joining s.pool.num_threads
      → joined s.pool ≡ ok (freed, p)
      → Step s (record s { pool = p; caller = away; dropped = freed ++ s.dropped })
  reap_thread :
      {i k : ℕ} {ws : List Worker}
      → s.caller ≡ reaping i k
      → Becomes exited unstarted i s.workers ws
      → Step s (record s { workers = ws; caller = reaping (suc i) k })
  reap_end :
      {k : ℕ} → s.caller ≡ reaping k k → Step s (record s { pool = reaped s.pool; caller = away })

-- The states of a pool of `n` threads.
pub data Reach (n : ℕ) : System → Type 0 where
  initial : Reach n (fresh n)
  later : {s t : System} → Reach n s → Step s t → Reach n t
