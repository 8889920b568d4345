-- ===== src/Pool/Progress.antt =====
-- The workers of src/ucb/threads/threadpool.c get their work done: how many steps they can make, and
-- what is left when none can be made.
use ucb.Common.{
  ℕ, suc, ◌+◌, ◌*◌, ◌^◌, ◌≤◌, ◌<◌, ◌≡◌, refl, ap, ◌⊎◌, inl, inr, Bool, true, false, none, some,
  List, [], ◌∷◌, length, arith, Bool-cases, ltb, ◌≢◌,
}
use ucb.Common.Outcome.{Returns-at, Returns-inv}
use ucb.Pool.{Pool, Turn, wait, leave, perform}
use ucb.Pool.System.{
  Worker, unstarted, ready, asleep, exited, holding, finished, after_turn, wait_asleep, join_asleep,
  System, Becomes, here, there, total,
}
use ucb.Pool.Steps.{WorkerStep, turn, work, done, Reach}
use ucb.Pool.Census.{is_unstarted, is_ready, is_exited, is_active, total-Becomes, everyone}
use ucb.Pool.Sections.{queue, nil-length, Turned, worker_turn-Turned}
use ucb.Pool.Balance.{tally, Mode, Inv}
use ucb.Pool.Preserve.{WorkerStep-Inv}
use ucb.Pool.Reachable.{Reach-Inv}

-- The sections and runs that a worker has before it, and three for every task in the queue.
abbrev effort : Worker → ℕ
effort ready = 1
effort (holding t) = 3
effort finished = 2
effort _ = 0

abbrev pub work_left : System → ℕ
work_left s = 3 * length (queue s.pool) + total effort s.workers

Turned-less :
    (s : System) (t : Turn) (p : Pool) {i : ℕ} {ws : List Worker}
    → Turned s.pool (t, p)
    → Becomes ready (after_turn t) i s.workers ws
    → 3 * length (queue p) + total effort ws < work_left s
Turned-less s wait p (same, live, none_left) m = rw same (omega (arith, total-Becomes effort m))
Turned-less s leave p (same, stops) m = rw same (omega (arith, total-Becomes effort m))
Turned-less s (perform none) p e m = absurd e
Turned-less s (perform (some t)) p (prio, tasks, same, first, live, holds) m =
    rw same (omega (arith, total-Becomes effort m, ap length first))

step-less : {s t : System} → Inv s → WorkerStep s t → work_left t < work_left s
step-less {s} h (turn {t} {p} e m) =
    Turned-less s t p (Returns-at (worker_turn-Turned s.pool h.holds) e) m
step-less h (work m) = omega (arith, total-Becomes effort m)
step-less h (done m) = omega (arith, total-Becomes effort m)

-- `k` steps of workers, one after the other.
pub data Run : ℕ → System → System → Type 0 where
  stay : {s : System} → Run 0 s s
  move : {k : ℕ} {s t u : System} → WorkerStep s t → Run k t u → Run (suc k) s u

Run-less : {k : ℕ} {s t : System} → Inv s → Run k s t → k + work_left t ≤ work_left s
Run-less h stay = omega arith
Run-less h (move w r) = omega (arith, step-less h w, Run-less (WorkerStep-Inv w h) r)

-- Where no task is added and no worker wakes without a signal, the workers make at most as many
-- steps as there is work left, in whatever order they move.
pub Run-bounded :
    {n k : ℕ} {s t : System}
    → 0 < n
    → n < 2 ^ 64
    → Reach n s
    → Run k s t
    → k + work_left t ≤ work_left s
Run-bounded z f r = Run-less (Reach-Inv z f r)

-- A worker that can move, where one is ready or has a task: its place, and what it may become.
record Mover (ws : List Worker) : Type 0 where
  at : Worker
  moving : 0 < is_ready at + is_active at
  index : ℕ
  becomes : (b : Worker) → (vs : List Worker) × Becomes at b index ws vs

find-Mover : (ws : List Worker) → 0 < total is_ready ws + total is_active ws → Mover ws
find-Mover [] h = absurd (omega arith)
find-Mover (w ∷ ws) h = elim (Bool-cases (ltb 0 (is_ready w + is_active w))) [
  | inl e ↦ record { at = w; moving = ground arith; index = 0; becomes = λ b. (_, here) }
  | inr e ↦
      let m = find-Mover ws (ground arith) in
      record {
        at = m.at;
        moving = m.moving;
        index = suc m.index;
        becomes = λ b. (w ∷ (m.becomes b).0, there (m.becomes b).1);
      }
]

move_at :
    {s : System}
    → Inv s
    → (w : Worker) (i : ℕ) → 0 < is_ready w + is_active w
    → ((b : Worker) → (vs : List Worker) × Becomes w b i s.workers vs)
    → (t : System) × WorkerStep s t
move_at h unstarted i m k = absurd (omega arith)
move_at {s} h ready i m k =
    let ((t, p), e, turned) = Returns-inv (worker_turn-Turned s.pool h.holds) in
    (_, turn e (k (after_turn t)).1)
move_at h asleep i m k = absurd (omega arith)
move_at h exited i m k = absurd (omega arith)
move_at h (holding t) i m k = (_, work (k finished).1)
move_at h finished i m k = (_, done (k ready).1)

-- What the workers leave behind when none can move: no task in the queue; or, after a stop, every
-- thread returned or never started.
abbrev Left : Bool → System → Type 0
Left false s = queue s.pool ≡ []
Left true s = total is_unstarted s.workers + total is_exited s.workers ≡ s.pool.num_threads

-- No task runs, and the caller does not wait.
pub record Rests (s : System) : Type 0 where
  pub none_running : s.pool.num_running ≡ 0
  pub left : Left s.pool.stop s
  pub not_waiting : s.caller ≢ wait_asleep
  pub not_joining : s.caller ≢ join_asleep

Mode-Left :
    (s : System) (ru st : Bool) (n : ℕ)
    → n ≡ s.pool.num_threads
    → ru ≡ true
    → length s.workers ≡ n
    → total is_ready s.workers + total is_active s.workers ≡ 0
    → Mode ru st n (length (queue s.pool)) (tally s.workers)
    → Left st s
Mode-Left s false st n l e f r m = absurd (ground arith)
Mode-Left s true false n l e f r (u, x, m) = nil-length (queue s.pool) (ground arith)
Mode-Left s true true n l e f r m = let sum = everyone s.workers in omega arith

Rests-still :
    {s : System}
    → Inv s
    → s.pool.running ≡ true
    → total is_ready s.workers + total is_active s.workers ≡ 0
    → Rests s
Rests-still {s} h on still = record {
  none_running = omega (arith, h.count);
  left = Mode-Left s _ _ _ refl on h.size still h.mode;
  not_waiting = λ e.
      let (ru, st, more) = rw e at h.phase in
      let empty : queue s.pool ≡ [] = rw st at (Mode-Left s _ _ _ refl on h.size still h.mode) in
      absurd (omega (arith, ap length empty));
  not_joining = λ e. let (ru, st, u, more) = rw e at h.phase in absurd (omega arith);
}

-- In a pool that runs a worker can move, or the work is done: no task runs, none is queued (after
-- a stop, every thread has returned instead), and the caller is not left waiting.
pub moves_or_Rests :
    {n : ℕ} {s : System}
    → 0 < n
    → n < 2 ^ 64
    → Reach n s
    → s.pool.running ≡ true
    → ((t : System) × WorkerStep s t) ⊎ Rests s
moves_or_Rests {s = s} z f r on =
    let h = Reach-Inv z f r in
    elim (Bool-cases (ltb 0 (total is_ready s.workers + total is_active s.workers))) [
      | inl e ↦
          let m = find-Mover s.workers (ground arith) in
          inl (move_at h m.at m.index m.moving m.becomes)
      | inr e ↦ inr (Rests-still h on (ground arith))
    ]
