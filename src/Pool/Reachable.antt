-- ===== src/Pool/Reachable.antt =====
-- The invariant of Pool.Balance in every state that the pool of src/ucb/threads/threadpool.c
-- reaches.
use ucb.Common.{ℕ, suc, ◌^◌, ◌<◌, ◌≡◌, refl, true, List, length, arith}
use ucb.Common.Outcome.{Returns-at}
use ucb.Pqueue.{is_some}
use ucb.Pool.System.{
  Worker, unstarted, ready, asleep, exited, away, joining, reaping, System, fresh, Becomes,
  replicate, Caller,
}
use ucb.Pool.Steps.{
  Step, worker, stirs, stirs_caller, add, set_default, starts, waits, waits_again, joins,
  joins_again, join_thread, join_end, reap_thread, reap_end, Reach, later,
}
use ucb.Pool.Census.{census, total-replicate, everyone}
use ucb.Pool.Sections.{queue}
use ucb.Pool.Adding.{add_task-Inv}
use ucb.Pool.Balance.{tally, Phase, Inv}
use ucb.Pool.Shifts.{Mode-stir, Mode-joined, Phase-same, Phase-stir_caller}
use ucb.Pool.Preserve.{shift, WorkerStep-Inv}
use ucb.Pool.CallerSteps.{start_threads-Inv, wait_loop-Inv, wait_all-Inv, away-Inv}
use ucb.Pool.JoinSteps.{join_loop-Inv, join_pool-Inv, reaped-Inv, joined-Inv}

-- A wake-up that no signal caused.
stirs-Inv :
    {s : System} {i : ℕ} {ws : List Worker}
    → Becomes asleep ready i s.workers ws
    → Inv s
    → Inv (record s { workers = ws })
stirs-Inv {s} m h =
    let d = shift h.size m in
    record {
      holds = h.holds;
      size = omega (arith, (census m).5, h.size);
      some_threads = h.some_threads;
      few = h.few;
      count = omega (arith, h.count, d.active);
      mode = Mode-stir _ _ _ d h.mode;
      phase =
          Phase-same _ _ _ s.caller _ _ _ (omega (arith, d.unstarted)) (omega (arith, d.active))
            h.phase;
    }

-- A thread that has returned is joined, and the caller goes on to the next one.
thread-Inv :
    {s : System} {i : ℕ} {ws : List Worker} (c : Caller)
    → Becomes exited unstarted i s.workers ws
    → Inv s
    → s.pool.stop ≡ true
    → Phase c s.pool.running s.pool.stop s.pool.num_threads (length (queue s.pool)) (tally ws)
    → Inv (record s { workers = ws; caller = c })
thread-Inv c m h st p =
    let d = shift h.size m in
    record {
      holds = h.holds;
      size = omega (arith, (census m).5, h.size);
      some_threads = h.some_threads;
      few = h.few;
      count = omega (arith, h.count, d.active);
      mode = Mode-joined _ _ _ st d h.mode;
      phase = p;
    }

fresh-Inv : (n : ℕ) → 0 < n → n < 2 ^ 64 → Inv (fresh n)
unfolding is_some
fresh-Inv n z f =
    let (u, l) = total-replicate n in
    let sum = everyone (replicate n unstarted) in
    record {
      holds = record {
        valid = record {
          descending = tt;
          counted = tt;
          room = omega arith;
          initial = omega arith;
          live = refl;
          owned = refl;
          unlocked = λ e. absurd cc;
        };
        borrows = refl;
        frees = refl;
      };
      size = l;
      some_threads = z;
      few = f;
      count = omega arith;
      mode = u;
      phase = refl;
    }

Step-Inv : {s t : System} → Step s t → Inv s → Inv t
Step-Inv {s} (worker w) h = WorkerStep-Inv w h
Step-Inv {s} (stirs m) h = stirs-Inv m h
Step-Inv {s} stirs_caller h = away-Inv s _ h (Phase-stir_caller _ _ s.caller _ _ _ h.phase)
Step-Inv {s} (add memory t clone_ok node_ok e m) h =
    add_task-Inv s memory t clone_ok node_ok _ _ _ h e m
Step-Inv {s} set_default h = record {
  holds = record { valid = h.holds.valid; borrows = h.holds.borrows; frees = h.holds.frees };
  size = h.size;
  some_threads = h.some_threads;
  few = h.few;
  count = h.count;
  mode = h.mode;
  phase = h.phase;
}
Step-Inv {s} (starts results c l) h =
    start_threads-Inv results away s h (rw c at h.phase) l (λ _ _ _. refl)
Step-Inv {s} (waits results c l e) h = Returns-at (wait_all-Inv results s h c l) e
Step-Inv {s} (waits_again c e) h =
    let (on, live) = rw c at h.phase in Returns-at (wait_loop-Inv s h live (λ _. on)) e
Step-Inv {s} (joins c e) h = Returns-at (join_pool-Inv s h c) e
Step-Inv {s} (joins_again c) h = join_loop-Inv s h c
Step-Inv {s} (join_thread {i} c m) h =
    let (on, st, u, x) = rw c at h.phase in
    let d = shift h.size m in
    thread-Inv (joining (suc i)) m h st
      (on, st, omega (arith, d.unstarted), omega (arith, d.active))
Step-Inv {s} (join_end c e) h = Returns-at (joined-Inv s _ h c refl) e
Step-Inv {s} (reap_thread {i} {k} c m) h =
    let (on, st, u, x) = rw c at h.phase in
    let d = shift h.size m in
    thread-Inv (reaping (suc i) k) m h st
      (on, st, omega (arith, d.unstarted), omega (arith, d.active))
Step-Inv {s} (reap_end c) h = let (on, st, u, x) = rw c at h.phase in reaped-Inv s h (omega arith)

pub Reach-Inv : {n : ℕ} {s : System} → 0 < n → n < 2 ^ 64 → Reach n s → Inv s
Reach-Inv {n} z f Reach.initial = fresh-Inv n z f
Reach-Inv z f (later r e) = Step-Inv e (Reach-Inv z f r)
