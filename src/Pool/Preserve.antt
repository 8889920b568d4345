-- ===== src/Pool/Preserve.antt =====
-- Every step of the pool of src/ucb/threads/threadpool.c keeps the invariant of Pool.Balance.
use ucb.Common.{ℕ, ◌≡◌, ap, ◌∙◌, none, some, List, [], ◌∷◌, length, arith}
use ucb.Common.Outcome.{Returns-at}
use ucb.Pool.{Pool, Turn, wait, leave, perform}
use ucb.Pool.System.{Worker, ready, after_turn, System, Becomes}
use ucb.Pool.Steps.{WorkerStep, turn, work, done}
use ucb.Pool.Census.{census, everyone}
use ucb.Pool.Sections.{Turned, worker_turn-Turned}
use ucb.Pool.Balance.{Tally, tally, Inv, Shift}
use ucb.Pool.Shifts.{
  Mode-wait, Mode-leave, Mode-take, Mode-work, Mode-finish, Phase-same, Phase-take, Phase-finish,
}

-- The counts of a worker's place.
abbrev place : Worker → Tally
place w = tally (w ∷ [])

pub shift :
    {a b : Worker} {i n : ℕ} {ws vs : List Worker}
    → length ws ≡ n
    → Becomes a b i ws vs
    → Shift n (place a) (place b) (tally ws) (tally vs)
shift {ws = ws} e m =
    let (u, r, s, x, a, l) = census m in
    record {
      unstarted = omega arith;
      ready = omega arith;
      asleep = omega arith;
      exited = omega arith;
      active = omega arith;
      everyone = everyone ws ∙ e;
    }

module _ {s : System} {i : ℕ} {ws : List Worker} (h : Inv s) where
  -- Fields that a step of a worker leaves alone.
  Turned-Inv :
      (t : Turn) (p : Pool)
      → Turned s.pool (t, p)
      → Becomes ready (after_turn t) i s.workers ws
      → Inv (record s { pool = p; workers = ws })
  Turned-Inv wait p (same, live, none_left) m =
      let d = shift h.size m in
      rw same (record {
        holds = h.holds;
        size = omega (arith, (census m).5, h.size);
        some_threads = h.some_threads;
        few = h.few;
        count = omega (arith, h.count, d.active);
        mode = Mode-wait _ _ _ live (ap length none_left) d h.mode;
        phase =
            Phase-same _ _ _ s.caller _ _ _ (omega (arith, d.unstarted)) (omega (arith, d.active))
              h.phase;
      })
  Turned-Inv leave p (same, stops) m =
      let d = shift h.size m in
      rw same (record {
        holds = h.holds;
        size = omega (arith, (census m).5, h.size);
        some_threads = h.some_threads;
        few = h.few;
        count = omega (arith, h.count, d.active);
        mode = Mode-leave _ _ _ stops d h.mode;
        phase =
            Phase-same _ _ _ s.caller _ _ _ (omega (arith, d.unstarted)) (omega (arith, d.active))
              h.phase;
      })
  Turned-Inv (perform (some u)) p (prio, tasks, same, first, live, holds) m =
      let d = shift h.size m in
      rw same (record {
        holds = rw same at holds;
        size = omega (arith, (census m).5, h.size);
        some_threads = h.some_threads;
        few = h.few;
        count = omega (arith, h.count, d.active, d.everyone, h.few);
        mode = Mode-take _ _ _ _ live (ap length first) d h.mode;
        phase = Phase-take s.caller _ _ _ _ live d h.phase;
      })
  Turned-Inv (perform none) p e m = absurd e

pub WorkerStep-Inv : {s t : System} → WorkerStep s t → Inv s → Inv t
WorkerStep-Inv {s} (turn {t} {p} e m) h =
    Turned-Inv h t p (Returns-at (worker_turn-Turned s.pool h.holds) e) m
WorkerStep-Inv {s} (work m) h =
    let d = shift h.size m in
    record {
      holds = h.holds;
      size = omega (arith, (census m).5, h.size);
      some_threads = h.some_threads;
      few = h.few;
      count = omega (arith, h.count, d.active);
      mode = Mode-work _ _ _ d h.mode;
      phase =
          Phase-same _ _ _ s.caller _ _ _ (omega (arith, d.unstarted)) (omega (arith, d.active))
            h.phase;
    }
WorkerStep-Inv {s} (done m) h =
    let d = shift h.size m in
    record {
      holds = record { valid = h.holds.valid; borrows = h.holds.borrows; frees = h.holds.frees };
      size = omega (arith, (census m).5, h.size);
      some_threads = h.some_threads;
      few = h.few;
      count = omega (arith, h.count, d.active, d.everyone, h.few);
      mode = Mode-finish _ _ _ d h.mode;
      phase = Phase-finish s.caller _ _ _ d h.phase;
    }
