-- ===== src/Pool/Adding.antt =====
-- Adding a task, from src/ucb/threads/threadpool.c, keeps the invariant of Pool.Balance.
use ucb.Common.{
  ℕ, suc, ◌≤◌, ◌<◌, ◌≡◌, refl, sym, ap, subst, ◌∙◌, ◌⊎◌, inl, inr, Bool, true, false, List, [], ◌∷◌,
  length, arith, Bool-cases,
}
use ucb.Common.Outcome.{granted, ok, Returns-at}
use ucb.Pqueue.Contents.{contents, insert_stable}
use ucb.Task.{Task, set_to}
use ucb.Pool.{Added, add_task}
use ucb.Pool.System.{
  Worker, Caller, away, wait_asleep, wait_awake, join_asleep, join_awake, joining, reaping, System,
  is_asleep, total,
}
use ucb.Pool.Steps.{Heard}
use ucb.Pool.Census.{is_ready, census-Signal, everyone, Hears}
use ucb.Pool.Sections.{queue}
use ucb.Pool.AddTask.{AddedTo, add_task-AddedTo, add_task-unset}
use ucb.Pool.Balance.{Tally, tally, Mode, Phase, Inv}

Mode-signal :
    (ru st : Bool) (n q q' : ℕ) (ws vs : List Worker)
    → length ws ≡ n
    → 0 < n
    → Hears ws vs
    → (total is_asleep vs ≡ 0) ⊎ (0 < total is_ready vs)
    → Mode ru st n q (tally ws)
    → Mode ru st n q' (tally vs)
Mode-signal false false n q q' ws vs l z h w m = omega arith
Mode-signal false true n q q' ws vs l z h w m = m
Mode-signal true false n q q' ws vs l z h w m =
    let sum = everyone vs in (omega arith, omega arith, inr (omega arith))
Mode-signal true true n q q' ws vs l z h w m = omega arith

-- Without a signal: the task was not queued, or the pool is not running.
Mode-quiet :
    (ru st : Bool) (n q q' : ℕ) (t : Tally)
    → (q' ≡ q) ⊎ (ru ≡ false)
    → Mode ru st n q t
    → Mode ru st n q' t
Mode-quiet false false n q q' t e m = m
Mode-quiet false true n q q' t e m = m
Mode-quiet true false n q q' t (inl e) (u, x, m) = (u, x, omega arith)
Mode-quiet true false n q q' t (inr e) m = absurd (ground arith)
Mode-quiet true true n q q' t e m = m

Phase-grown :
    (c : Caller) (ru st : Bool) (n q q' : ℕ) (t v : Tally)
    → q ≤ q'
    → v.unstarted ≡ t.unstarted
    → v.active ≡ t.active
    → Phase c ru st n q t
    → Phase c ru st n q' v
Phase-grown away ru st n q q' t v l u a p = p
Phase-grown wait_asleep ru st n q q' t v l u a p = (p.0, p.1, omega arith)
Phase-grown wait_awake ru st n q q' t v l u a p = p
Phase-grown join_asleep ru st n q q' t v l u a p = (p.0, p.1, omega arith, omega arith)
Phase-grown join_awake ru st n q q' t v l u a p = (p.0, p.1, omega arith)
Phase-grown (joining i) ru st n q q' t v l u a p = (p.0, p.1, omega arith, omega arith)
Phase-grown (reaping i k) ru st n q q' t v l u a p = (p.0, p.1, omega arith, omega arith)

length-insert_stable :
    (p : ℕ) (x : Task) (l : List (ℕ × Task)) → length (insert_stable p x l) ≡ suc (length l)
length-insert_stable p x [] = refl
length-insert_stable p x ((q, y) ∷ l) = ground (arith, length-insert_stable p x l)

module _ {s : System} {t : Task} {clone_ok node_ok : Bool} {r : Added} (h : Inv s)
    (a : AddedTo s.pool t clone_ok node_ok r) where
  longer : length (queue s.pool) ≤ length (contents a.tasks.buckets)
  longer = elim (Bool-cases r.added) [
    | inl e ↦
        let q : contents a.tasks.buckets ≡ insert_stable t.priority t (queue s.pool) =
          rw e at a.queued in
        omega (arith, ap length q, length-insert_stable t.priority t (queue s.pool))
    | inr e ↦
        let q : contents a.tasks.buckets ≡ queue s.pool = rw e at a.queued in
        omega (arith, ap length q)
  ]

  unheard_of :
      r.signals ≡ false
      → (length (contents a.tasks.buckets) ≡ length (queue s.pool)) ⊎ (s.pool.running ≡ false)
  unheard_of e = elim (Bool-cases r.added) [
    | inl f ↦ inr (sym (rw f at a.signals) ∙ e)
    | inr f ↦ inl (ap length (rw f at a.queued))
  ]

  added-Inv :
      (signals : Bool) (ws : List Worker) (log : List Task)
      → r.signals ≡ signals
      → Heard signals s.workers ws
      → Inv (record s { pool = r.after; workers = ws; added = log })
  added-Inv true ws log e m =
      let (c, w) = census-Signal m in
      rw a.after (record {
        holds = rw a.after at a.holds;
        size = omega (arith, h.size);
        some_threads = h.some_threads;
        few = h.few;
        count = omega (arith, h.count);
        mode = Mode-signal _ _ _ _ _ s.workers ws h.size h.some_threads c w h.mode;
        phase = Phase-grown s.caller _ _ _ _ _ _ _ longer c.0 c.2 h.phase;
      })
  added-Inv false ws log e m =
      let with_workers = λ (vs : List Worker). record s {
        pool = record s.pool { tasks = a.tasks };
        workers = vs;
        added = log;
      } in
      let k : Inv (with_workers s.workers) = record {
        holds = rw a.after at a.holds;
        size = h.size;
        some_threads = h.some_threads;
        few = h.few;
        count = h.count;
        mode = Mode-quiet _ _ _ _ _ _ (unheard_of e) h.mode;
        phase = Phase-grown s.caller _ _ _ _ _ _ _ longer refl refl h.phase;
      } in
      rw a.after (subst (λ vs. Inv (with_workers vs)) m k)

pub add_task-Inv :
    (s : System) (memory t : Task) (clone_ok node_ok : Bool) (r : Added) (ws : List Worker)
    (log : List Task)
    → Inv s
    → add_task s.pool memory t clone_ok node_ok granted ≡ ok r
    → Heard r.signals s.workers ws
    → Inv (record s { pool = r.after; workers = ws; added = log })
add_task-Inv s memory t clone_ok node_ok r ws log h e m = elim (Bool-cases (set_to t.func)) [
  | inl f ↦
      added-Inv h (Returns-at (add_task-AddedTo s.pool memory t clone_ok node_ok h.holds f) e)
        r.signals ws log refl m
  | inr f ↦ let stops = add_task-unset s.pool memory t clone_ok node_ok granted f in absurd cc
]
