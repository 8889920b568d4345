-- ===== src/Pool/CallerSteps.antt =====
-- The sections of ucb_threadpool_start and ucb_threadpool_wait_all, of src/ucb/threads/threadpool.c,
-- keep the invariant of Pool.Balance.
use ucb.Common.{
  ℕ, ◌+◌, ◌≤◌, ◌<◌, ◌≡◌, refl, ◌⊎◌, inl, inr, Bool, true, false, not, ◌&&◌, ◌||◌, List, [], ◌∷◌,
  ltb, ◌==◌, length, arith, Bool-cases,
}
use ucb.Common.Outcome.{ok, Returns, returns}
use ucb.Pool.{Pool, start_loop}
use ucb.Pool.System.{
  Caller, away, wait_asleep, wait_awake, join_asleep, join_awake, joining, reaping, System,
  broadcast, launch, total,
}
use ucb.Pool.Steps.{start_threads, wait_loop, wait_started, wait_all}
use ucb.Pool.Census.{is_unstarted, is_active, census-launch, census-broadcast, everyone}
use ucb.Pool.Sections.{queue, wait_test_lem, must_start_lem}
use ucb.Pool.Balance.{Tally, tally, Mode, Phase, Inv}

start_loop_le : (results : List Bool) → start_loop results ≤ length results
unfolding start_loop
start_loop_le [] = omega arith
start_loop_le (true ∷ rs) = omega (arith, start_loop_le rs)
start_loop_le (false ∷ rs) = omega arith

-- The pool with other flags.
abbrev pub flagged : Pool → Bool → Bool → Pool
flagged p ru st = record p { running = ru; stop = st }

unstarted_all :
    (ru st : Bool) (n q : ℕ) (t : Tally)
    → ru ≡ false
    → Mode ru st n q t
    → (t.unstarted ≡ n) × (st ≡ false)
unstarted_all true st n q t e m = absurd (ground arith)
unstarted_all false true n q t e m = absurd m
unstarted_all false false n q t e m = (m, refl)

pub idle :
    (s : System)
    → Inv s
    → s.pool.running ≡ false
    → (total is_unstarted s.workers ≡ s.pool.num_threads) × (s.pool.stop ≡ false)
idle s h e = unstarted_all _ _ _ _ _ e h.mode

-- Starting the threads of a pool that is not running: all, and the caller goes on with `next`; or
-- some, and the caller joins those.
module _ (s : System) (h : Inv s) (k : ℕ) (few : k ≤ s.pool.num_threads)
    (off : s.pool.running ≡ false) where
  started-Inv :
      (next : Caller)
      → k ≡ s.pool.num_threads
      → ((n q : ℕ) (t : Tally) → Phase next true false n q t)
      → Inv (record s {
        pool = flagged s.pool true false;
        workers = launch k s.workers;
        caller = next;
      })
  started-Inv next all settled =
      let (u, st) = idle s h off in
      let (us, rs, ls) =
        census-launch k s.workers (omega (arith, h.size)) (omega (arith, h.size)) in
      let sum = everyone (launch k s.workers) in
      let before = everyone s.workers in
      record {
        holds = record { valid = h.holds.valid; borrows = h.holds.borrows; frees = h.holds.frees };
        size = omega (arith, h.size);
        some_threads = h.some_threads;
        few = h.few;
        count = omega (arith, h.count, h.size);
        mode = (omega (arith, h.size), omega (arith, h.size), inr (omega (arith, h.some_threads)));
        phase = settled _ _ _;
      }

  partial-Inv : Inv (record s {
    pool = flagged s.pool true true;
    workers = broadcast (launch k s.workers);
    caller = reaping 0 k;
  })
  partial-Inv =
      let (u, st) = idle s h off in
      let (us, rs, ls) =
        census-launch k s.workers (omega (arith, h.size)) (omega (arith, h.size)) in
      let (bu, ba, be, bx, bl) = census-broadcast (launch k s.workers) in
      let sum = everyone (launch k s.workers) in
      let before = everyone s.workers in
      record {
        holds = record { valid = h.holds.valid; borrows = h.holds.borrows; frees = h.holds.frees };
        size = omega (arith, h.size);
        some_threads = h.some_threads;
        few = h.few;
        count = omega (arith, h.count, h.size);
        mode = ba;
        phase = (refl, refl, omega (arith, h.size), omega (arith, h.size));
      }

==_refl : (n : ℕ) → (n == n) ≡ true
==_refl n = ground arith

-- The three ways to start.
module _ (results : List Bool) (next : Caller) (s : System) where
  pub start_threads-on :
      s.pool.running ≡ true → start_threads results next s ≡ record s { caller = next }
  unfolding start_threads
  start_threads-on e = rw (e, ==_refl s.pool.num_threads) refl

  pub start_threads-all :
      s.pool.running ≡ false
      → (start_loop results == s.pool.num_threads) ≡ true
      → start_threads results next s ≡ record s {
        pool = flagged s.pool true false;
        workers = launch (start_loop results) s.workers;
        caller = next;
      }
  unfolding start_threads
  start_threads-all e f = rw (e, f) refl

  pub start_threads-some :
      s.pool.running ≡ false
      → (start_loop results == s.pool.num_threads) ≡ false
      → start_threads results next s ≡ record s {
        pool = flagged s.pool true true;
        workers = broadcast (launch (start_loop results) s.workers);
        caller = reaping 0 (start_loop results);
      }
  unfolding start_threads
  start_threads-some e f = rw (e, f) refl

-- The caller moves on in a pool that runs.
pub away-Inv :
    (s : System) (next : Caller)
    → Inv s
    → Phase next s.pool.running s.pool.stop s.pool.num_threads
        (length (queue s.pool))
        (tally s.workers)
    → Inv (record s { caller = next })
away-Inv s next h p = record {
  holds = h.holds;
  size = h.size;
  some_threads = h.some_threads;
  few = h.few;
  count = h.count;
  mode = h.mode;
  phase = p;
}

pub start_threads-Inv :
    (results : List Bool) (next : Caller) (s : System)
    → Inv s
    → s.pool.stop ≡ false
    → length results ≡ s.pool.num_threads
    → ((n q : ℕ) (t : Tally) → Phase next true false n q t)
    → Inv (start_threads results next s)
start_threads-Inv results next s h live l settled =
    let few : start_loop results ≤ s.pool.num_threads = omega (arith, start_loop_le results, l) in
    elim (Bool-cases s.pool.running) [
      | inl on ↦
          rw (start_threads-on results next s on)
            (away-Inv s next h (rw (on, live) (settled _ _ _)))
      | inr off ↦ elim (Bool-cases (start_loop results == s.pool.num_threads)) [
        | inl all ↦
            rw (start_threads-all results next s off all)
              (started-Inv s h (start_loop results) few off next (ground arith) settled)
        | inr few_on ↦
            rw (start_threads-some results next s off few_on)
              (partial-Inv s h (start_loop results) few off)
      ]
    ]

-- The test of ucb_threadpool_wait_all, in a pool that is not stopped and runs if there is a task.
pub wait_loop-Inv :
    (s : System)
    → Inv s
    → s.pool.stop ≡ false
    → (0 < total is_active s.workers + length (queue s.pool) → s.pool.running ≡ true)
    → Returns Inv (wait_loop s)
unfolding wait_loop
wait_loop-Inv s h live on =
    rw (wait_test_lem s.pool h.holds)
      (elim (Bool-cases (ltb 0 s.pool.num_running || not (length (queue s.pool) == 0))) [
        | inl more ↦
            let some_left : 0 < total is_active s.workers + length (queue s.pool) =
              ground (arith, h.count) in
            rw more (returns (away-Inv s wait_asleep h (on some_left, live, some_left)))
        | inr over ↦ rw over (returns (away-Inv s away h live))
      ])

pub wait_awake-cases {ℓ} :
    {A : Type ℓ} (c : Caller) (x y : A) → (c ≡ wait_awake) ⊎ (elim c [ wait_awake ↦ x | _ ↦ y ] ≡ y)
wait_awake-cases away x y = inr refl
wait_awake-cases wait_asleep x y = inr refl
wait_awake-cases wait_awake x y = inl refl
wait_awake-cases join_asleep x y = inr refl
wait_awake-cases join_awake x y = inr refl
wait_awake-cases (joining i) x y = inr refl
wait_awake-cases (reaping i k) x y = inr refl

wait_started-Inv : (s : System) → Inv s → Returns Inv (wait_started s)
unfolding wait_started
wait_started-Inv s h = elim (wait_awake-cases s.caller (wait_loop s) (ok s)) [
  | inl e ↦ let (on, live) = rw e at h.phase in rw e (wait_loop-Inv s h live (λ _. on))
  | inr e ↦ rw e (returns h)
]

-- A pool that need not be started runs if a task runs or is queued.
needs_running :
    (s : System)
    → Inv s
    → (not s.pool.running && not (length (queue s.pool) == 0)) ≡ false
    → 0 < total is_active s.workers + length (queue s.pool)
    → s.pool.running ≡ true
needs_running s h skip more = elim (Bool-cases s.pool.running) [
  | inl on ↦ on
  | inr off ↦
      let (u, st) = idle s h off in let sum = everyone s.workers in absurd (ground (arith, h.size))
]

pub wait_all-Inv :
    (results : List Bool) (s : System)
    → Inv s
    → s.caller ≡ away
    → length results ≡ s.pool.num_threads
    → Returns Inv (wait_all results s)
unfolding wait_all
wait_all-Inv results s h e l =
    let live : s.pool.stop ≡ false = rw e at h.phase in
    rw (must_start_lem s.pool h.holds)
      (elim (Bool-cases (not s.pool.running && not (length (queue s.pool) == 0))) [
        | inl must ↦ rw must (
            wait_started-Inv (start_threads results wait_awake s)
              (start_threads-Inv results wait_awake s h live l (λ _ _ _. (refl, refl))))
        | inr skip ↦ rw skip (wait_loop-Inv s h live (needs_running s h skip))
      ])
