-- ===== src/Pool/Shifts.antt =====
-- Each move of a worker of src/ucb/threads/threadpool.c keeps the balance of Pool.Balance.
use ucb.Common.{ℕ, suc, ◌≡◌, inl, inr, Bool, true, false, arith}
use ucb.Pool.System.{
  Caller, away, wait_asleep, wait_awake, join_asleep, join_awake, joining, reaping, notify,
}
use ucb.Pool.Balance.{
  Tally, Mode, Phase, Shift, at_ready, at_asleep, at_exited, at_unstarted, at_active,
}

module _ {n : ℕ} {t v : Tally} where
  -- A worker waits: there is no stop and no task.
  pub Mode-wait :
      (ru st : Bool) (q : ℕ)
      → st ≡ false
      → q ≡ 0
      → Shift n at_ready at_asleep t v
      → Mode ru st n q t
      → Mode ru st n q v
  Mode-wait ru true q e f h m = absurd (ground arith)
  Mode-wait false false q e f h m = absurd (omega (arith, h.ready, h.everyone))
  Mode-wait true false q e f h m = (omega (arith, h.unstarted), omega (arith, h.exited), inl f)

  pub Mode-leave :
      (ru st : Bool) (q : ℕ)
      → st ≡ true
      → Shift n at_ready at_exited t v
      → Mode ru st n q t
      → Mode ru st n q v
  Mode-leave ru false q e h m = absurd (ground arith)
  Mode-leave false true q e h m = m
  Mode-leave true true q e h m = omega (arith, h.asleep)

  pub Mode-take :
      (ru st : Bool) (q q' : ℕ)
      → st ≡ false
      → q ≡ suc q'
      → Shift n at_ready at_active t v
      → Mode ru st n q t
      → Mode ru st n q' v
  Mode-take ru true q q' e f h m = absurd (ground arith)
  Mode-take false false q q' e f h m = absurd (omega (arith, h.ready, h.everyone))
  Mode-take true false q q' e f h m =
      (omega (arith, h.unstarted), omega (arith, h.exited), inr (omega (arith, h.active)))

  pub Mode-finish :
      (ru st : Bool) (q : ℕ) → Shift n at_active at_ready t v → Mode ru st n q t → Mode ru st n q v
  Mode-finish false false q h m = omega (arith, h.unstarted)
  Mode-finish false true q h m = m
  Mode-finish true false q h m =
      (omega (arith, h.unstarted), omega (arith, h.exited), inr (omega (arith, h.ready)))
  Mode-finish true true q h m = omega (arith, h.asleep)

  pub Mode-stir :
      (ru st : Bool) (q : ℕ) → Shift n at_asleep at_ready t v → Mode ru st n q t → Mode ru st n q v
  Mode-stir false false q h m = omega (arith, h.unstarted)
  Mode-stir false true q h m = m
  Mode-stir true false q h m =
      (omega (arith, h.unstarted), omega (arith, h.exited), inr (omega (arith, h.ready)))
  Mode-stir true true q h m = omega (arith, h.asleep)

  pub Mode-work :
      (ru st : Bool) (q : ℕ) → Shift n at_active at_active t v → Mode ru st n q t → Mode ru st n q v
  Mode-work false false q h m = omega (arith, h.unstarted)
  Mode-work false true q h m = m
  Mode-work true false q h (u, e, m) =
      (omega (arith, h.unstarted), omega (arith, h.exited), omega (arith, m, h.ready, h.active))
  Mode-work true true q h m = omega (arith, h.asleep)

  -- A thread that has returned is joined.
  pub Mode-joined :
      (ru st : Bool) (q : ℕ)
      → st ≡ true
      → Shift n at_exited at_unstarted t v
      → Mode ru st n q t
      → Mode ru st n q v
  Mode-joined ru false q e h m = absurd (ground arith)
  Mode-joined false true q e h m = m
  Mode-joined true true q e h m = omega (arith, h.asleep)

  -- A worker takes a task where there is no stop.
  pub Phase-take :
      (c : Caller) (ru st : Bool) (q q' : ℕ)
      → st ≡ false
      → Shift n at_ready at_active t v
      → Phase c ru st n q t
      → Phase c ru st n q' v
  Phase-take away ru st q q' e h p = p
  Phase-take wait_asleep ru st q q' e h p = (p.0, p.1, omega (arith, h.active))
  Phase-take wait_awake ru st q q' e h p = p
  Phase-take join_asleep ru st q q' e h p = absurd (ground arith)
  Phase-take join_awake ru st q q' e h p = absurd (ground arith)
  Phase-take (joining i) ru st q q' e h p = absurd (ground arith)
  Phase-take (reaping i k) ru st q q' e h p = absurd (ground arith)

  -- A worker has run its task, and signals the caller.
  pub Phase-finish :
      (c : Caller) (ru st : Bool) (q : ℕ)
      → Shift n at_active at_ready t v
      → Phase c ru st n q t
      → Phase (notify c) ru st n q v
  Phase-finish away ru st q h p = p
  Phase-finish wait_asleep ru st q h p = (p.0, p.1)
  Phase-finish wait_awake ru st q h p = p
  Phase-finish join_asleep ru st q h p = (p.0, p.1, omega (arith, h.unstarted))
  Phase-finish join_awake ru st q h p = (p.0, p.1, omega (arith, h.unstarted))
  Phase-finish (joining i) ru st q h p = absurd (omega (arith, h.active))
  Phase-finish (reaping i k) ru st q h p = absurd (omega (arith, h.active))

module _ (n : ℕ) (t v : Tally) where
  -- Where the counts of the threads not started and of the tasks that run are the same.
  pub Phase-same :
      (c : Caller) (ru st : Bool) (q : ℕ)
      → v.unstarted ≡ t.unstarted
      → v.active ≡ t.active
      → Phase c ru st n q t
      → Phase c ru st n q v
  Phase-same away ru st q u a p = p
  Phase-same wait_asleep ru st q u a p = (p.0, p.1, omega arith)
  Phase-same wait_awake ru st q u a p = p
  Phase-same join_asleep ru st q u a p = (p.0, p.1, omega arith, omega arith)
  Phase-same join_awake ru st q u a p = (p.0, p.1, omega arith)
  Phase-same (joining i) ru st q u a p = (p.0, p.1, omega arith, omega arith)
  Phase-same (reaping i k) ru st q u a p = (p.0, p.1, omega arith, omega arith)

module _ (n : ℕ) (t : Tally) where
  pub Phase-stir_caller :
      (c : Caller) (ru st : Bool) (q : ℕ) → Phase c ru st n q t → Phase (notify c) ru st n q t
  Phase-stir_caller away ru st q p = p
  Phase-stir_caller wait_asleep ru st q p = (p.0, p.1)
  Phase-stir_caller wait_awake ru st q p = p
  Phase-stir_caller join_asleep ru st q p = (p.0, p.1, p.2)
  Phase-stir_caller join_awake ru st q p = p
  Phase-stir_caller (joining i) ru st q p = p
  Phase-stir_caller (reaping i k) ru st q p = p
