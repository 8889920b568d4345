-- ===== src/Pool/Weights.antt =====
-- Sums of weights over the tasks of the pool of src/ucb/threads/threadpool.c, in its queue and with
-- its workers.
use ucb.Common.{
  ℕ, zero, suc, ◌+◌, ◌≡◌, refl, sym, ap, inl, inr, Bool, true, false, some, List, [], ◌∷◌, ◌++◌,
  length, arith, Bool-cases, leb,
}
use ucb.Pqueue.Contents.{insert_stable}
use ucb.Pqueue.Clear.{items}
use ucb.Task.{Task}
use ucb.Pool.System.{
  Worker, unstarted, ready, asleep, exited, holding, finished, total, wakes, unheard, broadcast,
  launch,
}
use ucb.Pool.Steps.{Heard}
use ucb.Pool.Census.{is_unstarted, total-Becomes, everyone}

pub total-append {ℓ} :
    {A : Type ℓ} (f : A → ℕ) (xs ys : List A) → total f (xs ++ ys) ≡ total f xs + total f ys
total-append f [] ys = omega arith
total-append f (x ∷ xs) ys = omega (arith, total-append f xs ys)

-- Any weight of tasks: the equation for every weight says that the two lists of tasks agree, each
-- task with its number of occurrences.
module _ (f : Task → ℕ) where
  abbrev pub held : Worker → ℕ
  held (holding (some t)) = f t
  held _ = 0

  abbrev pub queued : List (ℕ × Task) → ℕ
  queued l = total (λ x. f x.1) l

  pub queued-insert :
      (p : ℕ) (t : Task) (l : List (ℕ × Task)) → queued (insert_stable p t l) ≡ f t + queued l
  queued-insert p t [] = refl
  queued-insert p t ((q, u) ∷ l) = elim (Bool-cases (leb p q)) [
    | inl e ↦ rw e (omega (arith, queued-insert p t l))
    | inr e ↦ rw e refl
  ]

  pub total-items : (l : List (ℕ × Task)) → total f (items l) ≡ queued l
  unfolding items
  total-items [] = refl
  total-items ((p, t) ∷ l) = ap (λ n. f t + n) (total-items l)

  pub held-broadcast : (ws : List Worker) → total held (broadcast ws) ≡ total held ws
  held-broadcast [] = refl
  held-broadcast (unstarted ∷ ws) = omega (arith, held-broadcast ws)
  held-broadcast (ready ∷ ws) = omega (arith, held-broadcast ws)
  held-broadcast (asleep ∷ ws) = omega (arith, held-broadcast ws)
  held-broadcast (exited ∷ ws) = omega (arith, held-broadcast ws)
  held-broadcast (holding t ∷ ws) = omega (arith, held-broadcast ws)
  held-broadcast (finished ∷ ws) = omega (arith, held-broadcast ws)

  -- Threads that are all not started hold nothing, before a start and after it.
  pub held-launch :
      (k : ℕ) (ws : List Worker)
      → total is_unstarted ws ≡ length ws
      → (total held ws ≡ 0) × (total held (launch k ws) ≡ 0)
  held-launch zero [] e = (refl, refl)
  held-launch (suc k) [] e = (refl, refl)
  held-launch zero (unstarted ∷ ws) e =
      let (a, b) = held-launch zero ws (omega arith) in (omega arith, omega arith)
  held-launch (suc k) (unstarted ∷ ws) e =
      let (a, b) = held-launch k ws (omega arith) in (omega arith, omega arith)
  held-launch k (ready ∷ ws) e = let sum = everyone ws in absurd (omega arith)
  held-launch k (asleep ∷ ws) e = let sum = everyone ws in absurd (omega arith)
  held-launch k (exited ∷ ws) e = let sum = everyone ws in absurd (omega arith)
  held-launch k (holding t ∷ ws) e = let sum = everyone ws in absurd (omega arith)
  held-launch k (finished ∷ ws) e = let sum = everyone ws in absurd (omega arith)

  pub held-Heard : (b : Bool) (ws vs : List Worker) → Heard b ws vs → total held vs ≡ total held ws
  held-Heard true ws vs (wakes m) = omega (arith, total-Becomes held m)
  held-Heard true ws vs (unheard e) = refl
  held-Heard false ws vs e = ap (total held) (sym e)
