-- ===== src/Pool/Census.antt =====
-- How many workers of src/ucb/threads/threadpool.c stand where, before and after a step.
use ucb.Common.{
  ℕ, zero, suc, ◌+◌, ◌≤◌, ◌<◌, ◌≡◌, refl, ap, ◌⊎◌, inl, inr, List, [], ◌∷◌, length, arith,
}
use ucb.Pool.System.{
  Worker, unstarted, ready, asleep, exited, holding, finished, replicate, Becomes, here, there,
  is_asleep, total, Signal, wakes, unheard, wake, broadcast, launch,
}

abbrev pub is_unstarted : Worker → ℕ
is_unstarted unstarted = 1
is_unstarted _ = 0

abbrev pub is_ready : Worker → ℕ
is_ready ready = 1
is_ready _ = 0

abbrev pub is_exited : Worker → ℕ
is_exited exited = 1
is_exited _ = 0

-- Between taking a task and `num_running--`.
abbrev pub is_active : Worker → ℕ
is_active (holding _) = 1
is_active finished = 1
is_active _ = 0

pub total-Becomes :
    (f : Worker → ℕ) {a b : Worker} {i : ℕ} {ws vs : List Worker}
    → Becomes a b i ws vs
    → total f vs + f a ≡ total f ws + f b
total-Becomes f here = omega arith
total-Becomes f (there m) = omega (arith, total-Becomes f m)

length-Becomes :
    {a b : Worker} {i : ℕ} {ws vs : List Worker} → Becomes a b i ws vs → length vs ≡ length ws
length-Becomes here = refl
length-Becomes (there m) = ap suc (length-Becomes m)

-- The five counts, and the length.
abbrev Moves : Worker → Worker → List Worker → List Worker → Type 0
Moves a b ws vs =
    (total is_unstarted vs + is_unstarted a ≡ total is_unstarted ws + is_unstarted b)
    × (total is_ready vs + is_ready a ≡ total is_ready ws + is_ready b)
    × (total is_asleep vs + is_asleep a ≡ total is_asleep ws + is_asleep b)
    × (total is_exited vs + is_exited a ≡ total is_exited ws + is_exited b)
    × (total is_active vs + is_active a ≡ total is_active ws + is_active b)
    × (length vs ≡ length ws)

pub census : {a b : Worker} {i : ℕ} {ws vs : List Worker} → Becomes a b i ws vs → Moves a b ws vs
census m = (
  total-Becomes is_unstarted m,
  total-Becomes is_ready m,
  total-Becomes is_asleep m,
  total-Becomes is_exited m,
  total-Becomes is_active m,
  length-Becomes m,
)

pub everyone :
    (ws : List Worker)
    → total is_unstarted ws
        + total is_ready ws
        + total is_asleep ws
        + total is_exited ws
        + total is_active ws
      ≡ length ws
everyone [] = omega arith
everyone (unstarted ∷ ws) = omega (arith, everyone ws)
everyone (ready ∷ ws) = omega (arith, everyone ws)
everyone (asleep ∷ ws) = omega (arith, everyone ws)
everyone (exited ∷ ws) = omega (arith, everyone ws)
everyone (holding t ∷ ws) = omega (arith, everyone ws)
everyone (finished ∷ ws) = omega (arith, everyone ws)

wake-keeps :
    (w : Worker)
    → (is_unstarted (wake w) ≡ is_unstarted w)
      × (is_asleep (wake w) ≡ 0)
      × (is_exited (wake w) ≡ is_exited w)
      × (is_active (wake w) ≡ is_active w)
wake-keeps unstarted = (refl, refl, refl, refl)
wake-keeps ready = (refl, refl, refl, refl)
wake-keeps asleep = (refl, refl, refl, refl)
wake-keeps exited = (refl, refl, refl, refl)
wake-keeps (holding t) = (refl, refl, refl, refl)
wake-keeps finished = (refl, refl, refl, refl)

-- A broadcast makes every sleeper ready.
pub census-broadcast :
    (ws : List Worker)
    → (total is_unstarted (broadcast ws) ≡ total is_unstarted ws)
      × (total is_asleep (broadcast ws) ≡ 0)
      × (total is_exited (broadcast ws) ≡ total is_exited ws)
      × (total is_active (broadcast ws) ≡ total is_active ws)
      × (length (broadcast ws) ≡ length ws)
census-broadcast [] = (refl, refl, refl, refl, refl)
census-broadcast (w ∷ ws) =
    let (u, a, e, b) = wake-keeps w in
    let (us, zs, es, bs, ls) = census-broadcast ws in
    (omega arith, omega arith, omega arith, omega arith, omega arith)

-- A signal makes one sleeper ready, or finds none.
abbrev pub Hears : List Worker → List Worker → Type 0
Hears ws vs =
    (total is_unstarted vs ≡ total is_unstarted ws)
    × (total is_exited vs ≡ total is_exited ws)
    × (total is_active vs ≡ total is_active ws)
    × (total is_ready ws ≤ total is_ready vs)
    × (total is_asleep vs ≤ total is_asleep ws)
    × (length vs ≡ length ws)

pub census-Signal :
    {ws vs : List Worker}
    → Signal ws vs
    → Hears ws vs × ((total is_asleep vs ≡ 0) ⊎ (0 < total is_ready vs))
census-Signal (wakes m) =
    let c = census m in
    (
      (omega arith, omega arith, omega arith, omega arith, omega arith, omega arith),
      inr (omega arith),
    )
census-Signal (unheard e) = ((refl, refl, refl, omega arith, omega arith, refl), inl e)

unstarted_once : (w : Worker) → is_unstarted w ≤ 1
unstarted_once unstarted = omega arith
unstarted_once ready = omega arith
unstarted_once asleep = omega arith
unstarted_once exited = omega arith
unstarted_once (holding t) = omega arith
unstarted_once finished = omega arith

-- Starting the first `k` of threads that are all not started.
pub census-launch :
    (k : ℕ) (ws : List Worker)
    → total is_unstarted ws ≡ length ws
    → k ≤ length ws
    → (total is_unstarted (launch k ws) + k ≡ length ws)
      × (total is_ready (launch k ws) ≡ k)
      × (length (launch k ws) ≡ length ws)
census-launch zero ws e h = let all = everyone ws in (omega arith, omega arith, refl)
census-launch (suc k) [] e h = absurd (omega arith)
census-launch (suc k) (w ∷ ws) e h =
    let one : is_unstarted w ≤ 1 = unstarted_once w in
    let all = everyone ws in
    let (us, rs, ls) = census-launch k ws (omega arith) (omega arith) in
    (omega arith, omega arith, omega arith)

pub total-replicate :
    (n : ℕ)
    → (total is_unstarted (replicate n unstarted) ≡ n) × (length (replicate n unstarted) ≡ n)
total-replicate zero = (refl, refl)
total-replicate (suc n) = let (a, b) = total-replicate n in (omega arith, omega arith)
