-- ===== src/Task/Compare.antt =====
-- The order of src/ucb/threads/task.c on priorities that ucb_task_validate accepts.
use ucb.Common.{◌+◌, ◌-◌, ◌^◌, ◌≤◌, ◌<◌, ◌≡◌, ◌↔◌, true, leb, ltb, arith}
use ucb.Common.Outcome.{ok, Returns, returns}
use ucb.Task.{Task, task_validate, cmp_prio, prio_lowest, prio_highest}

-- A task that passes ucb_task_validate.
abbrev IsAccepted : Task → Type 0
IsAccepted t = task_validate t ≡ ok true

IsAccepted-range :
    (t : Task) → IsAccepted t → (prio_lowest ≤ t.priority) × (t.priority ≤ prio_highest)
unfolding task_validate
IsAccepted-range t h = ground arith

-- For two accepted tasks the comparison does not overflow, is at most 20 away from zero, and is on
-- the side of zero that the order of the priorities says.
cmp_prio_bounds :
    (a b : Task)
    → IsAccepted a
    → IsAccepted b
    → Returns
        (λ r.
          (2 ^ 31 ≤ r + 20)
          × (r ≤ 2 ^ 31 + 20)
          × ((r < 2 ^ 31) ↔ (a.priority < b.priority))
          × ((r ≡ 2 ^ 31) ↔ (a.priority ≡ b.priority)))
        (cmp_prio a b)
unfolding cmp_prio
cmp_prio_bounds a b ha hb =
    let (la, ua) = IsAccepted-range a ha in
    let (lb, ub) = IsAccepted-range b hb in
    let e : (leb b.priority (a.priority + 2 ^ 31)) ≡ true = ground arith in
    let f : (ltb (a.priority + 2 ^ 31 - b.priority) (2 ^ 32)) ≡ true = ground arith in
    rw (e, f) (returns (omega arith, omega arith, ground arith, ground arith))
