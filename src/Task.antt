-- ===== src/Task.antt =====
-- Tasks: src/ucb/threads/task.c and task.h.
-- A pointer to a function or to its argument is a number, and NULL is `none`. An `int` priority p is
-- kept as p + 2 ^ 31. What a function returns is a parameter, since user code is not read.
pub mod Compare
mod Tests
use ucb.Common.{
  ℕ, ◌+◌, ◌-◌, ◌^◌, Bool, not, ◌&&◌, Option, none, some, List, [], ◌∷◌, leb, ltb, if◌then◌else◌,
}
use ucb.Common.Outcome.{Outcome, ok, fault, aborted, ◌>>=◌, ◌>>◌, verify}

pub record Task : Type 0 where
  pub func : Option ℕ
  pub arg : ℕ
  pub callback : Option ℕ
  pub priority : ℕ

abbrev prio_normal : ℕ
prio_normal = 2 ^ 31

abbrev prio_lowest : ℕ
prio_lowest = 2 ^ 31 - 10

abbrev prio_highest : ℕ
prio_highest = 2 ^ 31 + 10

-- The pointer is set.
abbrev pub set_to : Option ℕ → Bool
set_to none = Bool.false
set_to (some f) = Bool.true

abbrev pub make : Option ℕ → ℕ → Task
make func arg = record { func = func; arg = arg; callback = none; priority = prio_normal }

-- The same assignments as ucb_task_init with NULL for the pointers; a NULL `arg` is 0.
abbrev released : Task
released = make none 0

abbrev in_range : ℕ → Bool
in_range prio = leb prio_lowest prio && leb prio prio_highest

unfoldable pub task_validate : Task → Outcome Bool
task_validate t = do verify (in_range t.priority); ok Bool.true

-- The four fields of the source, written over those of the destination.
abbrev task_copy : Task → Task → Task
task_copy dst src = record dst {
  func = src.func;
  arg = src.arg;
  callback = src.callback;
  priority = src.priority;
}

-- The copy goes to fresh memory, whose contents are any task.
unfoldable pub task_clone : Bool → Task → Option Task → Option Task
task_clone alloc_ok memory none = none
task_clone alloc_ok memory (some src) = if alloc_ok then some (task_copy memory src) else none

-- `a->priority - b->priority`, kept as the priorities are: `fault` where it overflows an `int`.
unfoldable cmp_prio : Task → Task → Outcome ℕ
cmp_prio a b =
    let top = a.priority + 2 ^ 31 in
    if leb b.priority top && ltb (top - b.priority) (2 ^ 32) then ok (top - b.priority) else fault

unfoldable set_func : Task → Option ℕ → ℕ → Outcome Task
set_func t func arg = do verify (set_to func); ok (record t { func = func; arg = arg })

abbrev set_callback : Task → Option ℕ → Task
set_callback t callback = record t { callback = callback }

unfoldable pub set_priority : Task → ℕ → Outcome Task
set_priority t prio = do verify (in_range prio); ok (record t { priority = prio })

-- The calls that a run makes of user code, in order.
pub data Call : Type 0 where
  of_func : (func arg : ℕ) → Call
  of_callback : (callback arg status : ℕ) → Call

module _ (status_of : ℕ → ℕ → ℕ) where
  call_back : Option ℕ → ℕ → ℕ → List Call
  call_back none arg status = []
  call_back (some c) arg status = of_callback c arg status ∷ []

  run_func : Option ℕ → Task → Outcome (ℕ × List Call)
  unfolding call_back
  run_func none t = aborted
  run_func (some f) t =
      let status = status_of f t.arg in
      ok (status, of_func f t.arg ∷ call_back t.callback t.arg status)

  unfoldable pub task_run : Task → Outcome (ℕ × List Call)
  unfolding run_func
  task_run t = run_func t.func t
