-- ===== src/Task/Tests.antt =====
-- Runs of src/ucb/threads/task.c, and its theorems at concrete inputs.
use ucb.Common.{◌+◌, ◌-◌, ◌^◌, ◌≡◌, refl, none, some, [], ◌∷◌}
use ucb.Common.Outcome.{ok, aborted}
use ucb.Task.{Task, make, task_run, set_priority, of_func, of_callback}

abbrev low : Task
low = record { func = some 7; arg = 5; callback = some 9; priority = 2 ^ 31 - 10 }

-- The function is called with its argument, then the callback with what it returned.
run_calls : task_run (λ f a. f + a) low ≡ ok (12, of_func 7 5 ∷ of_callback 9 5 12 ∷ [])
unfolding task_run
run_calls = refl

run_no_func : task_run (λ f a. f + a) (make none 0) ≡ aborted
unfolding task_run
run_no_func = refl

set_priority_outside : set_priority low (2 ^ 31 + 11) ≡ aborted
unfolding set_priority
set_priority_outside = refl
