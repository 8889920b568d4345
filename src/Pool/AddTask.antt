-- ===== src/Pool/AddTask.antt =====
-- What ucb_threadpool_add_task of src/ucb/threads/threadpool.c does, on every branch but the one
-- where the queue's array cannot grow.
use ucb.Common.{◌≡◌, refl, ◌∙◌, Bool, true, false, not, ◌&&◌, [], ◌∷◌, if◌then◌else◌, inl, inr}
use ucb.Common.Outcome.{granted, Realloc, aborted, Returns, returns, Returns-bind}
use ucb.Pqueue.{Pqueue}
use ucb.Pqueue.Contents.{contents, insert_stable}
use ucb.Pqueue.Push.{entry, push_refines}
use ucb.Pqueue.Failure.{push_unchanged}
use ucb.Task.{Task, set_to, task_clone}
use ucb.Pool.{Pool, Added, add_queued, add_clone, add_task, with_callback}
use ucb.Pool.Sections.{Holds, queue}

-- What ucb_threadpool_add_task makes of the pool, `t` being the task with its callback.
pub record AddedTo (p : Pool) (t : Task) (clone_ok node_ok : Bool) (r : Added) : Type 0 where
  pub succeeds : r.added ≡ (clone_ok && node_ok)
  pub freed : r.freed ≡ (if clone_ok && not node_ok then t ∷ [] else [])
  pub signals : r.signals ≡ (r.added && p.running)
  pub tasks : Pqueue Task
  pub after : r.after ≡ record p { tasks = tasks }
  pub queued :
      contents tasks.buckets ≡ (if r.added then insert_stable t.priority t (queue p) else queue p)
  pub holds : Holds r.after

add_queued-AddedTo :
    (p : Pool) (t : Task) (node_ok : Bool)
    → Holds p
    → Returns (AddedTo p t true node_ok) (add_queued p t node_ok granted)
unfolding add_queued entry
add_queued-AddedTo p t false h = rw (push_unchanged p.tasks t t.priority false granted (inl refl)) (
    returns (record {
      succeeds = refl;
      freed = refl;
      signals = refl;
      tasks = p.tasks;
      after = refl;
      queued = refl;
      holds = h;
    }))
add_queued-AddedTo p t true h =
    Returns-bind
      (push_refines p.tasks t t t.priority granted h.valid (inr refl) (rw h.borrows refl))
      λ (pos, q, given_back) (k, _). rw k.position (
        returns (record {
          succeeds = refl;
          freed = refl;
          signals = refl;
          tasks = q;
          after = refl;
          queued = k.stable;
          holds = record {
            valid = k.valid;
            borrows = k.same_clone ∙ h.borrows;
            frees = k.same_free ∙ h.frees;
          };
        }))

-- A task with a function is queued behind those of its priority or a higher one, with the default
-- callback where it has none, if its clone and its node can be allocated. Where an allocation gives
-- NULL, behind a handler of fatal errors that returns, the pool is as it was, and a clone is freed. The workers are signalled where a running pool got a task.
pub add_task-AddedTo :
    (p : Pool) (memory t : Task) (clone_ok node_ok : Bool)
    → Holds p
    → set_to t.func ≡ true
    → Returns
        (AddedTo p (with_callback p.dflt_callback t) clone_ok node_ok)
        (add_task p memory t clone_ok node_ok granted)
unfolding add_task add_clone task_clone
add_task-AddedTo p memory t false node_ok h f = rw f (
    returns (record {
      succeeds = refl;
      freed = refl;
      signals = refl;
      tasks = p.tasks;
      after = refl;
      queued = refl;
      holds = h;
    }))
add_task-AddedTo p memory t true node_ok h f =
    rw f (add_queued-AddedTo p (with_callback p.dflt_callback t) node_ok h)

-- A task that has no function is reported, and the program aborts.
pub add_task-unset :
    (p : Pool) (memory t : Task) (clone_ok node_ok : Bool) (grow : Realloc)
    → set_to t.func ≡ false
    → add_task p memory t clone_ok node_ok grow ≡ aborted
unfolding add_task
add_task-unset p memory t clone_ok node_ok grow e = rw e refl
