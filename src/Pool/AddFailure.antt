-- ===== src/Pool/AddFailure.antt =====
-- ucb_threadpool_add_task of src/ucb/threads/threadpool.c where the queue's array cannot grow.
use ucb.Common.{◌≡◌, refl, true, false, length, [], ◌∷◌}
use ucb.Common.Outcome.{granted, null, Returns, returns, Returns-bind, fault}
use ucb.Pqueue.{absent}
use ucb.Pqueue.Take
use ucb.Pqueue.Push.{entry}
use ucb.Pqueue.Failure.{Lacks, push-stranded, stranded_faults}
use ucb.Task.{Task, set_to, task_clone}
use ucb.Pool.{Pool, add_queued, add_clone, add_task, with_callback}
use ucb.Pool.Sections.{Holds}

-- On a pool with a valid queue whose array is full and has no task of the priority, where there is
-- no memory for a larger array and a handler of fatal errors returns, the call returns false and frees the clone, and without a mutex of
-- its own the queue faults at the next pop.
add_task-stranded :
    (p : Pool) (memory t : Task)
    → Holds p
    → set_to t.func ≡ true
    → length p.tasks.buckets ≡ p.tasks.alloc_buckets
    → Lacks (with_callback p.dflt_callback t).priority p.tasks.buckets
    → p.tasks.mutex ≡ absent
    → Returns
        (λ r.
          (r.added ≡ false)
          × (r.freed ≡ with_callback p.dflt_callback t ∷ [])
          × (Take.pop r.after.tasks ≡ fault))
        (add_task p memory t true true null)
unfolding add_task add_clone add_queued task_clone entry
add_task-stranded p memory t h f full lacks m =
    let u = with_callback p.dflt_callback t in
    rw f (
      Returns-bind (push-stranded p.tasks u u u.priority h.valid full lacks (rw h.borrows refl)).1
        λ (pos, q, back) (e, s).
          rw (e, s) (returns (refl, refl, (stranded_faults p.tasks u 0 granted m).1)))
