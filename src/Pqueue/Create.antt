-- ===== src/Pqueue/Create.antt =====
-- ucb_pqueue_new and ucb_pqueue_new_mt of src/ucb/container/pqueue.c.
use ucb.Common.{
  ◌≡◌, refl, Bool, true, false, not, ◌&&◌, Option, none, some, arith, Bool-cases, inl, inr, ◌⊎◌,
}
use ucb.Common.Outcome.{ok, aborted}
use ucb.Pqueue.{is_some, empty_queue, init_common, new}
use ucb.Pqueue.Contents.{IsValid}

module _ {ℓ} {A : Type ℓ} where
  -- The queue that a successful call makes.
  empty-IsValid :
      (is_mt frees : Bool) (clone : Option (A → Option A))
      → (is_some clone && not frees) ≡ false
      → IsValid (empty_queue is_mt clone frees)
  empty-IsValid true frees clone h = record {
    descending = tt;
    counted = tt;
    room = omega arith;
    initial = omega arith;
    live = refl;
    owned = h;
    unlocked = cc;
  }
  empty-IsValid false frees clone h = record {
    descending = tt;
    counted = tt;
    room = omega arith;
    initial = omega arith;
    live = refl;
    owned = h;
    unlocked = cc;
  }

  -- A new queue: aborted where data would be cloned and could not be freed; otherwise NULL exactly
  -- where one of the two allocations fails, and else a valid queue with no item.
  new_lem :
      (is_mt struct_ok alloc_ok frees : Bool) (clone : Option (A → Option A))
      → ((is_some clone && not frees) ≡ true)
          × (struct_ok ≡ true)
          × (new is_mt struct_ok alloc_ok clone frees ≡ aborted)
        ⊎ ((struct_ok && alloc_ok) ≡ false) × (new is_mt struct_ok alloc_ok clone frees ≡ ok none)
        ⊎ ((is_some clone && not frees) ≡ false)
          × (new is_mt struct_ok alloc_ok clone frees ≡ ok (some (empty_queue is_mt clone frees)))
          × IsValid (empty_queue is_mt clone frees)
  unfolding new init_common
  new_lem is_mt false alloc_ok frees clone = inr (inl (refl, refl))
  new_lem is_mt true alloc_ok frees clone = elim (Bool-cases (is_some clone && not frees)) [
    | inl bad ↦ inl (bad, refl, rw bad)
    | inr good ↦ created alloc_ok good
  ]
    where
      created :
          (a : Bool)
          → (is_some clone && not frees) ≡ false
          → ((is_some clone && not frees) ≡ true)
              × (◌≡◌ {A = Bool} true true)
              × (new is_mt true a clone frees ≡ aborted)
            ⊎ (a ≡ false) × (new is_mt true a clone frees ≡ ok none)
            ⊎ ((is_some clone && not frees) ≡ false)
              × (new is_mt true a clone frees ≡ ok (some (empty_queue is_mt clone frees)))
              × IsValid (empty_queue is_mt clone frees)
      created false good = inr (inl (refl, rw good))
      created true good = inr (inr (good, rw good, empty-IsValid is_mt frees clone good))
