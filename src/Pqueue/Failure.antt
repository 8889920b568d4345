-- ===== src/Pqueue/Failure.antt =====
-- What src/ucb/container/pqueue.c does where an allocation or a clone fails.
use ucb.Common.{
  ℕ, suc, ◌≡◌, ◌≢◌, refl, ◌⊎◌, inl, inr, Bool, true, false, not, ◌&&◌, Option, none, some, List, [],
  ◌∷◌, ◌==◌, ltb, length, arith, Bool-cases,
}
use ucb.Common.Outcome.{
  Outcome, aborted, null, fatal, null, Realloc, ok, fault, blocked, Returns, returns,
}
use ucb.Pqueue.{
  is_some, Bucket, Pqueue, absent, free, missing, place, push_bucket, push_node, give_back,
  push_data, push_clone, push_with, push,
}
use ucb.Pqueue.Take
use ucb.Pqueue.BinarySearch.{locate, search_bucket-locate}
use ucb.Pqueue.Lock.{taken, lock-taken, access-live}
use ucb.Pqueue.Contents.{IsValid}
use ucb.Pqueue.Push.{entry}

module _ {ℓ} {A : Type ℓ} where
  -- A push whose node cannot be allocated, or whose data cannot be cloned, returns SIZE_MAX, leaves
  -- the queue as it was and frees no data.
  pub push_unchanged :
      (pq : Pqueue A) (x : A) (p : ℕ) (node_ok : Bool) (grow : Realloc)
      → (node_ok ≡ false) ⊎ (entry pq.data_clone x ≡ none)
      → push pq x p node_ok grow ≡ ok (none, pq, [])
  unfolding push push_with push_clone entry
  push_unchanged pq x p false grow h = refl
  push_unchanged pq x p true grow (inl h) = absurd (cc)
  push_unchanged pq x p true grow (inr h) = no_entry pq.data_clone h
    where
      no_entry :
          (clone : Option (A → Option A))
          → entry clone x ≡ none
          → push_with pq clone x p grow ≡ ok (none, pq, [])
      no_entry none e = absurd (cc)
      no_entry (some clone) e = rw e

  -- The queue that a push leaves behind where the array had to grow and could not.
  abbrev pub stranded : Pqueue A → Pqueue A
  stranded pq = record pq { lost = true; mutex = taken pq.mutex }

  -- No bucket has the priority `p`.
  abbrev pub Lacks : ℕ → List (Bucket A) → Type 0
  Lacks p [] = Unit
  Lacks p (b ∷ bs) = (b.priority ≢ p) × Lacks p bs

  locate-Lacks : (bs : List (Bucket A)) (p : ℕ) → Lacks p bs → (i : ℕ) × (locate bs p ≡ missing i)
  unfolding locate
  locate-Lacks [] p h = (0, refl)
  locate-Lacks (b ∷ bs) p h =
      let (i, rest) = locate-Lacks bs p h.1 in
      elim (Bool-cases (ltb p b.priority)) [
        | inl up ↦ (suc i, rw (up, rest))
        | inr here ↦ (0, ground arith)
      ]

  -- How a push goes on where the array is full and the priority new.
  push_node-full :
      (pq : Pqueue A) (x : A) (p : ℕ)
      → IsValid pq
      → length pq.buckets ≡ pq.alloc_buckets
      → Lacks p pq.buckets
      → (push_node pq p x null ≡ ok (none, stranded pq)) × (push_node pq p x fatal ≡ aborted)
  unfolding push_node place push_bucket
  push_node-full pq x p v full lacks =
      let (i, at) = locate-Lacks pq.buckets p lacks in
      let full' : (length pq.buckets == pq.alloc_buckets) ≡ true = ground arith in
      let searched = search_bucket-locate pq.buckets p v.descending in
      (
        rw (lock-taken pq.mutex v.unlocked, access-live pq v.live) (rw (searched, at) (rw full')),
        rw (lock-taken pq.mutex v.unlocked, access-live pq v.live) (rw (searched, at) (rw full')),
      )

  -- The same of the push with its data, where the reallocation ends by `grow`.
  abbrev Stuck : Pqueue A → (Realloc → Outcome (Option ℕ × Pqueue A × List A)) → Type ℓ
  Stuck pq call =
      Returns (λ r. (r.0 ≡ none) × (r.1 ≡ stranded pq)) (call null) × (call fatal ≡ aborted)

  push_with-Stuck :
      (pq : Pqueue A) (clone : Option (A → Option A)) (x y : A) (p : ℕ)
      → IsValid pq
      → (is_some clone && not pq.data_free) ≡ false
      → length pq.buckets ≡ pq.alloc_buckets
      → Lacks p pq.buckets
      → entry clone x ≡ some y
      → Stuck pq (push_with pq clone x p)
  unfolding push_with push_clone push_data give_back entry is_some
  push_with-Stuck pq none x y p v o full lacks e =
      let (null_case, fatal_case) = push_node-full pq x p v full lacks in
      (rw null_case (returns (refl, refl)), rw fatal_case refl)
  push_with-Stuck pq (some clone) x y p v o full lacks e =
      let frees : pq.data_free ≡ true = ground arith in
      let (null_case, fatal_case) = push_node-full pq y p v full lacks in
      (rw (e, null_case, frees) (returns (refl, refl)), rw (e, fatal_case) refl)

  -- Where the array is full, the priority is new and there is no memory for a larger array, a push
  -- aborts the program, unless the user has set a handler of fatal errors that returns: then it
  -- returns SIZE_MAX and leaves the bucket array freed and the mutex, if there is one, held.
  pub push-stranded :
      (pq : Pqueue A) (x y : A) (p : ℕ)
      → IsValid pq
      → length pq.buckets ≡ pq.alloc_buckets
      → Lacks p pq.buckets
      → entry pq.data_clone x ≡ some y
      → (push pq x p true fatal ≡ aborted)
        × Returns (λ r. (r.0 ≡ none) × (r.1 ≡ stranded pq)) (push pq x p true null)
  unfolding push
  push-stranded pq x y p v full lacks e =
      let (null_case, fatal_case) = push_with-Stuck pq pq.data_clone x y p v v.owned full lacks e in
      (fatal_case, null_case)

  -- After such a push every operation on a queue with a mutex waits for ever.
  pub stranded_blocked :
      (pq : Pqueue A) (x : A) (p : ℕ) (grow : Realloc)
      → pq.mutex ≡ free
      → let q = stranded pq in
        (push_node q p x grow ≡ blocked)
        × (Take.pop q ≡ blocked)
        × (Take.peek q ≡ blocked)
        × (Take.size q ≡ blocked)
        × (Take.empty q ≡ blocked)
        × (Take.clear q ≡ blocked)
  unfolding push_node Take.pop Take.peek Take.size Take.empty Take.clear taken
  stranded_blocked pq x p grow e = rw e (refl, refl, refl, refl, refl, refl)

  -- After such a push every operation on the array of a queue with no mutex reads freed memory.
  pub stranded_faults :
      (pq : Pqueue A) (x : A) (p : ℕ) (grow : Realloc)
      → pq.mutex ≡ absent
      → let q = stranded pq in
        (push_node q p x grow ≡ fault)
        × (Take.pop q ≡ fault)
        × (Take.peek q ≡ fault)
        × (Take.size q ≡ fault)
        × (Take.clear q ≡ fault)
  unfolding push_node Take.pop Take.peek Take.size Take.clear taken
  stranded_faults pq x p grow e = rw e (refl, refl, refl, refl, refl)

  -- The test for emptiness reads only the count, which is still there.
  empty-stranded :
      (pq : Pqueue A)
      → pq.mutex ≡ absent
      → Take.empty (stranded pq) ≡ ok (length pq.buckets == 0, stranded pq)
  unfolding Take.empty taken
  empty-stranded pq e = rw e refl
