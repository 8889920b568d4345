-- ===== src/Pqueue/Push.antt =====
-- ucb_pqueue_push of src/ucb/container/pqueue.c against the abstract queue, where memory suffices.
use ucb.Common.{
  ℕ, zero, suc, ◌<◌, ◌≡◌, refl, ap, ◌⊎◌, inl, inr, Bool, true, false, Option, none, some, List, [],
  ◌∷◌, ◌==◌, length, arith, Bool-cases,
}
use ucb.Common.Outcome.{Realloc, granted, Returns, returns, Returns-bind}
use ucb.Pqueue.{
  Bucket, Pqueue, Search, found, missing, outside, out_of_fuel, append_at, insert_at, pushed,
  push_bucket, place, push_node, give_back, push_data, push_clone, push_with, push,
}
use ucb.Pqueue.BinarySearch.{locate, search_bucket-locate}
use ucb.Pqueue.Contents.{contents, insert_stable, count_ge, IsValid}
use ucb.Pqueue.Lock.{taken, lock-taken, unlock-taken, access-live}
use ucb.Pqueue.Insert.{placed, IsPlace, Inserted, locate-IsPlace, locate-Inserted}

module _ {ℓ} {A : Type ℓ} where
  length-append_at : (bs : List (Bucket A)) (i : ℕ) (x : A) → length (append_at bs i x) ≡ length bs
  unfolding append_at
  length-append_at [] i x = refl
  length-append_at (b ∷ bs) zero x = refl
  length-append_at (b ∷ bs) (suc i) x = ap suc (length-append_at bs i x)

  length-insert_at :
      (bs : List (Bucket A)) (i : ℕ) (b : Bucket A) → length (insert_at bs i b) ≡ suc (length bs)
  unfolding insert_at
  length-insert_at bs zero b = refl
  length-insert_at [] (suc i) b = refl
  length-insert_at (c ∷ bs) (suc i) b = ap suc (length-insert_at bs i b)

  -- What a push of `x` with priority `p` makes of the queue: its result is the item's position.
  pub record Queued (pq : Pqueue A) (p : ℕ) (x : A) (r : Option ℕ × Pqueue A) : Type ℓ where
    pub position : r.0 ≡ some (count_ge p (contents pq.buckets))
    pub stable : contents r.1.buckets ≡ insert_stable p x (contents pq.buckets)
    pub valid : IsValid r.1
    pub same_clone : r.1.data_clone ≡ pq.data_clone
    pub same_free : r.1.data_free ≡ pq.data_free

  -- With the mutex taken and the place found.
  place-Queued :
      (pq : Pqueue A) (s : Search) (p : ℕ) (x : A) (grow : Realloc)
      → IsValid pq
      → (length pq.buckets < pq.alloc_buckets) ⊎ (grow ≡ granted)
      → IsPlace s
      → Inserted pq.buckets p x s
      → Returns (Queued pq p x) (place (record pq { mutex = taken pq.mutex }) pq.buckets s p x grow)
  unfolding place placed pushed push_bucket
  place-Queued pq (found i) p x grow v g k ins = returns (record {
    position = ap some ins.position;
    stable = ins.stable;
    valid = record {
      descending = ins.descending;
      counted = ins.counted;
      room = rw length-append_at v.room;
      initial = v.initial;
      live = v.live;
      owned = v.owned;
      unlocked = rw (unlock-taken pq.mutex v.unlocked) v.unlocked;
    };
    same_clone = refl;
    same_free = refl;
  })
  place-Queued pq (missing i) p x grow v g k ins =
      elim (Bool-cases (length pq.buckets == pq.alloc_buckets)) [
        | inl full ↦
            let may : grow ≡ granted = ground arith in
            rw (full, may)
              (returns (record {
                position = ap some ins.position;
                stable = ins.stable;
                valid = record {
                  descending = ins.descending;
                  counted = ins.counted;
                  room = rw length-insert_at (ground (arith, v.initial, v.room));
                  initial = omega (arith, v.initial);
                  live = v.live;
                  owned = v.owned;
                  unlocked = rw (unlock-taken pq.mutex v.unlocked) v.unlocked;
                };
                same_clone = refl;
                same_free = refl;
              }))
        | inr roomy ↦ rw roomy (
            returns (record {
              position = ap some ins.position;
              stable = ins.stable;
              valid = record {
                descending = ins.descending;
                counted = ins.counted;
                room = rw length-insert_at (ground (arith, v.room));
                initial = v.initial;
                live = v.live;
                owned = v.owned;
                unlocked = rw (unlock-taken pq.mutex v.unlocked) v.unlocked;
              };
              same_clone = refl;
              same_free = refl;
            }))
      ]
  place-Queued pq outside p x grow v g k ins = absurd k
  place-Queued pq out_of_fuel p x grow v g k ins = absurd k

  push_node-Queued :
      (pq : Pqueue A) (p : ℕ) (x : A) (grow : Realloc)
      → IsValid pq
      → (length pq.buckets < pq.alloc_buckets) ⊎ (grow ≡ granted)
      → Returns (Queued pq p x) (push_node pq p x grow)
  unfolding push_node
  push_node-Queued pq p x grow v g =
      rw
        (
          lock-taken pq.mutex v.unlocked,
          access-live pq v.live,
          search_bucket-locate pq.buckets p v.descending,
        )
        (place-Queued pq (locate pq.buckets p) p x grow v g (locate-IsPlace pq.buckets p)
          (locate-Inserted pq.buckets p x v.descending v.counted))

  -- What a push stores: the data itself, or its clone (`none` where cloning fails).
  unfoldable pub entry : Option (A → Option A) → A → Option A
  entry none x = some x
  entry (some clone) x = clone x

  Queued-kept :
      (pq : Pqueue A) (p : ℕ) (y : A) (cloned : Bool) (r : Option ℕ × Pqueue A)
      → Queued pq p y r
      → Returns (λ r. Queued pq p y (r.0, r.1) × (r.2 ≡ [])) (give_back cloned y r)
  unfolding give_back
  Queued-kept pq p y cloned (none, q) h = absurd (cc h.position)
  Queued-kept pq p y true (some pos, q) h = returns (h, refl)
  Queued-kept pq p y false (some pos, q) h = returns (h, refl)

  push_data-Queued :
      (pq : Pqueue A) (cloned : Bool) (y : A) (p : ℕ) (grow : Realloc)
      → IsValid pq
      → (length pq.buckets < pq.alloc_buckets) ⊎ (grow ≡ granted)
      → Returns (λ r. Queued pq p y (r.0, r.1) × (r.2 ≡ [])) (push_data pq cloned y p grow)
  unfolding push_data
  push_data-Queued pq cloned y p grow v g =
      Returns-bind (push_node-Queued pq p y grow v g) (Queued-kept pq p y cloned)

  push_with-Queued :
      (pq : Pqueue A) (clone : Option (A → Option A)) (x y : A) (p : ℕ) (grow : Realloc)
      → IsValid pq
      → (length pq.buckets < pq.alloc_buckets) ⊎ (grow ≡ granted)
      → entry clone x ≡ some y
      → Returns (λ r. Queued pq p y (r.0, r.1) × (r.2 ≡ [])) (push_with pq clone x p grow)
  unfolding push_with push_clone entry
  push_with-Queued pq none x y p grow v g e =
      let same : x ≡ y = cc in rw (← same) (push_data-Queued pq false x p grow v g)
  push_with-Queued pq (some clone) x y p grow v g e = rw e (push_data-Queued pq true y p grow v g)

  -- On a valid queue, a push whose allocations succeed (a larger array only where the array is full)
  -- returns the number of items of the same or a higher priority, inserts the stored data right
  -- behind those items and nowhere else, frees nothing and leaves a valid queue.
  pub push_refines :
      (pq : Pqueue A) (x y : A) (p : ℕ) (grow : Realloc)
      → IsValid pq
      → (length pq.buckets < pq.alloc_buckets) ⊎ (grow ≡ granted)
      → entry pq.data_clone x ≡ some y
      → Returns (λ r. Queued pq p y (r.0, r.1) × (r.2 ≡ [])) (push pq x p true grow)
  unfolding push
  push_refines pq x y p grow v g e = push_with-Queued pq pq.data_clone x y p grow v g e
