-- ===== src/Pqueue/Clear.antt =====
-- Clear, release and fit of src/ucb/container/pqueue.c: what is freed, and what is left.
use ucb.Common.{
  ℕ, ◌≤◌, ◌≡◌, refl, sym, ap, ◌∙◌, Bool, true, false, ◌&&◌, none, List, [], ◌∷◌, ◌++◌, ltb,
  if◌then◌else◌, length, arith, Bool-cases, inl, inr,
}
use ucb.Common.Outcome.{granted, Returns, returns, Returns-bind}
use ucb.Pqueue.{Bucket, Pqueue, absent, initial_num_buckets}
use ucb.Pqueue.Take.{clear_buckets, clear, fit, release}
use ucb.Pqueue.Lock.{lock-taken, unlock-taken, access-live}
use ucb.Pqueue.Remove.{KeepsSetup}
use ucb.Pqueue.Contents.{tag, contents, IsValid}

module _ {ℓ} {A : Type ℓ} where
  -- The data of the items.
  unfoldable pub items : List (ℕ × A) → List A
  items [] = []
  items ((p, x) ∷ l) = x ∷ items l

  items-tag : (p : ℕ) (xs : List A) (l : List (ℕ × A)) → items (tag p xs ++ l) ≡ xs ++ items l
  unfolding items
  items-tag p [] l = refl
  items-tag p (x ∷ xs) l = ap (◌∷◌ x) (items-tag p xs l)

  clear_buckets-items :
      (frees : Bool) (bs : List (Bucket A))
      → clear_buckets frees bs ≡ (if frees then items (contents bs) else [])
  unfolding clear_buckets items
  clear_buckets-items true [] = refl
  clear_buckets-items false [] = refl
  clear_buckets-items true (b ∷ bs) =
      ap (◌++◌ b.items) (clear_buckets-items true bs)
      ∙ sym (items-tag b.priority b.items (contents bs))
  clear_buckets-items false (b ∷ bs) = clear_buckets-items false bs

  -- The items that go to `data_free`: all of them, in the order of the queue, or none.
  abbrev Freed : Pqueue A → List A → Type ℓ
  Freed pq freed = freed ≡ (if pq.data_free then items (contents pq.buckets) else [])

  -- Clearing a valid queue hands each item to `data_free` once, in the order of the queue, where
  -- that function is set, and leaves a valid queue with no item and the same capacity.
  pub clear_lem :
      (pq : Pqueue A)
      → IsValid pq
      → Returns
          (λ r. Freed pq r.0 × (contents r.1.buckets ≡ []) × KeepsSetup pq r.1 × IsValid r.1)
          (clear pq)
  unfolding clear
  clear_lem pq v =
      rw (lock-taken pq.mutex v.unlocked, access-live pq v.live)
        (returns (
          clear_buckets-items pq.data_free pq.buckets,
          refl,
          (refl, refl, refl),
          record {
            descending = tt;
            counted = tt;
            room = omega arith;
            initial = v.initial;
            live = v.live;
            owned = v.owned;
            unlocked = rw (unlock-taken pq.mutex v.unlocked) v.unlocked;
          },
        ))

  -- Releasing a valid queue hands out the same items as clearing it, and forgets the array, the
  -- functions and the mutex.
  release_lem :
      (pq : Pqueue A)
      → IsValid pq
      → Returns
          (λ r.
            Freed pq r.0
            × (contents r.1.buckets ≡ [])
            × (r.1.alloc_buckets ≡ 0)
            × (r.1.data_clone ≡ none)
            × (r.1.data_free ≡ false)
            × (r.1.mutex ≡ absent))
          (release pq)
  unfolding release
  release_lem pq v =
      Returns-bind (clear_lem pq v)
        λ (freed, q) (f, e, _, _). returns (f, e, refl, refl, refl, refl)

  -- Fitting a valid queue changes no bucket, never raises the capacity above what it was, and keeps
  -- the queue valid, where the reallocation succeeds.
  fit_lem :
      (pq : Pqueue A)
      → IsValid pq
      → Returns
          (λ q.
            (q.buckets ≡ pq.buckets)
            × (q.alloc_buckets ≤ pq.alloc_buckets)
            × (length q.buckets ≤ q.alloc_buckets)
            × IsValid q)
          (fit pq granted)
  unfolding fit
  fit_lem pq v =
      rw (lock-taken pq.mutex v.unlocked)
        (elim (Bool-cases (
          ltb initial_num_buckets (length pq.buckets)
          && ltb (length pq.buckets) pq.alloc_buckets)) [
            | inl shrink ↦ rw shrink (
                returns (
                  refl,
                  v.room,
                  omega arith,
                  record {
                    descending = v.descending;
                    counted = v.counted;
                    room = omega arith;
                    initial = ground arith;
                    live = refl;
                    owned = v.owned;
                    unlocked = rw (unlock-taken pq.mutex v.unlocked) v.unlocked;
                  },
                ))
            | inr keep ↦ rw keep (
                returns (
                  refl,
                  omega arith,
                  v.room,
                  record {
                    descending = v.descending;
                    counted = v.counted;
                    room = v.room;
                    initial = v.initial;
                    live = v.live;
                    owned = v.owned;
                    unlocked = rw (unlock-taken pq.mutex v.unlocked) v.unlocked;
                  },
                ))
          ])
