-- ===== src/Pqueue/Remove.antt =====
-- Pop, peek, size, empty and clear of src/ucb/container/pqueue.c against the abstract queue.
use ucb.Common.{
  ℕ, suc, ◌+◌, ◌-◌, ◌≤◌, ◌<◌, ◌≡◌, refl, ap, ap₂, true, false, Option, none, some, List, [], ◌∷◌,
  ◌++◌, ◌==◌, length, arith, length-append,
}
use ucb.Common.Outcome.{ok, Returns, returns, Returns-bind}
use ucb.Pqueue.{Bucket, Pqueue, unlock}
use ucb.Pqueue.Take.{
  pop_head, pop_buckets, pop, peek_head, peek_buckets, peek, size_loop, size, empty,
}
use ucb.Pqueue.BinarySearch.{Descending}
use ucb.Pqueue.Lock.{taken, lock-taken, unlock-taken, access-live}
use ucb.Pqueue.Contents.{tag, contents, Counted, IsValid, length-tag}

module _ {ℓ} {A : Type ℓ} where
  -- The first item, and the others.
  abbrev pub pop_first : List (ℕ × A) → Option A × List (ℕ × A)
  pop_first [] = (none, [])
  pop_first ((p, x) ∷ l) = (some x, l)

  -- The bucket array after a pop.
  record Popped (bs : List (Bucket A)) (r : Option A × List (Bucket A)) : Type ℓ where
    first : (r.0, contents r.1) ≡ pop_first (contents bs)
    descending : Descending r.1
    counted : Counted r.1
    shorter : length r.1 ≤ length bs

  pop_head-Popped :
      (b : Bucket A) (xs : List A) (bs : List (Bucket A))
      → b.items ≡ xs
      → Descending (b ∷ bs)
      → Counted (b ∷ bs)
      → Returns (Popped (b ∷ bs)) (pop_head b xs bs)
  unfolding pop_head
  pop_head-Popped b [] bs e d c =
      let short : length b.items ≡ 0 = ap length e in absurd (omega arith)
  pop_head-Popped b (x ∷ []) bs e d c =
      let size : length b.items ≡ 1 = ap length e in
      let last : (b.num_items - 1 == 0) ≡ true = ground arith in
      rw last (
        returns
          (record { first = rw e refl; descending = d.1; counted = c.2; shorter = omega arith }))
  pop_head-Popped b (x ∷ y ∷ ys) bs e d c =
      let size : length b.items ≡ suc (suc (length ys)) = ap length e in
      let more : (b.num_items - 1 == 0) ≡ false = ground arith in
      rw more (
        returns (record {
          first = rw e refl;
          descending = d;
          counted = (omega arith, omega arith, c.2);
          shorter = omega arith;
        }))

  pop_buckets-Popped :
      (bs : List (Bucket A)) → Descending bs → Counted bs → Returns (Popped bs) (pop_buckets bs)
  unfolding pop_buckets
  pop_buckets-Popped [] d c =
      returns (record { first = refl; descending = d; counted = c; shorter = omega arith })
  pop_buckets-Popped (b ∷ bs) d c = pop_head-Popped b b.items bs refl d c

  -- What an operation that changes only the buckets keeps.
  abbrev pub KeepsSetup : Pqueue A → Pqueue A → Type ℓ
  KeepsSetup pq q =
      (q.data_clone ≡ pq.data_clone)
      × (q.data_free ≡ pq.data_free)
      × (q.alloc_buckets ≡ pq.alloc_buckets)

  -- On a valid queue pop returns the first item of the abstract queue (NULL exactly on an empty
  -- one), leaves the others in order, and leaves a valid queue.
  pub pop_refines :
      (pq : Pqueue A)
      → IsValid pq
      → Returns
          (λ r.
            ((r.0, contents r.1.buckets) ≡ pop_first (contents pq.buckets))
            × IsValid r.1
            × KeepsSetup pq r.1)
          (pop pq)
  unfolding pop
  pop_refines pq v =
      rw (lock-taken pq.mutex v.unlocked, access-live pq v.live)
        (Returns-bind (pop_buckets-Popped pq.buckets v.descending v.counted) λ (x, bs) h. returns (
          h.first,
          record {
            descending = h.descending;
            counted = h.counted;
            room = omega (arith, h.shorter, v.room);
            initial = v.initial;
            live = v.live;
            owned = v.owned;
            unlocked = rw (unlock-taken pq.mutex v.unlocked) v.unlocked;
          },
          (refl, refl, refl),
        ))

  -- The queue with its mutex taken and given back is the queue.
  restored : (pq : Pqueue A) → IsValid pq → record pq { mutex = unlock (taken pq.mutex) } ≡ pq
  restored pq v = rw (unlock-taken pq.mutex v.unlocked)

  peek_head-first :
      (p : ℕ) (xs : List A) (l : List (ℕ × A))
      → 0 < length xs
      → peek_head xs ≡ ok (pop_first (tag p xs ++ l)).0
  unfolding peek_head
  peek_head-first p [] l h = absurd (omega arith)
  peek_head-first p (x ∷ xs) l h = refl

  peek_buckets-first :
      (bs : List (Bucket A)) → Counted bs → peek_buckets bs ≡ ok (pop_first (contents bs)).0
  unfolding peek_buckets
  peek_buckets-first [] c = refl
  peek_buckets-first (b ∷ bs) c = peek_head-first b.priority b.items (contents bs) (omega arith)

  -- On a valid queue peek returns the item that pop would, and changes nothing.
  pub peek_refines :
      (pq : Pqueue A) → IsValid pq → peek pq ≡ ok ((pop_first (contents pq.buckets)).0, pq)
  unfolding peek
  peek_refines pq v =
      rw
        (
          lock-taken pq.mutex v.unlocked,
          access-live pq v.live,
          peek_buckets-first pq.buckets v.counted,
        )
        (ap (λ q. ok ((pop_first (contents pq.buckets)).0, q)) (restored pq v))

  size_loop-length :
      (bs : List (Bucket A)) (n : ℕ) → Counted bs → size_loop bs n ≡ n + length (contents bs)
  unfolding size_loop
  size_loop-length [] n c = omega arith
  size_loop-length (b ∷ bs) n c = omega (
    arith,
    size_loop-length bs (n + b.num_items) c.2,
    length-append (tag b.priority b.items) (contents bs),
    length-tag b.priority b.items,
  )

  -- On a valid queue size is the number of items, and nothing changes.
  pub size_refines : (pq : Pqueue A) → IsValid pq → size pq ≡ ok (length (contents pq.buckets), pq)
  unfolding size
  size_refines pq v =
      rw
        (
          lock-taken pq.mutex v.unlocked,
          access-live pq v.live,
          size_loop-length pq.buckets 0 v.counted,
        )
        (ap₂ (λ n q. ok (n, q)) (omega arith) (restored pq v))

  contents-empty :
      (bs : List (Bucket A)) → Counted bs → (length bs == 0) ≡ (length (contents bs) == 0)
  contents-empty [] c = refl
  contents-empty (b ∷ bs) c =
      ground
        (arith, length-append (tag b.priority b.items) (contents bs), length-tag b.priority b.items)

  -- On a valid queue empty says whether there is no item, and changes nothing.
  pub empty_refines :
      (pq : Pqueue A) → IsValid pq → empty pq ≡ ok (length (contents pq.buckets) == 0, pq)
  unfolding empty
  empty_refines pq v =
      rw (lock-taken pq.mutex v.unlocked)
        (ap₂ (λ n q. ok (n, q)) (contents-empty pq.buckets v.counted) (restored pq v))
