-- ===== src/Pqueue/Contents.antt =====
-- The abstract view of the queue of src/ucb/container/pqueue.c: the items with their priorities, in
-- the order in which they will be popped, and the invariant of the representation.
use ucb.Common.{
  ◌&&◌, not, ℕ, suc, ◌+◌, ◌≤◌, ◌<◌, ◌≡◌, ◌≢◌, refl, ap, false, List, [], ◌∷◌, ◌++◌, leb,
  if◌then◌else◌, length, arith,
}
use ucb.Pqueue.{is_some, Bucket, Pqueue, held, initial_num_buckets}
use ucb.Pqueue.BinarySearch.{Descending}

module _ {ℓ} {A : Type ℓ} where
  -- The items of one bucket, with its priority.
  abbrev pub tag : ℕ → List A → List (ℕ × A)
  tag p [] = []
  tag p (x ∷ xs) = (p, x) ∷ tag p xs

  abbrev pub contents : List (Bucket A) → List (ℕ × A)
  contents [] = []
  contents (b ∷ bs) = tag b.priority b.items ++ contents bs

  -- A new item goes behind all items of its priority or a higher one.
  abbrev pub insert_stable : ℕ → A → List (ℕ × A) → List (ℕ × A)
  insert_stable p x [] = (p, x) ∷ []
  insert_stable p x ((q, y) ∷ l) =
      if leb p q then (q, y) ∷ insert_stable p x l else (p, x) ∷ (q, y) ∷ l

  -- The items of priority `p` or higher.
  abbrev pub count_ge : ℕ → List (ℕ × A) → ℕ
  count_ge p [] = 0
  count_ge p ((q, y) ∷ l) = (if leb p q then 1 else 0) + count_ge p l

  -- Every bucket counts its items, and has one.
  abbrev pub Counted : List (Bucket A) → Type 0
  Counted [] = Unit
  Counted (b ∷ bs) = (b.num_items ≡ length b.items) × (0 < b.num_items) × Counted bs

  pub record IsValid (pq : Pqueue A) : Type 0 where
    pub descending : Descending pq.buckets
    pub counted : Counted pq.buckets
    pub room : length pq.buckets ≤ pq.alloc_buckets
    pub initial : initial_num_buckets ≤ pq.alloc_buckets
    pub live : pq.lost ≡ false
    pub owned : (is_some pq.data_clone && not pq.data_free) ≡ false
    pub unlocked : pq.mutex ≢ held

  pub length-tag : (p : ℕ) (xs : List A) → length (tag p xs) ≡ length xs
  length-tag p [] = refl
  length-tag p (x ∷ xs) = ap suc (length-tag p xs)

  -- Past a block of priority `p` or higher.
  pub insert_stable-tag :
      (p q : ℕ) (x : A) (xs : List A) (l : List (ℕ × A))
      → p ≤ q
      → insert_stable p x (tag q xs ++ l) ≡ tag q xs ++ insert_stable p x l
  insert_stable-tag p q x [] l h = refl
  insert_stable-tag p q x (y ∷ ys) l h = ground (arith, insert_stable-tag p q x ys l h)

  pub count_ge-tag :
      (p q : ℕ) (xs : List A) (l : List (ℕ × A))
      → p ≤ q
      → count_ge p (tag q xs ++ l) ≡ length xs + count_ge p l
  count_ge-tag p q [] l h = omega arith
  count_ge-tag p q (y ∷ ys) l h = ground (arith, count_ge-tag p q ys l h)

  pub count_ge-tag_lower :
      (p q : ℕ) (xs : List A) (l : List (ℕ × A)) → q < p → count_ge p (tag q xs ++ l) ≡ count_ge p l
  count_ge-tag_lower p q [] l h = refl
  count_ge-tag_lower p q (y ∷ ys) l h = ground (arith, count_ge-tag_lower p q ys l h)

  pub tag-append :
      (p : ℕ) (xs : List A) (x : A) (l : List (ℕ × A))
      → tag p (xs ++ (x ∷ [])) ++ l ≡ tag p xs ++ ((p, x) ∷ l)
  tag-append p [] x l = refl
  tag-append p (y ∷ ys) x l = ap (◌∷◌ (p, y)) (tag-append p ys x l)
