-- ===== src/Pqueue/Take.antt =====
-- The operations of src/ucb/container/pqueue.c that remove, read or free: pop, peek, size, empty,
-- clear, fit and release.
use ucb.Common.{
  ℕ, ◌+◌, ◌-◌, Bool, false, not, ◌&&◌, Option, none, some, List, [], ◌∷◌, ◌++◌, ltb, ◌==◌,
  if◌then◌else◌, length,
}
use ucb.Common.Outcome.{Realloc, reallocated, Outcome, ok, fault, ◌>>=◌}
use ucb.Pqueue.{Bucket, Pqueue, absent, initial_num_buckets, lock, unlock, access}

module _ {ℓ} {A : Type ℓ} where
  -- `pop_head` is the work on the first bucket; an empty node list would be read through NULL.
  unfoldable pub pop_head :
      Bucket A → List A → List (Bucket A) → Outcome (Option A × List (Bucket A))
  pop_head b [] bs = fault
  pop_head b (x ∷ xs) bs =
      let n = b.num_items - 1 in
      ok (some x, if n == 0 then bs else record b { items = xs; num_items = n } ∷ bs)

  unfoldable pub pop_buckets : List (Bucket A) → Outcome (Option A × List (Bucket A))
  unfolding pop_head
  pop_buckets [] = ok (none, [])
  pop_buckets (b ∷ bs) = pop_head b b.items bs

  unfoldable pub pop : Pqueue A → Outcome (Option A × Pqueue A)
  unfolding lock unlock access pop_buckets
  pop pq = do
    m ← lock pq.mutex
    bs ← access pq
    (r, bs') ← pop_buckets bs
    ok (r, record pq { buckets = bs'; mutex = unlock m })

  unfoldable pub peek_head : List A → Outcome (Option A)
  peek_head [] = fault
  peek_head (x ∷ xs) = ok (some x)

  unfoldable pub peek_buckets : List (Bucket A) → Outcome (Option A)
  unfolding peek_head
  peek_buckets [] = ok none
  peek_buckets (b ∷ bs) = peek_head b.items

  unfoldable pub peek : Pqueue A → Outcome (Option A × Pqueue A)
  unfolding lock unlock access peek_buckets
  peek pq = do
    m ← lock pq.mutex
    bs ← access pq
    r ← peek_buckets bs
    ok (r, record pq { mutex = unlock m })

  unfoldable pub size_loop : List (Bucket A) → ℕ → ℕ
  size_loop [] ret = ret
  size_loop (b ∷ bs) ret = size_loop bs (ret + b.num_items)

  unfoldable pub size : Pqueue A → Outcome (ℕ × Pqueue A)
  unfolding lock unlock access size_loop
  size pq = do
    m ← lock pq.mutex
    bs ← access pq
    ok (size_loop bs 0, record pq { mutex = unlock m })

  -- Only the count is read, never the array.
  unfoldable pub empty : Pqueue A → Outcome (Bool × Pqueue A)
  unfolding lock unlock
  empty pq = do m ← lock pq.mutex; ok (length pq.buckets == 0, record pq { mutex = unlock m })

  -- The data that the loops over buckets and nodes pass to `data_free`, in order.
  unfoldable pub clear_buckets : Bool → List (Bucket A) → List A
  clear_buckets frees [] = []
  clear_buckets frees (b ∷ bs) = (if frees then b.items else []) ++ clear_buckets frees bs

  unfoldable pub clear : Pqueue A → Outcome (List A × Pqueue A)
  unfolding lock unlock access clear_buckets
  clear pq = do
    m ← lock pq.mutex
    bs ← access pq
    ok (clear_buckets pq.data_free bs, record pq { buckets = []; mutex = unlock m })

  -- A failed ucb_realloc frees the array, and its NULL is stored all the same.
  unfoldable pub fit : Pqueue A → Realloc → Outcome (Pqueue A)
  unfolding lock unlock
  fit pq shrink = do
    m ← lock pq.mutex
    let n = length pq.buckets
    if ltb initial_num_buckets n && ltb n pq.alloc_buckets
        then (reallocated shrink >>= λ fits.
            ok (record pq { alloc_buckets = n; lost = not fits; mutex = unlock m }))
        else ok (record pq { mutex = unlock m })

  -- ucb_pqueue_release, and ucb_pqueue_free but for the structure itself: the freed data.
  unfoldable pub release : Pqueue A → Outcome (List A × Pqueue A)
  unfolding clear
  release pq = do
    (freed, cleared) ← clear pq
    ok (
      freed,
      record cleared { alloc_buckets = 0; data_clone = none; data_free = false; mutex = absent },
    )
