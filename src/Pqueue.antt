-- ===== src/Pqueue.antt =====
-- The priority queue: src/ucb/container/pqueue.c and pqueue_private.h.
-- `buckets` is the first `num_buckets` entries of the array, so `num_buckets` is its length; the
-- array has room for `alloc_buckets`. A bucket's `items` are the data of the nodes from `first` to
-- `last`, in that order. An `int` priority p is kept as p + 2 ^ 31, since the code only compares it.
-- Whether an allocation succeeds is an argument of the operation that makes it, and SIZE_MAX and
-- NULL results are `none`.
pub mod Take
pub mod BinarySearch
pub mod Contents
pub mod Insert
pub mod Lock
pub mod Push
pub mod Remove
pub mod Failure
pub mod Clear
pub mod Session
pub mod Create
mod Tests
use ucb.Common.{
  ℕ, zero, suc, ◌+◌, ◌-◌, ◌*◌, ◌/◌, ◌≡◌, Bool, true, false, not, ◌&&◌, ◌||◌, Option, none, some,
  List, [], ◌∷◌, ◌++◌, ltb, leb, ◌==◌, if◌then◌else◌, length, get_elem?,
}
use ucb.Common.Outcome.{
  Realloc, reallocated, Outcome, ok, fault, aborted, blocked, ◌>>=◌, ◌>>◌, verify,
}

pub record Bucket {ℓ} (A : Type ℓ) : Type ℓ where
  pub priority : ℕ
  pub items : List A
  pub num_items : ℕ

-- `pq->mutex`: NULL, or a mutex that is free or held.
pub data Mutex : Type 0 where
  absent free held : Mutex

-- `lost` says that a failed reallocation has freed the array while `pq->buckets` is dangling or
-- NULL. `data_free` says whether that function is set: what it is called on is a result.
pub record Pqueue {ℓ} (A : Type ℓ) : Type ℓ where
  pub buckets : List (Bucket A)
  pub alloc_buckets : ℕ
  pub lost : Bool
  pub data_clone : Option (A → Option A)
  pub data_free : Bool
  pub mutex : Mutex

abbrev pub initial_num_buckets : ℕ
initial_num_buckets = 16

abbrev grow_factor : ℕ
grow_factor = 2

-- LOCK_MUTEX and UNLOCK_MUTEX. A thread that locks a mutex that is held waits.
unfoldable pub lock : Mutex → Outcome Mutex
lock absent = ok absent
lock free = ok held
lock held = blocked

unfoldable pub unlock : Mutex → Mutex
unlock absent = absent
unlock free = free
unlock held = free

-- The results of the binary search: an index, or `-(index + 1)` for an insert point.
pub data Search : Type 0 where
  found missing : ℕ → Search
  outside out_of_fuel : Search

-- What ucb_pqueue_push returns, the queue after it, and the data given to `data_free`.
abbrev Pushed {ℓ} : Type ℓ → Type ℓ
Pushed A = Option ℕ × Pqueue A × List A

unfoldable pub is_some {ℓ} : {A : Type ℓ} → Option A → Bool
is_some none = false
is_some (some f) = true

module _ {ℓ} {A : Type ℓ} where
  abbrev pub empty_queue : Bool → Option (A → Option A) → Bool → Pqueue A
  empty_queue is_mt clone frees = record {
    buckets = [];
    alloc_buckets = initial_num_buckets;
    lost = false;
    data_clone = clone;
    data_free = frees;
    mutex = if is_mt then free else absent;
  }

  -- `none` is the result false: the array could not be allocated.
  pub init_common : Bool → Bool → Option (A → Option A) → Bool → Outcome (Option (Pqueue A))
  unfolding is_some
  init_common is_mt alloc_ok clone frees = do
    verify (not (is_some clone && not frees))
    ok (if alloc_ok then some (empty_queue is_mt clone frees) else none)

  -- `mid = low + (high - low) / 2` with `high = end - 1`, so that `high = -1` is `end = 0`.
  unfoldable pub search_loop : ℕ → List (Bucket A) → ℕ → ℕ → ℕ → Search
  search_loop zero bs prio low end = out_of_fuel
  search_loop (suc fuel) bs prio low end =
      let mid = low + (end - 1 - low) / 2 in
      elim (ltb low end) [
        | false ↦ missing low
        | true ↦ elim (get_elem? bs mid) [
          | none ↦ outside
          | some b ↦ elim (b.priority == prio) [
            | true ↦ found mid
            | false ↦ elim (leb prio b.priority) [
              | true ↦ search_loop fuel bs prio (mid + 1) end
              | false ↦ search_loop fuel bs prio low mid
            ]
          ]
        ]
      ]

  unfoldable pub search_bucket : List (Bucket A) → ℕ → Search
  unfolding search_loop
  search_bucket bs prio = search_loop (length bs + 1) bs prio 0 (length bs)

  -- The array, if it is still there.
  unfoldable pub access : Pqueue A → Outcome (List (Bucket A))
  access pq = if pq.lost then fault else ok pq.buckets

  -- The bucket at `i` gets the node at its end.
  unfoldable pub append_at : List (Bucket A) → ℕ → A → List (Bucket A)
  append_at [] i x = []
  append_at (b ∷ bs) zero x =
      record b { items = b.items ++ (x ∷ []); num_items = b.num_items + 1 } ∷ bs
  append_at (b ∷ bs) (suc i) x = b ∷ append_at bs i x

  -- memmove of the entries from `i` on, and the new bucket at `i`.
  unfoldable pub insert_at : List (Bucket A) → ℕ → Bucket A → List (Bucket A)
  insert_at bs zero b = b ∷ bs
  insert_at [] (suc i) b = b ∷ []
  insert_at (c ∷ bs) (suc i) b = c ∷ insert_at bs i b

  unfoldable pub num_items_at : List (Bucket A) → ℕ → ℕ
  num_items_at [] i = 0
  num_items_at (b ∷ bs) zero = b.num_items
  num_items_at (b ∷ bs) (suc i) = num_items_at bs i

  -- The loop that adds up the buckets before the index.
  unfoldable pub ins_pos_loop : List (Bucket A) → ℕ → ℕ → ℕ
  ins_pos_loop bs zero ins_pos = ins_pos
  ins_pos_loop bs (suc i) ins_pos = ins_pos_loop bs i (ins_pos + num_items_at bs i)

  unfoldable pub ins_pos : List (Bucket A) → ℕ → ℕ
  unfolding num_items_at ins_pos_loop
  ins_pos bs i = ins_pos_loop bs i (num_items_at bs i - 1)

  -- The end of ucb_pqueue_push_node, with the mutex held: `bs` are the buckets after the change.
  unfoldable pub pushed : Pqueue A → ℕ → List (Bucket A) → ℕ → Outcome (Option ℕ × Pqueue A)
  unfolding ins_pos unlock
  pushed pq alloc bs i = ok (
    some (ins_pos bs i),
    record pq { buckets = bs; alloc_buckets = alloc; mutex = unlock pq.mutex },
  )

  -- The branch of a priority that has no bucket yet. ucb_realloc frees the array when it fails.
  unfoldable pub push_bucket :
      Pqueue A → List (Bucket A) → ℕ → ℕ → A → Realloc → Outcome (Option ℕ × Pqueue A)
  unfolding insert_at pushed
  push_bucket pq bs i prio x grow =
      let bs' = insert_at bs i (record { priority = prio; items = x ∷ []; num_items = 1 }) in
      if length bs == pq.alloc_buckets
      then (reallocated grow >>= λ grows.
          if grows
          then pushed pq (pq.alloc_buckets * grow_factor) bs' i
          else ok (none, record pq { lost = true }))
      else pushed pq pq.alloc_buckets bs' i

  unfoldable pub place :
      Pqueue A → List (Bucket A) → Search → ℕ → A → Realloc → Outcome (Option ℕ × Pqueue A)
  unfolding append_at push_bucket
  place pq bs (found i) prio x grow = pushed pq pq.alloc_buckets (append_at bs i x) i
  place pq bs (missing i) prio x grow = push_bucket pq bs i prio x grow
  place pq bs outside prio x grow = fault
  place pq bs out_of_fuel prio x grow = fault

  unfoldable pub push_node : Pqueue A → ℕ → A → Realloc → Outcome (Option ℕ × Pqueue A)
  unfolding lock access place
  push_node pq prio x grow = do
    m ← lock pq.mutex
    bs ← access pq
    place (record pq { mutex = m }) bs (search_bucket bs prio) prio x grow

  -- The node could not be queued: a clone is freed, borrowed data is not.
  unfoldable pub give_back : Bool → A → Option ℕ × Pqueue A → Outcome (Pushed A)
  give_back cloned y (some pos, pq) = ok (some pos, pq, [])
  give_back false y (none, pq) = ok (none, pq, [])
  give_back true y (none, pq) = if pq.data_free then ok (none, pq, y ∷ []) else fault

  unfoldable pub push_data : Pqueue A → Bool → A → ℕ → Realloc → Outcome (Pushed A)
  unfolding push_node give_back
  push_data pq cloned y prio grow = push_node pq prio y grow >>= give_back cloned y

  unfoldable pub push_clone : Pqueue A → Option A → ℕ → Realloc → Outcome (Pushed A)
  unfolding push_data
  push_clone pq none prio grow = ok (none, pq, [])
  push_clone pq (some y) prio grow = push_data pq true y prio grow

  unfoldable pub push_with : Pqueue A → Option (A → Option A) → A → ℕ → Realloc → Outcome (Pushed A)
  unfolding push_clone
  push_with pq (some clone) x prio grow = push_clone pq (clone x) prio grow
  push_with pq none x prio grow = push_data pq false x prio grow

  -- `node_ok`: the allocator gives the node, and not NULL; `grow`: how the array's reallocation ends.
  unfoldable pub push : Pqueue A → A → ℕ → Bool → Realloc → Outcome (Pushed A)
  unfolding push_with
  push pq x prio node_ok grow =
      if node_ok then push_with pq pq.data_clone x prio grow else ok (none, pq, [])

  -- ucb_pqueue_new and ucb_pqueue_new_mt: the structure, then its array.
  pub new : Bool → Bool → Bool → Option (A → Option A) → Bool → Outcome (Option (Pqueue A))
  unfolding init_common
  new is_mt struct_ok alloc_ok clone frees =
      if struct_ok then init_common is_mt alloc_ok clone frees else ok none
