-- ===== src/Vector.antt =====
-- Vectors: src/ucb/container's template include/ucb/container/templates/vector_template.h, from
-- which vector_int.c, vector_flt.c, vector_dbl.c, vector_ptr.c and vector_str.c are generated.
-- `elements` is the array at `data`, `capacity` long; those from `size` on were not written. How a
-- reallocation ends is the argument `mem`, and what a larger array holds is `junk`.
pub mod Search
pub mod Arrays
pub mod Elements
pub mod Removal
pub mod Session
pub mod Sorted
pub mod Finds
pub mod Insertion
pub mod Shrink
mod Tests
use ucb.Common.{
  ℕ, zero, suc, ◌+◌, ◌-◌, ◌*◌, ◌%◌, ◌^◌, Bool, true, false, not, ◌&&◌, Option, none, some, List, [],
  ◌∷◌, ◌++◌, ltb, leb, ◌==◌, if◌then◌else◌, length, take, drop, get_elem?,
}
use ucb.Common.Outcome.{Realloc, reallocated, Outcome, ok, fault, ◌>>=◌, ◌>>◌, verify}

-- `lost`: the array has been freed, while `data` still points to it.
pub record Vector {ℓ} (A : Type ℓ) : Type ℓ where
  pub elements : List A
  pub size : ℕ
  pub capacity : ℕ
  pub lost : Bool

abbrev pub default_capacity : ℕ
default_capacity = 8

module _ {ℓ} {A : Type ℓ} where
  abbrev pub new_vector : Vector A
  new_vector = record { elements = []; size = 0; capacity = 0; lost = false }

  -- `n` elements of an array from index `i` on, that nothing has been written to.
  unfoldable pub unwritten : (ℕ → A) → ℕ → ℕ → List A
  unwritten junk i zero = []
  unwritten junk i (suc n) = junk i ∷ unwritten junk (i + 1) n

  -- ucb_realloc of an array to `n` elements, more than it has.
  abbrev pub enlarge : (ℕ → A) → ℕ → List A → List A
  enlarge junk n d = d ++ unwritten junk (length d) (n - length d)

  -- The array, if it is still there.
  abbrev pub array : Vector A → Outcome (List A)
  array v = if v.lost then fault else ok v.elements

  -- `data[i]`, and `data[i] = x`.
  abbrev pub load : List A → ℕ → Outcome A
  load [] i = fault
  load (x ∷ d) zero = ok x
  load (x ∷ d) (suc i) = load d i

  unfoldable pub stored : ℕ → A → List A → List A
  stored i x [] = []
  stored zero x (y ∷ d) = x ∷ d
  stored (suc i) x (y ∷ d) = y ∷ stored i x d

  unfoldable pub store : ℕ → A → List A → Outcome (List A)
  unfolding stored
  store i x d = if ltb i (length d) then ok (stored i x d) else fault

  -- memmove of `n` elements from index `src` to index `dst`.
  abbrev pub moved : (dst src n : ℕ) → List A → List A
  moved dst src n d = take dst d ++ take n (drop src d) ++ drop (dst + n) d

  unfoldable pub memmove : (dst src n : ℕ) → List A → Outcome (List A)
  memmove dst src n d =
      if leb (dst + n) (length d) && leb (src + n) (length d) then ok (moved dst src n d) else fault

  -- ucb_realloc frees the old array, if there is one, where it fails, or where it is asked for no
  -- element.
  unfoldable pub reserve : (ℕ → A) → Realloc → Vector A → ℕ → Outcome (Bool × Vector A)
  reserve junk mem v new_capacity =
      let n = if new_capacity == 0 then default_capacity else new_capacity in
      if leb n v.capacity then ok (true, v) else (do
        d ← array v
        grows ← reallocated mem
        if grows
            then ok (true, record v { elements = enlarge junk n d; capacity = n })
            else ok (false, record v { lost = ltb 0 v.capacity }))

  abbrev pub clear : Vector A → Vector A
  clear v = record v { size = 0 }

  -- The elements that go to the free function, in order.
  unfoldable clear_full : Vector A → Outcome (List A × Vector A)
  clear_full v = do d ← array v; ok (take v.size d, clear v)

  unfoldable pub fit : Realloc → Vector A → Outcome (Vector A)
  fit mem v =
      if ltb v.size v.capacity
      then (do
        d ← array v
        if v.size == 0
            then ok (record v { lost = true })
            else (reallocated mem >>= λ shrinks.
                if shrinks
                then ok (record v { elements = take v.size d; capacity = v.size })
                else ok (record v { lost = true })))
      else ok v

  -- The insertion itself, with room for it.
  unfoldable pub insert_room : Vector A → ℕ → A → Outcome (Vector A)
  unfolding memmove store
  insert_room v index x = do
    d ← array v
    d' ← if ltb index v.size then memmove (index + 1) index (v.size - index) d else ok d
    d'' ← store index x d'
    ok (record v { elements = d''; size = v.size + 1 })

  -- Nothing is reported to the caller where there is no memory.
  unfoldable pub insert : (ℕ → A) → Realloc → Vector A → ℕ → A → Outcome (Vector A)
  unfolding reserve insert_room
  insert junk mem v index x = do
    verify (leb index v.size)
    (reserved, w) ←
        if v.size == v.capacity then reserve junk mem v (v.capacity * 2 % 2 ^ 64) else ok (true, v)
    if reserved then insert_room w index x else ok w

  unfoldable pub remove : Vector A → ℕ → Outcome (A × Vector A)
  unfolding memmove
  remove v index = do
    verify (ltb index v.size)
    verify (ltb 0 v.size)
    d ← array v
    x ← load d index
    d' ← if ltb index (v.size - 1) then memmove index (index + 1) (v.size - index - 1) d else ok d
    ok (x, record v { elements = d'; size = v.size - 1 })

  unfoldable pub push_back : (ℕ → A) → Realloc → Vector A → A → Outcome (Vector A)
  unfolding store insert
  push_back junk mem v x =
      if ltb v.size v.capacity
      then (do
        d ← array v
        d' ← store v.size x d
        ok (record v { elements = d'; size = v.size + 1 }))
      else insert junk mem v v.size x

  unfoldable pub push_front : (ℕ → A) → Realloc → Vector A → A → Outcome (Vector A)
  unfolding store insert
  push_front junk mem v x =
      if (v.size == 0) && ltb 0 v.capacity
      then (do d ← array v; d' ← store 0 x d; ok (record v { elements = d'; size = v.size + 1 }))
      else insert junk mem v 0 x

  unfoldable pub pop_back : Vector A → Outcome (A × Vector A)
  pop_back v = do
    verify (ltb 0 v.size)
    d ← array v
    x ← load d (v.size - 1)
    ok (x, record v { size = v.size - 1 })

  unfoldable pub pop_front : Vector A → Outcome (A × Vector A)
  unfolding memmove
  pop_front v = do
    verify (ltb 0 v.size)
    let n = v.size - 1
    d ← array v
    x ← load d 0
    d' ← if ltb 0 n then memmove 0 1 n d else ok d
    ok (x, record v { elements = d'; size = n })

  unfoldable pub get : Vector A → ℕ → Outcome A
  get v index = do verify (ltb index v.size); d ← array v; load d index

  unfoldable peek_back : Vector A → Outcome A
  peek_back v = do verify (ltb 0 v.size); d ← array v; load d (v.size - 1)

  unfoldable peek_front : Vector A → Outcome A
  peek_front v = do verify (ltb 0 v.size); d ← array v; load d 0

  unfoldable pub set : Vector A → ℕ → A → Outcome (Vector A)
  unfolding store
  set v index x = do
    verify (ltb index v.size)
    d ← array v
    d' ← store index x d
    ok (record v { elements = d' })

  unfoldable swap : Vector A → ℕ → ℕ → Outcome (Vector A)
  unfolding store
  swap v i j = do
    verify (ltb i v.size && ltb j v.size && not (i == j))
    d ← array v
    tmp ← load d i
    x ← load d j
    d' ← store i x d
    d'' ← store j tmp d'
    ok (record v { elements = d'' })

  -- memcpy of the elements of another vector. The vectors are two.
  unfoldable pub copy_vector : (ℕ → A) → Realloc → Vector A → Vector A → Outcome (Bool × Vector A)
  unfolding reserve
  copy_vector junk mem dst src = do
    (reserved, v) ← reserve junk mem (clear dst) src.capacity
    if not reserved then ok (false, clear v) else (do
      d ← array v
      s ← array src
      if leb src.size (length d) && leb src.size (length s)
          then ok
              (true, record v { elements = take src.size s ++ drop src.size d; size = src.size })
          else fault)

  -- The destination and the source after the move.
  unfoldable move_vector : Vector A → Vector A → Outcome (Vector A × Vector A)
  move_vector dst src = do d ← array dst; ok (src, new_vector)

  -- The array goes back to the allocator, which faults where it is not there any more.
  unfoldable pub free_vector : Vector A → Outcome (Unit {0})
  free_vector v = do d ← array (clear v); ok tt

  unfoldable free_full : Vector A → Outcome (List A)
  unfolding clear_full
  free_full v = do (freed, w) ← clear_full v; d ← array w; ok freed
