-- ===== src/Buffer.antt =====
-- The byte buffer: src/ucb/buffer.c and include/ucb/buffer.h.
-- `bytes` is the memory at `data`, `alloc` bytes long. A static buffer has no implementation
-- functions; a heap buffer has all three. Whether an allocation succeeds is the argument `mem_ok`,
-- and the bytes that the allocator adds are the argument `junk`. Buffer pointers are not NULL.
pub mod Memory
pub mod Stack
pub mod Room
pub mod Push
pub mod Pop
mod Tests
use ucb.Common.{
  ℕ, zero, suc, ◌+◌, ◌-◌, ◌^◌, Bool, true, false, not, ◌&&◌, ◌||◌, Option, none, some, List, [],
  ◌∷◌, ◌++◌, ltb, leb, ◌==◌, if◌then◌else◌, length, take, drop,
}
use ucb.Common.Outcome.{Outcome, ok, fault, aborted, ◌>>=◌, ◌>>◌, verify}
use ucb.Buffer.Memory.{realloc, write, zeros}

abbrev pub size_max : ℕ
size_max = 2 ^ 64 - 1

pub data Backing : Type 0 where
  fixed heap : Backing

-- A grow function sees the memory, the size and the capacity, and the number of bytes needed.
abbrev pub Grow : Type 0
Grow = List ℕ → ℕ → ℕ → ℕ → ℕ

pub record Buffer : Type 0 where
  pub bytes : List ℕ
  pub size : ℕ
  pub alloc : ℕ
  pub grow_func : Option Grow
  pub backing : Backing

-- The bytes that a client has stored.
abbrev pub contents : Buffer → List ℕ
contents buf = take buf.size buf.bytes

pub is_heap : Backing → Bool
is_heap fixed = false
is_heap heap = true

init_static : List ℕ → Outcome Buffer
init_static memory = do
  verify (ltb 0 (length memory))
  ok (record { bytes = memory; size = 0; alloc = length memory; grow_func = none; backing = fixed })

-- `none` is the result false.
init_heap : ℕ → Bool → Outcome (Option Buffer)
init_heap capacity mem_ok = do
  verify (ltb 0 capacity)
  ok (
      if mem_ok
      then some (record {
        bytes = zeros capacity;
        size = 0;
        alloc = capacity;
        grow_func = none;
        backing = heap;
      })
      else none)

-- What memset leaves of a buffer that has been transferred.
abbrev pub nothing : Buffer
nothing = record { bytes = []; size = 0; alloc = 0; grow_func = none; backing = fixed }

-- The memory, size and capacity that are handed out, and the buffer after it.
transfer : Buffer → Outcome ((List ℕ × ℕ × ℕ) × Buffer)
unfolding is_heap
transfer buf = do verify (is_heap buf.backing); ok ((buf.bytes, buf.size, buf.alloc), nothing)

-- Allocations succeed where `mem_ok` says so; what they add is `junk`.
module _ (junk : ℕ → ℕ) (mem_ok : Bool) where
  resize_heap : Buffer → ℕ → Bool × Buffer
  resize_heap buf new_capacity =
      if new_capacity == 0
      then (true, record buf { bytes = []; alloc = 0 })
      else if mem_ok
      then (true, record buf { bytes = realloc junk new_capacity buf.bytes; alloc = new_capacity })
      else (false, buf)

  -- The size is cut to the capacity after a resize that succeeds.
  cut_size : Bool × Buffer → Bool × Buffer
  cut_size (true, buf) =
      (true, if ltb buf.alloc buf.size then record buf { size = buf.alloc } else buf)
  cut_size (false, buf) = (false, buf)

  pub resize : Buffer → ℕ → Outcome (Bool × Buffer)
  unfolding is_heap resize_heap cut_size
  resize buf new_capacity = do
    verify (is_heap buf.backing)
    ok (cut_size (if buf.alloc == new_capacity then (true, buf) else resize_heap buf new_capacity))

  pub grow_by : Option Grow → Buffer → ℕ → Outcome (Bool × Buffer)
  unfolding resize
  grow_by (some g) buf inc =
      let n = g buf.bytes buf.size buf.alloc inc in
      resize buf (if ltb n buf.alloc then buf.alloc else n)
  grow_by none buf inc = verify (leb inc (size_max - buf.alloc)) >> resize buf (buf.alloc + inc)

  pub grow : Buffer → ℕ → Outcome (Bool × Buffer)
  unfolding grow_by
  grow buf inc = grow_by buf.grow_func buf inc

  pub ensure : Buffer → ℕ → Outcome (Bool × Buffer)
  unfolding grow
  ensure buf n =
      let spare = buf.alloc - buf.size in
      if leb n spare then ok (true, buf) else grow buf (n - spare)

  -- memcpy to the end of the stored bytes, or nothing where the buffer could not grow.
  append : List ℕ → Bool × Buffer → Outcome (Bool × Buffer)
  append s (false, buf) = ok (false, buf)
  append s (true, buf) = do
    memory ← write buf.size s buf.bytes
    ok (true, record buf { bytes = memory; size = buf.size + length s })

  pub push : Buffer → List ℕ → Outcome (Bool × Buffer)
  unfolding grow append
  push buf s =
      let spare = buf.alloc - buf.size in
      if length s == 0
      then ok (true, buf)
      else if ltb spare (length s)
      then (grow buf (length s - spare) >>= append s)
      else append s (true, buf)

  -- `text` is what vsnprintf formats: its bytes, without the NUL. The result is the length, or
  -- `none` for -1.
  formatted : List ℕ → Bool × Buffer → Outcome (Option ℕ × Buffer)
  formatted text (false, buf) = ok (none, buf)
  formatted text (true, buf) = do
    memory ← write buf.size (text ++ (0 ∷ [])) buf.bytes
    ok (some (length text), record buf { bytes = memory; size = buf.size + (length text + 1) })

  pub push_formatv : Buffer → List ℕ → Outcome (Option ℕ × Buffer)
  unfolding ensure formatted
  push_formatv buf text = ensure buf (length text + 1) >>= formatted text

  pub fit : Buffer → Outcome (Bool × Buffer)
  unfolding resize
  fit buf = if buf.size == buf.alloc then ok (true, buf) else resize buf buf.size

pub can_ensure : Buffer → ℕ → Bool
unfolding is_heap
can_ensure buf n =
    leb n (buf.alloc - buf.size) || is_heap buf.backing && leb n (size_max - buf.size)
