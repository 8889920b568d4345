-- ===== src/Buffer/Tests.antt =====
-- Runs of the buffer of src/ucb/buffer.c, and its theorems at concrete inputs.
use ucb.Common.{ℕ, ◌≤◌, ◌<◌, ◌≡◌, refl, ◌⊎◌, inl, inr, true, none, some, [], ◌∷◌, arith}
use ucb.Common.Outcome.{ok, aborted, Returns}
use ucb.Buffer.{Buffer, fixed, heap, contents, resize, ensure, push, push_formatv, fit, can_ensure}
use ucb.Buffer.Stack.{pop}
use ucb.Buffer.Room.{IsValid}
use ucb.Buffer.Push.{Appended, push_appends, push_formatv_appends}
use ucb.Buffer.Pop.{Popped, pop_takes_last}

-- Two bytes stored in four.
abbrev sample : Buffer
sample = record {
  bytes = 7 ∷ 8 ∷ 0 ∷ 0 ∷ [];
  size = 2;
  alloc = 4;
  grow_func = none;
  backing = heap;
}

abbrev static : Buffer
static = record sample { backing = fixed }

sample-IsValid : IsValid sample
sample-IsValid = omega arith

-- What the allocator adds.
abbrev junk : ℕ → ℕ
junk i = 99

push_grows :
    push junk true sample (1 ∷ 2 ∷ 3 ∷ [])
    ≡ ok (true, record sample { bytes = 7 ∷ 8 ∷ 1 ∷ 2 ∷ 3 ∷ []; size = 5; alloc = 5 })
unfolding push ucb.Buffer.Memory.write ucb.Buffer.Memory.realloc
push_grows = refl

push_appends_example :
    Returns (Appended sample (1 ∷ 2 ∷ 3 ∷ []) true) (push junk true sample (1 ∷ 2 ∷ 3 ∷ []))
push_appends_example =
    push_appends junk sample (1 ∷ 2 ∷ 3 ∷ []) sample-IsValid (inr (refl, tt, omega arith))

push_formatv_appends_example :
    Returns (Appended static (65 ∷ 0 ∷ []) (some 1)) (push_formatv junk true static (65 ∷ []))
push_formatv_appends_example =
    push_formatv_appends junk static (65 ∷ []) (omega arith) (inl (omega arith))

pop_takes_last_example :
    (1 ≤ sample.size) × Returns (Popped sample 1) (pop sample 1)
    ⊎ (sample.size < 1) × (pop sample 1 ≡ aborted)
pop_takes_last_example = pop_takes_last sample 1 sample-IsValid
