-- ===== src/Buffer/Stack.antt =====
-- The operations of src/ucb/buffer.c that read from or shorten a buffer.
use ucb.Common.{ℕ, ◌-◌, Bool, ◌&&◌, ltb, leb, if◌then◌else◌, List, [], ◌++◌, take, drop, Option}
use ucb.Common.Outcome.{Outcome, ok, ◌>>=◌, ◌>>◌, verify}
use ucb.Buffer.{Buffer, fixed, heap, formatted, ensure}
use ucb.Buffer.Memory.{zeros}

-- The bytes written to `out_data`.
unfoldable read : Buffer → ℕ → ℕ → Outcome (List ℕ)
read buf n offset = do
  verify (leb offset buf.size && leb n (buf.size - offset))
  ok (take n (drop offset buf.bytes))

unfoldable pub pop : Buffer → ℕ → Outcome (List ℕ × Buffer)
pop buf n = do
  verify (leb n buf.size)
  ok (take n (drop (buf.size - n) buf.bytes), record buf { size = buf.size - n })

unfoldable pub clear : Buffer → Buffer
clear buf = record buf { size = 0 }

unfoldable zero_bytes : Buffer → Buffer
zero_bytes buf =
    if ltb 0 buf.size then record buf { bytes = zeros buf.size ++ drop buf.size buf.bytes } else buf

unfoldable truncate : Buffer → ℕ → Outcome Buffer
truncate buf new_size = do verify (leb new_size buf.size); ok (record buf { size = new_size })

-- ucb_buffer_release: the memory of a heap buffer is freed.
unfoldable pub release : Buffer → Buffer
release buf = elim buf.backing [ fixed ↦ buf | heap ↦ record buf { bytes = [] } ]

unfoldable push_null : (ℕ → ℕ) → Bool → Buffer → Outcome (Option ℕ × Buffer)
unfolding formatted
push_null junk mem_ok buf = ensure junk mem_ok buf 1 >>= formatted junk mem_ok []
