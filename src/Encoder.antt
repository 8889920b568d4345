-- ===== src/Encoder.antt =====
-- ucb_uc_encode_codepoints in src/ucb/unicode.c: code points in UTF-8 onto a byte buffer.
-- The text is gathered in a chunk of 5 * `multi_len` bytes, which is pushed when less than
-- `multi_len` bytes are free. `multi_len` is UCB_UC_MAX_MULTI_LEN of a generated header.
pub mod Gathered
pub mod Chunks
mod Tests
use ucb.Common.{
  ℕ, ◌+◌, ◌*◌, Bool, true, false, Option, none, some, List, [], ◌∷◌, ◌++◌, leb, ◌==◌, if◌then◌else◌,
  length,
}
use ucb.Common.Outcome.{Outcome, ok, fault, ◌>>=◌}
use ucb.Buffer.{Buffer, push}
use ucb.Utf8.{encode_codepoint}

-- The result true, the result false of a push, or an error with the code point.
pub data Reply : Type 0 where
  encoded refused : Reply
  invalid : ℕ → Reply

pub reply : Bool → Reply
reply true = encoded
reply false = refused

-- `mem` says whether memory suffices for a push, by the number of code points left.
module _ (junk : ℕ → ℕ) (mem : ℕ → Bool) (multi_len : ℕ) where
  -- The encoder writes behind the bytes of the chunk.
  store : List ℕ → List ℕ → Outcome (List ℕ)
  store chunk bytes =
      if leb (length chunk + length bytes) (5 * multi_len) then ok (chunk ++ bytes) else fault

  -- Push when the next code point might not fit.
  flush : ℕ → List ℕ → Buffer → Outcome (Bool × (List ℕ × Buffer))
  flush left chunk buf =
      if leb (4 * multi_len) (length chunk)
      then (push junk (mem left) buf chunk >>= λ r. ok (r.0, ([], r.1)))
      else ok (true, (chunk, buf))

  rest : List ℕ → Buffer → Outcome (Reply × Buffer)
  unfolding reply
  rest chunk buf =
      if length chunk == 0
      then ok (encoded, buf)
      else (push junk (mem 0) buf chunk >>= λ r. ok (reply r.0, r.1))

  encode_loop : List ℕ → List ℕ → Buffer → Outcome (Reply × Buffer)
  unfolding store flush rest
  encode_loop [] chunk buf = rest chunk buf
  encode_loop (cp ∷ cps) chunk buf = elim (encode_codepoint cp) [
    | none ↦ ok (invalid cp, buf)
    | some bytes ↦ do
      stored ← store chunk bytes
      (pushed, (left, b)) ← flush (length cps) stored buf
      elim pushed [ true ↦ encode_loop cps left b | false ↦ ok (refused, b) ]
  ]

  pub encode_codepoints : Buffer → List ℕ → Outcome (Reply × Buffer)
  unfolding encode_loop
  encode_codepoints buf cps = encode_loop cps [] buf
