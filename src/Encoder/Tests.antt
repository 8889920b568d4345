-- ===== src/Encoder/Tests.antt =====
-- Runs of ucb_uc_encode_codepoints of src/ucb/unicode.c, and its theorems at concrete inputs.
use ucb.Common.{ℕ, refl, inl, inr, true, none, List, [], ◌∷◌, ◌++◌, length, All, arith}
use ucb.Common.Outcome.{Returns}
use ucb.Buffer.{Buffer, heap}
use ucb.Buffer.Room.{IsValid}
use ucb.Buffer.Push.{Appended}
use ucb.Utf8.Scalar.{IsScalar, utf8, utf8_all}
use ucb.Encoder.{encoded, encode_codepoints}
use ucb.Encoder.Gathered.{CanGrow}
use ucb.Encoder.Chunks.{Partial, encode_appends, encode_invalid}

-- A heap buffer of two bytes that holds one.
abbrev small : Buffer
small = record { bytes = 7 ∷ 0 ∷ []; size = 1; alloc = 2; grow_func = none; backing = heap }

small-IsValid : IsValid small
small-IsValid = record { within = omega arith; memory = refl; bounded = omega arith }

-- Three emoji fill a chunk of fifteen bytes up to its limit of twelve.
abbrev emoji : List ℕ
emoji = 0x1f600 ∷ 0x1f601 ∷ 0x1f602 ∷ 0x41 ∷ []

emoji-IsScalar : All IsScalar emoji
emoji-IsScalar = (
  inr (omega arith, omega arith),
  (inr (omega arith, omega arith), (inr (omega arith, omega arith), (inl (omega arith), tt))),
)

emoji-CanGrow : CanGrow small (length (utf8_all emoji))
unfolding utf8_all utf8
emoji-CanGrow = (refl, tt, omega arith)

encode_appends_example :
    Returns
      (Appended small (utf8_all emoji) encoded)
      (encode_codepoints (λ k. 0) (λ k. true) 3 small emoji)
encode_appends_example =
    encode_appends (λ k. 0) 3 small emoji (omega arith) small-IsValid emoji-IsScalar emoji-CanGrow

encode_invalid_example :
    Returns
      (Partial 3 small 0xd800 (utf8_all emoji))
      (encode_codepoints (λ k. 0) (λ k. true) 3 small (emoji ++ 0xd800 ∷ 0x42 ∷ []))
encode_invalid_example =
    encode_invalid (λ k. 0) 3 small emoji 0xd800 (0x42 ∷ []) (omega arith) small-IsValid
      emoji-IsScalar refl emoji-CanGrow
