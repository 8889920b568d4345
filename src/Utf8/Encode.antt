-- ===== src/Utf8/Encode.antt =====
-- ucb_uc_encode_codepoint of src/ucb/unicode.c against the standard's table.
use ucb.Common.{ℕ, ◌/◌, ◌≡◌, Bool, ◌&&◌, ◌||◌, none, some, ltb, leb, if◌then◌else◌, length, arith}
use mathlib.Core.Option
use ucb.Utf8.{encode_codepoint, encode_length}
use ucb.Utf8.Scalar.{utf8}
use ucb.Utf8.Fields.{lead2, lead3, lead4, tail_byte}

-- The test for a scalar value.
abbrev pub is_scalar : ℕ → Bool
is_scalar cp = ltb cp 0xd800 || leb 0xe000 cp && ltb cp 0x110000

-- Encoding a code point gives the bytes of the standard's table, and -1 exactly for surrogates and
-- values above U+10FFFF.
pub encode_codepoint-utf8 :
    (cp : ℕ) → encode_codepoint cp ≡ (if is_scalar cp then some (utf8 cp) else none)
unfolding encode_codepoint utf8
encode_codepoint-utf8 cp =
    simp tail_byte (ground (arith, lead2 (cp / 64), lead3 (cp / 4096), lead4 (cp / 262144)))

-- Asked only for the number of bytes, the encoder gives that of the bytes that it would write.
encode_length-encode : (cp : ℕ) → encode_length cp ≡ Option.map length (encode_codepoint cp)
unfolding encode_length encode_codepoint
encode_length-encode cp = ground arith
