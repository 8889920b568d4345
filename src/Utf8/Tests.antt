-- ===== src/Utf8/Tests.antt =====
-- Runs of the UTF-8 functions of src/ucb/unicode.c, and their theorems at concrete inputs.
use ucb.Common.{ℕ, ◌≡◌, refl, none, some, List, [], ◌∷◌, length, All, arith, if◌then◌else◌}
use ucb.Common.Outcome.{ok}
use ucb.Utf8.{
  fetch2, fetch3, fetch4, valid, truncated, invalid, validate, encode_codepoint, iterate, num_cp,
}
use ucb.Utf8.Scalar.{IsScalar, utf8, utf8_all}
use ucb.Utf8.Encode.{is_scalar, encode_codepoint-utf8}
use ucb.Utf8.Validate.{Judged, validate-Judged}
use ucb.Utf8.Iterate.{valid_walk}

-- "a", U+00E9, U+20AC, U+1F600
abbrev sample : List ℕ
sample = 0x61 ∷ 0xc3 ∷ 0xa9 ∷ 0xe2 ∷ 0x82 ∷ 0xac ∷ 0xf0 ∷ 0x9f ∷ 0x98 ∷ 0x80 ∷ []

validate-sample : validate sample ≡ valid
unfolding validate fetch2 fetch3 fetch4
validate-sample = refl

-- The euro sign without its last byte; an overlong slash; a surrogate.
validate_errors :
    (validate (0x61 ∷ 0xe2 ∷ 0x82 ∷ []) ≡ truncated 1 3 2)
    × (validate (0xc0 ∷ 0xaf ∷ []) ≡ invalid 0)
    × (validate (0x61 ∷ 0xed ∷ 0xa0 ∷ 0x80 ∷ []) ≡ invalid 1)
unfolding validate fetch2 fetch3 fetch4
validate_errors = (refl, refl, refl)

encode_runs :
    (encode_codepoint 0x1f600 ≡ some (0xf0 ∷ 0x9f ∷ 0x98 ∷ 0x80 ∷ []))
    × (encode_codepoint 0xd800 ≡ none)
    × (encode_codepoint 0x110000 ≡ none)
unfolding encode_codepoint
encode_runs = (refl, refl, refl)

validate-Judged_example : Judged sample (validate sample)
validate-Judged_example = validate-Judged sample (omega arith)

valid_walk_example :
    (cps : List ℕ) × All IsScalar cps
    × (sample ≡ utf8_all cps)
    × (iterate (length sample) sample ≡ ok cps)
    × (num_cp sample ≡ ok (length cps))
unfolding validate fetch2 fetch3 fetch4
valid_walk_example = valid_walk sample (omega arith) refl

encode_codepoint-utf8_example :
    encode_codepoint 0x20ac ≡ (if is_scalar 0x20ac then some (utf8 0x20ac) else none)
encode_codepoint-utf8_example = encode_codepoint-utf8 0x20ac
