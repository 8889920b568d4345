-- ===== src/Utf8/Iterate.antt =====
-- Walking over a validated text in src/ucb/unicode.c: FOR_EACH_CODEPOINT and ucb_uc_num_cp.
use ucb.Common.{
  ℕ, zero, suc, ◌+◌, ◌≤◌, ◌≡◌, refl, ap, ◌∙◌, List, [], ◌∷◌, ◌++◌, length, length-append, All, some,
  true, ltb, ltb→lt, append-nil, inl, inr, Bool-cases, arith,
}
use ucb.Common.Outcome.{ok, ◌>>=◌}
use ucb.Utf8.{
  Verdict, valid, truncated, invalid, out_of_fuel, next_valid, validate, iterate, count_loop,
  num_cp, encode_codepoint,
}
use ucb.Utf8.Scalar.{IsScalar, utf8, utf8_all}
use ucb.Utf8.Encode.{is_scalar, encode_codepoint-utf8}
use ucb.Utf8.Step.{IsByte, next_valid-utf8}
use ucb.Utf8.Validate.{length-utf8_pos, validate-Judged, Judged, validate-utf8_all}

iterate-step :
    (fuel cp : ℕ) (s t : List ℕ)
    → next_valid s ≡ ok (cp, t)
    → iterate (suc fuel) s ≡ (iterate fuel t >>= λ cps. ok (cp ∷ cps))
unfolding iterate next_valid
iterate-step fuel cp [] t e = absurd (ground arith)
iterate-step fuel cp (c ∷ s) t e = rw e

count_loop-step :
    (fuel cp num : ℕ) (s t : List ℕ)
    → next_valid s ≡ ok (cp, t)
    → count_loop (suc fuel) s num ≡ count_loop fuel t (num + 1)
unfolding count_loop next_valid
count_loop-step fuel cp num [] t e = absurd (ground arith)
count_loop-step fuel cp num (c ∷ s) t e = rw e

-- The iterator sees the code points of an encoded text, in order, and ends at its end.
iterate-utf8_all :
    (cps : List ℕ) (fuel : ℕ)
    → All IsScalar cps
    → length (utf8_all cps) ≤ fuel
    → iterate fuel (utf8_all cps) ≡ ok cps
unfolding iterate utf8_all
iterate-utf8_all [] fuel h le = refl
iterate-utf8_all (cp ∷ cps) zero h le =
    absurd (omega (arith, length-append (utf8 cp) (utf8_all cps), length-utf8_pos cp))
iterate-utf8_all (cp ∷ cps) (suc fuel) h le =
    iterate-step fuel cp (utf8 cp ++ utf8_all cps) (utf8_all cps)
      (next_valid-utf8 cp (utf8_all cps) h.0)
    ∙ rw (
        iterate-utf8_all cps fuel h.1
          (omega (arith, length-append (utf8 cp) (utf8_all cps), length-utf8_pos cp)))

count_loop-utf8_all :
    (cps : List ℕ) (fuel num : ℕ)
    → All IsScalar cps
    → length (utf8_all cps) ≤ fuel
    → count_loop fuel (utf8_all cps) num ≡ ok (num + length cps)
unfolding count_loop utf8_all
count_loop-utf8_all [] fuel num h le = ap ok (omega arith)
count_loop-utf8_all (cp ∷ cps) zero num h le =
    absurd (omega (arith, length-append (utf8 cp) (utf8_all cps), length-utf8_pos cp))
count_loop-utf8_all (cp ∷ cps) (suc fuel) num h le =
    count_loop-step fuel cp num (utf8 cp ++ utf8_all cps) (utf8_all cps)
      (next_valid-utf8 cp (utf8_all cps) h.0)
    ∙ count_loop-utf8_all cps fuel (num + 1) h.1
        (omega (arith, length-append (utf8 cp) (utf8_all cps), length-utf8_pos cp))
    ∙ ap ok (omega arith)

Judged-valid :
    (s : List ℕ) (v : Verdict)
    → v ≡ valid
    → Judged s v
    → (cps : List ℕ) × All IsScalar cps × (s ≡ utf8_all cps)
Judged-valid s valid e j = j
Judged-valid s (truncated p need got) e j = absurd (ground arith)
Judged-valid s (invalid p) e j = absurd (ground arith)
Judged-valid s out_of_fuel e j = absurd j

walk-utf8_all :
    (s cps : List ℕ)
    → All IsScalar cps
    → s ≡ utf8_all cps
    → (iterate (length s) s ≡ ok cps) × (num_cp s ≡ ok (length cps))
unfolding num_cp
walk-utf8_all s cps h text = rw text (
  iterate-utf8_all cps (length (utf8_all cps)) h (omega arith),
  count_loop-utf8_all cps (length (utf8_all cps)) 0 h (omega arith) ∙ ap ok (omega arith),
)

-- A text that the validator accepts is walked over without a read past its end: the iterator gives
-- code points that are scalar values, whose encodings make up the text, and ucb_uc_num_cp gives
-- their number.
pub valid_walk :
    (s : List ℕ)
    → All IsByte s
    → validate s ≡ valid
    → (cps : List ℕ) × All IsScalar cps
      × (s ≡ utf8_all cps)
      × (iterate (length s) s ≡ ok cps)
      × (num_cp s ≡ ok (length cps))
valid_walk s h e =
    let (cps, scalars, text) = Judged-valid s (validate s) e (validate-Judged s h) in
    let (seen, counted) = walk-utf8_all s cps scalars text in (cps, scalars, text, seen, counted)

IsScalar-of_test : (cp : ℕ) → is_scalar cp ≡ true → IsScalar cp
IsScalar-of_test cp h = elim (Bool-cases (ltb cp 0xd800)) [
  | inl low ↦ inl (ltb→lt cp 0xd800 low)
  | inr high ↦ inr (ground arith)
]

-- What the encoder writes is read back as the code point that was encoded, whatever follows, and is
-- accepted by the validator.
encode_roundtrip :
    (cp : ℕ) (bs rest : List ℕ)
    → encode_codepoint cp ≡ some bs
    → (next_valid (bs ++ rest) ≡ ok (cp, rest)) × (validate bs ≡ valid)
unfolding utf8_all
encode_roundtrip cp bs rest e = elim (Bool-cases (is_scalar cp)) [
  | inl scalar ↦
      let h = IsScalar-of_test cp scalar in
      let same : bs ≡ utf8 cp = ground (arith, encode_codepoint-utf8 cp) in
      rw same (
        next_valid-utf8 cp rest h,
        rw (append-nil (utf8 cp)) at (validate-utf8_all (cp ∷ []) (h, tt)),
      )
  | inr other ↦ absurd (ground (arith, encode_codepoint-utf8 cp))
]
