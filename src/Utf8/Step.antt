-- ===== src/Utf8/Step.antt =====
-- One sequence in src/ucb/unicode.c: the validator's check, the iterator and the standard's table.
use Prim.Native.Nat.{bit_and}
use ucb.Common.{
  ℕ, ◌+◌, ◌/◌, ◌<◌, ◌≡◌, inl, inr, true, List, [], ◌∷◌, ◌++◌, ltb, ◌==◌, length, drop, All, ltb→lt,
  arith, Bool-cases,
}
use ucb.Common.Bits.{bit_and_high}
use ucb.Common.Outcome.{ok}
use ucb.Utf8.{
  fetch2, fetch3, fetch4, next_valid, Check, next, bad, check2, check3_bytes, check3, check4_bytes,
  check4, check_at,
}
use ucb.Utf8.Scalar.{IsScalar, cont, utf8}
use ucb.Utf8.Fields.{fetch2-eq, fetch3-eq, fetch4-eq}

abbrev pub IsByte : ℕ → Type 0
IsByte b = b < 256

-- The iterator reads back what the table writes.
pub next_valid-utf8 : (cp : ℕ) (s : List ℕ) → IsScalar cp → next_valid (utf8 cp ++ s) ≡ ok (cp, s)
unfolding next_valid utf8
next_valid-utf8 cp s h = elim (Bool-cases (ltb cp 0x80)) [
  | inl one ↦ ground arith
  | inr one ↦ elim (Bool-cases (ltb cp 0x800)) [
    | inl two ↦
        rw (one, two)
          (ground (arith, bit_and_high (192 + cp / 64), fetch2-eq (192 + cp / 64) (cont cp)))
    | inr two ↦ elim (Bool-cases (ltb cp 0x10000)) [
      | inl three ↦
          rw (one, two, three)
            (ground (
              arith,
              bit_and_high (224 + cp / 4096),
              fetch3-eq (224 + cp / 4096) (cont (cp / 64)) (cont cp),
            ))
      | inr three ↦
          rw (one, two, three)
            (ground (
              arith,
              bit_and_high (240 + cp / 262144),
              fetch4-eq (240 + cp / 262144) (cont (cp / 4096)) (cont (cp / 64)) (cont cp),
            ))
    ]
  ]
]

-- The check of the first byte and those after it.
abbrev pub check_head : List ℕ → Check
check_head [] = bad
check_head (c ∷ s) = check_at c s

-- The validator takes each row of the table for a sequence of its length.
pub check_head-utf8 :
    (cp : ℕ) (s : List ℕ) → IsScalar cp → check_head (utf8 cp ++ s) ≡ next (length (utf8 cp))
unfolding check_at check2 check3 check4 utf8
check_head-utf8 cp s h = elim (Bool-cases (ltb cp 0x80)) [
  | inl one ↦ rw one (ground arith)
  | inr one ↦ elim (Bool-cases (ltb cp 0x800)) [
    | inl two ↦
        rw (one, two)
          (ground (
            arith,
            bit_and_high (192 + cp / 64),
            bit_and_high (cont cp),
            fetch2-eq (192 + cp / 64) (cont cp),
          ))
    | inr two ↦ elim (Bool-cases (ltb cp 0x10000)) [
      | inl three ↦
          rw (one, two, three)
            (ground (
              arith,
              bit_and_high (224 + cp / 4096),
              bit_and_high (cont (cp / 64)),
              bit_and_high (cont cp),
              fetch3-eq (224 + cp / 4096) (cont (cp / 64)) (cont cp),
            ))
      | inr three ↦
          rw (one, two, three)
            (ground (
              arith,
              bit_and_high (240 + cp / 262144),
              bit_and_high (cont (cp / 4096)),
              bit_and_high (cont (cp / 64)),
              bit_and_high (cont cp),
              fetch4-eq (240 + cp / 262144) (cont (cp / 4096)) (cont (cp / 64)) (cont cp),
            ))
    ]
  ]
]

pub drop-utf8 : (cp : ℕ) (s : List ℕ) → drop (length (utf8 cp)) (utf8 cp ++ s) ≡ s
unfolding utf8
drop-utf8 cp s = ground arith

-- The bytes at a position start with the row of a scalar value, `n` bytes long.
abbrev Encoded : ℕ → List ℕ → Type 0
Encoded n s = (cp : ℕ) × IsScalar cp × (s ≡ utf8 cp ++ drop n s) × (n ≡ length (utf8 cp))

sound2 :
    (c b1 n : ℕ) (s : List ℕ)
    → c < 256
    → b1 < 256
    → (bit_and c 0xe0 == 0xc0) ≡ true
    → check2 c (b1 ∷ s) ≡ next n
    → Encoded n (c ∷ b1 ∷ s)
unfolding check2 utf8
sound2 c b1 n s hc h1 lead e =
    let b0 = bit_and_high c hc in
    let b1' = bit_and_high b1 h1 in
    let f = fetch2-eq c b1 in (fetch2 c b1, ground arith, ground arith, ground arith)

sound3 :
    (c b1 b2 n : ℕ) (s : List ℕ)
    → c < 256
    → b1 < 256
    → b2 < 256
    → (bit_and c 0xf0 == 0xe0) ≡ true
    → check3_bytes c b1 b2 ≡ next n
    → Encoded n (c ∷ b1 ∷ b2 ∷ s)
unfolding check3_bytes utf8
sound3 c b1 b2 n s hc h1 h2 lead e =
    let b0 = bit_and_high c hc in
    let b1' = bit_and_high b1 h1 in
    let b2' = bit_and_high b2 h2 in
    let f = fetch3-eq c b1 b2 in (fetch3 c b1 b2, ground arith, ground arith, ground arith)

sound4 :
    (c b1 b2 b3 n : ℕ) (s : List ℕ)
    → c < 256
    → b1 < 256
    → b2 < 256
    → b3 < 256
    → (bit_and c 0xf8 == 0xf0) ≡ true
    → check4_bytes c b1 b2 b3 ≡ next n
    → Encoded n (c ∷ b1 ∷ b2 ∷ b3 ∷ s)
unfolding check4_bytes utf8
sound4 c b1 b2 b3 n s hc h1 h2 h3 lead e =
    let b0 = bit_and_high c hc in
    let b1' = bit_and_high b1 h1 in
    let b2' = bit_and_high b2 h2 in
    let b3' = bit_and_high b3 h3 in
    let f = fetch4-eq c b1 b2 b3 in (fetch4 c b1 b2 b3, ground arith, ground arith, ground arith)

sound_rest2 :
    (c n : ℕ) (s : List ℕ)
    → c < 256
    → All IsByte s
    → (bit_and c 0xe0 == 0xc0) ≡ true
    → check2 c s ≡ next n
    → Encoded n (c ∷ s)
unfolding check2
sound_rest2 c n [] hc hs lead e = absurd (ground arith)
sound_rest2 c n (b1 ∷ s) hc hs lead e = sound2 c b1 n s hc hs.0 lead e

sound_rest3 :
    (c n : ℕ) (s : List ℕ)
    → c < 256
    → All IsByte s
    → (bit_and c 0xf0 == 0xe0) ≡ true
    → check3 c s ≡ next n
    → Encoded n (c ∷ s)
unfolding check3
sound_rest3 c n [] hc hs lead e = absurd (ground arith)
sound_rest3 c n (b1 ∷ []) hc hs lead e = absurd (ground arith)
sound_rest3 c n (b1 ∷ b2 ∷ s) hc hs lead e = sound3 c b1 b2 n s hc hs.0 hs.1.0 lead e

sound_rest4 :
    (c n : ℕ) (s : List ℕ)
    → c < 256
    → All IsByte s
    → (bit_and c 0xf8 == 0xf0) ≡ true
    → check4 c s ≡ next n
    → Encoded n (c ∷ s)
unfolding check4
sound_rest4 c n [] hc hs lead e = absurd (ground arith)
sound_rest4 c n (b1 ∷ []) hc hs lead e = absurd (ground arith)
sound_rest4 c n (b1 ∷ b2 ∷ []) hc hs lead e = absurd (ground arith)
sound_rest4 c n (b1 ∷ b2 ∷ b3 ∷ s) hc hs lead e =
    sound4 c b1 b2 b3 n s hc hs.0 hs.1.0 hs.1.1.0 lead e

sound1 : (c n : ℕ) (s : List ℕ) → c < 0x80 → n ≡ 1 → Encoded n (c ∷ s)
unfolding utf8
sound1 c n s h e = rw e (c, inl (omega arith), ground arith, ground arith)

-- What the validator takes for a sequence is a row of the table.
pub check_at-Encoded :
    (c n : ℕ) (s : List ℕ) → c < 256 → All IsByte s → check_at c s ≡ next n → Encoded n (c ∷ s)
unfolding check_at
check_at-Encoded c n s hc hs e = elim (Bool-cases (ltb c 0x80)) [
  | inl one ↦ sound1 c n s (ltb→lt c 0x80 one) (ground arith)
  | inr one ↦ elim (Bool-cases (bit_and c 0xe0 == 0xc0)) [
    | inl two ↦ sound_rest2 c n s hc hs two (rw (one, two) at e)
    | inr two ↦ elim (Bool-cases (bit_and c 0xf0 == 0xe0)) [
      | inl three ↦ sound_rest3 c n s hc hs three (rw (one, two, three) at e)
      | inr three ↦ elim (Bool-cases (bit_and c 0xf8 == 0xf0)) [
        | inl four ↦ sound_rest4 c n s hc hs four (rw (one, two, three, four) at e)
        | inr four ↦ absurd (ground arith)
      ]
    ]
  ]
]
