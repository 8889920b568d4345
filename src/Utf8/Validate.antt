-- ===== src/Utf8/Validate.antt =====
-- ucb_uc_validate of src/ucb/unicode.c: which texts it accepts, and where it stops.
use ucb.Common.{
  ℕ, zero, suc, ◌+◌, ◌≤◌, ◌<◌, ◌≡◌, ◌≢◌, refl, sym, ap, List, [], ◌∷◌, ◌++◌, length, length-append,
  drop, All, append_assoc, arith,
}
use ucb.Utf8.{
  Check, next, cut, bad, check2, check3, check4, check_at, Verdict, valid, truncated, invalid,
  out_of_fuel, validate_loop, validate,
}
use ucb.Utf8.Scalar.{IsScalar, utf8, utf8_all}
use ucb.Utf8.Step.{IsByte, check_head, check_head-utf8, drop-utf8, check_at-Encoded}

-- No scalar value is encoded at the front of these bytes.
abbrev IsMalformed : List ℕ → Type 0
IsMalformed s = (cp : ℕ) (rest : List ℕ) → IsScalar cp → s ≢ utf8 cp ++ rest

-- The text is well formed up to `p`, and goes on with `rest`, which is not.
pub record Stops (s : List ℕ) (p : ℕ) (rest : List ℕ) : Type 0 where
  pub before : List ℕ
  pub scalars : All IsScalar before
  pub text : s ≡ utf8_all before ++ rest
  pub position : p ≡ length (utf8_all before)
  pub more : 0 < length rest
  pub malformed : IsMalformed rest

-- What a verdict says of the text.
abbrev pub Judged : List ℕ → Verdict → Type 0
Judged s valid = (cps : List ℕ) × All IsScalar cps × (s ≡ utf8_all cps)
Judged s (truncated p need got) =
    (rest : List ℕ) × Stops s p rest × (got ≡ length rest) × (got < need)
Judged s (invalid p) = (rest : List ℕ) × Stops s p rest
Judged s out_of_fuel = ⊥

pub length-utf8_pos : (cp : ℕ) → 0 < length (utf8 cp)
unfolding utf8
length-utf8_pos cp = ground arith

pub validate_loop-step :
    (fuel i n : ℕ) (s : List ℕ)
    → check_head s ≡ next n
    → validate_loop (suc fuel) i s ≡ validate_loop fuel (i + n) (drop n s)
unfolding validate_loop
validate_loop-step fuel i n [] e = absurd (ground arith)
validate_loop-step fuel i n (c ∷ s) e = rw (e, validate_loop)

validate_loop-utf8_all :
    (cps : List ℕ) (fuel i : ℕ)
    → All IsScalar cps
    → length (utf8_all cps) ≤ fuel
    → validate_loop fuel i (utf8_all cps) ≡ valid
unfolding utf8_all validate_loop
validate_loop-utf8_all [] fuel i h le = refl
validate_loop-utf8_all (cp ∷ cps) zero i h le =
    absurd (omega (arith, length-append (utf8 cp) (utf8_all cps), length-utf8_pos cp))
validate_loop-utf8_all (cp ∷ cps) (suc fuel) i h le =
    rw
      (validate_loop-step fuel i (length (utf8 cp)) (utf8 cp ++ utf8_all cps)
        (check_head-utf8 cp _ h.0))
      (rw (drop-utf8 cp (utf8_all cps)) (
        validate_loop-utf8_all cps fuel (i + length (utf8 cp)) h.1
          (omega (arith, length-append (utf8 cp) (utf8_all cps), length-utf8_pos cp))))

-- Every text of scalar values is accepted.
pub validate-utf8_all : (cps : List ℕ) → All IsScalar cps → validate (utf8_all cps) ≡ valid
unfolding validate
validate-utf8_all cps h = validate_loop-utf8_all cps (length (utf8_all cps)) 0 h (omega arith)

-- What the loop says from position `i` on.
abbrev JudgedFrom : ℕ → List ℕ → Verdict → Type 0
JudgedFrom i s valid = Judged s valid
JudgedFrom i s (truncated p need got) =
    (rest : List ℕ) × (q : ℕ) × Stops s q rest × (p ≡ i + q) × (got ≡ length rest) × (got < need)
JudgedFrom i s (invalid p) = (rest : List ℕ) × (q : ℕ) × Stops s q rest × (p ≡ i + q)
JudgedFrom i s out_of_fuel = ⊥

-- A sequence more at the front.
Stops-cons :
    (cp q : ℕ) (s t rest : List ℕ)
    → IsScalar cp
    → s ≡ utf8 cp ++ t
    → Stops t q rest
    → Stops s (length (utf8 cp) + q) rest
unfolding utf8_all
Stops-cons cp q s t rest h e st = record {
  before = cp ∷ st.before;
  scalars = (h, st.scalars);
  text = rw (e, st.text) (sym (append_assoc (utf8 cp) (utf8_all st.before) rest));
  position = omega (arith, st.position, length-append (utf8 cp) (utf8_all st.before));
  more = st.more;
  malformed = st.malformed;
}

judged-cons :
    (i cp : ℕ) (s t : List ℕ) (v : Verdict)
    → IsScalar cp
    → s ≡ utf8 cp ++ t
    → JudgedFrom (i + length (utf8 cp)) t v
    → JudgedFrom i s v
unfolding utf8_all
judged-cons i cp s t valid h e (cps, all, text) = (cp ∷ cps, (h, all), rw (e, text))
judged-cons i cp s t (truncated p need got) h e (rest, q, st, at, len, short) =
    (rest, length (utf8 cp) + q, Stops-cons cp q s t rest h e st, omega arith, len, short)
judged-cons i cp s t (invalid p) h e (rest, q, st, at) =
    (rest, length (utf8 cp) + q, Stops-cons cp q s t rest h e st, omega arith)
judged-cons i cp s t out_of_fuel h e j = absurd j

-- Where the check finds no sequence, none is there.
Stops-here : (s : List ℕ) → 0 < length s → ((n : ℕ) → check_head s ≢ next n) → Stops s 0 s
unfolding utf8_all
Stops-here s m none_here = record {
  before = [];
  scalars = tt;
  text = refl;
  position = refl;
  more = m;
  malformed = λ cp rest h e. none_here (length (utf8 cp)) (rw e (check_head-utf8 cp rest h));
}

check_at-cut : (c n : ℕ) (s : List ℕ) → check_at c s ≡ cut n → length (c ∷ s) < n
unfolding check_at check2 check3 check4
check_at-cut c n [] e = ground arith
check_at-cut c n (b1 ∷ []) e = ground arith
check_at-cut c n (b1 ∷ b2 ∷ []) e = ground arith
check_at-cut c n (b1 ∷ b2 ∷ b3 ∷ s) e = absurd (ground arith)

All-drop : (n : ℕ) (s : List ℕ) → All IsByte s → All IsByte (drop n s)
All-drop zero s h = h
All-drop (suc n) [] h = tt
All-drop (suc n) (b ∷ s) h = All-drop n s h.1

-- One round of the loop, over what the rounds after it say.
judged-round :
    (fuel i c : ℕ) (s : List ℕ) (k : Check)
    → ((j : ℕ) (t : List ℕ)
        → All IsByte t
        → length t ≤ fuel
        → JudgedFrom j t (validate_loop fuel j t))
    → c < 256
    → All IsByte s
    → length s ≤ fuel
    → check_at c s ≡ k
    → JudgedFrom i (c ∷ s) (validate_loop (suc fuel) i (c ∷ s))
unfolding validate_loop
judged-round fuel i c s (next n) ih hc hs le e =
    let (cp, scalar, text, len) = check_at-Encoded c n s hc hs e in
    let rest = drop n (c ∷ s) in
    let total : length (c ∷ s) ≡ length (utf8 cp ++ rest) = ap length text in
    let short : length rest ≤ fuel =
      omega (arith, length-append (utf8 cp) rest, length-utf8_pos cp) in
    rw (e, validate_loop)
      (judged-cons i cp (c ∷ s) rest (validate_loop fuel (i + n) rest) scalar text
        (rw (← len) (ih (i + n) rest (All-drop n (c ∷ s) (hc, hs)) short)))
judged-round fuel i c s (cut n) ih hc hs le e =
    rw (e, validate_loop)
      (
        c ∷ s,
        0,
        Stops-here (c ∷ s) (omega arith) (λ n h. ground arith),
        omega arith,
        refl,
        check_at-cut c n s e,
      )
judged-round fuel i c s bad ih hc hs le e =
    rw (e, validate_loop)
      (c ∷ s, 0, Stops-here (c ∷ s) (omega arith) (λ n h. ground arith), omega arith)

validate_loop-JudgedFrom :
    (fuel i : ℕ) (s : List ℕ)
    → All IsByte s
    → length s ≤ fuel
    → JudgedFrom i s (validate_loop fuel i s)
unfolding validate_loop utf8_all
validate_loop-JudgedFrom fuel i [] h le = ([], tt, refl)
validate_loop-JudgedFrom zero i (c ∷ s) h le = absurd (omega arith)
validate_loop-JudgedFrom (suc fuel) i (c ∷ s) h le =
    judged-round fuel i c s (check_at c s) (validate_loop-JudgedFrom fuel) h.0 h.1 (omega arith)
      refl

Judged-of_from : (s : List ℕ) (v : Verdict) → JudgedFrom 0 s v → Judged s v
Judged-of_from s valid j = j
Judged-of_from s (truncated p need got) (rest, q, st, at, len, short) =
    let e : p ≡ q = omega arith in (rest, rw e st, len, short)
Judged-of_from s (invalid p) (rest, q, st, at) = let e : p ≡ q = omega arith in (rest, rw e st)
Judged-of_from s out_of_fuel j = j

-- The validator always gives a verdict, and it is right: an accepted text is the encoding of scalar
-- values; an error names the position up to which the text is such an encoding and from which no
-- scalar value is encoded, and a truncation says how many bytes are left, fewer than are needed.
pub validate-Judged : (s : List ℕ) → All IsByte s → Judged s (validate s)
unfolding validate
validate-Judged s h =
    Judged-of_from s (validate s) (validate_loop-JudgedFrom (length s) 0 s h (omega arith))
