-- ===== src/Path/Segments.antt =====
-- The segments of a string between its separators, and the scan of the loops in src/ucb/path.c.
use ucb.Common.{
  ℕ, ◌≤◌, ◌<◌, ◌≡◌, ◌≢◌, refl, sym, ap, ◌∙◌, ◌⊎◌, inl, inr, Bool, true, false, not, none, some,
  List, [], ◌∷◌, if◌then◌else◌, length, All, Bool-cases, arith,
}
use ucb.Path.{sep_match, is_empty}
use ucb.Path.Normalize.{skip_seps, take_segment, next_segment}

-- A string without separators that is not empty.
abbrev pub IsSegment : ℕ → List ℕ → Type 0
IsSegment sep seg = (seg ≢ []) × All (λ c. sep_match sep c ≡ false) seg

abbrev pub in_segment : ℕ → List ℕ → Bool
in_segment sep [] = false
in_segment sep (c ∷ s) = not (sep_match sep c)

abbrev pub add_first : ℕ → Bool → List (List ℕ) → List (List ℕ)
add_first c true (seg ∷ segs) = (c ∷ seg) ∷ segs
add_first c _ segs = (c ∷ []) ∷ segs

-- Read from the end, byte by byte.
unfoldable pub segments : ℕ → List ℕ → List (List ℕ)
segments sep [] = []
segments sep (c ∷ s) =
    if sep_match sep c then segments sep s else add_first c (in_segment sep s) (segments sep s)

segments_skip : (sep : ℕ) (s : List ℕ) → segments sep (skip_seps sep s) ≡ segments sep s
unfolding segments skip_seps
segments_skip sep [] = refl
segments_skip sep (c ∷ s) = elim (Bool-cases (sep_match sep c)) [
  | inl e ↦ rw (e, segments_skip sep s)
  | inr e ↦ rw (e, segments, e)
]

pub segments_open :
    (sep c : ℕ) (s : List ℕ)
    → sep_match sep c ≡ false
    → segments sep (c ∷ s) ≡ add_first c (in_segment sep s) (segments sep s)
unfolding segments
segments_open sep c s e = rw e

pub first_segment :
    (sep c : ℕ) (s : List ℕ)
    → add_first c (in_segment sep s) (segments sep s)
      ≡ (c ∷ (take_segment sep s).0) ∷ segments sep (take_segment sep s).1
unfolding segments take_segment
first_segment sep c [] = refl
first_segment sep c (d ∷ s) = elim (Bool-cases (sep_match sep d)) [
  | inl e ↦ rw (e, segments, e)
  | inr e ↦ rw (e, first_segment sep d s)
]

take_open :
    (sep c : ℕ) (s : List ℕ)
    → sep_match sep c ≡ false
    → take_segment sep (c ∷ s) ≡ (c ∷ (take_segment sep s).0, (take_segment sep s).1)
unfolding take_segment
take_open sep c s e = rw e

take_lem :
    (sep : ℕ) (s : List ℕ)
    → All (λ c. sep_match sep c ≡ false) (take_segment sep s).0
      × (length (take_segment sep s).1 ≤ length s)
unfolding take_segment
take_lem sep [] = (tt, omega arith)
take_lem sep (c ∷ s) = elim (Bool-cases (sep_match sep c)) [
  | inl e ↦ rw e (tt, omega arith)
  | inr e ↦ rw e ((e, (take_lem sep s).0), omega (arith, (take_lem sep s).1))
]

skip_lem :
    (sep : ℕ) (s : List ℕ)
    → (skip_seps sep s ≡ [])
      ⊎ ((c : ℕ) × (t : List ℕ) × (skip_seps sep s ≡ c ∷ t)
          × (sep_match sep c ≡ false)
          × (length (c ∷ t) ≤ length s))
unfolding skip_seps
skip_lem sep [] = inl refl
skip_lem sep (c ∷ s) = elim (Bool-cases (sep_match sep c)) [
  | inl e ↦ elim (skip_lem sep s) [
    | inl h ↦ inl (rw (e, h))
    | inr (d, t, h, k, l) ↦ inr (d, t, rw (e, h), k, omega (arith, l))
  ]
  | inr e ↦ inr (c, s, rw e, e, omega arith)
]

-- What the scan finds: no segment is left, or the first one, and fewer bytes.
pub next_segment_lem :
    (sep : ℕ) (s : List ℕ)
    → ((next_segment sep s ≡ none) × (segments sep s ≡ []))
      ⊎ ((seg : List ℕ) × (rest : List ℕ) × (next_segment sep s ≡ some (seg, rest))
          × (segments sep s ≡ seg ∷ segments sep rest)
          × IsSegment sep seg
          × (length rest < length s))
unfolding next_segment segments
next_segment_lem sep s = elim (skip_lem sep s) [
  | inl e ↦ inl (rw (e, is_empty), sym (segments_skip sep s) ∙ rw (e, segments))
  | inr (c, t, e, h, l) ↦ inr (
    c ∷ (take_segment sep t).0,
    (take_segment sep t).1,
    rw (e, is_empty, take_open sep c t h),
    sym (segments_skip sep s)
        ∙ ap (segments sep) e
        ∙ segments_open sep c t h
        ∙ first_segment sep c t,
    ((λ n. ground arith), (h, (take_lem sep t).0)),
    omega (arith, l, (take_lem sep t).1),
  )
]
