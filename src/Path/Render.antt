-- ===== src/Path/Render.antt =====
-- The segments of a rendered stack are the stack again (src/ucb/path.c).
use ucb.Common.{
  ℕ, ◌<◌, ◌≡◌, refl, sym, ap, ◌∙◌, inl, inr, ◌⊎◌, Bool, true, false, not, List, [], ◌∷◌, ◌++◌, All,
  Bool-cases, arith, append_assoc, append-nil,
}
use ucb.Path.{sep_match, open_end, junction}
use ucb.Path.Segments.{segments, segments_open, first_segment, in_segment, add_first, IsSegment}
use ucb.Path.Resolve.{resolve, render, up, resolve_step}

-- A separator of the output is not 0.
pub sep_match_self : (sep : ℕ) → 0 < sep → sep_match sep sep ≡ true
sep_match_self sep h = ground arith

open_segments :
    (sep d : ℕ) (s : List ℕ)
    → sep_match sep d ≡ false
    → (seg : List ℕ) × (segs : List (List ℕ)) × (segments sep (d ∷ s) ≡ seg ∷ segs)
open_segments sep d s e = (_, _, segments_open sep d s e ∙ first_segment sep d s)

pub segments_sep :
    (sep c : ℕ) (s : List ℕ) → sep_match sep c ≡ true → segments sep (c ∷ s) ≡ segments sep s
unfolding segments
segments_sep sep c s e = rw e

segments_nil : (sep : ℕ) (ys : List ℕ) → segments sep ys ≡ segments sep [] ++ segments sep ys
unfolding segments
segments_nil sep ys = refl

add_first-append :
    (sep c d : ℕ) (s : List ℕ) (segs : List (List ℕ))
    → add_first c (not (sep_match sep d)) (segments sep (d ∷ s) ++ segs)
      ≡ add_first c (not (sep_match sep d)) (segments sep (d ∷ s)) ++ segs
add_first-append sep c d s segs = elim (Bool-cases (sep_match sep d)) [
  | inl e ↦ rw e
  | inr e ↦ let (g, gs, h) = open_segments sep d s e in rw (e, h)
]

alone :
    (sep c : ℕ) (ys : List ℕ)
    → add_first c false (segments sep [] ++ segments sep ys)
      ≡ add_first c false (segments sep []) ++ segments sep ys
unfolding segments
alone sep c ys = refl

-- A separator ends what stands before it.
pub segments-append :
    (sep : ℕ) (xs ys : List ℕ)
    → 0 < sep
    → segments sep (xs ++ sep ∷ ys) ≡ segments sep xs ++ segments sep ys
segments-append sep [] ys h = segments_sep sep sep ys (sep_match_self sep h) ∙ segments_nil sep ys
segments-append sep (c ∷ xs) ys h = elim (Bool-cases (sep_match sep c)) [
  | inl e ↦
      segments_sep sep c (xs ++ sep ∷ ys) e
      ∙ segments-append sep xs ys h
      ∙ rw (segments_sep sep c xs e)
  | inr e ↦
      segments_open sep c (xs ++ sep ∷ ys) e
      ∙ rw (segments-append sep xs ys h, segments_open sep c xs e) (go xs)
]
  where
    go :
        (xs : List ℕ)
        → add_first c (in_segment sep (xs ++ sep ∷ ys)) (segments sep xs ++ segments sep ys)
          ≡ add_first c (in_segment sep xs) (segments sep xs) ++ segments sep ys
    go [] = rw (sep_match_self sep h) (alone sep c ys)
    go (d ∷ xs) = add_first-append sep c d xs (segments sep ys)

segments_alone : (sep c : ℕ) → add_first c false (segments sep []) ≡ (c ∷ []) ∷ []
unfolding segments
segments_alone sep c = refl

pub segments_one :
    (sep c : ℕ) (s : List ℕ)
    → All (λ d. sep_match sep d ≡ false) (c ∷ s)
    → segments sep (c ∷ s) ≡ (c ∷ s) ∷ []
segments_one sep c [] (e, a) = segments_open sep c [] e ∙ segments_alone sep c
segments_one sep c (d ∷ s) (e, (e', a)) =
    segments_open sep c (d ∷ s) e ∙ rw (e', segments_one sep d s (e', a))

All-add_first :
    (sep c : ℕ) (b : Bool) (segs : List (List ℕ))
    → sep_match sep c ≡ false
    → All (IsSegment sep) segs
    → All (IsSegment sep) (add_first c b segs)
All-add_first sep c true [] e a = (((λ n. ground arith), (e, tt)), tt)
All-add_first sep c true (seg ∷ segs) e ((n, f), a) = (((λ n. ground arith), (e, f)), a)
All-add_first sep c false segs e a = (((λ n. ground arith), (e, tt)), a)

pub All-IsSegment : (sep : ℕ) (s : List ℕ) → All (IsSegment sep) (segments sep s)
unfolding segments
All-IsSegment sep [] = tt
All-IsSegment sep (c ∷ s) = elim (Bool-cases (sep_match sep c)) [
  | inl e ↦ rw e (All-IsSegment sep s)
  | inr e ↦ rw e (All-add_first sep c (in_segment sep s) (segments sep s) e (All-IsSegment sep s))
]

pub All-resolve :
    (sep : ℕ) (relative : Bool) (segs stack : List (List ℕ))
    → All (IsSegment sep) segs
    → All (IsSegment sep) stack
    → All (IsSegment sep) (resolve relative segs stack)
unfolding resolve
All-resolve sep relative [] stack a b = b
All-resolve sep relative (seg ∷ segs) stack (i, a) b =
    All-resolve sep relative segs (resolve_step relative seg stack) a (All-step relative stack b)
  where
    All-up :
        (relative : Bool) (stack : List (List ℕ))
        → All (IsSegment sep) stack
        → All (IsSegment sep) (up relative seg stack)
    All-up true [] b = (i, tt)
    All-up false [] b = tt
    All-up relative (top ∷ stack) (j, b) = ground arith

    All-step :
        (relative : Bool) (stack : List (List ℕ))
        → All (IsSegment sep) stack
        → All (IsSegment sep) (resolve_step relative seg stack)
    All-step relative stack b = ground (arith, All-up relative stack b)

-- The stack from the bottom up.
abbrev pub from_bottom : List (List ℕ) → List (List ℕ)
from_bottom [] = []
from_bottom (seg ∷ stack) = from_bottom stack ++ seg ∷ []

open_end_cases :
    (sep : ℕ) (s : List ℕ)
    → open_end sep s ≡ false
    → (s ≡ []) ⊎ ((t : List ℕ) × (s ≡ t ++ sep ∷ []))
unfolding open_end
open_end_cases sep [] e = inl refl
open_end_cases sep (c ∷ []) e = inr ([], ground arith)
open_end_cases sep (c ∷ d ∷ s) e = elim (open_end_cases sep (d ∷ s) e) [
  | inl n ↦ ground arith
  | inr (t, h) ↦ inr (c ∷ t, ap (◌∷◌ c) h)
]

pub segments_empty : (sep : ℕ) → segments sep [] ≡ []
unfolding segments
segments_empty sep = refl

-- Two texts with a junction between them.
pub segments-junction :
    (sep : ℕ) (s t : List ℕ)
    → 0 < sep
    → segments sep (s ++ junction sep s ++ t) ≡ segments sep s ++ segments sep t
unfolding junction
segments-junction sep s t h = elim (Bool-cases (open_end sep s)) [
  | inl e ↦ rw (e, append_assoc s (sep ∷ []) t) (segments-append sep s t h)
  | inr e ↦ elim (open_end_cases sep s e) [
    | inl n ↦ rw (e, n, segments_empty sep)
    | inr (u, h') ↦ rw (
      e,
      append-nil s,
      h',
      append_assoc u (sep ∷ []) t,
      segments-append sep u t h,
      segments-append sep u [] h,
      segments_empty sep,
      append-nil (segments sep u),
    )
  ]
]

pub segments_join :
    (sep : ℕ) (s seg : List ℕ)
    → 0 < sep
    → IsSegment sep seg
    → segments sep (s ++ junction sep s ++ seg) ≡ segments sep s ++ seg ∷ []
segments_join sep s [] h (n, a) = absurd (n refl)
segments_join sep s (c ∷ seg) h (n, a) =
    segments-junction sep s (c ∷ seg) h ∙ rw (segments_one sep c seg a)

-- The segments of a text are those of the anchor and those on the stack.
pub segments-render :
    (sep : ℕ) (anchor : List ℕ) (stack : List (List ℕ))
    → 0 < sep
    → All (IsSegment sep) stack
    → segments sep (render sep anchor stack) ≡ segments sep anchor ++ from_bottom stack
unfolding render
segments-render sep anchor [] h a = sym (append-nil (segments sep anchor))
segments-render sep anchor (seg ∷ stack) h (i, a) =
    segments_join sep (render sep anchor stack) seg h i
    ∙ rw (segments-render sep anchor stack h a)
        (append_assoc (segments sep anchor) (from_bottom stack) (seg ∷ []))
