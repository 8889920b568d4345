-- ===== src/Path/Normal.antt =====
-- The normal form of path_normalize_lexical in src/ucb/path.c: what it contains, and that it stays.
use ucb.Common.{
  ℕ, ◌<◌, ◌≡◌, ◌≢◌, refl, sym, ◌∙◌, subst, inl, inr, ◌⊎◌, Bool, true, false, not, ◌&&◌, List, [],
  ◌∷◌, if◌then◌else◌, All, All-snoc, Bool-cases, arith,
}
use ucb.Path.{
  Style, style_windows, sep_of_style, resolve_style, anchor_none, dot, sep_match, sep_of,
  detect_anchor, open_end, is_empty,
}
use ucb.Path.Edit.{starts_with_sep}
use ucb.Path.Normalize.{is_dot, is_dotdot, is_relative_anchor, anchor_text, normalize_lexical}
use ucb.Path.Segments.{segments, IsSegment}
use ucb.Path.Resolve.{Climbs, resolve, render, Climbs-resolve}
use ucb.Path.Lexical.{lexical, lexical_anchored, normalize_lexical-lexical}
use ucb.Path.Render.{
  from_bottom, segments_one, segments_empty, segments-render, All-IsSegment, All-resolve,
}
use ucb.Path.Stable.{OpenStart, resolve-from_bottom, render-split}
use ucb.Path.Rooted.{lexical-RootForm, segments_root, RootForm-stays}

pub sep_of_lem : (conf style : Style) → (0 < sep_of conf style) × (sep_of conf style ≢ dot)
unfolding sep_of sep_of_style
sep_of_lem conf style =
    elim (resolve_style conf style) as (λ r. (0 < sep_of_style r) × (sep_of_style r ≢ dot)) [
      | style_windows ↦ (omega arith, λ h. omega arith)
      | _ ↦ (omega arith, λ h. omega arith)
    ]

-- The text of a relative stack, or ".".
abbrev or_dot : List ℕ → List ℕ → List ℕ
or_dot s out = if is_empty out && not (is_empty s) then dot ∷ [] else out

pub detect_none : (sep : ℕ) (s : List ℕ) → OpenStart sep s → detect_anchor sep s ≡ (anchor_none, 0)
unfolding detect_anchor
detect_none sep [] o = refl
detect_none sep (c ∷ s) o = rw o

and_true : (b : Bool) → b && true ≡ b
and_true true = refl
and_true false = refl

lexical_relative :
    (sep : ℕ) (s : List ℕ)
    → OpenStart sep s
    → lexical sep s ≡ or_dot s (render sep [] (resolve true (segments sep s) []))
unfolding lexical lexical_anchored is_relative_anchor anchor_text
lexical_relative sep s o = rw (detect_none sep s o, and_true)

lexical_nil : (sep : ℕ) → lexical sep [] ≡ []
unfolding resolve render is_empty
lexical_nil sep = lexical_relative sep [] tt ∙ rw (segments_empty sep)

is_empty-nil : (s : List ℕ) → is_empty s ≡ true → s ≡ []
unfolding is_empty
is_empty-nil [] e = refl
is_empty-nil (c ∷ s) e = ground arith

lexical-dot : (sep : ℕ) → sep ≢ dot → lexical sep (dot ∷ []) ≡ dot ∷ []
unfolding resolve is_dot render is_empty
lexical-dot sep h =
    let e = dot_lem sep h in
    lexical_relative sep (dot ∷ []) e ∙ rw (segments_one sep dot [] (e, tt))
  where
    dot_lem : (sep : ℕ) → sep ≢ dot → sep_match sep dot ≡ false
    dot_lem sep h = ground arith

relative_stays :
    (sep : ℕ) (stack : List (List ℕ))
    → 0 < sep
    → All (IsSegment sep) stack
    → Climbs true stack
    → is_empty (render sep [] stack) ≡ false
    → lexical sep (render sep [] stack) ≡ render sep [] stack
unfolding open_end
relative_stays sep stack h a c n =
    let (rest, e, o) = render-split sep [] stack refl a in
    lexical_relative sep (render sep [] stack) (subst (OpenStart sep) (sym e) o)
    ∙ rw (segments-render sep [] stack h a, segments_empty sep, resolve-from_bottom true stack c, n)

or_dot_stays :
    (sep : ℕ) (s : List ℕ) (stack : List (List ℕ))
    → 0 < sep
    → sep ≢ dot
    → All (IsSegment sep) stack
    → Climbs true stack
    → lexical sep (or_dot s (render sep [] stack)) ≡ or_dot s (render sep [] stack)
or_dot_stays sep s stack h h' a c = elim (Bool-cases (is_empty (render sep [] stack))) [
  | inl e ↦ elim (Bool-cases (is_empty s)) [
    | inl e' ↦ rw (e, e', is_empty-nil (render sep [] stack) e) (lexical_nil sep)
    | inr e' ↦ rw (e, e') (lexical-dot sep h')
  ]
  | inr e ↦ rw e (relative_stays sep stack h a c e)
]

pub starts_cases :
    (sep : ℕ) (s : List ℕ)
    → OpenStart sep s ⊎ ((c : ℕ) × (t : List ℕ) × (s ≡ c ∷ t) × (sep_match sep c ≡ true))
starts_cases sep [] = inl tt
starts_cases sep (c ∷ s) = elim (Bool-cases (sep_match sep c)) [
  | inl e ↦ inr (c, s, refl, e)
  | inr e ↦ inl e
]

lexical-lexical :
    (sep : ℕ) (s : List ℕ) → 0 < sep → sep ≢ dot → lexical sep (lexical sep s) ≡ lexical sep s
unfolding Climbs
lexical-lexical sep s h h' = elim (starts_cases sep s) [
  | inl o ↦ rw (lexical_relative sep s o) (
      or_dot_stays sep s (resolve true (segments sep s) []) h h'
        (All-resolve sep true (segments sep s) [] (All-IsSegment sep s) tt)
        (Climbs-resolve true (segments sep s) [] tt))
  | inr (c, t, e, m) ↦
      rw e (RootForm-stays sep (lexical sep (c ∷ t)) h (lexical-RootForm sep c t h m))
]

-- Normalising a path that is normal changes nothing, for every style.
pub normalize_idempotent :
    (conf style : Style) (s : List ℕ)
    → normalize_lexical (sep_of conf style) (normalize_lexical (sep_of conf style) s)
      ≡ normalize_lexical (sep_of conf style) s
normalize_idempotent conf style s =
    rw
      (
        normalize_lexical-lexical (sep_of conf style) s,
        normalize_lexical-lexical (sep_of conf style) (lexical (sep_of conf style) s),
      )
      (lexical-lexical (sep_of conf style) s (sep_of_lem conf style).0 (sep_of_lem conf style).1)

-- Neither "." nor "..".
abbrev IsPlain : List ℕ → Type 0
IsPlain seg = (is_dot seg ≡ false) × (is_dotdot seg ≡ false)

Climbs-IsPlain : (stack : List (List ℕ)) → Climbs false stack → All IsPlain (from_bottom stack)
unfolding Climbs
Climbs-IsPlain [] c = tt
Climbs-IsPlain (seg ∷ stack) (m, inl (e, c)) =
    All-snoc _ (from_bottom stack) seg (Climbs-IsPlain stack c) (m, e)
Climbs-IsPlain (seg ∷ stack) (m, inr (e, r, a, c)) = ground arith

-- The normal form of an absolute path has no segment "." and no segment "..".
normalize-IsPlain :
    (conf style : Style) (s : List ℕ)
    → starts_with_sep (sep_of conf style) s ≡ true
    → All IsPlain (segments (sep_of conf style) (normalize_lexical (sep_of conf style) s))
unfolding starts_with_sep
normalize-IsPlain conf style [] h = ground arith
normalize-IsPlain conf style (c ∷ s) h =
    let p = (sep_of_lem conf style).0 in
    let (anchor, stack, k, a, d, e) = lexical-RootForm (sep_of conf style) c s p h in
    rw
      (
        normalize_lexical-lexical (sep_of conf style) (c ∷ s),
        e,
        segments_root (sep_of conf style) anchor stack p k a,
      )
      (Climbs-IsPlain stack d)
