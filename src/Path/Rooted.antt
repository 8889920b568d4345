-- ===== src/Path/Rooted.antt =====
-- The normal form of an absolute path (path_normalize_lexical in src/ucb/path.c).
use ucb.Common.{
  ℕ, ◌<◌, ◌≡◌, refl, sym, ap, ◌∙◌, subst, inl, inr, ◌⊎◌, Bool, true, false, ◌&&◌, List, [], ◌∷◌,
  ◌++◌, drop, All, Bool-cases, arith,
}
use ucb.Path.{sep_match, detect_anchor, root_length, open_end}
use ucb.Path.Normalize.{is_relative_anchor, anchor_text}
use ucb.Path.Segments.{segments, IsSegment}
use ucb.Path.Resolve.{Climbs, resolve, render, Climbs-resolve}
use ucb.Path.Lexical.{lexical, lexical_anchored}
use ucb.Path.Render.{from_bottom, segments-render, sep_match_self, All-IsSegment, All-resolve}
use ucb.Path.Stable.{OpenStart, resolve-from_bottom, render-split}

-- An anchor is one separator or two.
pub detect_root :
    (sep : ℕ) (c : ℕ) (s : List ℕ)
    → 0 < sep
    → sep_match sep c ≡ true
    → ((root_length sep s ≡ 1) × (anchor_text sep 1 (c ∷ s) ≡ sep ∷ []))
      ⊎ ((root_length sep s ≡ 2) × (anchor_text sep 2 (c ∷ s) ≡ sep ∷ sep ∷ []))
unfolding root_length anchor_text
detect_root sep c [] h e = inl (refl, rw e)
detect_root sep c (d ∷ []) h e = elim (Bool-cases (sep_match sep d)) [
  | inl e' ↦ inr (rw e', rw (e, e'))
  | inr e' ↦ inl (rw e', rw e)
]
detect_root sep c (d ∷ f ∷ s) h e = elim (Bool-cases (sep_match sep d)) [
  | inl e' ↦ elim (Bool-cases (sep_match sep f)) [
    | inl e'' ↦ inl (rw (e', e''), rw e)
    | inr e'' ↦ inr (rw (e', e''), rw (e, e'))
  ]
  | inr e' ↦ inl (rw e', rw e)
]

-- The anchor of a text that is an anchor and what a stack adds.
root_one : (sep : ℕ) (rest : List ℕ) → 0 < sep → OpenStart sep rest → root_length sep rest ≡ 1
unfolding root_length
root_one sep [] h o = refl
root_one sep (c ∷ []) h o = rw o
root_one sep (c ∷ d ∷ s) h o = rw o

root_two :
    (sep : ℕ) (rest : List ℕ) → 0 < sep → OpenStart sep rest → root_length sep (sep ∷ rest) ≡ 2
unfolding root_length
root_two sep [] h o = rw (sep_match_self sep h)
root_two sep (c ∷ s) h o = rw (sep_match_self sep h, o)

pub and_false : (b : Bool) → b && false ≡ false
and_false true = refl
and_false false = refl

lexical_root :
    (sep c n : ℕ) (s : List ℕ)
    → sep_match sep c ≡ true
    → root_length sep s ≡ n
    → lexical sep (c ∷ s)
      ≡ render sep (anchor_text sep n (c ∷ s)) (resolve false (segments sep (drop n (c ∷ s))) [])
unfolding lexical lexical_anchored detect_anchor is_relative_anchor
lexical_root sep c n s e r = rw (e, r, and_false)

-- A normal absolute text: an anchor and clean segments.
abbrev RootForm : ℕ → List ℕ → Type 0
RootForm sep out =
    (anchor : List ℕ) × (stack : List (List ℕ)) × ((anchor ≡ sep ∷ []) ⊎ (anchor ≡ sep ∷ sep ∷ []))
    × All (IsSegment sep) stack
    × Climbs false stack
    × (out ≡ render sep anchor stack)

RootForm-at :
    (sep c n : ℕ) (s : List ℕ)
    → sep_match sep c ≡ true
    → root_length sep s ≡ n
    → (anchor_text sep n (c ∷ s) ≡ sep ∷ []) ⊎ (anchor_text sep n (c ∷ s) ≡ sep ∷ sep ∷ [])
    → RootForm sep (lexical sep (c ∷ s))
unfolding Climbs
RootForm-at sep c n s e r a = (
  anchor_text sep n (c ∷ s),
  resolve false (segments sep (drop n (c ∷ s))) [],
  a,
  All-resolve sep false (segments sep (drop n (c ∷ s))) [] (All-IsSegment sep (drop n (c ∷ s))) tt,
  Climbs-resolve false (segments sep (drop n (c ∷ s))) [] tt,
  lexical_root sep c n s e r,
)

pub lexical-RootForm :
    (sep c : ℕ) (s : List ℕ) → 0 < sep → sep_match sep c ≡ true → RootForm sep (lexical sep (c ∷ s))
lexical-RootForm sep c s h e = elim (detect_root sep c s h e) [
  | inl (r, a) ↦ RootForm-at sep c 1 s e r (inl a)
  | inr (r, a) ↦ RootForm-at sep c 2 s e r (inr a)
]

segments_anchor :
    (sep : ℕ) (anchor : List ℕ)
    → 0 < sep
    → (anchor ≡ sep ∷ []) ⊎ (anchor ≡ sep ∷ sep ∷ [])
    → segments sep anchor ≡ []
unfolding segments
segments_anchor sep anchor h (inl e) = rw (e, sep_match_self sep h)
segments_anchor sep anchor h (inr e) = rw (e, sep_match_self sep h)

open_end_anchor :
    (sep : ℕ) (anchor : List ℕ)
    → (anchor ≡ sep ∷ []) ⊎ (anchor ≡ sep ∷ sep ∷ [])
    → open_end sep anchor ≡ false
unfolding open_end
open_end_anchor sep anchor (inl e) = rw e (ground arith)
open_end_anchor sep anchor (inr e) = rw e (ground arith)

segments_sep : (sep : ℕ) (s : List ℕ) → 0 < sep → segments sep (sep ∷ s) ≡ segments sep s
unfolding segments
segments_sep sep s h = rw (sep_match_self sep h)

pub segments_root :
    (sep : ℕ) (anchor : List ℕ) (stack : List (List ℕ))
    → 0 < sep
    → (anchor ≡ sep ∷ []) ⊎ (anchor ≡ sep ∷ sep ∷ [])
    → All (IsSegment sep) stack
    → segments sep (render sep anchor stack) ≡ from_bottom stack
segments_root sep anchor stack h k a =
    segments-render sep anchor stack h a ∙ rw (segments_anchor sep anchor h k)

stays_at :
    (sep n : ℕ) (anchor t : List ℕ) (stack : List (List ℕ))
    → 0 < sep
    → root_length sep t ≡ n
    → anchor_text sep n (sep ∷ t) ≡ anchor
    → segments sep (drop n (sep ∷ t)) ≡ from_bottom stack
    → Climbs false stack
    → lexical sep (sep ∷ t) ≡ render sep anchor stack
stays_at sep n anchor t stack h r a g c =
    lexical_root sep sep n t (sep_match_self sep h) r ∙ rw (a, g, resolve-from_bottom false stack c)

pub anchor_text_one : (sep : ℕ) (t : List ℕ) → anchor_text sep 1 (sep ∷ t) ≡ sep ∷ []
unfolding anchor_text
anchor_text_one sep t = ground arith

pub anchor_text_two : (sep : ℕ) (t : List ℕ) → anchor_text sep 2 (sep ∷ sep ∷ t) ≡ sep ∷ sep ∷ []
unfolding anchor_text
anchor_text_two sep t = ground arith

pub RootForm-stays : (sep : ℕ) (out : List ℕ) → 0 < sep → RootForm sep out → lexical sep out ≡ out
RootForm-stays sep out h (anchor, stack, k, a, c, e) =
    let (rest, e', o) = render-split sep anchor stack (open_end_anchor sep anchor k) a in
    let g = ap (segments sep) e ∙ segments_root sep anchor stack h k a in
    elim k [
      | inl m ↦
          let p = e ∙ e' ∙ ap (◌++ rest) m in
          subst (λ x. lexical sep x ≡ out) (sym p)
            (stays_at sep 1 anchor rest stack h (root_one sep rest h o)
                (anchor_text_one sep rest ∙ sym m)
                (sym (segments_sep sep rest h) ∙ ap (segments sep) (sym p) ∙ g) c
              ∙ sym e)
      | inr m ↦
          let p = e ∙ e' ∙ ap (◌++ rest) m in
          subst (λ x. lexical sep x ≡ out) (sym p)
            (stays_at sep 2 anchor (sep ∷ rest) stack h (root_two sep rest h o)
                (anchor_text_two sep rest ∙ sym m)
                (sym (segments_sep sep rest h)
                  ∙ sym (segments_sep sep (sep ∷ rest) h)
                  ∙ ap (segments sep) (sym p)
                  ∙ g)
                c
              ∙ sym e)
    ]
