-- ===== src/Path/Lexical.antt =====
-- path_normalize_lexical in src/ucb/path.c resolves the segments on a stack.
use ucb.Common.{
  ℕ, zero, suc, ◌≤◌, ◌≡◌, refl, ap, ◌∙◌, inl, inr, Bool, true, false, not, ◌&&◌, List, [], ◌∷◌,
  ◌++◌, ltb, if◌then◌else◌, length, take, drop, All, Bool-cases, arith,
}
use ucb.Path.{
  AnchorKind, anchor_none, anchor_root, dot, sep_match, detect_anchor, junction, is_empty,
  root_length,
}
use ucb.Path.Normalize.{
  Norm, is_drive, finish, normalize_anchored, is_dot, is_dotdot, is_relative_anchor, add_segment,
  drop_segment, norm_step, norm_loop, anchor_text, normalize_lexical,
}
use ucb.Path.Resolve.{Climbs, up, resolve_step, resolve, render, Climbs-step}
use ucb.Path.Segments.{segments, next_segment_lem}

-- The loop, on a list of segments.
norm_segments : ℕ → Bool → List (List ℕ) → Norm → Norm
norm_segments sep relative [] st = st
norm_segments sep relative (seg ∷ segs) st =
    norm_segments sep relative segs (norm_step sep relative seg st)

norm_loop-segments :
    (sep : ℕ) (relative : Bool) (fuel : ℕ) (s : List ℕ) (st : Norm)
    → length s ≤ fuel
    → norm_loop sep relative fuel s st ≡ norm_segments sep relative (segments sep s) st
unfolding norm_loop norm_segments segments
norm_loop-segments sep relative zero [] st h = refl
norm_loop-segments sep relative zero (c ∷ s) st h = absurd (omega arith)
norm_loop-segments sep relative (suc fuel) s st h = elim (next_segment_lem sep s) [
  | inl (e, e') ↦ rw (norm_loop, e, e')
  | inr (seg, rest, e, e', i, l) ↦
      rw (norm_loop, e, e') (norm_loop-segments sep relative fuel rest _ (omega arith))
]

offsets : ℕ → List ℕ → List (List ℕ) → List ℕ
offsets sep anchor [] = []
offsets sep anchor (seg ∷ stack) = length (render sep anchor stack) ∷ offsets sep anchor stack

ups : List (List ℕ) → ℕ
ups [] = 0
ups (seg ∷ stack) = if is_dotdot seg then suc (ups stack) else ups stack

ups_le : (stack : List (List ℕ)) → ups stack ≤ length stack
unfolding ups
ups_le [] = omega arith
ups_le (seg ∷ stack) = ground (arith, ups_le stack)

ups-All : (stack : List (List ℕ)) → All (λ t. is_dotdot t ≡ true) stack → ups stack ≡ length stack
unfolding ups
ups-All [] a = refl
ups-All (seg ∷ stack) (e, a) = rw e (omega (arith, ups-All stack a))

length-offsets :
    (sep : ℕ) (anchor : List ℕ) (stack : List (List ℕ))
    → length (offsets sep anchor stack) ≡ length stack
unfolding offsets
length-offsets sep anchor [] = refl
length-offsets sep anchor (seg ∷ stack) = omega (arith, length-offsets sep anchor stack)

take-length : (xs ys zs : List ℕ) → take (length xs) (xs ++ ys ++ zs) ≡ xs
take-length [] ys zs = refl
take-length (x ∷ xs) ys zs = ap (◌∷◌ x) (take-length xs ys zs)

-- The state of the loop shows the stack.
state : ℕ → List ℕ → List (List ℕ) → Norm
unfolding render offsets ups
state sep anchor stack = record {
  out = render sep anchor stack;
  starts = offsets sep anchor stack;
  base = ups stack;
}

norm_step_up :
    (sep : ℕ) (relative : Bool) (seg : List ℕ) (st : Norm)
    → is_dot seg ≡ false
    → is_dotdot seg ≡ true
    → norm_step sep relative seg st ≡ (
        if ltb st.base (length st.starts)
        then drop_segment st.starts st
        else if relative
        then record (add_segment sep seg st) { base = suc st.base }
        else st)
unfolding norm_step
norm_step_up sep relative seg st n e = rw (n, e)

room :
    (sep : ℕ) (anchor : List ℕ) (relative : Bool) (top : List ℕ) (stack : List (List ℕ))
    → Climbs relative (top ∷ stack)
    → ltb (ups (top ∷ stack)) (length (offsets sep anchor (top ∷ stack))) ≡ not (is_dotdot top)
unfolding Climbs ups offsets
room sep anchor relative top stack (m, inl (e, c)) =
    rw e (ground (arith, ups_le stack, length-offsets sep anchor stack))
room sep anchor relative top stack (m, inr (e, r, a, c)) =
    rw e (ground (arith, ups-All stack a, length-offsets sep anchor stack))

step_up :
    (sep : ℕ) (anchor : List ℕ) (relative : Bool) (seg : List ℕ) (stack : List (List ℕ))
    → is_dot seg ≡ false
    → is_dotdot seg ≡ true
    → Climbs relative stack
    → norm_step sep relative seg (state sep anchor stack) ≡ state sep anchor (up relative seg stack)
unfolding norm_step state ups
step_up sep anchor true seg [] n e c = rw (n, e)
step_up sep anchor false seg [] n e c = rw (n, e)
step_up sep anchor relative seg (top ∷ stack) n e c =
    norm_step_up sep relative seg _ n e
    ∙ rw (state, room sep anchor relative top stack c)
        (elim (Bool-cases (is_dotdot top)) [
          | inl e' ↦ elim (Bool-cases relative) [
            | inl r ↦ rw (e', r, e, e')
            | inr r ↦ rw (e', r, e')
          ]
          | inr e' ↦ rw (
            e',
            take-length (render sep anchor stack) (junction sep (render sep anchor stack)) top,
          )
        ])

norm_step-state :
    (sep : ℕ) (anchor : List ℕ) (relative : Bool) (seg : List ℕ) (stack : List (List ℕ))
    → Climbs relative stack
    → norm_step sep relative seg (state sep anchor stack)
      ≡ state sep anchor (resolve_step relative seg stack)
unfolding norm_step state ups
norm_step-state sep anchor relative seg stack c = elim (Bool-cases (is_dot seg)) [
  | inl n ↦ rw (norm_step, n)
  | inr n ↦ elim (Bool-cases (is_dotdot seg)) [
    | inl e ↦ step_up sep anchor relative seg stack n e c ∙ rw (n, e)
    | inr e ↦ rw (norm_step, n, e, state, e)
  ]
]

norm_segments-resolve :
    (sep : ℕ) (anchor : List ℕ) (relative : Bool) (segs stack : List (List ℕ))
    → Climbs relative stack
    → norm_segments sep relative segs (state sep anchor stack)
      ≡ state sep anchor (resolve relative segs stack)
unfolding norm_segments resolve
norm_segments-resolve sep anchor relative [] stack c = refl
norm_segments-resolve sep anchor relative (seg ∷ segs) stack c =
    rw (norm_step-state sep anchor relative seg stack c) (
      norm_segments-resolve sep anchor relative segs (resolve_step relative seg stack)
        (Climbs-step relative seg stack c))

-- The anchor, and the segments that are left on the stack; "." when nothing is left of a relative
-- path.
unfoldable pub lexical_anchored : ℕ → AnchorKind × ℕ → List ℕ → List ℕ
unfolding anchor_text render resolve segments is_relative_anchor is_empty
lexical_anchored sep (ak, n) s =
    let out =
      render sep (anchor_text sep n s)
        (resolve (is_relative_anchor ak) (segments sep (drop n s)) []) in
    if is_empty out && not (is_empty s) && is_relative_anchor ak then dot ∷ [] else out

unfoldable pub lexical : ℕ → List ℕ → List ℕ
unfolding lexical_anchored detect_anchor
lexical sep s = lexical_anchored sep (detect_anchor sep s) s

pub drop_le : (n : ℕ) (s : List ℕ) → length (drop n s) ≤ length s
drop_le zero s = omega arith
drop_le (suc n) [] = omega arith
drop_le (suc n) (c ∷ s) = omega (arith, drop_le n s)

normalize_anchored-lexical :
    (sep : ℕ) (ak : AnchorKind) (n : ℕ) (s : List ℕ)
    → is_drive ak ≡ false
    → normalize_anchored sep (ak, n) s ≡ lexical_anchored sep (ak, n) s
unfolding normalize_anchored lexical_anchored finish state render offsets ups Climbs
normalize_anchored-lexical sep ak n s e = rw (
  e,
  norm_loop-segments sep (is_relative_anchor ak) (length s) (drop n s) _ (drop_le n s),
  norm_segments-resolve sep (anchor_text sep n s) (is_relative_anchor ak) (segments sep (drop n s))
      [] tt,
)

-- The output of path_normalize_lexical is the anchor and the stack of segments that resolving "."
-- and ".." leaves, joined by one separator each; a relative path of which nothing is left is ".".
pub normalize_lexical-lexical : (sep : ℕ) (s : List ℕ) → normalize_lexical sep s ≡ lexical sep s
unfolding normalize_lexical lexical detect_anchor
normalize_lexical-lexical sep [] = normalize_anchored-lexical sep anchor_none 0 [] refl
normalize_lexical-lexical sep (c ∷ s) = elim (Bool-cases (sep_match sep c)) [
  | inl e ↦ rw e (normalize_anchored-lexical sep anchor_root (root_length sep s) (c ∷ s) refl)
  | inr e ↦ rw e (normalize_anchored-lexical sep anchor_none 0 (c ∷ s) refl)
]
