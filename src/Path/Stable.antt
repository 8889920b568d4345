-- ===== src/Path/Stable.antt =====
-- A resolved stack and its text, in the normal form of src/ucb/path.c.
use ucb.Common.{
  ℕ, ◌≡◌, refl, sym, ap, ◌∙◌, inl, inr, Bool, false, List, [], ◌∷◌, ◌++◌, All, append_assoc,
  append-nil,
}
use ucb.Path.{sep_match, open_end, junction}
use ucb.Path.Segments.{IsSegment}
use ucb.Path.Resolve.{Climbs, resolve, resolve_step, render}
use ucb.Path.Render.{from_bottom}

resolve-append :
    (relative : Bool) (xs ys stack : List (List ℕ))
    → resolve relative (xs ++ ys) stack ≡ resolve relative ys (resolve relative xs stack)
unfolding resolve
resolve-append relative [] ys stack = refl
resolve-append relative (x ∷ xs) ys stack =
    resolve-append relative xs ys (resolve_step relative x stack)

Climbs-push :
    (relative : Bool) (seg : List ℕ) (stack : List (List ℕ))
    → Climbs relative (seg ∷ stack)
    → resolve_step relative seg stack ≡ seg ∷ stack
unfolding Climbs
Climbs-push relative seg stack (m, inl (e, c)) = rw (m, e)
Climbs-push relative seg [] (m, inr (e, r, a, c)) = rw (m, e, r)
Climbs-push relative seg (top ∷ stack) (m, inr (e, r, a, c)) = rw (m, e, r, a.0)

Climbs-below :
    (relative : Bool) (seg : List ℕ) (stack : List (List ℕ))
    → Climbs relative (seg ∷ stack)
    → Climbs relative stack
unfolding Climbs
Climbs-below relative seg stack (m, inl (e, c)) = c
Climbs-below relative seg stack (m, inr (e, r, a, c)) = c

-- A resolved stack resolves to itself.
pub resolve-from_bottom :
    (relative : Bool) (stack : List (List ℕ))
    → Climbs relative stack
    → resolve relative (from_bottom stack) [] ≡ stack
unfolding resolve
resolve-from_bottom relative [] c = refl
resolve-from_bottom relative (seg ∷ stack) c =
    resolve-append relative (from_bottom stack) (seg ∷ []) []
    ∙ rw (resolve-from_bottom relative stack (Climbs-below relative seg stack c))
        (Climbs-push relative seg stack c)

-- The text does not begin with a separator.
abbrev pub OpenStart : ℕ → List ℕ → Type 0
OpenStart sep [] = Unit
OpenStart sep (c ∷ s) = sep_match sep c ≡ false

OpenStart-append :
    (sep : ℕ) (rest sub seg : List ℕ)
    → OpenStart sep rest
    → (rest ≡ [] → sub ≡ [])
    → IsSegment sep seg
    → OpenStart sep (rest ++ sub ++ seg)
OpenStart-append sep [] sub [] o f (n, a) = absurd (n refl)
OpenStart-append sep [] sub (d ∷ seg) o f (n, a) = rw (f refl) a.0
OpenStart-append sep (c ∷ rest) sub seg o f i = o

-- What the stack adds to an anchor.
pub render-split :
    (sep : ℕ) (anchor : List ℕ) (stack : List (List ℕ))
    → open_end sep anchor ≡ false
    → All (IsSegment sep) stack
    → (rest : List ℕ) × (render sep anchor stack ≡ anchor ++ rest) × OpenStart sep rest
unfolding render junction
render-split sep anchor [] h a = ([], sym (append-nil anchor), tt)
render-split sep anchor (seg ∷ stack) h (i, a) =
    let (rest, e, o) = render-split sep anchor stack h a in
    let sub = junction sep (render sep anchor stack) in
    (
      rest ++ sub ++ seg,
      ap (λ r. r ++ sub ++ seg) e
          ∙ rw (append_assoc anchor rest sub, append_assoc anchor (rest ++ sub) seg),
      OpenStart-append sep rest sub seg o (λ r. rw (e, r, append-nil anchor, h)) i,
    )
