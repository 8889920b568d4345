-- ===== src/Path/Resolve.antt =====
-- Segments resolved on a stack: what path_normalize_lexical in src/ucb/path.c has to produce.
use ucb.Common.{
  ℕ, ◌≡◌, refl, inl, inr, ◌⊎◌, Bool, true, false, List, [], ◌∷◌, ◌++◌, if◌then◌else◌, All,
  Bool-cases,
}
use ucb.Path.{junction}
use ucb.Path.Normalize.{is_dot, is_dotdot}

-- The specification: a stack of segments, the last one on top.
abbrev pub up : Bool → List ℕ → List (List ℕ) → List (List ℕ)
up true seg [] = seg ∷ []
up false seg [] = []
up relative seg (top ∷ stack) =
    if is_dotdot top then (if relative then seg ∷ top ∷ stack else top ∷ stack) else stack

abbrev pub resolve_step : Bool → List ℕ → List (List ℕ) → List (List ℕ)
resolve_step relative seg stack =
    if is_dot seg then stack else if is_dotdot seg then up relative seg stack else seg ∷ stack

unfoldable pub resolve : Bool → List (List ℕ) → List (List ℕ) → List (List ℕ)
resolve relative [] stack = stack
resolve relative (seg ∷ segs) stack = resolve relative segs (resolve_step relative seg stack)

-- The text of a stack after an anchor.
unfoldable pub render : ℕ → List ℕ → List (List ℕ) → List ℕ
unfolding junction
render sep anchor [] = anchor
render sep anchor (seg ∷ stack) =
    render sep anchor stack ++ junction sep (render sep anchor stack) ++ seg

-- Below a ".." are only "..", there are none unless the path is relative, and no "." is left.
unfoldable pub Climbs : Bool → List (List ℕ) → Type 0
Climbs relative [] = Unit
Climbs relative (seg ∷ stack) =
    (is_dot seg ≡ false)
    × (((is_dotdot seg ≡ false) × Climbs relative stack)
        ⊎ ((is_dotdot seg ≡ true)
            × (relative ≡ true)
            × All (λ t. is_dotdot t ≡ true) stack
            × Climbs relative stack))

Climbs-up :
    (relative : Bool) (seg : List ℕ) (stack : List (List ℕ))
    → is_dot seg ≡ false
    → is_dotdot seg ≡ true
    → Climbs relative stack
    → Climbs relative (up relative seg stack)
unfolding Climbs
Climbs-up true seg [] n e c = (n, inr (e, refl, tt, tt))
Climbs-up false seg [] n e c = tt
Climbs-up true seg (top ∷ stack) n e (m, inl (e', c)) = rw e' c
Climbs-up false seg (top ∷ stack) n e (m, inl (e', c)) = rw e' c
Climbs-up true seg (top ∷ stack) n e (m, inr (e', r, a, c)) =
    rw e' (n, inr (e, refl, (e', a), (m, inr (e', r, a, c))))
Climbs-up false seg (top ∷ stack) n e (m, inr (e', r, a, c)) = rw e' (m, inr (e', r, a, c))

pub Climbs-step :
    (relative : Bool) (seg : List ℕ) (stack : List (List ℕ))
    → Climbs relative stack
    → Climbs relative (resolve_step relative seg stack)
unfolding Climbs
Climbs-step relative seg stack c = elim (Bool-cases (is_dot seg)) [
  | inl e ↦ rw e c
  | inr e ↦ elim (Bool-cases (is_dotdot seg)) [
    | inl e' ↦ rw (e, e') (Climbs-up relative seg stack e e' c)
    | inr e' ↦ rw (e, e') (e, inl (e', c))
  ]
]

pub Climbs-resolve :
    (relative : Bool) (segs stack : List (List ℕ))
    → Climbs relative stack
    → Climbs relative (resolve relative segs stack)
unfolding resolve
Climbs-resolve relative [] stack c = c
Climbs-resolve relative (seg ∷ segs) stack c =
    Climbs-resolve relative segs (resolve_step relative seg stack)
      (Climbs-step relative seg stack c)
