-- ===== src/Path/Inside.antt =====
-- ucb_path_is_inside in src/ucb/path.c: one list of parts is a proper beginning of the other.
use ucb.Common.{
  ℕ, zero, suc, ◌+◌, ◌≤◌, ◌<◌, ◌≡◌, ◌≢◌, refl, sym, ap, ap₂, ◌∙◌, inl, inr, ◌⊎◌, ◌↔◌, Bool, true,
  false, ◌||◌, List, [], ◌∷◌, ◌++◌, leb, ◌==◌, if◌then◌else◌, length, drop, Bool-cases, arith,
  length-append,
}
use ucb.Common.Outcome.{Outcome, ok}
use ucb.Path.{Style, FilePath}
use ucb.Path.Bytes.{str_equal, str_equal-eq, str_equal_self}
use ucb.Path.Parts.{inside_loop, inside_one, is_inside}
use ucb.Path.PartList.{part_list, part-nth, num_parts-length, drop_get, drop_all}

-- `inner` is `outer`, which is not empty, and at least one more part.
pub Descends : List (List ℕ) → List (List ℕ) → Type 0
Descends inner outer =
    (outer ≢ []) × ((x : List ℕ) × (xs : List (List ℕ)) × (inner ≡ outer ++ x ∷ xs))

-- The answer is returned, and it is true just where `P` holds.
abbrev pub Decides : Outcome Bool → Type 0 → Type 0
Decides m P = (b : Bool) × (m ≡ ok b) × ((b ≡ true) ↔ P)

abbrev Begins : List (List ℕ) → List (List ℕ) → Type 0
Begins inner outer = (rest : List (List ℕ)) × (inner ≡ outer ++ rest)

abbrev rest_of : List (List ℕ) → List (List ℕ)
rest_of [] = []
rest_of (x ∷ xs) = xs

abbrev first_of : List (List ℕ) → List ℕ
first_of [] = []
first_of (x ∷ xs) = x

inside_step :
    (x y : List ℕ) (xs ys : List (List ℕ)) (m : Outcome Bool)
    → Decides m (Begins xs ys)
    → Decides (elim (str_equal x y) [ true ↦ m | false ↦ ok false ]) (Begins (x ∷ xs) (y ∷ ys))
inside_step x y xs ys m (b, e, f) = elim (Bool-cases (str_equal x y)) [
  | inl h ↦ rw h (
    b,
    e,
    (
      (λ r. ((f.0 r).0, ap₂ (λ a l. a ∷ l) (str_equal-eq x y h) (f.0 r).1)),
      λ q. f.1 (q.0, ap rest_of q.1),
    ),
  )
  | inr h ↦ rw h (
    false,
    refl,
    ((λ r. ground arith), λ q. sym h ∙ ap (str_equal x) (sym (ap first_of q.1)) ∙ str_equal_self x),
  )
]

inside_loop-Begins :
    (conf : Style) (inner outer : FilePath) (n i : ℕ)
    → n + i ≡ length (part_list conf outer)
    → length (part_list conf outer) ≤ length (part_list conf inner)
    → Decides
        (inside_loop conf inner outer n i)
        (Begins (drop i (part_list conf inner)) (drop i (part_list conf outer)))
unfolding inside_loop
inside_loop-Begins conf inner outer zero i h l =
    rw (drop_all (part_list conf outer) i (omega arith))
      (true, refl, ((λ r. (drop i (part_list conf inner), refl)), λ r. refl))
inside_loop-Begins conf inner outer (suc n) i h l =
    let (x, e, d) = drop_get (part_list conf inner) i (omega arith) in
    let (y, e', d') = drop_get (part_list conf outer) i (omega arith) in
    rw (part-nth conf inner i, part-nth conf outer i, e, e', d, d')
      (inside_step x y (drop (suc i) (part_list conf inner)) (drop (suc i) (part_list conf outer))
        (inside_loop conf inner outer n (suc i))
        (inside_loop-Begins conf inner outer n (suc i) (omega arith) l))

Descends-length :
    (inner outer : List (List ℕ))
    → Descends inner outer
    → (0 < length outer) × (length outer < length inner)
unfolding Descends
Descends-length inner [] (n, (x, xs, e)) = absurd (n refl)
Descends-length inner (y ∷ outer) (n, (x, xs, e)) =
    rw e (omega arith, omega (arith, length-append outer (x ∷ xs)))

longer :
    (inner outer rest : List (List ℕ))
    → inner ≡ outer ++ rest
    → length outer < length inner
    → (x : List ℕ) × (xs : List (List ℕ)) × (inner ≡ outer ++ x ∷ xs)
longer inner outer [] e h = absurd (omega (arith, ap length e, length-append outer []))
longer inner outer (x ∷ xs) e h = (x, xs, e)

sized :
    (inner outer : List (List ℕ)) (m : Outcome Bool)
    → (length outer ≤ length inner → Decides m (Begins inner outer))
    → Decides
        (if length inner == 0 || length outer == 0 || leb (length inner) (length outer)
          then ok false
          else m)
        (Descends inner outer)
unfolding Descends
sized inner outer m k =
    elim (Bool-cases
      (length inner == 0 || length outer == 0 || leb (length inner) (length outer))) [
        | inl e ↦
            rw e (
              false,
              refl,
              ((λ r. ground arith), λ d. ground (arith, Descends-length inner outer d)),
            )
        | inr e ↦
            let l = sizes (length inner) (length outer) e in
            let (b, m', f) = k (omega arith) in
            rw e (
              b,
              m',
              (
                (λ r. ((λ n. ground arith), longer inner outer (f.0 r).0 (f.0 r).1 l.1)),
                λ (n, (x, xs, g)). f.1 (x ∷ xs, g),
              ),
            )
      ]
  where
    sizes : (n o : ℕ) → (n == 0 || o == 0 || leb n o) ≡ false → (0 < o) × (o < n)
    sizes n o e = ground arith

-- ucb_path_is_inside on one side: the answer is returned, and it is true just where the parts of
-- `inner` are those of `outer`, of which there are some, and at least one more.
inside_one-Descends :
    (conf : Style) (inner outer : FilePath)
    → Decides (inside_one conf inner outer) (Descends (part_list conf inner) (part_list conf outer))
unfolding inside_one Descends
inside_one-Descends conf inner outer =
    rw (num_parts-length conf inner, num_parts-length conf outer)
      (sized (part_list conf inner) (part_list conf outer)
        (inside_loop conf inner outer (length (part_list conf outer)) 0)
        (λ l.
          inside_loop-Begins conf inner outer (length (part_list conf outer)) 0 (omega arith) l))

-- ucb_path_is_inside always returns, and true just where the parts of one path are those of the other,
-- of which there are some, and at least one more.
pub is_inside-Descends :
    (conf : Style) (a b : FilePath)
    → Decides (is_inside conf a b) (
        Descends (part_list conf a) (part_list conf b)
        ⊎ Descends (part_list conf b) (part_list conf a))
unfolding is_inside
is_inside-Descends conf a b =
    let (ab, e, f) = inside_one-Descends conf a b in
    let (ba, e', f') = inside_one-Descends conf b a in rw (e, e') (either ab ba f f')
  where
    either :
        {P Q : Type 0} (ab ba : Bool)
        → ((ab ≡ true) ↔ P)
        → ((ba ≡ true) ↔ Q)
        → Decides (if ab then ok true else ok ba) (P ⊎ Q)
    either true ba f g = (true, refl, ((λ r. inl (f.0 refl)), λ d. refl))
    either false ba f g = (
      ba,
      refl,
      ((λ r. inr (g.0 r)), λ d. elim d [ inl p ↦ ground (arith, f.1 p) | inr q ↦ g.1 q ]),
    )
