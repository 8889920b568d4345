-- ===== src/Path/Dir.antt =====
-- path_build_dir in src/ucb/path.c, for the separator of POSIX.
use ucb.Common.{
  ℕ, ◌<◌, ◌≡◌, refl, sym, ap, ◌∙◌, inl, inr, ◌⊎◌, Bool, true, false, not, ◌&&◌, List, [], ◌∷◌, ◌++◌,
  map, if◌then◌else◌, take, drop, take-append-drop, Bool-cases, arith, append_assoc, append-nil,
}
use ucb.Path.{
  slash, sep_match, is_sep, AnchorKind, anchor_none, anchor_root, detect_anchor, root_length,
  open_end, is_empty, dir_loop, closes, close_root, build_anchored, build_dir,
}
use ucb.Path.Segments.{segments}
use ucb.Path.Rooted.{and_false}
use ucb.Path.Render.{segments-append, segments_empty}
use ucb.Path.DirLoop.{
  grown, is_sep-slash, dir_loop-segments, EndsOpen, content_loop, dir_loop-EndsOpen,
  open_end-append,
}

match_zero : (c : ℕ) → sep_match 0 c ≡ is_sep c
match_zero c = ground arith

-- The anchor of the region is none, or one separator, or two.
anchor_cases :
    (s : List ℕ)
    → (detect_anchor 0 s ≡ (anchor_none, 0))
      ⊎ ((n : ℕ) × (detect_anchor 0 s ≡ (anchor_root, n))
          × (0 < n)
          × ((take n s ≡ slash ∷ []) ⊎ (take n s ≡ slash ∷ slash ∷ [])))
unfolding detect_anchor root_length
anchor_cases [] = inl refl
anchor_cases (c ∷ s) = elim (Bool-cases (is_sep c)) [
  | inr e ↦ inl (rw (match_zero c, e))
  | inl e ↦ inr (
    root_length 0 s,
    rw (match_zero c, e),
    (root_cases s).0,
    rw (is_sep-slash c e) (root_cases s).1,
  )
]
  where
    root_cases :
        (s : List ℕ)
        → (0 < root_length 0 s)
          × ((take (root_length 0 s) (slash ∷ s) ≡ slash ∷ [])
              ⊎ (take (root_length 0 s) (slash ∷ s) ≡ slash ∷ slash ∷ []))
    root_cases [] = (omega arith, inl refl)
    root_cases (d ∷ []) = elim (Bool-cases (is_sep d)) [
      | inl f ↦ rw (match_zero d, f) (omega arith, inr (rw (is_sep-slash d f)))
      | inr f ↦ rw (match_zero d, f) (omega arith, inl refl)
    ]
    root_cases (d ∷ g ∷ s) = elim (Bool-cases (is_sep d)) [
      | inl f ↦ elim (Bool-cases (is_sep g)) [
        | inl f' ↦ rw (match_zero d, match_zero g, f, f') (omega arith, inl refl)
        | inr f' ↦ rw (match_zero d, match_zero g, f, f') (omega arith, inr (rw (is_sep-slash d f)))
      ]
      | inr f ↦ rw (match_zero d, f) (omega arith, inl refl)
    ]

abbrev own_sep : ℕ → ℕ
own_sep c = if is_sep c then slash else c

-- The anchor is copied.
map_anchor :
    (t : List ℕ)
    → (t ≡ slash ∷ []) ⊎ (t ≡ slash ∷ slash ∷ [])
    → map (λ c. if is_sep c then slash else c) t ≡ t
map_anchor t (inl e) = rw e
map_anchor t (inr e) = rw e

close_root-segments :
    (a : AnchorKind × ℕ) (r : List ℕ × Bool)
    → segments slash (close_root slash a r) ≡ segments slash r.0
unfolding close_root
close_root-segments a (out, has_content) = elim (Bool-cases (closes slash a (out, has_content))) [
  | inl e ↦
      rw (close_root, e)
        (segments-append slash out [] (omega arith)
          ∙ rw (segments_empty slash) (append-nil (segments slash out)))
  | inr e ↦ rw (close_root, e)
]

-- Normalizing the directory region keeps its segments: repeated separators stand for one, and none
-- is lost or joined.
pub build_dir-segments : (s : List ℕ) → segments slash (build_dir slash s) ≡ segments slash s
unfolding build_dir build_anchored
build_dir-segments s = elim (anchor_cases s) [
  | inl e ↦ rw e (
      close_root-segments (anchor_none, 0) (dir_loop slash [] false false s)
      ∙ dir_loop-segments [] false false s)
  | inr (n, e, p, k) ↦
      rw (e, map_anchor (take n s) k)
        (close_root-segments (anchor_root, n) (dir_loop slash (take n s) false false (drop n s))
          ∙ dir_loop-segments (take n s) false false (drop n s)
          ∙ ap (segments slash) (take-append-drop n s))
]

-- A root: nothing, one separator or two.
abbrev pub IsRoot : List ℕ → Type 0
IsRoot s = (s ≡ []) ⊎ ((s ≡ slash ∷ []) ⊎ (s ≡ slash ∷ slash ∷ []))

close_content : (a : AnchorKind × ℕ) (out : List ℕ) → close_root slash a (out, true) ≡ out
unfolding close_root closes
close_content (ak, n) out = ground arith

close_anchor :
    (ak : AnchorKind) (n : ℕ) (t : List ℕ)
    → (t ≡ slash ∷ []) ⊎ (t ≡ slash ∷ slash ∷ [])
    → close_root slash (ak, n) (t, false) ≡ t
unfolding close_root closes open_end is_empty
close_anchor ak n t (inl e) = rw (e, close_root, closes, and_false)
close_anchor ak n t (inr e) = rw (e, close_root, closes, and_false)

close_none : close_root slash (anchor_none, 0) ([], false) ≡ []
unfolding close_root closes
close_none = refl

ends_lem :
    (a : AnchorKind × ℕ) (tmp : List ℕ) (r : List ℕ × Bool)
    → close_root slash a (tmp, false) ≡ tmp
    → EndsOpen tmp r
    → (open_end slash (close_root slash a r) ≡ true) ⊎ (close_root slash a r ≡ tmp)
ends_lem a tmp (out, has_content) h (inl (c, o)) = inl (rw (c, close_content a out) o)
ends_lem a tmp (out, has_content) h (inr (c, o)) = inr (rw (c, o) h)

-- For the separator of POSIX, a stored directory ends in a separator only when it is a root: nothing,
-- one separator or two.
pub build_dir_ends :
    (s : List ℕ) → (open_end slash (build_dir slash s) ≡ true) ⊎ IsRoot (build_dir slash s)
unfolding build_dir build_anchored
build_dir_ends s = elim (anchor_cases s) [
  | inl e ↦
      rw e
        (elim (ends_lem (anchor_none, 0) [] (dir_loop slash [] false false s) close_none
          (dir_loop-EndsOpen [] false s)) [ inl o ↦ inl o | inr q ↦ inr (inl q) ])
  | inr (n, e, p, k) ↦
      rw (e, map_anchor (take n s) k)
        (elim (ends_lem (anchor_root, n) (take n s)
          (dir_loop slash (take n s) false false (drop n s))
          (close_anchor anchor_root n (take n s) k)
          (dir_loop-EndsOpen (take n s) false (drop n s))) [
            | inl o ↦ inl o
            | inr q ↦ inr (inr (elim k [ inl t ↦ inl (q ∙ t) | inr t ↦ inr (q ∙ t) ]))
          ])
]

regroup : (a b c d : List ℕ) → a ++ b ++ c ++ d ≡ a ++ (b ++ c ++ d)
regroup a b c d = rw (append_assoc a b c, append_assoc a (b ++ c) d)

dir_loop-prefix :
    (tmp : List ℕ) (p has_content : Bool) (s : List ℕ)
    → (x : List ℕ) × ((dir_loop slash tmp p has_content s).0 ≡ tmp ++ x)
unfolding dir_loop
dir_loop-prefix tmp p has_content [] = ([], sym (append-nil tmp))
dir_loop-prefix tmp p has_content (c ∷ s) = elim (Bool-cases (is_sep c)) [
  | inl e ↦ rw (dir_loop, e) (dir_loop-prefix tmp true has_content s)
  | inr e ↦
      let sub = if p && not (is_empty tmp) then slash ∷ [] else [] in
      let (x, h) = dir_loop-prefix (grown tmp p c) false true s in
      (sub ++ c ∷ [] ++ x, rw (dir_loop, e) (h ∙ regroup tmp sub (c ∷ []) x))
]

close_true : (a : AnchorKind × ℕ) (r : List ℕ × Bool) → r.1 ≡ true → close_root slash a r ≡ r.0
close_true a (out, has_content) e = rw e (close_content a out)

build_dir-triple :
    (c : ℕ) (s : List ℕ)
    → is_sep c ≡ false
    → build_dir slash (slash ∷ slash ∷ slash ∷ c ∷ s)
      ≡ (dir_loop slash (slash ∷ slash ∷ c ∷ []) false true s).0
unfolding detect_anchor root_length build_dir build_anchored dir_loop is_empty
build_dir-triple c s e =
    rw (build_dir, dir_loop, e)
      (close_true (anchor_root, 1) (dir_loop slash (slash ∷ slash ∷ c ∷ []) false true s)
        (content_loop (slash ∷ slash ∷ c ∷ []) false s
          (open_end-append (slash ∷ slash ∷ []) c e)).0)

-- Three separators and another byte at the start of a directory region are an anchor of one byte, but
-- the directory that is stored for them starts with an anchor of two.
pub triple_root :
    (c : ℕ) (s : List ℕ)
    → is_sep c ≡ false
    → ((detect_anchor 0 (slash ∷ slash ∷ slash ∷ c ∷ s)).1 ≡ 1)
      × ((detect_anchor 0 (build_dir slash (slash ∷ slash ∷ slash ∷ c ∷ s))).1 ≡ 2)
unfolding detect_anchor root_length
triple_root c s e =
    let (x, h) = dir_loop-prefix (slash ∷ slash ∷ c ∷ []) false true s in
    (refl, rw (build_dir-triple c s e, h, match_zero c, e))
