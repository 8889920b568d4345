-- ===== src/Path/ParentDir.antt =====
-- The directory that ucb_path_parent in src/ucb/path.c leaves of a directory.
use ucb.Common.{
  ℕ, zero, suc, ◌<◌, ◌≡◌, refl, sym, ◌∙◌, subst, inl, inr, ◌⊎◌, true, some, List, [], ◌∷◌, leb,
  length, length-take, take, Bool-cases, Option-cases, arith, append-nil,
}
use ucb.Path.{AnchorKind, anchor_none, anchor_root, sep_match, detect_anchor, root_length}
use ucb.Path.Normalize.{anchor_text, is_relative_anchor, is_drive}
use ucb.Path.Parts.{find_cut, keep_anchor, build_anchor, cut_dir}
use ucb.Path.Render.{sep_match_self}
use ucb.Path.Rooted.{detect_root, anchor_text_one, anchor_text_two}
use ucb.Path.Normal.{detect_none, starts_cases}

abbrev pub parent_dir : ℕ → List ℕ → List ℕ
parent_dir sep dir = cut_dir sep (detect_anchor sep dir) dir

find_cut_lt : (sep n : ℕ) (s : List ℕ) (i k : ℕ) → find_cut sep n s i ≡ some k → k < i
unfolding find_cut
find_cut_lt sep n s zero k h = ground arith
find_cut_lt sep n s (suc i) k h = ground (arith, find_cut_lt sep n s i k)

-- A root is its own parent.
fixed_one : (sep : ℕ) → 0 < sep → parent_dir sep (sep ∷ []) ≡ sep ∷ []
unfolding cut_dir detect_anchor root_length find_cut keep_anchor build_anchor is_relative_anchor
    is_drive
fixed_one sep h = rw (sep_match_self sep h) (anchor_text_one sep [])

fixed_two : (sep : ℕ) → 0 < sep → parent_dir sep (sep ∷ sep ∷ []) ≡ sep ∷ sep ∷ []
unfolding cut_dir detect_anchor root_length find_cut keep_anchor build_anchor is_relative_anchor
    is_drive
fixed_two sep h = rw (sep_match_self sep h) (anchor_text_two sep [])

-- The parent directory is empty, its own parent, or shorter.
abbrev Shrinks : ℕ → List ℕ → List ℕ → Type 0
Shrinks sep dir r = (r ≡ []) ⊎ ((parent_dir sep r ≡ r) ⊎ (length r < length dir))

cut_cases :
    (sep : ℕ) (ak : AnchorKind) (n : ℕ) (dir : List ℕ)
    → (cut_dir sep (ak, n) dir ≡ keep_anchor sep ak n dir)
      ⊎ ((cut : ℕ) × (cut_dir sep (ak, n) dir ≡ take cut dir) × (cut < length dir))
unfolding cut_dir
cut_cases sep ak n dir = elim (Option-cases (find_cut sep n dir (length dir))) [
  | inl e ↦ inl (rw (cut_dir, e))
  | inr (cut, e) ↦ elim (Bool-cases (leb cut n)) [
    | inl f ↦ inl (rw (cut_dir, e, f))
    | inr f ↦ inr (cut, rw (cut_dir, e, f), find_cut_lt sep n dir (length dir) cut e)
  ]
]

Shrinks-cut :
    (sep : ℕ) (ak : AnchorKind) (n : ℕ) (dir : List ℕ)
    → Shrinks sep dir (keep_anchor sep ak n dir)
    → Shrinks sep dir (cut_dir sep (ak, n) dir)
Shrinks-cut sep ak n dir k = elim (cut_cases sep ak n dir) [
  | inl e ↦ subst (Shrinks sep dir) (sym e) k
  | inr (cut, e, l) ↦
      subst (Shrinks sep dir) (sym e)
        (inr (inr (omega (arith, l, length-take cut dir (omega (arith, l))))))
]

keep_none : (sep : ℕ) (dir : List ℕ) → keep_anchor sep anchor_none 0 dir ≡ []
unfolding keep_anchor is_relative_anchor
keep_none sep dir = refl

keep_root : (sep n : ℕ) (dir : List ℕ) → keep_anchor sep anchor_root n dir ≡ anchor_text sep n dir
unfolding keep_anchor is_relative_anchor build_anchor is_drive
keep_root sep n dir = append-nil (anchor_text sep n dir)

detect_one :
    (sep c n : ℕ) (s : List ℕ)
    → sep_match sep c ≡ true
    → root_length sep s ≡ n
    → detect_anchor sep (c ∷ s) ≡ (anchor_root, n)
unfolding detect_anchor
detect_one sep c n s m r = rw (m, r)

Shrinks-root :
    (sep c n : ℕ) (s t : List ℕ)
    → sep_match sep c ≡ true
    → root_length sep s ≡ n
    → anchor_text sep n (c ∷ s) ≡ t
    → parent_dir sep t ≡ t
    → Shrinks sep (c ∷ s) (parent_dir sep (c ∷ s))
Shrinks-root sep c n s t m r a f = rw (detect_one sep c n s m r) (
    Shrinks-cut sep anchor_root n (c ∷ s)
      (subst (Shrinks sep (c ∷ s)) (sym (keep_root sep n (c ∷ s) ∙ a)) (inr (inl f))))

pub parent_dir-Shrinks : (sep : ℕ) (dir : List ℕ) → 0 < sep → Shrinks sep dir (parent_dir sep dir)
parent_dir-Shrinks sep dir h = elim (starts_cases sep dir) [
  | inl o ↦ rw (detect_none sep dir o) (Shrinks-cut sep anchor_none 0 dir (inl (keep_none sep dir)))
  | inr (c, s, e, m) ↦ subst (λ d. Shrinks sep d (parent_dir sep d)) (sym e) (rooted c s m)
]
  where
    rooted :
        (c : ℕ) (s : List ℕ) → sep_match sep c ≡ true → Shrinks sep (c ∷ s) (parent_dir sep (c ∷ s))
    rooted c s m = elim (detect_root sep c s h m) [
      | inl (r, a) ↦ Shrinks-root sep c 1 s (sep ∷ []) m r a (fixed_one sep h)
      | inr (r, a) ↦ Shrinks-root sep c 2 s (sep ∷ sep ∷ []) m r a (fixed_two sep h)
    ]
