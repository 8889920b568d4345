-- ===== src/Path/Ancestors.antt =====
-- The loop of ucb_path_parents in src/ucb/path.c ends.
use ucb.Common.{
  ℕ, zero, suc, ◌≤◌, ◌≡◌, refl, sym, ap, ◌∙◌, subst, inl, inr, Bool, true, false, not, ◌&&◌, ◌||◌,
  Option, some, List, [], ◌∷◌, if◌then◌else◌, length, Bool-cases, arith,
}
use ucb.Path.{Style, FilePath, compose, has_name, need_sep, sep_of, is_empty}
use ucb.Path.Bytes.{str_equal, str_equal_self}
use ucb.Path.Edit.{is_path_empty, equals, clone, copy}
use ucb.Path.Parts.{parent, parents_loop, parents}
use ucb.Path.Normal.{sep_of_lem}
use ucb.Path.ParentDir.{parent_dir, parent_dir-Shrinks}

-- The loop has enough fuel.
abbrev Ends : Style → ℕ → FilePath → Type 0
Ends conf fuel path = (strs : List (List ℕ)) × (parents_loop conf fuel path ≡ some strs)

picked :
    (b b' : Bool) (x : List (List ℕ))
    → (y : List (List ℕ)) × ((if b then some [] else if b' then some [] else some x) ≡ some y)
picked true b' x = ([], refl)
picked false true x = ([], refl)
picked false false x = (x, refl)

stopped :
    (b b' : Bool) (o : Option (List (List ℕ)))
    → (b || b') ≡ true
    → (y : List (List ℕ)) × ((if b then some [] else if b' then some [] else o) ≡ some y)
stopped true b' o h = ([], refl)
stopped false true o h = ([], refl)
stopped false false o h = ground arith

Ends-step :
    (conf : Style) (fuel : ℕ) (path : FilePath)
    → Ends conf fuel (parent conf path)
    → Ends conf (suc fuel) path
unfolding parents_loop
Ends-step conf fuel path (strs, e) =
    rw (parents_loop, e)
      (picked (is_path_empty path)
        (is_path_empty (parent conf path) || equals conf path (parent conf path))
        (compose conf (parent conf path) ∷ strs))

Ends-stop :
    (conf : Style) (fuel : ℕ) (path : FilePath)
    → (is_path_empty path
        || (is_path_empty (parent conf path) || equals conf path (parent conf path)))
      ≡ true
    → Ends conf (suc fuel) path
unfolding parents_loop
Ends-stop conf fuel path h =
    stopped (is_path_empty path)
      (is_path_empty (parent conf path) || equals conf path (parent conf path)) _ h

-- The parent of a path without a filename.
nameless : Style → FilePath → FilePath
unfolding clone
nameless conf path = record (clone path) {
  dir = parent_dir (sep_of conf path.style) path.dir;
  dirty = true;
}

parent-nameless :
    (conf : Style) (path : FilePath) → has_name path ≡ false → parent conf path ≡ nameless conf path
unfolding parent nameless
parent-nameless conf path e = rw (parent, e)

has_name-nameless :
    (conf : Style) (path : FilePath) → has_name path ≡ false → has_name (nameless conf path) ≡ false
unfolding nameless clone copy has_name
has_name-nameless conf path e = e

is_path_empty-dir :
    (path : FilePath) → has_name path ≡ false → path.dir ≡ [] → is_path_empty path ≡ true
unfolding is_path_empty has_name is_empty
is_path_empty-dir path e d = rw d (go (is_empty path.stem) (is_empty path.ext) e)
  where
    go : (a b : Bool) → (not a || not b) ≡ false → (a && b) ≡ true
    go a b h = ground arith

equals-root :
    (conf : Style) (path : FilePath)
    → has_name path ≡ false
    → parent_dir (sep_of conf path.style) path.dir ≡ path.dir
    → equals conf path (nameless conf path) ≡ true
unfolding equals nameless clone copy compose need_sep has_name
equals-root conf path e d =
    ap (λ r. str_equal (compose conf path) (compose conf (record path { dir = r }))) d
    ∙ str_equal_self (compose conf path)

Ends-here :
    (conf : Style) (fuel : ℕ) (path : FilePath)
    → is_path_empty path ≡ true
    → Ends conf (suc fuel) path
Ends-here conf fuel path h = Ends-stop conf fuel path (rw h)

Ends-orphan :
    (conf : Style) (fuel : ℕ) (path : FilePath)
    → is_path_empty (parent conf path) ≡ true
    → Ends conf (suc fuel) path
Ends-orphan conf fuel path h = Ends-stop conf fuel path (rw h (or_true (is_path_empty path)))
  where
    or_true : (a : Bool) → (a || true) ≡ true
    or_true a = ground arith

Ends-root :
    (conf : Style) (fuel : ℕ) (path : FilePath)
    → has_name path ≡ false
    → parent_dir (sep_of conf path.style) path.dir ≡ path.dir
    → Ends conf (suc fuel) path
Ends-root conf fuel path e d = Ends-stop conf fuel path (
    last_of (is_path_empty path) (is_path_empty (parent conf path))
      (equals conf path (parent conf path))
      (rw (parent-nameless conf path e) (equals-root conf path e d)))
  where
    last_of : (a b c : Bool) → c ≡ true → (a || (b || c)) ≡ true
    last_of a b c h = ground arith

-- One unit of fuel more than the directory has bytes.
Ends-nameless :
    (conf : Style) (fuel : ℕ) (path : FilePath)
    → has_name path ≡ false
    → length path.dir ≤ fuel
    → Ends conf (suc fuel) path
unfolding nameless clone copy
Ends-nameless conf zero path e l =
    Ends-here conf zero path (is_path_empty-dir path e (empty_of path.dir l))
  where
    empty_of : (s : List ℕ) → length s ≤ 0 → s ≡ []
    empty_of [] l = refl
    empty_of (c ∷ s) l = absurd (omega arith)
Ends-nameless conf (suc fuel) path e l =
    let q = nameless conf path in
    let e' = has_name-nameless conf path e in
    let p = parent-nameless conf path e in
    elim (parent_dir-Shrinks (sep_of conf path.style) path.dir (sep_of_lem conf path.style).0) [
      | inl d ↦ Ends-orphan conf (suc fuel) path (ap is_path_empty p ∙ is_path_empty-dir q e' d)
      | inr (inl d) ↦
          Ends-step conf (suc fuel) path
            (subst (Ends conf (suc fuel)) (sym p) (Ends-root conf fuel q e' d))
      | inr (inr d) ↦ Ends-step conf (suc fuel) path (
          subst (Ends conf (suc fuel)) (sym p) (Ends-nameless conf fuel q e' (omega (arith, d, l))))
    ]

-- The parent of a path with a filename.
only_dir : FilePath → FilePath
unfolding clone
only_dir path = record (clone path) { stem = []; ext = []; dirty = true }

only_dir_nameless : (path : FilePath) → has_name (only_dir path) ≡ false
unfolding only_dir clone copy has_name is_empty
only_dir_nameless path = refl

parent-named :
    (conf : Style) (path : FilePath) → has_name path ≡ true → parent conf path ≡ only_dir path
unfolding parent only_dir
parent-named conf path e = rw (parent, e)

-- The loop of ucb_path_parents ends for every path: it is given fuel for the bytes of the directory
-- and two more steps, and returns.
pub parents-Ends :
    (conf : Style) (path : FilePath) → (strs : List (List ℕ)) × (parents conf path ≡ some strs)
unfolding parents only_dir clone copy
parents-Ends conf path = elim (Bool-cases (has_name path)) [
  | inl e ↦ Ends-step conf (suc (length path.dir)) path (
      subst (Ends conf (suc (length path.dir))) (sym (parent-named conf path e)) (
        Ends-nameless conf (length path.dir) (only_dir path) (only_dir_nameless path)
          (omega arith)))
  | inr e ↦ Ends-nameless conf (suc (length path.dir)) path e (omega arith)
]
