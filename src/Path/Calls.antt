-- ===== src/Path/Calls.antt =====
-- The caches of a path over a sequence of calls in src/ucb/path.c.
use ucb.Common.{
  ℕ, ◌≡◌, refl, inl, inr, ◌⊎◌, Bool, true, false, none, some, List, [], ◌∷◌, ◌++◌, if◌then◌else◌,
  Bool-cases, arith, not,
}
use ucb.Path.{Style, FilePath, need_sep, compose, update, parse, has_name}
use ucb.Path.Edit
use ucb.Path.Edit.{append_other, is_absolute, init_style}
use ucb.Path.Normalize
use ucb.Path.Parts

-- The caches are stale, or what they stand for.
Coherent : Style → FilePath → Type 0
Coherent conf path =
    (path.dirty ≡ true) ⊎ ((path.name ≡ path.stem ++ path.ext) × (path.cache ≡ compose conf path))

-- One call that changes a path.
pub data Call : Type 0 where
  assign set_dir set_stem set_ext set_filename append_str : List ℕ → Call
  copy append : FilePath → Call
  set_style : Style → Call
  append_self normalize clear str filename parent : Call

pub apply : Style → FilePath → Call → FilePath
unfolding Edit.assign Edit.set_dir Edit.set_stem Edit.set_ext Edit.set_filename Edit.append_str
    Edit.copy Edit.append Edit.set_style Edit.clear Edit.str Edit.filename Normalize.normalize
    Parts.parent
apply conf path (assign s) = Edit.assign conf path s
apply conf path (set_dir s) = Edit.set_dir conf path s
apply conf path (set_stem s) = Edit.set_stem path s
apply conf path (set_ext s) = Edit.set_ext path s
apply conf path (set_filename s) = Edit.set_filename path s
apply conf path (append_str s) = Edit.append_str conf path s
apply conf path (copy other) = Edit.copy path other
apply conf path (append other) = Edit.append conf path (some other)
apply conf path append_self = Edit.append conf path none
apply conf path (set_style style) = Edit.set_style conf path style
apply conf path normalize = Normalize.normalize conf path
apply conf path clear = Edit.clear path
apply conf path str = (Edit.str conf path).1
apply conf path filename = (Edit.filename conf path).1
apply conf path parent = Parts.parent conf path

unfoldable pub apply_all : Style → FilePath → List Call → FilePath
unfolding apply
apply_all conf path [] = path
apply_all conf path (call ∷ calls) = apply_all conf (apply conf path call) calls

parse_dirty :
    (conf style : Style) (s : List ℕ) (path : FilePath) → (parse conf style s path).dirty ≡ true
unfolding parse
parse_dirty conf style [] path = refl
parse_dirty conf style (c ∷ s) path = refl

append_dirty : (conf : Style) (path other : FilePath) → (append_other conf path other).dirty ≡ true
unfolding append_other Edit.copy
append_dirty conf path other = elim (Bool-cases (is_absolute conf other)) [
  | inl e ↦ rw e
  | inr e ↦ rw e
]

parent_dirty : (conf : Style) (path : FilePath) → (Parts.parent conf path).dirty ≡ true
unfolding Parts.parent Edit.clone Edit.copy
parent_dirty conf path = elim (Bool-cases (has_name path)) [ inl e ↦ rw e | inr e ↦ rw e ]

Coherent-update :
    (conf : Style) (path : FilePath) → Coherent conf path → Coherent conf (update conf path)
unfolding Coherent update compose need_sep has_name
Coherent-update conf path h = go path.dirty refl
  where
    go :
        (b : Bool)
        → path.dirty ≡ b
        → Coherent conf (
            if not b then path else record path {
              name = path.stem ++ path.ext;
              cache = compose conf path;
              dirty = false;
            })
    go true e = inr (refl, refl)
    go false e = h

Coherent-apply :
    (conf : Style) (path : FilePath) (call : Call)
    → Coherent conf path
    → Coherent conf (apply conf path call)
unfolding apply Coherent
Coherent-apply conf path (assign s) h = inl (parse_dirty conf path.style s path)
Coherent-apply conf path (append_str s) h =
    inl (append_dirty conf path (init_style conf s path.style))
Coherent-apply conf path (append other) h = inl (append_dirty conf path other)
Coherent-apply conf path append_self h = inl (append_dirty conf path (Edit.clone path))
Coherent-apply conf path normalize h = inl (parse_dirty conf path.style _ path)
Coherent-apply conf path str h = Coherent-update conf path h
Coherent-apply conf path filename h = Coherent-update conf path h
Coherent-apply conf path parent h = inl (parent_dirty conf path)
Coherent-apply conf path _ h = inl refl

Coherent-apply_all :
    (conf : Style) (path : FilePath) (calls : List Call)
    → Coherent conf path
    → Coherent conf (apply_all conf path calls)
unfolding apply_all
Coherent-apply_all conf path [] h = h
Coherent-apply_all conf path (call ∷ calls) h =
    Coherent-apply_all conf (apply conf path call) calls (Coherent-apply conf path call h)

str_now :
    (conf : Style) (path : FilePath)
    → Coherent conf path
    → ((Edit.str conf path).0 ≡ compose conf path)
      × ((Edit.filename conf path).0 ≡ path.stem ++ path.ext)
unfolding Coherent Edit.str Edit.filename update
str_now conf path h = go path.dirty refl h
  where
    go :
        (b : Bool)
        → path.dirty ≡ b
        → Coherent conf path
        → ((if not b then path else record path {
          name = path.stem ++ path.ext;
          cache = compose conf path;
          dirty = false;
        }).cache
            ≡ compose conf path)
          × ((if not b then path else record path {
            name = path.stem ++ path.ext;
            cache = compose conf path;
            dirty = false;
          }).name
              ≡ path.stem ++ path.ext)
    go true e h = (refl, refl)
    go false e (inl d) = ground arith
    go false e (inr (n, c)) = (c, n)

-- While the configuration stays the same, after any calls on a path that starts with stale caches,
-- ucb_path_str and ucb_path_filename return what composing the components of that moment returns.
pub str_fresh :
    (conf : Style) (path : FilePath) (calls : List Call)
    → path.dirty ≡ true
    → ((Edit.str conf (apply_all conf path calls)).0 ≡ compose conf (apply_all conf path calls))
      × ((Edit.filename conf (apply_all conf path calls)).0
          ≡ (apply_all conf path calls).stem ++ (apply_all conf path calls).ext)
unfolding Coherent
str_fresh conf path calls d =
    str_now conf (apply_all conf path calls) (Coherent-apply_all conf path calls (inl d))
