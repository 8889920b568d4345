-- ===== src/Path.antt =====
-- Paths in src/ucb/path.c and include/ucb/path.h, in a build for POSIX: the components, the parser
-- and the composer.
-- A `ucb_str` is the list of its bytes. `conf` is the default style in the configuration of the
-- thread (ucb_conf_get). Every allocation succeeds, so the results true are left out.
pub mod Edit
pub mod Normalize
pub mod Parts
pub mod Bytes
pub mod Filename
pub mod DirLoop
pub mod Dir
pub mod Calls
pub mod RoundTrip
pub mod Join
pub mod ParentDir
pub mod Ancestors
pub mod Segments
pub mod Resolve
pub mod Lexical
pub mod Render
pub mod Stable
pub mod Rooted
pub mod Normal
pub mod PartList
pub mod Inside
mod Tests
use ucb.Common.{
  ℕ, zero, suc, ◌+◌, ◌-◌, Bool, true, false, not, ◌&&◌, ◌||◌, Option, none, some, List, [], ◌∷◌,
  ◌++◌, map, ltb, leb, ◌==◌, if◌then◌else◌, length, take, drop, get_elem?,
}

pub data Style : Type 0 where
  style_default style_native style_posix style_windows : Style

pub record FilePath : Type 0 where
  pub dir : List ℕ
  pub stem : List ℕ
  pub ext : List ℕ
  pub style : Style
  pub name : List ℕ
  pub cache : List ℕ
  pub dirty : Bool

-- ucb_path_make
pub empty_path : FilePath
empty_path = record {
  dir = [];
  stem = [];
  ext = [];
  style = style_default;
  name = [];
  cache = [];
  dirty = true;
}

abbrev pub slash : ℕ
slash = 0x2f

abbrev backslash : ℕ
backslash = 0x5c

abbrev pub dot : ℕ
dot = 0x2e

abbrev pub is_sep : ℕ → Bool
is_sep c = c == slash

-- The separator of the output counts, too.
abbrev pub sep_match : ℕ → ℕ → Bool
sep_match extra_sep c = is_sep c || (not (extra_sep == 0) && c == extra_sep)

pub concrete : Style → Style
concrete style_default = style_native
concrete style_native = style_native
concrete style_posix = style_posix
concrete style_windows = style_windows

pub resolve_style : Style → Style → Style
unfolding concrete
resolve_style conf style_default = concrete conf
resolve_style conf style_native = style_native
resolve_style conf style_posix = style_posix
resolve_style conf style_windows = style_windows

pub sep_of_style : Style → ℕ
sep_of_style style_windows = backslash
sep_of_style _ = slash

pub sep_of : Style → Style → ℕ
unfolding resolve_style sep_of_style
sep_of conf style = sep_of_style (resolve_style conf style)

-- No POSIX path has a drive or a UNC anchor.
pub data AnchorKind : Type 0 where
  anchor_none anchor_root anchor_drive anchor_unc : AnchorKind

pub root_length : ℕ → List ℕ → ℕ
root_length extra_sep [] = 1
root_length extra_sep (c ∷ []) = if sep_match extra_sep c then 2 else 1
root_length extra_sep (c ∷ d ∷ s) =
    if sep_match extra_sep c && not (sep_match extra_sep d) then 2 else 1

-- The kind of the anchor, and its length.
pub detect_anchor : ℕ → List ℕ → AnchorKind × ℕ
unfolding root_length
detect_anchor extra_sep [] = (anchor_none, 0)
detect_anchor extra_sep (c ∷ s) =
    if sep_match extra_sep c then (anchor_root, root_length extra_sep s) else (anchor_none, 0)

-- The string is not empty, and its last byte is not the separator.
pub open_end : ℕ → List ℕ → Bool
open_end sep [] = false
open_end sep (c ∷ []) = not (c == sep)
open_end sep (c ∷ d ∷ s) = open_end sep (d ∷ s)

-- The separator at a junction.
pub junction : ℕ → List ℕ → List ℕ
unfolding open_end
junction sep s = if open_end sep s then sep ∷ [] else []

pub is_empty : List ℕ → Bool
is_empty [] = true
is_empty (c ∷ s) = false

-- The loop of path_build_dir after the anchor: `tmp`, and whether there was content.
pub dir_loop : ℕ → List ℕ → Bool → Bool → List ℕ → List ℕ × Bool
unfolding is_empty
dir_loop sep tmp pending_sep has_content [] = (tmp, has_content)
dir_loop sep tmp pending_sep has_content (c ∷ s) = elim (is_sep c) [
  | true ↦ dir_loop sep tmp true has_content s
  | false ↦
      dir_loop sep (tmp ++ (if pending_sep && not (is_empty tmp) then sep ∷ [] else []) ++ c ∷ [])
        false true s
]

is_unc : AnchorKind → Bool
is_unc anchor_unc = true
is_unc _ = false

-- A root without content keeps a separator at its end, a UNC anchor does not.
pub closes : ℕ → AnchorKind × ℕ → List ℕ × Bool → Bool
unfolding open_end is_unc is_empty
closes sep (ak, anchor_len) (tmp, has_content) =
    ltb 0 anchor_len && not has_content && not (is_unc ak) && (is_empty tmp || open_end sep tmp)

pub close_root : ℕ → AnchorKind × ℕ → List ℕ × Bool → List ℕ
unfolding closes
close_root sep anchor (tmp, has_content) =
    if closes sep anchor (tmp, has_content) then tmp ++ sep ∷ [] else tmp

pub build_anchored : ℕ → AnchorKind × ℕ → List ℕ → List ℕ
unfolding dir_loop close_root
build_anchored sep (ak, n) s =
    close_root sep (ak, n)
      (dir_loop sep (map (λ c. if is_sep c then sep else c) (take n s)) false false (drop n s))

-- `s` is the region of the string that holds the directory.
pub build_dir : ℕ → List ℕ → List ℕ
unfolding build_anchored detect_anchor
build_dir sep s = build_anchored sep (detect_anchor 0 s) s

pub leading_dots : List ℕ → ℕ
leading_dots [] = 0
leading_dots (c ∷ s) = if c == dot then suc (leading_dots s) else 0

pub test_at : (ℕ → Bool) → List ℕ → ℕ → Bool
test_at f s i = elim (get_elem? s i) [ none ↦ false | some c ↦ f c ]

-- From position `i` down: position 0 and the leading dots start no extension.
pub find_dot : ℕ → List ℕ → ℕ → Option ℕ
unfolding test_at
find_dot start s zero = none
find_dot start s (suc i) =
    if ltb (suc i) start
    then none
    else if test_at (λ c. c == dot) s (suc i)
    then some (suc i)
    else find_dot start s i

pub filename_dot : List ℕ → Option ℕ
unfolding find_dot leading_dots
filename_dot s = if leb 2 (length s) then find_dot (leading_dots s) s (length s - 2) else none

-- The stem and the extension.
pub parse_filename : List ℕ → List ℕ × List ℕ
unfolding filename_dot
parse_filename s = elim (filename_dot s) [ none ↦ (s, []) | some i ↦ (take i s, drop i s) ]

-- The last separator below position `i`.
pub last_sep : List ℕ → ℕ → Option ℕ
unfolding test_at
last_sep s zero = none
last_sep s (suc i) = if test_at is_sep s i then some i else last_sep s i

-- The lengths of the directory region and of what stands before the filename are the same.
pub raw_dir_len : List ℕ → ℕ
unfolding last_sep
raw_dir_len s = elim (last_sep s (length s)) [ none ↦ 0 | some i ↦ suc i ]

pub parse : Style → Style → List ℕ → FilePath → FilePath
unfolding raw_dir_len build_dir parse_filename sep_of resolve_style
parse conf style [] path = record path {
  dir = [];
  stem = [];
  ext = [];
  style = resolve_style conf style;
  dirty = true;
}
parse conf style (c ∷ s) path = record path {
  dir = build_dir (sep_of conf style) (take (raw_dir_len (c ∷ s)) (c ∷ s));
  stem = (parse_filename (drop (raw_dir_len (c ∷ s)) (c ∷ s))).0;
  ext = (parse_filename (drop (raw_dir_len (c ∷ s)) (c ∷ s))).1;
  style = resolve_style conf style;
  dirty = true;
}

pub has_name : FilePath → Bool
unfolding is_empty
has_name path = not (is_empty path.stem) || not (is_empty path.ext)

pub need_sep : Style → FilePath → Bool
unfolding has_name open_end sep_of
need_sep conf path = has_name path && open_end (sep_of conf path.style) path.dir

-- path_compose_info, and so path_length: the size that path_compose_to reserves.
path_length : Style → FilePath → ℕ
unfolding need_sep
path_length conf path =
    length path.dir + (if need_sep conf path then 1 else 0) + length path.stem + length path.ext

pub compose : Style → FilePath → List ℕ
unfolding need_sep sep_of
compose conf path =
    path.dir
    ++ (if need_sep conf path then sep_of conf path.style ∷ [] else [])
    ++ path.stem
    ++ path.ext

pub update : Style → FilePath → FilePath
unfolding compose
update conf path =
    if not path.dirty
    then path
    else record path { name = path.stem ++ path.ext; cache = compose conf path; dirty = false }
