-- ===== src/Path/Parts.antt =====
-- The parts of a path, its parent and its ancestors, and containment: src/ucb/path.c.
use ucb.Common.{
  ℕ, zero, suc, ◌+◌, Bool, true, false, not, ◌&&◌, ◌||◌, Option, none, some, List, [], ◌∷◌, ◌++◌,
  ltb, leb, ◌==◌, if◌then◌else◌, length, take, drop,
}
use ucb.Common.Outcome.{Outcome, ok, aborted, ◌>>=◌}
use ucb.Path.{
  Style, FilePath, AnchorKind, sep_match, sep_of, detect_anchor, test_at, compose, has_name,
}
use ucb.Path.Bytes.{str_equal}
use ucb.Path.Edit.{is_path_empty, equals, clone}
use ucb.Path.Normalize.{next_segment, is_relative_anchor, anchor_text, is_drive}

-- One unit of fuel for a segment.
unfoldable pub count_segments : ℕ → ℕ → List ℕ → ℕ → ℕ
unfolding next_segment
count_segments sep zero s count = count
count_segments sep (suc fuel) s count = elim (next_segment sep s) [
  | none ↦ count
  | some (seg, rest) ↦ count_segments sep fuel rest (suc count)
]

unfoldable pub num_parts_anchored : Style → FilePath → AnchorKind × ℕ → ℕ
unfolding count_segments has_name is_relative_anchor sep_of
num_parts_anchored conf path (ak, n) =
    count_segments (sep_of conf path.style) (length path.dir) (drop n path.dir)
      (if is_relative_anchor ak then 0 else 1)
    + (if has_name path then 1 else 0)

unfoldable pub num_parts : Style → FilePath → ℕ
unfolding num_parts_anchored detect_anchor sep_of
num_parts conf path = num_parts_anchored conf path (detect_anchor (sep_of conf path.style) path.dir)

-- The anchor as a part of its own.
unfoldable pub build_anchor : ℕ → AnchorKind → ℕ → List ℕ → List ℕ
unfolding anchor_text is_drive
build_anchor sep ak n dir = anchor_text sep n dir ++ (if is_drive ak then sep ∷ [] else [])

-- How the loop of ucb_path_part ends: at the segment, or past all of them.
pub data Found : Type 0 where
  segment : List ℕ → Found
  reached : ℕ → Found

unfoldable pub find_segment : ℕ → ℕ → List ℕ → ℕ → ℕ → Found
unfolding next_segment
find_segment sep zero s pos index = reached pos
find_segment sep (suc fuel) s pos index = elim (next_segment sep s) [
  | none ↦ reached pos
  | some (seg, rest) ↦
      if index == pos then segment seg else find_segment sep fuel rest (suc pos) index
]

unfoldable pub name_part : FilePath → ℕ → Found → Outcome (List ℕ)
unfolding has_name
name_part path index (segment seg) = ok seg
name_part path index (reached pos) =
    if has_name path && index == pos then ok (path.stem ++ path.ext) else aborted

unfoldable pub part_anchored : Style → FilePath → ℕ → AnchorKind × ℕ → Outcome (List ℕ)
unfolding name_part find_segment build_anchor is_relative_anchor sep_of
part_anchored conf path index (ak, n) =
    if not (is_relative_anchor ak) && index == 0
    then ok (build_anchor (sep_of conf path.style) ak n path.dir)
    else name_part path index (
        find_segment (sep_of conf path.style) (length path.dir) (drop n path.dir)
          (if is_relative_anchor ak then 0 else 1) index)

-- An index past the last part is reported.
unfoldable pub part : Style → FilePath → ℕ → Outcome (List ℕ)
unfolding part_anchored detect_anchor sep_of
part conf path index =
    part_anchored conf path index (detect_anchor (sep_of conf path.style) path.dir)

-- `n` parts from position `i` on.
unfoldable pub parts_loop : Style → FilePath → ℕ → ℕ → Outcome (List (List ℕ))
unfolding part
parts_loop conf path zero i = ok []
parts_loop conf path (suc n) i = do
  part ← part conf path i
  rest ← parts_loop conf path n (suc i)
  ok (part ∷ rest)

unfoldable pub parts : Style → FilePath → Outcome (List (List ℕ))
unfolding parts_loop num_parts
parts conf path = parts_loop conf path (num_parts conf path) 0

unfoldable pub inside_loop : Style → FilePath → FilePath → ℕ → ℕ → Outcome Bool
unfolding part str_equal
inside_loop conf inner outer zero i = ok true
inside_loop conf inner outer (suc n) i = do
  pi ← part conf inner i
  po ← part conf outer i
  elim (str_equal pi po) [ true ↦ inside_loop conf inner outer n (suc i) | false ↦ ok false ]

-- `inner` is a proper descendant of `outer`.
unfoldable pub inside_one : Style → FilePath → FilePath → Outcome Bool
unfolding inside_loop num_parts
inside_one conf inner outer =
    if num_parts conf inner == 0
      || num_parts conf outer == 0
      || leb (num_parts conf inner) (num_parts conf outer)
    then ok false
    else inside_loop conf inner outer (num_parts conf outer) 0

unfoldable pub is_inside : Style → FilePath → FilePath → Outcome Bool
unfolding inside_one
is_inside conf a b = do ab ← inside_one conf a b; if ab then ok true else inside_one conf b a

-- The last separator below position `i`, but none in the anchor.
unfoldable pub find_cut : ℕ → ℕ → List ℕ → ℕ → Option ℕ
unfolding test_at
find_cut sep anchor_len s zero = none
find_cut sep anchor_len s (suc i) =
    if ltb i anchor_len
    then none
    else if test_at (sep_match sep) s i
    then some i
    else find_cut sep anchor_len s i

unfoldable pub keep_anchor : ℕ → AnchorKind → ℕ → List ℕ → List ℕ
unfolding build_anchor is_relative_anchor
keep_anchor sep ak n dir = if not (is_relative_anchor ak) then build_anchor sep ak n dir else []

unfoldable pub cut_dir : ℕ → AnchorKind × ℕ → List ℕ → List ℕ
unfolding find_cut keep_anchor
cut_dir sep (ak, n) dir = elim (find_cut sep n dir (length dir)) [
  | none ↦ keep_anchor sep ak n dir
  | some cut ↦ if leb cut n then keep_anchor sep ak n dir else take cut dir
]

unfoldable pub parent : Style → FilePath → FilePath
unfolding clone has_name cut_dir detect_anchor sep_of
parent conf path =
    if has_name path
    then record (clone path) { stem = []; ext = []; dirty = true }
    else record (clone path) {
      dir =
          cut_dir (sep_of conf path.style) (detect_anchor (sep_of conf path.style) path.dir)
            path.dir;
      dirty = true;
    }

-- `none` is out of fuel.
unfoldable pub parents_loop : Style → ℕ → FilePath → Option (List (List ℕ))
unfolding parent is_path_empty equals compose
parents_loop conf zero cur = none
parents_loop conf (suc fuel) cur =
    let rest = parents_loop conf fuel (parent conf cur) in
    if is_path_empty cur
    then some []
    else if is_path_empty (parent conf cur) || equals conf cur (parent conf cur)
    then some []
    else elim rest [ none ↦ none | some strs ↦ some (compose conf (parent conf cur) ∷ strs) ]

unfoldable pub parents : Style → FilePath → Option (List (List ℕ))
unfolding parents_loop
parents conf path = parents_loop conf (suc (suc (length path.dir))) path
