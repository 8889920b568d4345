-- ===== src/Path/PartList.antt =====
-- The parts of a path as a list: ucb_path_num_parts, ucb_path_part and ucb_path_parts in
-- src/ucb/path.c.
use ucb.Common.{
  ℕ, zero, suc, ◌+◌, ◌≤◌, ◌<◌, ◌≡◌, refl, sym, ap, ◌∙◌, inl, inr, false, Option, none, some, List,
  [], ◌∷◌, ◌++◌, ◌==◌, if◌then◌else◌, length, drop, get_elem?, Bool-cases, arith, length-append,
}
use ucb.Common.Outcome.{Outcome, ok, aborted}
use ucb.Path.{Style, FilePath, AnchorKind, sep_of, detect_anchor, has_name}
use ucb.Path.Normalize.{is_relative_anchor}
use ucb.Path.Segments.{segments, next_segment_lem}
use ucb.Path.Lexical.{drop_le}
use ucb.Path.Parts.{
  Found, segment, reached, count_segments, num_parts, num_parts_anchored, find_segment, name_part,
  part, part_anchored, parts_loop, build_anchor,
}

count_segments-length :
    (sep fuel : ℕ) (s : List ℕ) (count : ℕ)
    → length s ≤ fuel
    → count_segments sep fuel s count ≡ count + length (segments sep s)
unfolding count_segments segments
count_segments-length sep zero [] count h = omega arith
count_segments-length sep zero (c ∷ s) count h = absurd (omega arith)
count_segments-length sep (suc fuel) s count h = elim (next_segment_lem sep s) [
  | inl (e, e') ↦ rw (count_segments, e, e') (omega arith)
  | inr (seg, rest, e, e', i, l) ↦
      rw (count_segments, e, e')
        (omega (arith, count_segments-length sep fuel rest (suc count) (omega arith)))
]

found_or : ℕ → Option (List ℕ) → Found
found_or pos none = reached pos
found_or pos (some seg) = segment seg

find_segment-get :
    (sep fuel : ℕ) (s : List ℕ) (pos k index : ℕ)
    → length s ≤ fuel
    → index ≡ pos + k
    → find_segment sep fuel s pos index
      ≡ found_or (pos + length (segments sep s)) (get_elem? (segments sep s) k)
unfolding find_segment segments found_or
find_segment-get sep zero [] pos k index h e = ap reached (omega arith)
find_segment-get sep zero (c ∷ s) pos k index h e = absurd (omega arith)
find_segment-get sep (suc fuel) s pos k index h m = elim (next_segment_lem sep s) [
  | inl (e, e') ↦ rw (find_segment, e, e') (ap reached (omega arith))
  | inr (seg, rest, e, e', i, l) ↦
      rw (find_segment, e, e')
        (go seg rest (λ k' m'. find_segment-get sep fuel rest (suc pos) k' index (omega arith) m') k
          m)
]
  where
    go :
        (seg rest : List ℕ)
        → ((k : ℕ)
            → index ≡ suc pos + k
            → find_segment sep fuel rest (suc pos) index
              ≡ found_or (suc pos + length (segments sep rest)) (get_elem? (segments sep rest) k))
        → (k : ℕ) → index ≡ pos + k
        → (if index == pos then segment seg else find_segment sep fuel rest (suc pos) index)
          ≡ found_or
              (pos + length (seg ∷ segments sep rest))
              (get_elem? (seg ∷ segments sep rest) k)
    go seg rest ih zero m = ground arith
    go seg rest ih (suc k) m = ground (arith, ih k (omega arith))

-- The element at a position of a list; a position past the end is reported.
pub nth : List (List ℕ) → ℕ → Outcome (List ℕ)
nth xs i = elim (get_elem? xs i) [ none ↦ aborted | some x ↦ ok x ]

abbrev name_list : FilePath → List (List ℕ)
name_list path = if has_name path then (path.stem ++ path.ext) ∷ [] else []

name_part-nth :
    (path : FilePath) (segs : List (List ℕ)) (k index total : ℕ)
    → index + length segs ≡ total + k
    → name_part path index (found_or total (get_elem? segs k)) ≡ nth (segs ++ name_list path) k
unfolding name_part found_or nth
name_part-nth path [] zero index total h = ground arith
name_part-nth path [] (suc k) index total h = ground arith
name_part-nth path (x ∷ segs) zero index total h = refl
name_part-nth path (x ∷ segs) (suc k) index total h =
    name_part-nth path segs k index total (omega arith)

anchor_list : Style → FilePath → AnchorKind × ℕ → List (List ℕ)
anchor_list conf path (ak, n) =
    if is_relative_anchor ak then [] else build_anchor (sep_of conf path.style) ak n path.dir ∷ []

part_list_anchored : Style → FilePath → AnchorKind × ℕ → List (List ℕ)
unfolding anchor_list
part_list_anchored conf path (ak, n) =
    anchor_list conf path (ak, n)
    ++ (segments (sep_of conf path.style) (drop n path.dir) ++ name_list path)

-- The anchor, the segments of the directory and the filename.
unfoldable pub part_list : Style → FilePath → List (List ℕ)
unfolding part_list_anchored
part_list conf path = part_list_anchored conf path (detect_anchor (sep_of conf path.style) path.dir)

-- The parts after the anchor, of which the loop has passed `pos`.
rest-nth :
    (conf : Style) (path : FilePath) (n pos k index : ℕ)
    → index ≡ pos + k
    → name_part path index
        (find_segment (sep_of conf path.style) (length path.dir) (drop n path.dir) pos index)
      ≡ nth (segments (sep_of conf path.style) (drop n path.dir) ++ name_list path) k
rest-nth conf path n pos k index e =
    rw
      (find_segment-get (sep_of conf path.style) (length path.dir) (drop n path.dir) pos k index
        (drop_le n path.dir) e)
      (name_part-nth path (segments (sep_of conf path.style) (drop n path.dir)) k index
        (pos + length (segments (sep_of conf path.style) (drop n path.dir))) (omega arith))

suc_ne : (i : ℕ) → (suc i == 0) ≡ false
suc_ne i = ground arith

part_anchored-nth :
    (conf : Style) (path : FilePath) (index : ℕ) (ak : AnchorKind) (n : ℕ)
    → part_anchored conf path index (ak, n) ≡ nth (part_list_anchored conf path (ak, n)) index
unfolding part_anchored part_list_anchored anchor_list nth
part_anchored-nth conf path zero ak n = elim (Bool-cases (is_relative_anchor ak)) [
  | inl e ↦ rw e (rest-nth conf path n 0 0 0 (omega arith))
  | inr e ↦ rw e
]
part_anchored-nth conf path (suc i) ak n = elim (Bool-cases (is_relative_anchor ak)) [
  | inl e ↦ rw e (rest-nth conf path n 0 (suc i) (suc i) (omega arith))
  | inr e ↦ rw (e, suc_ne i) (rest-nth conf path n 1 i (suc i) (omega arith))
]

-- The parts by index are the anchor, the segments of the directory and the filename, in this order;
-- an index past them is reported.
pub part-nth :
    (conf : Style) (path : FilePath) (index : ℕ)
    → part conf path index ≡ nth (part_list conf path) index
unfolding part part_list
part-nth conf path index =
    part_anchored-nth conf path index (detect_anchor (sep_of conf path.style) path.dir).0
      (detect_anchor (sep_of conf path.style) path.dir).1

length-name_list : (path : FilePath) → length (name_list path) ≡ (if has_name path then 1 else 0)
length-name_list path = elim (Bool-cases (has_name path)) [ inl e ↦ rw e | inr e ↦ rw e ]

length-anchor_list :
    (conf : Style) (path : FilePath) (ak : AnchorKind) (n : ℕ)
    → length (anchor_list conf path (ak, n)) ≡ (if is_relative_anchor ak then 0 else 1)
unfolding anchor_list
length-anchor_list conf path ak n = elim (Bool-cases (is_relative_anchor ak)) [
  | inl e ↦ rw e
  | inr e ↦ rw e
]

num_parts_anchored-length :
    (conf : Style) (path : FilePath) (ak : AnchorKind) (n : ℕ)
    → num_parts_anchored conf path (ak, n) ≡ length (part_list_anchored conf path (ak, n))
unfolding num_parts_anchored part_list_anchored
num_parts_anchored-length conf path ak n =
    let sep = sep_of conf path.style in
    let segs = segments sep (drop n path.dir) in
    let start = if is_relative_anchor ak then 0 else 1 in
    ap (◌+ (if has_name path then 1 else 0))
      (count_segments-length sep (length path.dir) (drop n path.dir) start (drop_le n path.dir))
    ∙ omega (
      arith,
      length-append (anchor_list conf path (ak, n)) (segs ++ name_list path),
      length-append segs (name_list path),
      length-name_list path,
      length-anchor_list conf path ak n,
    )

pub num_parts-length :
    (conf : Style) (path : FilePath) → num_parts conf path ≡ length (part_list conf path)
unfolding num_parts part_list
num_parts-length conf path =
    num_parts_anchored-length conf path (detect_anchor (sep_of conf path.style) path.dir).0
      (detect_anchor (sep_of conf path.style) path.dir).1

pub drop_all : (xs : List (List ℕ)) (i : ℕ) → i ≡ length xs → drop i xs ≡ []
drop_all [] zero h = refl
drop_all [] (suc i) h = refl
drop_all (x ∷ xs) zero h = absurd (omega arith)
drop_all (x ∷ xs) (suc i) h = drop_all xs i (omega arith)

pub drop_get :
    (xs : List (List ℕ)) (i : ℕ)
    → i < length xs
    → (x : List ℕ) × (nth xs i ≡ ok x) × (drop i xs ≡ x ∷ drop (suc i) xs)
unfolding nth
drop_get [] i h = absurd (omega arith)
drop_get (x ∷ xs) zero h = (x, refl, refl)
drop_get (x ∷ xs) (suc i) h = drop_get xs i (omega arith)

parts_loop-drop :
    (conf : Style) (path : FilePath) (n i : ℕ)
    → n + i ≡ length (part_list conf path)
    → parts_loop conf path n i ≡ ok (drop i (part_list conf path))
unfolding parts_loop
parts_loop-drop conf path zero i h = ap ok (sym (drop_all (part_list conf path) i (omega arith)))
parts_loop-drop conf path (suc n) i h =
    let (x, e, d) = drop_get (part_list conf path) i (omega arith) in
    rw (part-nth conf path i, e, parts_loop-drop conf path n (suc i) (omega arith), d)
