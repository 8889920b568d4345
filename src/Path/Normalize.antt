-- ===== src/Path/Normalize.antt =====
-- path_normalize_lexical and ucb_path_normalize in src/ucb/path.c.
use ucb.Common.{
  ℕ, zero, suc, Bool, true, false, not, ◌&&◌, Option, none, some, List, [], ◌∷◌, ◌++◌, map, ltb,
  ◌==◌, if◌then◌else◌, length, take, drop,
}
use ucb.Path.{
  Style, FilePath, AnchorKind, anchor_none, anchor_drive, dot, sep_match, sep_of, detect_anchor,
  junction, open_end, is_empty, parse, compose,
}

unfoldable pub skip_seps : ℕ → List ℕ → List ℕ
skip_seps sep [] = []
skip_seps sep (c ∷ s) = if sep_match sep c then skip_seps sep s else c ∷ s

-- The bytes up to the next separator, and the rest.
unfoldable pub take_segment : ℕ → List ℕ → List ℕ × List ℕ
take_segment sep [] = ([], [])
take_segment sep (c ∷ s) =
    if sep_match sep c then ([], c ∷ s) else (c ∷ (take_segment sep s).0, (take_segment sep s).1)

-- The next segment and the rest; `none` where only separators are left.
unfoldable pub next_segment : ℕ → List ℕ → Option (List ℕ × List ℕ)
unfolding skip_seps take_segment is_empty
next_segment sep s =
    if is_empty (skip_seps sep s) then none else some (take_segment sep (skip_seps sep s))

-- The output, `starts` from the last entry down, and `base`. `depth` is the number of entries.
pub record Norm : Type 0 where
  pub out : List ℕ
  pub starts : List ℕ
  pub base : ℕ

unfoldable pub is_dot : List ℕ → Bool
is_dot (c ∷ []) = c == dot
is_dot _ = false

unfoldable pub is_dotdot : List ℕ → Bool
is_dotdot (c ∷ d ∷ []) = c == dot && d == dot
is_dotdot _ = false

unfoldable pub is_relative_anchor : AnchorKind → Bool
is_relative_anchor anchor_none = true
is_relative_anchor _ = false

unfoldable pub add_segment : ℕ → List ℕ → Norm → Norm
unfolding junction
add_segment sep seg st = record st {
  out = st.out ++ junction sep st.out ++ seg;
  starts = length st.out ∷ st.starts;
}

unfoldable pub drop_segment : List ℕ → Norm → Norm
drop_segment [] st = st
drop_segment (n ∷ starts) st = record st { out = take n st.out; starts = starts }

unfoldable pub norm_step : ℕ → Bool → List ℕ → Norm → Norm
unfolding is_dot is_dotdot add_segment drop_segment
norm_step sep relative seg st =
    if is_dot seg
    then st
    else if is_dotdot seg
    then (if ltb st.base (length st.starts)
        then drop_segment st.starts st
        else if relative
        then record (add_segment sep seg st) { base = suc st.base }
        else st)
    else add_segment sep seg st

-- One unit of fuel for a segment.
unfoldable pub norm_loop : ℕ → Bool → ℕ → List ℕ → Norm → Norm
unfolding next_segment norm_step
norm_loop sep relative zero s st = st
norm_loop sep relative (suc fuel) s st = elim (next_segment sep s) [
  | none ↦ st
  | some (seg, rest) ↦ norm_loop sep relative fuel rest (norm_step sep relative seg st)
]

unfoldable pub anchor_text : ℕ → ℕ → List ℕ → List ℕ
anchor_text sep n s = map (λ c. if sep_match sep c then sep else c) (take n s)

unfoldable pub is_drive : AnchorKind → Bool
is_drive anchor_drive = true
is_drive _ = false

-- What follows the loop: a drive gets its root, an empty relative result is ".".
unfoldable pub finish : ℕ → AnchorKind → List ℕ → Norm → List ℕ
unfolding is_drive is_empty open_end is_relative_anchor
finish sep ak path st =
    if is_drive ak && length st.starts == 0 && open_end sep st.out
    then st.out ++ sep ∷ []
    else if is_empty st.out && not (is_empty path) && is_relative_anchor ak
    then dot ∷ []
    else st.out

unfoldable pub normalize_anchored : ℕ → AnchorKind × ℕ → List ℕ → List ℕ
unfolding finish norm_loop anchor_text is_relative_anchor
normalize_anchored sep (ak, n) s = finish sep ak s (
    norm_loop sep (is_relative_anchor ak) (length s) (drop n s)
      (record { out = anchor_text sep n s; starts = []; base = 0 }))

unfoldable pub normalize_lexical : ℕ → List ℕ → List ℕ
unfolding normalize_anchored detect_anchor
normalize_lexical sep s = normalize_anchored sep (detect_anchor sep s) s

unfoldable pub normalize : Style → FilePath → FilePath
unfolding normalize_lexical compose parse sep_of
normalize conf path =
    parse conf path.style (normalize_lexical (sep_of conf path.style) (compose conf path)) path
