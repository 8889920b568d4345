-- ===== src/Path/Edit.antt =====
-- Construction, assignment, queries, setters and joining of paths in src/ucb/path.c.
-- A copied argument (path_aliases) is as good as the argument, since a string is a value here.
use ucb.Common.{
  ℕ, Bool, true, false, not, ◌&&◌, Option, none, some, List, [], ◌∷◌, ◌++◌, map, ltb, ◌==◌,
  if◌then◌else◌, length, drop,
}
use ucb.Path.Bytes.{str_equal}
use ucb.Path.{
  Style, style_default, FilePath, empty_path, dot, sep_match, resolve_style, sep_of, junction,
  is_empty, build_dir, leading_dots, parse_filename, parse, has_name, compose, update,
}

unfoldable pub init_style : Style → List ℕ → Style → FilePath
unfolding parse empty_path
init_style conf s style = parse conf style s empty_path

unfoldable init : Style → List ℕ → FilePath
unfolding init_style
init conf s = init_style conf s style_default

-- Into another path.
unfoldable pub copy : FilePath → FilePath → FilePath
copy dst src = record dst {
  dir = src.dir;
  stem = src.stem;
  ext = src.ext;
  style = src.style;
  dirty = true;
}

unfoldable pub clone : FilePath → FilePath
unfolding copy empty_path
clone src = copy empty_path src

unfoldable pub assign : Style → FilePath → List ℕ → FilePath
unfolding parse
assign conf path s = parse conf path.style s path

unfoldable pub clear : FilePath → FilePath
clear path = record path { dir = []; stem = []; ext = []; name = []; cache = []; dirty = true }

-- The cached strings, after an update.
unfoldable pub str : Style → FilePath → List ℕ × FilePath
unfolding update
str conf path = ((update conf path).cache, update conf path)

unfoldable pub filename : Style → FilePath → List ℕ × FilePath
unfolding update
filename conf path = ((update conf path).name, update conf path)

unfoldable pub is_path_empty : FilePath → Bool
unfolding is_empty
is_path_empty path = is_empty path.dir && is_empty path.stem && is_empty path.ext

unfoldable pub starts_with_sep : ℕ → List ℕ → Bool
starts_with_sep sep [] = false
starts_with_sep sep (c ∷ s) = sep_match sep c

unfoldable pub is_absolute : Style → FilePath → Bool
unfolding starts_with_sep sep_of
is_absolute conf path = starts_with_sep (sep_of conf path.style) path.dir

unfoldable is_relative : Style → FilePath → Bool
unfolding is_absolute
is_relative conf path = not (is_absolute conf path)

unfoldable swap_seps : ℕ → ℕ → List ℕ → List ℕ
swap_seps old_sep new_sep s =
    if not (old_sep == new_sep) then map (λ c. if sep_match old_sep c then new_sep else c) s else s

unfoldable pub set_style : Style → FilePath → Style → FilePath
unfolding swap_seps sep_of resolve_style
set_style conf path style = record path {
  dir = swap_seps (sep_of conf path.style) (sep_of conf (resolve_style conf style)) path.dir;
  style = resolve_style conf style;
  dirty = true;
}

unfoldable pub set_dir : Style → FilePath → List ℕ → FilePath
unfolding build_dir sep_of
set_dir conf path dir = record path { dir = build_dir (sep_of conf path.style) dir; dirty = true }

unfoldable pub set_stem : FilePath → List ℕ → FilePath
set_stem path stem = record path { stem = stem; dirty = true }

unfoldable dotted : List ℕ → List ℕ
unfolding leading_dots
dotted s = if ltb (leading_dots s) (length s) then dot ∷ drop (leading_dots s) s else []

unfoldable pub set_ext : FilePath → List ℕ → FilePath
unfolding dotted
set_ext path ext = record path { ext = dotted ext; dirty = true }

unfoldable pub set_filename : FilePath → List ℕ → FilePath
unfolding parse_filename
set_filename path name = record path {
  stem = (parse_filename name).0;
  ext = (parse_filename name).1;
  dirty = true;
}

-- path_append_segment
unfoldable pub append_segment : ℕ → List ℕ → List ℕ → List ℕ
unfolding junction is_empty
append_segment sep dir seg = if is_empty seg then dir else dir ++ junction sep dir ++ seg

-- The base filename becomes a segment of the directory.
unfoldable pub lower_name : ℕ → FilePath → List ℕ
unfolding junction has_name
lower_name sep path =
    if has_name path then path.dir ++ junction sep path.dir ++ path.stem ++ path.ext else path.dir

unfoldable pub append_other : Style → FilePath → FilePath → FilePath
unfolding is_absolute copy lower_name append_segment sep_of
append_other conf path other = if is_absolute conf other then copy path other else record path {
  dir =
      append_segment (sep_of conf path.style) (lower_name (sep_of conf path.style) path) other.dir;
  stem = other.stem;
  ext = other.ext;
  dirty = true;
}

-- `none` is the path itself.
unfoldable pub append : Style → FilePath → Option FilePath → FilePath
unfolding append_other clone
append conf path none = append_other conf path (clone path)
append conf path (some other) = append_other conf path other

unfoldable pub join : Style → FilePath → FilePath → FilePath
unfolding append clone
join conf base other = append conf (clone base) (some other)

unfoldable pub append_str : Style → FilePath → List ℕ → FilePath
unfolding append init_style
append_str conf path other = append conf path (some (init_style conf other path.style))

unfoldable join_str : Style → List ℕ → List ℕ → FilePath
unfolding append_str init
join_str conf base other = append_str conf (init conf base) other

unfoldable pub equals : Style → FilePath → FilePath → Bool
unfolding compose str_equal
equals conf a b = str_equal (compose conf a) (compose conf b)
