-- ===== src/Path/Tests.antt =====
-- Runs of the path code of src/ucb/path.c, and its theorems at concrete inputs.
use ucb.Common.{ℕ, ◌≡◌, ◌⊎◌, refl, true, false, some, List, [], ◌∷◌, ◌++◌}
use ucb.Common.Outcome.{ok, aborted}
use ucb.Path.{
  style_posix, FilePath, empty_path, slash, sep_of, detect_anchor, open_end, build_dir,
  parse_filename, parse, compose,
}
use ucb.Path.Edit
use ucb.Path.Edit.{init_style, append, is_absolute, starts_with_sep}
use ucb.Path.Normalize.{normalize_lexical}
use ucb.Path.Parts.{part, parts, is_inside, parents}
use ucb.Path.Segments.{segments}
use ucb.Path.Lexical.{lexical, normalize_lexical-lexical}
use ucb.Path.Normal.{normalize_idempotent}
use ucb.Path.RoundTrip.{parse_roundtrip}
use ucb.Path.Join.{append-segments}
use ucb.Path.PartList.{part_list, nth, part-nth}
use ucb.Path.Inside.{Decides, Descends, is_inside-Descends}
use ucb.Path.Filename.{Splits, parse_filename-Splits}
use ucb.Path.Dir.{IsRoot, build_dir_ends, triple_root}
use ucb.Path.Ancestors.{parents-Ends}
use ucb.Path.Calls.{Call, set_dir, set_ext, str, apply_all, str_fresh}

-- "/a/../b/./c.tar.gz"
abbrev text : List ℕ
text =
    47 ∷ 97 ∷ 47 ∷ 46 ∷ 46 ∷ 47 ∷ 98 ∷ 47 ∷ 46 ∷ 47 ∷ 99 ∷ 46 ∷ 116 ∷ 97 ∷ 114 ∷ 46 ∷ 103 ∷ 122 ∷ []

-- "///a//b"
abbrev triple : List ℕ
triple = 47 ∷ 47 ∷ 47 ∷ 97 ∷ 47 ∷ 47 ∷ 98 ∷ []

-- "a/../../b"
abbrev climbing : List ℕ
climbing = 97 ∷ 47 ∷ 46 ∷ 46 ∷ 47 ∷ 46 ∷ 46 ∷ 47 ∷ 98 ∷ []

-- "/b" and "b/c.x"
abbrev base : FilePath
base = record {
  dir = 47 ∷ [];
  stem = 98 ∷ [];
  ext = [];
  style = style_posix;
  name = [];
  cache = [];
  dirty = true;
}

abbrev other : FilePath
other = record base { dir = 98 ∷ []; stem = 99 ∷ []; ext = 46 ∷ 120 ∷ [] }

abbrev deeper : FilePath
deeper = record base { dir = 47 ∷ 98 ∷ []; stem = 99 ∷ [] }

abbrev calls : List Call
calls = set_dir (97 ∷ 47 ∷ 47 ∷ 98 ∷ []) ∷ str ∷ set_ext (46 ∷ 46 ∷ 99 ∷ []) ∷ []

normalized :
    normalize_lexical slash text ≡ 47 ∷ 98 ∷ 47 ∷ 99 ∷ 46 ∷ 116 ∷ 97 ∷ 114 ∷ 46 ∷ 103 ∷ 122 ∷ []
unfolding normalize_lexical
normalized = refl

climbed : normalize_lexical slash climbing ≡ 46 ∷ 46 ∷ 47 ∷ 98 ∷ []
unfolding normalize_lexical
climbed = refl

stored : (init_style style_posix triple style_posix).dir ≡ 47 ∷ 47 ∷ 97 ∷ []
unfolding init_style
stored = refl

split : parse_filename (99 ∷ 46 ∷ 116 ∷ 46 ∷ 103 ∷ []) ≡ (99 ∷ 46 ∷ 116 ∷ [], 46 ∷ 103 ∷ [])
unfolding parse_filename
split = refl

listed : parts style_posix other ≡ ok ((98 ∷ []) ∷ (99 ∷ 46 ∷ 120 ∷ []) ∷ [])
unfolding parts
listed = refl

above : parents style_posix deeper ≡ some ((47 ∷ 98 ∷ []) ∷ (47 ∷ []) ∷ [])
unfolding parents
above = refl

inside : is_inside style_posix base deeper ≡ ok true
unfolding is_inside
inside = refl

past : part style_posix base 2 ≡ aborted
unfolding part
past = refl

called :
    compose style_posix (apply_all style_posix base calls) ≡ 97 ∷ 47 ∷ 98 ∷ 47 ∷ 98 ∷ 46 ∷ 99 ∷ []
unfolding compose apply_all
called = refl

posix_slash : sep_of style_posix style_posix ≡ slash
unfolding sep_of
posix_slash = refl

relative : is_absolute style_posix other ≡ false
unfolding is_absolute
relative = refl

rooted : starts_with_sep (sep_of style_posix style_posix) text ≡ true
unfolding starts_with_sep sep_of
rooted = refl

normalize_lexical-lexical_example : normalize_lexical slash text ≡ lexical slash text
normalize_lexical-lexical_example = normalize_lexical-lexical slash text

normalize_idempotent_example :
    normalize_lexical
      (sep_of style_posix style_posix)
      (normalize_lexical (sep_of style_posix style_posix) climbing)
    ≡ normalize_lexical (sep_of style_posix style_posix) climbing
normalize_idempotent_example = normalize_idempotent style_posix style_posix climbing

parse_roundtrip_example :
    segments slash (compose style_posix (parse style_posix style_posix text empty_path))
    ≡ segments slash text
parse_roundtrip_example = parse_roundtrip style_posix style_posix text empty_path posix_slash

append-segments_example :
    segments slash (compose style_posix (append style_posix base (some other)))
    ≡ segments slash (compose style_posix base) ++ segments slash (compose style_posix other)
append-segments_example =
    append-segments style_posix base other posix_slash posix_slash (refl, (refl, (refl, tt)))
      relative

is_inside-Descends_example : Decides (is_inside style_posix base deeper) (
    Descends (part_list style_posix base) (part_list style_posix deeper)
    ⊎ Descends (part_list style_posix deeper) (part_list style_posix base))
is_inside-Descends_example = is_inside-Descends style_posix base deeper

part-nth_example : part style_posix other 1 ≡ nth (part_list style_posix other) 1
part-nth_example = part-nth style_posix other 1

parse_filename-Splits_example :
    ((parse_filename (97 ∷ 46 ∷ 98 ∷ [])).0 ++ (parse_filename (97 ∷ 46 ∷ 98 ∷ [])).1
      ≡ 97 ∷ 46 ∷ 98 ∷ [])
    × Splits (parse_filename (97 ∷ 46 ∷ 98 ∷ []))
parse_filename-Splits_example = parse_filename-Splits (97 ∷ 46 ∷ 98 ∷ [])

build_dir_ends_example :
    (open_end slash (build_dir slash triple) ≡ true) ⊎ IsRoot (build_dir slash triple)
build_dir_ends_example = build_dir_ends triple

triple_root_example :
    ((detect_anchor 0 triple).1 ≡ 1) × ((detect_anchor 0 (build_dir slash triple)).1 ≡ 2)
triple_root_example = triple_root 97 (47 ∷ 47 ∷ 98 ∷ []) refl

parents-Ends_example : (strs : List (List ℕ)) × (parents style_posix deeper ≡ some strs)
parents-Ends_example = parents-Ends style_posix deeper

str_fresh_example :
    ((Edit.str style_posix (apply_all style_posix base calls)).0
      ≡ compose style_posix (apply_all style_posix base calls))
    × ((Edit.filename style_posix (apply_all style_posix base calls)).0
        ≡ (apply_all style_posix base calls).stem ++ (apply_all style_posix base calls).ext)
str_fresh_example = str_fresh style_posix base calls refl
