-- ===== src/Path/Join.antt =====
-- ucb_path_append in src/ucb/path.c: the paths one after the other.
use ucb.Common.{
  ℕ, ◌≡◌, refl, sym, ap, ◌∙◌, true, false, not, ◌&&◌, ◌||◌, some, List, [], ◌∷◌, ◌++◌,
  if◌then◌else◌, arith, append_assoc, append-nil,
}
use ucb.Path.{
  Style, FilePath, slash, compose, has_name, need_sep, junction, sep_of, is_empty, open_end,
}
use ucb.Path.Edit.{append, append_other, append_segment, lower_name, is_absolute}
use ucb.Path.Segments.{segments}
use ucb.Path.Render.{segments-junction, segments_empty}
use ucb.Path.RoundTrip.{NoSep, one, segments-compose}

-- The base with its filename as a segment is the base, composed.
lower_name-compose :
    (conf : Style) (path : FilePath) → lower_name (sep_of conf path.style) path ≡ compose conf path
unfolding lower_name compose need_sep junction has_name is_empty
lower_name-compose conf path = go path.stem path.ext
  where
    go :
        (stem ext : List ℕ)
        → (if not (is_empty stem) || not (is_empty ext)
            then path.dir
              ++ (if open_end (sep_of conf path.style) path.dir
                  then sep_of conf path.style ∷ []
                  else [])
              ++ stem
              ++ ext
            else path.dir)
          ≡ path.dir
            ++ (if (not (is_empty stem) || not (is_empty ext))
                  && open_end (sep_of conf path.style) path.dir
                then sep_of conf path.style ∷ []
                else [])
            ++ stem
            ++ ext
    go [] [] = sym (rw (append-nil path.dir, append-nil path.dir, append-nil path.dir))
    go [] (c ∷ ext) = refl
    go (c ∷ stem) ext = refl

append_segment-segments :
    (dir seg : List ℕ)
    → segments slash (append_segment slash dir seg) ≡ segments slash dir ++ segments slash seg
unfolding append_segment is_empty
append_segment-segments dir [] = sym (rw (segments_empty slash) (append-nil (segments slash dir)))
append_segment-segments dir (c ∷ seg) = segments-junction slash dir (c ∷ seg) (omega arith)

-- The directory of the joined path.
joined_dir :
    (conf : Style) (path : FilePath) (dir : List ℕ)
    → sep_of conf path.style ≡ slash
    → segments slash
        (append_segment (sep_of conf path.style) (lower_name (sep_of conf path.style) path) dir)
      ≡ segments slash (compose conf path) ++ segments slash dir
joined_dir conf path dir h =
    rw (lower_name-compose conf path, h) (append_segment-segments (compose conf path) dir)

-- Appending a relative path whose filename has no separator, where both paths have the separator of
-- POSIX, adds its segments to those of the base.
pub append-segments :
    (conf : Style) (path other : FilePath)
    → sep_of conf path.style ≡ slash
    → sep_of conf other.style ≡ slash
    → NoSep (other.stem ++ other.ext)
    → is_absolute conf other ≡ false
    → segments slash (compose conf (append conf path (some other)))
      ≡ segments slash (compose conf path) ++ segments slash (compose conf other)
unfolding append append_other
append-segments conf path other h h' a r = rw r (
    segments-compose conf (joined path other) h a
    ∙ ap (◌++ one (other.stem ++ other.ext)) (joined_dir conf path other.dir h)
    ∙ append_assoc (segments slash (compose conf path)) (segments slash other.dir)
        (one (other.stem ++ other.ext))
    ∙ ap (segments slash (compose conf path) ++◌) (sym (segments-compose conf other h' a)))
  where
    joined : FilePath → FilePath → FilePath
    joined path other = record path {
      dir =
          append_segment (sep_of conf path.style) (lower_name (sep_of conf path.style) path)
            other.dir;
      stem = other.stem;
      ext = other.ext;
      dirty = true;
    }
