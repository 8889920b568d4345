-- ===== src/Path/RoundTrip.antt =====
-- path_parse and then path_compose_to, in src/ucb/path.c, for the separator of POSIX.
use ucb.Common.{
  ℕ, zero, suc, ◌≤◌, ◌≡◌, refl, sym, ap, ap₂, ◌∙◌, subst, inl, inr, ◌⊎◌, false, not, ◌&&◌, ◌||◌,
  none, some, List, [], ◌∷◌, ◌++◌, if◌then◌else◌, length, length-take, take, drop, get_elem?,
  get_elem?-some, All, All-snoc, Bool-cases, arith, append_assoc, append-nil,
}
use ucb.Path.{
  Style, style_default, style_native, style_posix, style_windows, FilePath, slash, sep_match,
  is_sep, is_empty, test_at, last_sep, raw_dir_len, parse, compose, has_name, need_sep, junction,
  sep_of, concrete, resolve_style, build_dir, open_end,
}
use ucb.Path.Segments.{segments, IsSegment}
use ucb.Path.Render.{segments-append, segments_empty, segments_join, segments_one}
use ucb.Path.Filename.{parse_filename-Splits}
use ucb.Path.DirLoop.{is_sep-slash}
use ucb.Path.Dir.{build_dir-segments}

abbrev pub NoSep : List ℕ → Type 0
NoSep s = All (λ c. is_sep c ≡ false) s

take-suc : (s : List ℕ) (i x : ℕ) → get_elem? s i ≡ some x → take (suc i) s ≡ take i s ++ x ∷ []
take-suc [] i x h = ground arith
take-suc (c ∷ s) zero x h = ground arith
take-suc (c ∷ s) (suc i) x h = ap (◌∷◌ c) (take-suc s i x h)

take_all : (s : List ℕ) → take (length s) s ≡ s
take_all [] = refl
take_all (c ∷ s) = ap (◌∷◌ c) (take_all s)

-- The search from the end finds no separator, or the last one.
last_sep-split :
    (s : List ℕ) (i : ℕ)
    → i ≤ length s
    → ((last_sep s i ≡ none) × NoSep (take i s))
      ⊎ ((r : List ℕ) × (name : List ℕ) × (last_sep s i ≡ some (length r))
          × (take i s ≡ r ++ slash ∷ name)
          × NoSep name)
unfolding last_sep test_at
last_sep-split s zero h = inl (refl, tt)
last_sep-split s (suc i) h =
    let (x, e) = get_elem?-some s i (omega arith) in
    elim (Bool-cases (is_sep x)) [
      | inl f ↦ inr (
        take i s,
        [],
        rw (last_sep, test_at, e, f) (ap some (sym (length-take i s (omega arith)))),
        take-suc s i x e ∙ ap (λ c. take i s ++ c ∷ []) (is_sep-slash x f),
        tt,
      )
      | inr f ↦ elim (last_sep-split s i (omega arith)) [
        | inl (n, a) ↦
            inl
              (rw (last_sep, test_at, e, f) n, rw (take-suc s i x e) (All-snoc _ (take i s) x a f))
        | inr (r, name, n, t, a) ↦ inr (
          r,
          name ++ x ∷ [],
          rw (last_sep, test_at, e, f) n,
          take-suc s i x e ∙ ap (◌++ x ∷ []) t ∙ append_assoc r (slash ∷ name) (x ∷ []),
          All-snoc _ name x a f,
        )
      ]
    ]

-- The segment of a name, if there is one.
abbrev pub one : List ℕ → List (List ℕ)
one [] = []
one (c ∷ s) = (c ∷ s) ∷ []

match_slash : (c : ℕ) → sep_match slash c ≡ is_sep c
match_slash c = ground arith

NoSep-match : (s : List ℕ) → NoSep s → All (λ c. sep_match slash c ≡ false) s
NoSep-match [] a = tt
NoSep-match (c ∷ s) (e, a) = (match_slash c ∙ e, NoSep-match s a)

segments-one : (s : List ℕ) → NoSep s → segments slash s ≡ one s
segments-one [] a = segments_empty slash
segments-one (c ∷ s) a = segments_one slash c s (NoSep-match (c ∷ s) a)

take_split : (r s : List ℕ) → take (suc (length r)) (r ++ slash ∷ s) ≡ r ++ slash ∷ []
take_split [] s = refl
take_split (c ∷ r) s = ap (◌∷◌ c) (take_split r s)

drop_split : (r s : List ℕ) → drop (suc (length r)) (r ++ slash ∷ s) ≡ s
drop_split [] s = refl
drop_split (c ∷ r) s = drop_split r s

raw_none : (s : List ℕ) → last_sep s (length s) ≡ none → raw_dir_len s ≡ 0
unfolding raw_dir_len
raw_none s e = rw (raw_dir_len, e)

raw_some : (s : List ℕ) (i : ℕ) → last_sep s (length s) ≡ some i → raw_dir_len s ≡ suc i
unfolding raw_dir_len
raw_some s i e = rw (raw_dir_len, e)

-- The directory region and the filename hold the segments of the string.
raw_split :
    (s : List ℕ)
    → NoSep (drop (raw_dir_len s) s)
      × (segments slash s ≡ segments slash (take (raw_dir_len s) s) ++ one (drop (raw_dir_len s) s))
raw_split s = elim (last_sep-split s (length s) (omega arith)) [
  | inl (n, a) ↦
      let b = subst NoSep (take_all s) a in
      rw (raw_none s n) (b, rw (segments_empty slash, segments-one s b))
  | inr (r, name, n, t, a) ↦
      let e = sym (take_all s) ∙ t in
      rw (raw_some s (length r) n) (
        subst (λ x. NoSep (drop (suc (length r)) x)) (sym e) (rw (drop_split r name) a),
        subst
            (λ x.
              segments slash x
              ≡ segments slash (take (suc (length r)) x) ++ one (drop (suc (length r)) x))
            (sym e)
            (rw (
              take_split r name,
              drop_split r name,
              segments-append slash r name (omega arith),
              segments-append slash r [] (omega arith),
              segments_empty slash,
              append-nil (segments slash r),
              segments-one name a,
            )),
      )
]

IsSegment-of : (c : ℕ) (s : List ℕ) → NoSep (c ∷ s) → IsSegment slash (c ∷ s)
IsSegment-of c s a = ((λ n. ground arith), NoSep-match (c ∷ s) a)

-- Composing adds the filename as a segment.
pub segments-compose :
    (conf : Style) (path : FilePath)
    → sep_of conf path.style ≡ slash
    → NoSep (path.stem ++ path.ext)
    → segments slash (compose conf path) ≡ segments slash path.dir ++ one (path.stem ++ path.ext)
unfolding compose need_sep has_name is_empty junction
segments-compose conf path h a = go (sep_of conf path.style) h path.stem path.ext a
  where
    go :
        (sep : ℕ)
        → sep ≡ slash
        → (stem ext : List ℕ) → NoSep (stem ++ ext)
        → segments slash (
            path.dir
            ++ (if (not (is_empty stem) || not (is_empty ext)) && open_end sep path.dir
                then sep ∷ []
                else [])
            ++ stem
            ++ ext)
          ≡ segments slash path.dir ++ one (stem ++ ext)
    go sep h [] [] a = rw (
      append-nil path.dir,
      append-nil path.dir,
      append-nil path.dir,
      append-nil (segments slash path.dir),
    )
    go sep h [] (c ∷ ext) a =
        rw (h, append-nil (path.dir ++ junction slash path.dir))
          (segments_join slash path.dir (c ∷ ext) (omega arith) (IsSegment-of c ext a))
    go sep h (c ∷ stem) ext a =
        rw (h, append_assoc (path.dir ++ junction slash path.dir) (c ∷ stem) ext)
          (segments_join slash path.dir (c ∷ (stem ++ ext)) (omega arith)
            (IsSegment-of c (stem ++ ext) a))

sep_of_resolved : (conf style : Style) → sep_of conf (resolve_style conf style) ≡ sep_of conf style
unfolding sep_of resolve_style concrete
sep_of_resolved conf style_native = refl
sep_of_resolved conf style_posix = refl
sep_of_resolved conf style_windows = refl
sep_of_resolved style_default style_default = refl
sep_of_resolved style_native style_default = refl
sep_of_resolved style_posix style_default = refl
sep_of_resolved style_windows style_default = refl

-- A path that is parsed for the separator of POSIX and composed again has the segments of the string that was
-- parsed, in the same order.
pub parse_roundtrip :
    (conf style : Style) (s : List ℕ) (path : FilePath)
    → sep_of conf style ≡ slash
    → segments slash (compose conf (parse conf style s path)) ≡ segments slash s
unfolding parse
parse_roundtrip conf style [] path h =
    segments-compose conf (parse conf style [] path) (sep_of_resolved conf style ∙ h) tt
    ∙ append-nil (segments slash [])
parse_roundtrip conf style (c ∷ s) path h =
    let t = c ∷ s in
    let q = parse conf style t path in
    let e = (parse_filename-Splits (drop (raw_dir_len t) t)).0 in
    segments-compose conf q (sep_of_resolved conf style ∙ h) (subst NoSep (sym e) (raw_split t).0)
    ∙ ap₂ (λ a b. a ++ one b)
        (ap (λ z. segments slash (build_dir z (take (raw_dir_len t) t))) h
          ∙ build_dir-segments (take (raw_dir_len t) t))
        e
    ∙ sym (raw_split t).1
