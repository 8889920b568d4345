-- ===== src/Args/Print.antt =====
-- Where the printing of help and of the version aborts: ucb_arg_parser_print_help with build_help,
-- format_left, append_metavar and the fields of interp_text, and ucb_arg_parser_print_version of
-- src/ucb/argparse.c. The texts themselves are left out. Pieces are appended to a string that has to
-- be UTF-8, so that a name that stands for a metavar is appended byte by byte.
use ucb.Common.{
  ℕ, zero, suc, ◌+◌, ◌-◌, Bool, true, false, not, ◌&&◌, ◌||◌, Option, none, some, List, [], ◌∷◌,
  leb, ◌==◌, if◌then◌else◌, length, take, drop,
}
use ucb.Envmap.Environ.{is_text}
use ucb.Path.Bytes.{str_equal}
use ucb.Args.{Opt, opt_takes_value}

abbrev upper : ℕ → ℕ
upper c = if leb 97 c && leb c 122 then c - 32 else c

unfoldable pub single_texts : List ℕ → Bool
single_texts [] = true
single_texts (c ∷ s) = is_text (upper c ∷ []) && single_texts s

-- append_metavar does not abort.
unfoldable pub metavar_ok : Opt → Bool
unfolding single_texts
metavar_ok o = not (length o.metavar == 0) || single_texts o.name

unfoldable starts_with : List ℕ → List ℕ → Bool
starts_with [] s = true
starts_with (c ∷ p) [] = false
starts_with (c ∷ p) (d ∷ s) = (c == d) && starts_with p s

-- The field before the next ')', where an 's' follows that.
unfoldable field_end : ℕ → List ℕ → Option ℕ
field_end n [] = none
field_end n (c ∷ s) = elim (c == 41) [
  | true ↦ if starts_with (115 ∷ []) s then some n else none
  | false ↦ field_end (n + 1) s
]

-- What stands behind a '%': whether it is the field "metavar", and its length. The others are
-- another '%', "prog", "default" and the other fields.
unfoldable directive : List ℕ → Bool × ℕ
unfolding starts_with field_end
directive s =
    if starts_with (37 ∷ []) s
    then (false, 1)
    else if starts_with (112 ∷ 114 ∷ 111 ∷ 103 ∷ []) s
    then (false, 4)
    else if starts_with (100 ∷ 101 ∷ 102 ∷ 97 ∷ 117 ∷ 108 ∷ 116 ∷ []) s
    then (false, 7)
    else if starts_with (40 ∷ []) s
    then (elim (field_end 0 (drop 1 s)) [
      | none ↦ (false, 0)
      | some n ↦ (str_equal (take n (drop 1 s)) (109 ∷ 101 ∷ 116 ∷ 97 ∷ 118 ∷ 97 ∷ 114 ∷ []), n + 3)
    ])
    else (false, 0)

-- interp_text appends the metavar; `skip` bytes belong to a directive.
unfoldable pub asks_metavar : ℕ → List ℕ → Bool
unfolding directive
asks_metavar skip [] = false
asks_metavar (suc skip) (c ∷ s) = asks_metavar skip s
asks_metavar zero (c ∷ s) = elim (c == 37) [
  | true ↦ let r = directive s in r.0 || asks_metavar r.1 s
  | false ↦ asks_metavar 0 s
]

-- The row of an option.
unfoldable pub help_ok : Opt → Bool
unfolding metavar_ok asks_metavar
help_ok o = metavar_ok o || not (opt_takes_value o.action || asks_metavar 0 o.help_text)

unfoldable pub prints_help : List Opt → Bool
unfolding help_ok
prints_help [] = true
prints_help (o ∷ opts) = help_ok o && prints_help opts

-- The version is verified to be set.
unfoldable pub prints_version : List ℕ → Bool
prints_version version_text = not (length version_text == 0)
