-- ===== src/Args/Tests.antt =====
-- Runs of the argument parser of src/ucb/argparse.c, and its theorems at concrete inputs.
use ucb.Common.{ℕ, ◌≡◌, ◌≢◌, refl, Bool, true, false, Option, some, none, List, [], ◌∷◌}
use ucb.Utf8.{validate, validate_loop, check_at}
use ucb.Path.Bytes.{str_equal, same_bytes}
use ucb.Envmap.Environ.{is_text}
use ucb.Args.{
  Opt, ArgType, Action, int, no_type, store, count, Value, number, flag, Store, write, Result, done,
  failed, aborted, convert_store, init_default, store_default, converted_default, init_count,
  zero_dest, error, invalid_value,
}
use ucb.Args.Convert.{
  plus, minus, parse_ll, read_signed, read_number, read_digits, accepted, within,
}
use ucb.Args.Print.{prints_help, help_ok, metavar_ok, single_texts, asks_metavar, prints_version}
use ucb.Args.Parse.{
  State, find_short, scan_long, find_long, split_value, see, check_choices, one_of, increment, act,
  apply_option, choose_value, use_long, long_option, short_loop, push_positional,
}
use ucb.Args.Walk.{kind, step, walk, init_all, arguments, check_required, parse}
use ucb.Args.Frame.{Gives}
use ucb.Args.Clusters.{equals, walk-Spelled, walk-dashes}
use ucb.Args.Parsed.{Parsed, parse-Parsed}
use ucb.Args.Declare.{
  Desc, opt_of, add, add_impl, add_options, names_ok, action_ok, choices_ok, copies_ok, canon_of,
  all_text,
}
use ucb.Args.Numbers.{negative, convert_store-Numeral}
use ucb.Args.Accepted.{parse-add_options}

-- No floating point number is read.
abbrev no_real : List ℕ → ℕ × ℕ × Bool
no_real s = (0, 0, false)

-- "-v/--vb" counts at 0, "-n/--num" is an int at 1.
abbrev verbose : Desc
verbose = record {
  name = some (118 ∷ []);
  short_name = 118;
  long_name = some (118 ∷ 98 ∷ []);
  type = no_type;
  action = count;
  dest = some 0;
  def = none;
  metavar = none;
  help_text = none;
  choices = none;
  num_choices = 0;
  required = false;
}

abbrev num : Desc
num = record {
  name = some (110 ∷ []);
  short_name = 110;
  long_name = some (110 ∷ 117 ∷ 109 ∷ []);
  type = int;
  action = store;
  dest = some 1;
  def = none;
  metavar = none;
  help_text = none;
  choices = none;
  num_choices = 0;
  required = true;
}

abbrev opts : List Opt
opts = opt_of verbose ∷ opt_of num ∷ []

abbrev dests : Store ℕ
dests k = flag false

abbrev start : State ℕ
start = record { opts = opts; version_text = []; dests = dests; positionals = [] }

-- "prog -vvn-7 x --vb".
abbrev command_line : List (List ℕ)
command_line =
    (112 ∷ []) ∷ (45 ∷ 118 ∷ 118 ∷ 110 ∷ 45 ∷ 55 ∷ []) ∷ (120 ∷ []) ∷ (45 ∷ 45 ∷ 118 ∷ 98 ∷ []) ∷ []

-- What a run leaves at an address, and the positional arguments.
abbrev result_at : ℕ → Result (State ℕ) → Option (Value ℕ × List (List ℕ))
result_at k (done s) = some (s.dests k, s.positionals)
result_at k (failed e) = none

counted :
    result_at 0 (parse no_real no_real 0 true [] opts dests [] command_line)
    ≡ some (number (plus 3), (120 ∷ []) ∷ [])
unfolding parse init_all init_default store_default converted_default init_count zero_dest arguments
    walk step kind short_loop find_short apply_option act check_choices one_of convert_store
    parse_ll read_signed read_number read_digits accepted within see increment choose_value
    long_option find_long scan_long split_value use_long push_positional is_text validate
    validate_loop check_at str_equal same_bytes check_required opt_of
counted = refl

stored :
    result_at 1 (parse no_real no_real 0 true [] opts dests [] command_line)
    ≡ some (number (minus 7), (120 ∷ []) ∷ [])
unfolding parse init_all init_default store_default converted_default init_count zero_dest arguments
    walk step kind short_loop find_short apply_option act check_choices one_of convert_store
    parse_ll read_signed read_number read_digits accepted within see increment choose_value
    long_option find_long scan_long split_value use_long push_positional is_text validate
    validate_loop check_at str_equal same_bytes check_required opt_of
stored = refl

parse-Parsed_example :
    Gives
      (Parsed opts dests [] command_line)
      (parse no_real no_real 0 true [] opts dests [] command_line)
parse-Parsed_example = parse-Parsed no_real no_real 0 true [] opts dests [] command_line

-- "--num=5" and "--num 5".
walk-Spelled_example :
    walk no_real no_real 0 true start false ((45 ∷ 45 ∷ 110 ∷ 117 ∷ 109 ∷ 61 ∷ 53 ∷ []) ∷ [])
    ≡ walk no_real no_real 0 true start false ((45 ∷ 45 ∷ 110 ∷ 117 ∷ 109 ∷ []) ∷ (53 ∷ []) ∷ [])
unfolding find_long scan_long str_equal same_bytes opt_of
walk-Spelled_example =
    walk-Spelled no_real no_real 0 true start ((45 ∷ 45 ∷ 110 ∷ 117 ∷ 109 ∷ 61 ∷ 53 ∷ []) ∷ [])
      ((45 ∷ 45 ∷ 110 ∷ 117 ∷ 109 ∷ []) ∷ (53 ∷ []) ∷ [])
      (equals {c = 110} {name = 117 ∷ 109 ∷ []} {v = 53 ∷ []} {i = 1} {o = opt_of num} {args = []}
        (refl, (refl, (refl, tt))) refl refl)

-- "-- -v".
walk-dashes_example :
    walk no_real no_real 0 true start false ((45 ∷ 45 ∷ []) ∷ (45 ∷ 118 ∷ []) ∷ [])
    ≡ done (record start { positionals = (45 ∷ 118 ∷ []) ∷ [] })
unfolding is_text validate validate_loop check_at
walk-dashes_example = walk-dashes no_real no_real 0 start ((45 ∷ 118 ∷ []) ∷ []) (refl, tt)

-- "x" and "--num=y", which is no number.
abbrev misspelt : List (List ℕ)
misspelt = [] ∷ (120 ∷ []) ∷ (45 ∷ 45 ∷ 110 ∷ 117 ∷ 109 ∷ 61 ∷ 121 ∷ []) ∷ []

-- "1".
abbrev one : List ℕ
one = 49 ∷ []

parse-add_options_example : parse no_real no_real 0 true one opts dests [] misspelt ≢ failed aborted
unfolding add_options add add_impl names_ok action_ok choices_ok copies_ok all_text opt_of
    find_short find_long scan_long str_equal same_bytes is_text validate validate_loop check_at
    canon_of arguments prints_help help_ok metavar_ok single_texts asks_metavar prints_version
parse-add_options_example =
    parse-add_options no_real no_real 0 true true one (verbose ∷ num ∷ []) opts dests [] misspelt
      refl refl refl (refl, (refl, tt))

-- "--vb" that prints a version which is not set.
no_version :
    apply_option no_real no_real 0 start 0
      (record (opt_of verbose) { action = Action.version })
      none
    ≡ failed aborted
unfolding apply_option act prints_version opt_of
no_version = refl

convert_store-Numeral_example :
    (convert_store no_real no_real 0 (record (opt_of num) { type = int }) (45 ∷ 55 ∷ []) dests
      ≡ done (write 1 (number (minus 7)) dests))
    × (convert_store no_real no_real 0
          (record (opt_of num) { type = ArgType.uint })
          (45 ∷ 55 ∷ [])
          dests
        ≡ failed (error (invalid_value (opt_of num).canon (45 ∷ 55 ∷ []))))
unfolding opt_of
convert_store-Numeral_example =
    convert_store-Numeral no_real no_real 0 (opt_of num) (45 ∷ 55 ∷ []) (minus 7) dests
      (negative 55 [] (refl, tt))
