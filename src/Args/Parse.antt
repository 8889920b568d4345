-- ===== src/Args/Parse.antt =====
-- ucb_arg_parser_parse of src/ucb/argparse.c: finding options, applying them, and the walk over the
-- arguments behind the program's name. Where parsing stops early, what the destinations hold then is
-- not kept.
use ucb.Common.{
  ℕ, zero, suc, ◌+◌, ◌-◌, ◌^◌, Bool, true, false, not, ◌||◌, Option, none, some, List, [], ◌∷◌,
  ◌++◌, ◌==◌, if◌then◌else◌, length,
}
use ucb.Envmap.Environ.{is_text}
use ucb.Path.Bytes.{str_equal}
use ucb.Args.Print.{prints_help, prints_version}
use ucb.Args.Convert.{plus, minus}
use ucb.Args.{
  Opt, store, store_true, store_false, count, append, help, version, Value, flag, number, texts,
  Store, write, invalid_choice, unrecognized, requires_argument, takes_no_argument, invalid_option,
  unexplained, error, helped, versioned, aborted, overflowed, Result, done, failed, opt_takes_value,
  convert_store,
}

infixl 5 ◌>>=◌
abbrev pub ◌>>=◌ {ℓ κ} : {A : Type ℓ} {B : Type κ} → Result A → (A → Result B) → Result B
done a >>= f = f a
failed e >>= f = failed e

-- The options and the version of the parser, the destinations, and the positional arguments so far.
pub record State {ℓ} (F : Type ℓ) : Type ℓ where
  pub opts : List Opt
  pub version_text : List ℕ
  pub dests : Store F
  pub positionals : List (List ℕ)

-- An option by its index, from `i` on.
unfoldable pub find_short : ℕ → List Opt → ℕ → Option (ℕ × Opt)
find_short i [] c = none
find_short i (o ∷ opts) c = elim (o.short_name == c) [
  | true ↦ some (i, o)
  | false ↦ find_short (i + 1) opts c
]

unfoldable pub scan_long : ℕ → List Opt → List ℕ → Option (ℕ × Opt)
scan_long i [] name = none
scan_long i (o ∷ opts) name = elim (str_equal o.long_name name) [
  | true ↦ some (i, o)
  | false ↦ scan_long (i + 1) opts name
]

unfoldable pub find_long : List Opt → List ℕ → Option (ℕ × Opt)
unfolding scan_long
find_long opts name = if length name == 0 then none else scan_long 0 opts name

-- `o->seen = true` for the option at an index.
unfoldable pub see : ℕ → List Opt → List Opt
see i [] = []
see zero (o ∷ opts) = record o { seen = true } ∷ opts
see (suc i) (o ∷ opts) = o ∷ see i opts

unfoldable pub one_of : List (List ℕ) → List ℕ → Bool
one_of [] v = false
one_of (c ∷ choices) v = str_equal c v || one_of choices v

unfoldable pub check_choices : Opt → List ℕ → Bool
unfolding one_of
check_choices o v = (length o.choices == 0) || one_of o.choices v

-- One more; a signed counter at its end overflows. A destination of another kind is a fault of the
-- declaration.
unfoldable pub increment {ℓ} : {F : Type ℓ} → Value F → Result (Value F)
increment (number (plus n)) =
    if n == 2 ^ 31 - 1 then failed overflowed else done (number (plus (n + 1)))
increment (number (minus zero)) = done (number (plus 1))
increment (number (minus (suc n))) = done (number (minus n))
increment _ = failed (error unexplained)

unfoldable pub push_text {ℓ} : {F : Type ℓ} → List ℕ → Value F → Result (Value F)
push_text v (texts l) = if is_text v then done (texts (l ++ (v ∷ []))) else failed aborted
push_text v _ = failed (error unexplained)

-- The name and, behind a '=', the value.
unfoldable pub split_value : List ℕ → List ℕ × Option (List ℕ)
split_value [] = ([], none)
split_value (c ∷ s) = elim (c == 61) [
  | true ↦ ([], some s)
  | false ↦ let r = split_value s in (c ∷ r.0, r.1)
]

-- The value of an option, and whether it is the next argument.
unfoldable pub choose_value : Opt → (attached next : Option (List ℕ)) → Result (List ℕ × Bool)
choose_value o (some v) next = done (v, false)
choose_value o none (some v) = done (v, true)
choose_value o none none = failed (error (requires_argument o.canon))

abbrev pub rest_value : List ℕ → Option (List ℕ)
rest_value [] = none
rest_value (c ∷ s) = some (c ∷ s)

unfoldable pub push_positional {ℓ} :
    {F : Type ℓ} → (wanted : Bool) → State F → List ℕ → Result (State F)
push_positional wanted s arg =
    if not wanted
    then done s
    else if is_text arg
    then done (record s { positionals = s.positionals ++ (arg ∷ []) })
    else failed aborted

abbrev pub value_of : Option (List ℕ) → List ℕ
value_of none = []
value_of (some v) = v

module _ {ℓ} {F : Type ℓ} (strtof strtod : List ℕ → F × ℕ × Bool) (zero_real : F) where
  -- What an action does to the destination with the value, if it takes one. Help and version are
  -- printed, and parsing ends with their status.
  unfoldable pub act :
      List Opt → (version_text : List ℕ) → Opt → Option (List ℕ) → Store F → Result (Store F)
  unfolding prints_help prints_version check_choices convert_store increment push_text
  act opts version_text o value st =
      let v = value_of value in
      elim o.action [
        | store ↦
            if check_choices o v
            then convert_store strtof strtod zero_real o v st
            else failed (error (invalid_choice o.canon v))
        | append ↦
            if check_choices o v
            then (push_text v (st o.dest) >>= λ x. done (write o.dest x st))
            else failed (error (invalid_choice o.canon v))
        | store_true ↦ done (write o.dest (flag true) st)
        | store_false ↦ done (write o.dest (flag false) st)
        | count ↦ increment (st o.dest) >>= λ x. done (write o.dest x st)
        | help ↦ failed (if prints_help opts then helped else aborted)
        | version ↦ failed (if prints_version version_text then versioned else aborted)
      ]

  unfoldable pub apply_option : State F → ℕ → Opt → Option (List ℕ) → Result (State F)
  unfolding act see
  apply_option s i o value = do
    st ← act s.opts s.version_text o value s.dests
    done (record s { opts = see i s.opts; dests = st })

  -- The state, and whether the next argument has been taken.
  unfoldable pub use_long :
      State F → ℕ × Opt → (attached next : Option (List ℕ)) → Result (State F × Bool)
  unfolding apply_option choose_value
  use_long s (i, o) attached next =
      if opt_takes_value o.action
      then (do
        (v, taken) ← choose_value o attached next
        s' ← apply_option s i o (some v)
        done (s', taken))
      else elim attached [
        | some v ↦ failed (error (takes_no_argument o.canon))
        | none ↦ apply_option s i o none >>= λ s'. done (s', false)
      ]

  unfoldable pub long_option : State F → List ℕ → (next : Option (List ℕ)) → Result (State F × Bool)
  unfolding find_long split_value use_long
  long_option s body next =
      let r = split_value body in
      elim (find_long s.opts r.0) [
        | none ↦ failed (error (unrecognized r.0))
        | some found ↦ use_long s found r.1 next
      ]

  unfoldable pub short_loop : State F → List ℕ → (next : Option (List ℕ)) → Result (State F × Bool)
  unfolding find_short apply_option choose_value
  short_loop s [] next = done (s, false)
  short_loop s (c ∷ body) next = elim (find_short 0 s.opts c) [
    | none ↦ failed (error (invalid_option c))
    | some found ↦ elim (opt_takes_value found.1.action) [
      | true ↦ choose_value found.1 (rest_value body) next >>= λ (v, taken).
          apply_option s found.0 found.1 (some v) >>= λ s'. done (s', taken)
      | false ↦ apply_option s found.0 found.1 none >>= λ s'. short_loop s' body next
    ]
  ]
