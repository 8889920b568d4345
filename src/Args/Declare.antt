-- ===== src/Args/Declare.antt =====
-- Declaring options: ucb_arg_parser_add and ucb_arg_parser_add_options of src/ucb/argparse.c. A
-- malformed descriptor is reported, which aborts; `mem_ok` says whether memory suffices.
use ucb.Common.{
  ℕ, Bool, true, false, not, ◌&&◌, ◌||◌, Option, none, some, List, [], ◌∷◌, ◌++◌, ◌==◌,
  if◌then◌else◌, length, take,
}
use ucb.Common.Outcome.{Outcome, ok, ◌>>=◌, ◌>>◌, verify}
use ucb.Envmap.Environ.{is_text}
use ucb.Args.{
  Opt, ArgType, no_type, str, Action, store, store_true, store_false, count, append, help, version,
  opt_takes_value, text_or_empty,
}
use ucb.Args.Parse.{find_short, find_long}

-- ucb_arg_opt; `none` for NULL.
pub record Desc : Type 0 where
  pub name : Option (List ℕ)
  pub short_name : ℕ
  pub long_name : Option (List ℕ)
  pub type : ArgType
  pub action : Action
  pub dest : Option ℕ
  pub def : Option (List ℕ)
  pub metavar : Option (List ℕ)
  pub help_text : Option (List ℕ)
  pub choices : Option (List (List ℕ))
  pub num_choices : ℕ
  pub required : Bool

abbrev pub given {ℓ} : {A : Type ℓ} → Option A → Bool
given none = false
given (some a) = true

abbrev is_no_type : ArgType → Bool
is_no_type no_type = true
is_no_type _ = false

abbrev is_str_type : ArgType → Bool
is_str_type str = true
is_str_type _ = false

unfoldable pub action_ok : Action → ArgType → Option ℕ → Bool
action_ok store t dest = not (is_no_type t) && given dest
action_ok store_true t dest = given dest
action_ok store_false t dest = given dest
action_ok count t dest = given dest
action_ok append t dest = given dest && (is_no_type t || is_str_type t)
action_ok help t dest = is_no_type t
action_ok version t dest = is_no_type t

unfoldable pub choices_ok : Desc → Bool
choices_ok d = (d.num_choices == 0) || (given d.choices && opt_takes_value d.action)

-- "-c", "--name" or "-c/--name".
unfoldable pub canon_of : ℕ → Option (List ℕ) → List ℕ
canon_of short_name long_name =
    (if short_name == 0 then [] else 45 ∷ short_name ∷ []) ++ (elim long_name [
      | none ↦ []
      | some n ↦ (if short_name == 0 then [] else 47 ∷ []) ++ (45 ∷ 45 ∷ n)
    ])

abbrev chosen : Desc → List (List ℕ)
chosen d = elim d.choices [ none ↦ [] | some l ↦ take d.num_choices l ]

unfoldable pub opt_of : Desc → Opt
unfolding canon_of
opt_of d = record {
  name = text_or_empty d.name;
  short_name = d.short_name;
  long_name = text_or_empty d.long_name;
  canon = canon_of d.short_name d.long_name;
  type = d.type;
  action = d.action;
  dest = elim d.dest [ none ↦ 0 | some k ↦ k ];
  def = d.def;
  metavar = text_or_empty d.metavar;
  help_text = text_or_empty d.help_text;
  choices = chosen d;
  required = d.required;
  seen = false;
}

unfoldable pub all_text : List (List ℕ) → Bool
all_text [] = true
all_text (s ∷ l) = is_text s && all_text l

-- The copies of the descriptor's strings; each is verified to be UTF-8.
unfoldable pub copies_ok : Desc → Bool
unfolding all_text
copies_ok d =
    is_text (text_or_empty d.name)
    && is_text (text_or_empty d.long_name)
    && is_text (text_or_empty d.def)
    && is_text (text_or_empty d.metavar)
    && is_text (text_or_empty d.help_text)
    && ((d.short_name == 0) || is_text (d.short_name ∷ []))
    && all_text (chosen d)

unfoldable pub names_ok : List Opt → Desc → Bool
unfolding find_short find_long
names_ok opts d =
    not (length (text_or_empty d.name) == 0)
    && (not (d.short_name == 0) || given d.long_name)
    && ((d.short_name == 0) || not (given (find_short 0 opts d.short_name)))
    && not (given (find_long opts (text_or_empty d.long_name)))

-- The option itself, with its copies.
unfoldable pub add_impl : Bool → List Opt → Desc → Outcome (Bool × List Opt)
unfolding copies_ok opt_of
add_impl mem_ok opts d =
    if mem_ok
    then (do verify (copies_ok d); ok (true, opts ++ (opt_of d ∷ [])))
    else ok (false, opts)

unfoldable pub add : Bool → List Opt → Desc → Outcome (Bool × List Opt)
unfolding names_ok action_ok choices_ok add_impl
add mem_ok opts d = do
  verify (names_ok opts d)
  verify (action_ok d.action d.type d.dest)
  verify (choices_ok d)
  add_impl mem_ok opts d

-- Up to the first that finds no memory.
unfoldable pub add_options : Bool → List Opt → List Desc → Outcome (Bool × List Opt)
unfolding add
add_options mem_ok opts [] = ok (true, opts)
add_options mem_ok opts (d ∷ descs) = add mem_ok opts d >>= λ r. elim r.0 [
  | false ↦ ok (false, r.1)
  | true ↦ add_options mem_ok r.1 descs
]
