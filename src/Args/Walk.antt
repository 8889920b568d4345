-- ===== src/Args/Walk.antt =====
-- The walk of ucb_arg_parser_parse over the arguments, src/ucb/argparse.c.
use ucb.Common.{
  ℕ, Bool, true, false, not, ◌&&◌, ◌||◌, Option, none, some, List, [], ◌∷◌, ◌==◌, if◌then◌else◌,
}
use ucb.Args.Convert.{is_digit}
use ucb.Args.{Opt, Store, is_required, error, Result, done, failed, init_default}
use ucb.Args.Parse.{◌>>=◌, State, long_option, short_loop, push_positional}

-- What an argument is; `no_more` says that "--" has been read.
pub data Kind : Type 0 where
  dashes operand : Kind
  long_form short_form : List ℕ → Kind

abbrev pub is_negative_number : ℕ → Bool
is_negative_number c = is_digit c || (c == 46)

abbrev pub long_or_dashes : List ℕ → Kind
long_or_dashes [] = dashes
long_or_dashes (c ∷ s) = long_form (c ∷ s)

unfoldable pub kind : (no_more : Bool) → List ℕ → Kind
kind no_more [] = operand
kind no_more (a ∷ []) = operand
kind no_more (a ∷ b ∷ s) =
    if no_more || not (a == 45)
    then operand
    else if b == 45
    then long_or_dashes s
    else if is_negative_number b
    then operand
    else short_form (b ∷ s)

unfoldable pub check_required : List Opt → Result (Unit {0})
check_required [] = done tt
check_required (o ∷ opts) =
    if o.required && not o.seen then failed (error (is_required o.canon)) else check_required opts

-- `argv` has the program's name first, if anything.
unfoldable pub arguments : List (List ℕ) → List (List ℕ)
arguments [] = []
arguments (prog ∷ args) = args

module _ {ℓ} {F : Type ℓ} (strtof strtod : List ℕ → F × ℕ × Bool) (zero_real : F) where
  unfoldable pub init_all : List Opt → Store F → Result (List Opt × Store F)
  unfolding init_default
  init_all [] st = done ([], st)
  init_all (o ∷ opts) st = do
    st' ← init_default strtof strtod zero_real o st
    (rest, st'') ← init_all opts st'
    done (record o { seen = false } ∷ rest, st'')

module _ {ℓ} {F : Type ℓ} (strtof strtod : List ℕ → F × ℕ × Bool) (zero_real : F)
    (wanted : Bool) where
  -- One argument: the state, whether "--" has been read, and whether the next one has been taken.
  unfoldable pub step :
      State F
      → (no_more : Bool) → List ℕ
      → (next : Option (List ℕ)) → Result (State F × Bool × Bool)
  unfolding kind long_option short_loop push_positional
  step s no_more arg next = elim (kind no_more arg) [
    | dashes ↦ done (s, true, false)
    | long_form body ↦
        long_option strtof strtod zero_real s body next >>= λ r. done (r.0, no_more, r.1)
    | short_form body ↦
        short_loop strtof strtod zero_real s body next >>= λ r. done (r.0, no_more, r.1)
    | operand ↦ push_positional wanted s arg >>= λ s'. done (s', no_more, false)
  ]

  unfoldable pub walk : State F → (no_more : Bool) → List (List ℕ) → Result (State F)
  unfolding step
  walk s no_more [] = done s
  walk s no_more (arg ∷ []) = step s no_more arg none >>= λ r. done r.0
  walk s no_more (arg ∷ v ∷ args) = step s no_more arg (some v) >>= λ r. elim r.2 [
    | true ↦ walk r.0 r.1 args
    | false ↦ walk r.0 r.1 (v ∷ args)
  ]

  unfoldable pub parse :
      (version_text : List ℕ)
      → List Opt
      → Store F
      → List (List ℕ)
      → List (List ℕ)
      → Result (State F)
  unfolding init_all walk arguments check_required
  parse version_text opts st positionals argv = do
    (opts', st') ← init_all strtof strtod zero_real opts st
    s ←
        walk
          (record {
            opts = opts';
            version_text = version_text;
            dests = st';
            positionals = positionals;
          })
          false (arguments argv)
    _ ← check_required s.opts
    done s
