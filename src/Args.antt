-- ===== src/Args.antt =====
-- Argument parsing: src/ucb/argparse.c. A text is the list of its bytes before the NUL; a destination
-- is a cell of a store, which several options may share. Reading a floating point number is a
-- parameter: the value, how many bytes it took, and whether errno stayed zero.
pub mod Convert
pub mod Print
pub mod Parse
pub mod Walk
pub mod Forms
pub mod Clusters
pub mod Frame
pub mod Options
pub mod Walked
pub mod Defaults
pub mod Parsed
pub mod Declare
pub mod Names
pub mod Numbers
pub mod Texts
pub mod Values
pub mod Spared
pub mod Accepted
pub mod Failure
mod Tests
use ucb.Common.{
  ℕ, zero, suc, ◌+◌, ◌-◌, ◌*◌, ◌^◌, Bool, true, false, not, ◌&&◌, ◌||◌, Option, none, some, List,
  [], ◌∷◌, ◌++◌, map, ltb, leb, ◌==◌, if◌then◌else◌, length,
}
use ucb.Envmap.Environ.{is_text}
use ucb.Path.Bytes.{str_equal}
use ucb.Args.Convert.{
  Signed, plus, minus, parse_ll, parse_ull, within, parse_bool_lit, is_space_char,
}

pub data ArgType : Type 0 where
  no_type bool str int uint long ulong llong ullong size float double : ArgType

pub data Action : Type 0 where
  store store_true store_false count append help version : Action

-- `short_name` is 0, and `long_name` empty, for none; `canon` names the option in messages.
pub record Opt : Type 0 where
  pub name : List ℕ
  pub short_name : ℕ
  pub long_name : List ℕ
  pub canon : List ℕ
  pub type : ArgType
  pub action : Action
  pub dest : ℕ
  pub def : Option (List ℕ)
  pub metavar : List ℕ
  pub help_text : List ℕ
  pub choices : List (List ℕ)
  pub required : Bool
  pub seen : Bool

pub data Value {ℓ} (F : Type ℓ) : Type ℓ where
  flag : Bool → Value F
  number : Signed → Value F
  real : F → Value F
  text : List ℕ → Value F
  texts : List (List ℕ) → Value F

-- What a destination holds, by its address.
abbrev pub Store {ℓ} : Type ℓ → Type ℓ
Store F = ℕ → Value F

abbrev pub write {ℓ} : {F : Type ℓ} → ℕ → Value F → Store F → Store F
write d x st k = if k == d then x else st k

-- What is thrown. `unexplained` stands for a failure that throws nothing.
pub data Error : Type 0 where
  invalid_value invalid_choice : List ℕ → List ℕ → Error
  invalid_default : List ℕ → Error
  unrecognized requires_argument takes_no_argument is_required : List ℕ → Error
  invalid_option : ℕ → Error
  unexplained : Error

-- How parsing ends early: a status, a report that aborts (a text that is not UTF-8, or help or a
-- version that cannot be printed), or a signed counter that overflows.
pub data Stop : Type 0 where
  error : Error → Stop
  helped versioned aborted overflowed : Stop

pub data Result {ℓ} (A : Type ℓ) : Type ℓ where
  done : A → Result A
  failed : Stop → Result A

abbrev pub or_fail {ℓ} : {A : Type ℓ} → Option A → Error → Result A
or_fail none e = failed (error e)
or_fail (some a) e = done a

abbrev pub stored_as {ℓ κ} :
    {A : Type ℓ} {F : Type κ} → Opt → (A → Value F) → Store F → Result A → Result (Store F)
stored_as o f st (failed e) = failed e
stored_as o f st (done a) = done (write o.dest (f a) st)

abbrev pub opt_takes_value : Action → Bool
opt_takes_value store = true
opt_takes_value append = true
opt_takes_value _ = false

-- The text, or the empty one for NULL.
abbrev pub text_or_empty : Option (List ℕ) → List ℕ
text_or_empty none = []
text_or_empty (some s) = s

-- The whole of a text that is not empty and does not start with white space.
parse_real {ℓ} : {F : Type ℓ} → (List ℕ → F × ℕ × Bool) → List ℕ → Option F
parse_real strtod [] = none
parse_real strtod (c ∷ s) =
    let r = strtod (c ∷ s) in
    if is_space_char c
    then none
    else if (r.1 == 0) || not (r.1 == length (c ∷ s)) || not r.2
    then none
    else some r.0

abbrev pub is_str : ArgType → Bool
is_str str = true
is_str _ = false

module _ {ℓ} {F : Type ℓ} (strtof strtod : List ℕ → F × ℕ × Bool) (zero_real : F) where
  unfoldable pub convert_store : Opt → List ℕ → Store F → Result (Store F)
  unfolding parse_ll parse_ull within parse_bool_lit parse_real
  convert_store o v st =
      let e = invalid_value o.canon v in
      let signed = λ (x : Option Signed). stored_as o number st (or_fail x e) in
      elim o.type [
        | bool ↦ stored_as o flag st (or_fail (parse_bool_lit v) e)
        | str ↦ if is_text v then done (write o.dest (text v) st) else failed aborted
        | int ↦ signed (within (2 ^ 31) (2 ^ 31 - 1) (parse_ll v))
        | uint ↦ signed (within 0 (2 ^ 32 - 1) (parse_ull v))
        | long ↦ signed (parse_ll v)
        | ulong ↦ signed (parse_ull v)
        | llong ↦ signed (parse_ll v)
        | ullong ↦ signed (parse_ull v)
        | size ↦ signed (parse_ull v)
        | float ↦ stored_as o real st (or_fail (parse_real strtof v) e)
        | double ↦ stored_as o real st (or_fail (parse_real strtod v) e)
        | no_type ↦ failed (error unexplained)
      ]

  abbrev pub zero_value : ArgType → Option (Value F)
  zero_value no_type = none
  zero_value str = none
  zero_value bool = some (flag false)
  zero_value float = some (real zero_real)
  zero_value double = some (real zero_real)
  zero_value _ = some (number (plus 0))

  unfoldable pub zero_dest : Opt → Store F → Store F
  zero_dest o st = elim (zero_value o.type) [ none ↦ st | some x ↦ write o.dest x st ]

  -- A default for a Boolean destination.
  unfoldable pub flag_default : Opt → Bool → Store F → Result (Store F)
  unfolding parse_bool_lit
  flag_default o b st = elim o.def [
    | none ↦ done (write o.dest (flag b) st)
    | some d ↦ stored_as o flag st (or_fail (parse_bool_lit d) (invalid_default o.canon))
  ]

  -- A default that is converted as a value from the command line is.
  unfoldable pub converted_default : Opt → Option (List ℕ) → Store F → Result (Store F)
  unfolding convert_store zero_dest
  converted_default o none st = done (zero_dest o st)
  converted_default o (some d) st = convert_store o d (zero_dest o st)

  unfoldable pub store_default : Opt → Store F → Result (Store F)
  unfolding converted_default
  store_default o st =
      if is_str o.type
      then (if is_text (text_or_empty o.def)
          then done (write o.dest (text (text_or_empty o.def)) st)
          else failed aborted)
      else converted_default o o.def st

  unfoldable pub init_count : Opt → Option (List ℕ) → Store F → Result (Store F)
  unfolding parse_ll within
  init_count o none st = done (write o.dest (number (plus 0)) st)
  init_count o (some d) st =
      stored_as o number st
        (or_fail (within (2 ^ 31) (2 ^ 31 - 1) (parse_ll d)) (invalid_default o.canon))

  -- What init_default does to the destination; `seen` is cleared first.
  unfoldable pub init_default : Opt → Store F → Result (Store F)
  unfolding store_default flag_default init_count
  init_default o st = elim o.action [
    | store ↦ store_default o st
    | store_true ↦ flag_default o false st
    | store_false ↦ flag_default o true st
    | count ↦ init_count o o.def st
    | append ↦ done (write o.dest (texts []) st)
    | help ↦ done st
    | version ↦ done st
  ]
