-- ===== src/Args/Values.antt =====
-- The options of src/ucb/argparse.c that take values, on values that are UTF-8.
use ucb.Common.{
  ℕ, zero, suc, ◌-◌, ◌^◌, ◌==◌, ◌≡◌, ◌≢◌, refl, Bool, true, Option, none, some, List, [],
}
use ucb.Utf8.{validate, validate_loop}
use ucb.Envmap.Environ.{is_text}
use ucb.Args.Convert.{plus, minus}
use ucb.Args.{
  Opt, ArgType, no_type, bool, str, int, uint, long, ulong, llong, ullong, size, float, double,
  Action, store, store_true, store_false, count, append, help, version, Value, flag, number, real,
  text, texts, Error, Store, Stop, error, helped, versioned, aborted, overflowed, Result, failed,
  or_fail, stored_as, convert_store,
}
use ucb.Args.Print.{prints_help, prints_version}
use ucb.Args.Parse.{value_of, check_choices, increment, push_text, act}
use ucb.Args.Frame.{Ends, gives, stops, Ends-bind, Ends-if}

-- A failure that does not abort the program.
abbrev IsReport : Stop → Type 0
IsReport aborted = ⊥
IsReport _ = Unit

-- The call does not abort, and its result, if there is one, satisfies `P`.
abbrev pub Spares {ℓ κ} : {A : Type ℓ} → (A → Type κ) → Result A → Type (ℓ ⊔ κ)
Spares P m = Ends IsReport P m

report {ℓ} : {A : Type ℓ} (e : Stop) → IsReport e → ◌≢◌ {A = Result A} (failed e) (failed aborted)
report (error x) h e = absurd cc
report helped h e = absurd cc
report versioned h e = absurd cc
report aborted h e = h
report overflowed h e = absurd cc

pub Spares-not_aborted {ℓ κ} :
    {A : Type ℓ} {P : A → Type κ} {m : Result A} → Spares P m → m ≢ failed aborted
Spares-not_aborted (gives h) e = absurd cc
Spares-not_aborted (stops h) e = absurd (report _ h e)

abbrev pub Any {ℓ} : {A : Type ℓ} → A → Type 0
Any a = Unit

pub stored_as-Spares {ℓ κ} :
    {A : Type ℓ} {F : Type κ} (o : Opt) (f : A → Value F) (st : Store F) (x : Option A) (e : Error)
    → Spares Any (stored_as o f st (or_fail x e))
stored_as-Spares o f st none e = stops tt
stored_as-Spares o f st (some a) e = gives tt

increment-Spares {ℓ} : {F : Type ℓ} (x : Value F) → Spares Any (increment x)
unfolding increment
increment-Spares (number (plus n)) = Ends-if (n == 2 ^ 31 - 1) (stops tt) (gives tt)
increment-Spares (number (minus zero)) = gives tt
increment-Spares (number (minus (suc n))) = gives tt
increment-Spares (flag b) = stops tt
increment-Spares (real x) = stops tt
increment-Spares (text s) = stops tt
increment-Spares (texts l) = stops tt

push_text-Spares {ℓ} :
    {F : Type ℓ} (v : List ℕ) (x : Value F) → is_text v ≡ true → Spares Any (push_text v x)
unfolding push_text
push_text-Spares v (texts l) h = rw h (gives tt)
push_text-Spares v (flag b) h = stops tt
push_text-Spares v (number n) h = stops tt
push_text-Spares v (real x) h = stops tt
push_text-Spares v (text s) h = stops tt

pub is_text_nil : is_text [] ≡ true
unfolding is_text validate validate_loop
is_text_nil = refl

module _ {ℓ} {F : Type ℓ} (strtof strtod : List ℕ → F × ℕ × Bool) (zero_real : F) where
  pub convert_store-Spares :
      (o : Opt) (v : List ℕ) (st : Store F)
      → is_text v ≡ true
      → Spares Any (convert_store strtof strtod zero_real o v st)
  unfolding convert_store
  convert_store-Spares o v st h = by_type o o.type
    where
      by_type :
          (o : Opt) (t : ArgType)
          → Spares Any (convert_store strtof strtod zero_real (record o { type = t }) v st)
      by_type o no_type = stops tt
      by_type o bool = stored_as-Spares (record o { type = bool }) flag st _ _
      by_type o str = rw h (gives tt)
      by_type o int = stored_as-Spares (record o { type = int }) _ st _ _
      by_type o uint = stored_as-Spares (record o { type = uint }) _ st _ _
      by_type o long = stored_as-Spares (record o { type = long }) _ st _ _
      by_type o ulong = stored_as-Spares (record o { type = ulong }) _ st _ _
      by_type o llong = stored_as-Spares (record o { type = llong }) _ st _ _
      by_type o ullong = stored_as-Spares (record o { type = ullong }) _ st _ _
      by_type o size = stored_as-Spares (record o { type = size }) _ st _ _
      by_type o float = stored_as-Spares (record o { type = float }) _ st _ _
      by_type o double = stored_as-Spares (record o { type = double }) _ st _ _

  pub act-Spares :
      (opts : List Opt) (version_text : List ℕ) (o : Opt) (value : Option (List ℕ)) (st : Store F)
      → prints_help opts ≡ true
      → prints_version version_text ≡ true
      → is_text (value_of value) ≡ true
      → Spares Any (act strtof strtod zero_real opts version_text o value st)
  unfolding act
  act-Spares opts version_text o value st ph pv h = by_action o o.action
    where
      by_action :
          (o : Opt) (a : Action)
          → Spares Any
              (act strtof strtod zero_real opts version_text (record o { action = a }) value st)
      by_action o store =
          Ends-if (check_choices (record o { action = store }) (value_of value))
            (convert_store-Spares (record o { action = store }) (value_of value) st h) (stops tt)
      by_action o append =
          Ends-if (check_choices (record o { action = append }) (value_of value))
            (Ends-bind (push_text-Spares (value_of value) (st o.dest) h) λ x _. gives tt) (stops tt)
      by_action o store_true = gives tt
      by_action o store_false = gives tt
      by_action o count = Ends-bind (increment-Spares (st o.dest)) λ x _. gives tt
      by_action o help = rw ph (stops tt)
      by_action o version = rw pv (stops tt)
