-- ===== src/Args/Spared.antt =====
-- The walk of ucb_arg_parser_parse (src/ucb/argparse.c) over arguments that are UTF-8.
use ucb.Common.{
  ℕ, ◌≡◌, refl, inl, inr, Bool, true, false, not, Option, none, some, List, [], ◌∷◌, All,
  Bool-cases, Option-cases,
}
use ucb.Utf8.{check_at, validate_loop, validate}
use ucb.Envmap.Environ.{is_text}
use ucb.Args.{Opt, error, takes_no_argument, done, failed, opt_takes_value}
use ucb.Args.Parse.{
  ◌>>=◌, State, find_short, find_long, split_value, value_of, apply_option, choose_value,
  rest_value, use_long, long_option, short_loop, push_positional,
}
use ucb.Args.Walk.{Kind, kind, operand, dashes, long_form, short_form, step, walk}
use ucb.Args.Print.{prints_version}
use ucb.Args.Texts.{
  Named, is_text-cut, find_short-Named, find_long-Named, see-Named, prints_help-Named,
  split_value-append, Cut, kind-Cut,
}
use ucb.Args.Frame.{gives, stops, Ends-bind, Ends-if}
use ucb.Args.Values.{Spares, act-Spares, is_text_nil}

-- A text, if there is one.
abbrev IsText : Option (List ℕ) → Type 0
IsText none = Unit
IsText (some v) = is_text v ≡ true

-- The options can be parsed and printed, and so can the version.
abbrev Sound {ℓ} : {F : Type ℓ} → State F → Type 0
Sound s = All Named s.opts × (prints_version s.version_text ≡ true)

is_equals : is_text (61 ∷ []) ≡ true
unfolding is_text validate validate_loop check_at
is_equals = refl

module _ {ℓ} {F : Type ℓ} (strtof strtod : List ℕ → F × ℕ × Bool) (zero_real : F) where
  apply_option-Spares :
      (s : State F) (i : ℕ) (o : Opt) (value : Option (List ℕ))
      → is_text (value_of value) ≡ true
      → Sound s
      → Spares Sound (apply_option strtof strtod zero_real s i o value)
  unfolding apply_option
  apply_option-Spares s i o value h w =
      Ends-bind
        (act-Spares strtof strtod zero_real s.opts s.version_text o value s.dests
          (prints_help-Named s.opts w.0) w.1 h)
        λ st _. gives (see-Named i s.opts w.0, w.1)

  abbrev pub Kept : State F × Bool → Type 0
  Kept r = Sound r.0

  valued-Spares :
      (s : State F) (i : ℕ) (o : Opt) (attached next : Option (List ℕ))
      → IsText attached
      → IsText next
      → Sound s
      → Spares Kept (
          choose_value o attached next >>= λ (v, taken).
          apply_option strtof strtod zero_real s i o (some v) >>= λ s'. done (s', taken))
  unfolding choose_value
  valued-Spares s i o (some v) next h k w =
      Ends-bind (apply_option-Spares s i o (some v) h w) λ s' g. gives g
  valued-Spares s i o none (some v) h k w =
      Ends-bind (apply_option-Spares s i o (some v) k w) λ s' g. gives g
  valued-Spares s i o none none h k w = stops tt

  use_long-Spares :
      (s : State F) (i : ℕ) (o : Opt) (attached next : Option (List ℕ))
      → IsText attached
      → IsText next
      → Sound s
      → Spares Kept (use_long strtof strtod zero_real s (i, o) attached next)
  unfolding use_long
  use_long-Spares s i o attached next h k w =
      Ends-if (opt_takes_value o.action) (valued-Spares s i o attached next h k w) (plain attached)
    where
      plain :
          (attached : Option (List ℕ))
          → Spares Kept (elim attached [
            | some v ↦ failed (error (takes_no_argument o.canon))
            | none ↦ apply_option strtof strtod zero_real s i o none >>= λ s'. done (s', false)
          ])
      plain (some v) = stops tt
      plain none = Ends-bind (apply_option-Spares s i o none is_text_nil w) λ s' g. gives g

  -- Behind a name that is a text, the value in a text is one.
  attached-IsText :
      (body : List ℕ) (x : Option (List ℕ))
      → is_text body ≡ true
      → is_text (split_value body).0 ≡ true
      → (split_value body).1 ≡ x
      → IsText x
  attached-IsText body none h k e = tt
  attached-IsText body (some v) h k e =
      is_text-cut (61 ∷ []) v is_equals
        (is_text-cut (split_value body).0 (61 ∷ v) k (rw (split_value-append body v e) at h))

  long_option-Spares :
      (s : State F) (body : List ℕ) (next : Option (List ℕ))
      → is_text body ≡ true
      → IsText next
      → Sound s
      → Spares Kept (long_option strtof strtod zero_real s body next)
  unfolding long_option
  long_option-Spares s body next h k w =
      elim (Option-cases (find_long s.opts (split_value body).0)) [
        | inl e ↦ rw (long_option, e) (stops tt)
        | inr ((i, o), e) ↦
            let named = find_long-Named i (split_value body).0 o s.opts w.0 e in
            rw (long_option, e)
              (use_long-Spares s i o (split_value body).1 next
                (attached-IsText body _ h named.1 refl) k w)
      ]

  short_loop-Spares :
      (s : State F) (body : List ℕ) (next : Option (List ℕ))
      → is_text body ≡ true
      → IsText next
      → Sound s
      → Spares Kept (short_loop strtof strtod zero_real s body next)
  unfolding short_loop
  short_loop-Spares s [] next h k w = gives w
  short_loop-Spares s (c ∷ body) next h k w = elim (Option-cases (find_short 0 s.opts c)) [
    | inl e ↦ rw (short_loop, e) (stops tt)
    | inr ((i, o), e) ↦
        let named = find_short-Named 0 c i o s.opts w.0 e in
        let rest : is_text body ≡ true = is_text-cut (c ∷ []) body named.1 h in
        elim (Bool-cases (opt_takes_value o.action)) [
          | inl t ↦
              rw (short_loop, e, t)
                (valued-Spares s i o (rest_value body) next (rest-IsText body rest) k w)
          | inr t ↦
              rw (short_loop, e, t)
                (Ends-bind (apply_option-Spares s i o none is_text_nil w)
                  λ s' g. short_loop-Spares s' body next rest k g)
        ]
  ]
    where
      rest-IsText : (body : List ℕ) → is_text body ≡ true → IsText (rest_value body)
      rest-IsText [] h = tt
      rest-IsText (c ∷ body) h = h

module _ {ℓ} {F : Type ℓ} (strtof strtod : List ℕ → F × ℕ × Bool) (zero_real : F)
    (wanted : Bool) where
  abbrev Stepped : State F × Bool × Bool → Type 0
  Stepped r = Sound r.0

  push_positional-Spares :
      (s : State F) (arg : List ℕ)
      → is_text arg ≡ true
      → Sound s
      → Spares Sound (push_positional wanted s arg)
  unfolding push_positional
  push_positional-Spares s arg h w = Ends-if (not wanted) (gives w) (rw h (gives w))

  step-Spares :
      (s : State F) (no_more : Bool) (arg : List ℕ) (next : Option (List ℕ))
      → is_text arg ≡ true
      → IsText next
      → Sound s
      → Spares Stepped (step strtof strtod zero_real wanted s no_more arg next)
  unfolding step
  step-Spares s no_more arg next h k w = by_kind (kind no_more arg) (kind-Cut no_more arg h)
    where
      by_kind :
          (q : Kind)
          → Cut q
          → Spares Stepped (elim q [
            | dashes ↦ done (s, true, false)
            | long_form body ↦
                long_option strtof strtod zero_real s body next >>= λ r. done (r.0, no_more, r.1)
            | short_form body ↦
                short_loop strtof strtod zero_real s body next >>= λ r. done (r.0, no_more, r.1)
            | operand ↦ push_positional wanted s arg >>= λ s'. done (s', no_more, false)
          ])
      by_kind dashes c = gives w
      by_kind (long_form body) c =
          Ends-bind (long_option-Spares strtof strtod zero_real s body next c k w) λ r g. gives g
      by_kind (short_form body) c =
          Ends-bind (short_loop-Spares strtof strtod zero_real s body next c k w) λ r g. gives g
      by_kind operand c = Ends-bind (push_positional-Spares s arg h w) λ s' g. gives g

  pub walk-Spares :
      (args : List (List ℕ)) (s : State F) (no_more : Bool)
      → All (λ a. is_text a ≡ true) args
      → Sound s
      → Spares Sound (walk strtof strtod zero_real wanted s no_more args)
  unfolding walk
  walk-Spares [] s no_more h w = gives w
  walk-Spares (arg ∷ []) s no_more (h, hs) w =
      Ends-bind (step-Spares s no_more arg none h tt w) λ r g. gives g
  walk-Spares (arg ∷ v ∷ args) s no_more (h, (k, hs)) w =
      let skipped = walk-Spares args in
      let next = walk-Spares (v ∷ args) in
      Ends-bind (step-Spares s no_more arg (some v) h k w)
        λ (t, more, taken) g. on taken t more (skipped t more hs g) (next t more (k, hs) g)
    where
      on :
          (taken : Bool) (t : State F) (more : Bool)
          → Spares Sound (walk strtof strtod zero_real wanted t more args)
          → Spares Sound (walk strtof strtod zero_real wanted t more (v ∷ args))
          → Spares Sound (elim taken [
            | true ↦ walk strtof strtod zero_real wanted t more args
            | false ↦ walk strtof strtod zero_real wanted t more (v ∷ args)
          ])
      on true t more a b = a
      on false t more a b = b
