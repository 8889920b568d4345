-- ===== src/Args/Walked.antt =====
-- What the walk of ucb_arg_parser_parse (src/ucb/argparse.c) can change when it succeeds.
use ucb.Common.{
  ℕ, refl, sym, ap, ◌∙◌, Bool, true, false, not, Option, none, some, List, [], ◌∷◌, ◌++◌,
  append-nil, append_assoc,
}
use ucb.Envmap.Environ.{is_text}
use ucb.Args.{Result, done}
use ucb.Args.Parse.{◌>>=◌, State, long_option, short_loop, push_positional}
use ucb.Args.Walk.{Kind, kind, operand, dashes, long_form, short_form, step, walk}
use ucb.Args.Frame.{Gives, gives, stops, Ends-bind, Ends-if, Ends-map, Same-self}
use ucb.Args.Options.{
  Within, nothing, skip, keep, empty, Walked, later, Grown_self, Grown_trans, Optioned, Left,
  long_option-Left, short_loop-Left,
}

module _ {ℓ} {F : Type ℓ} (strtof strtod : List ℕ → F × ℕ × Bool) (zero_real : F)
    (wanted : Bool) where
  -- What one argument leaves: it may itself be positional.
  abbrev Stepped : List ℕ → State F → State F × Bool × Bool → Type ℓ
  Stepped arg s r = Walked (arg ∷ []) s r.0

  Optioned-Walked : (arg : List ℕ) (s t : State F) → Optioned s t → Walked (arg ∷ []) s t
  Optioned-Walked arg s t (g, e) = record {
    grown = g;
    gained = [];
    among = nothing;
    positionals = e ∙ sym (append-nil s.positionals);
  }

  Left-Stepped :
      (arg : List ℕ) (s : State F) (no_more : Bool) (m : Result (State F × Bool))
      → Gives (Left strtof strtod zero_real s) m
      → Gives (Stepped arg s) (m >>= λ r. done (r.0, no_more, r.1))
  Left-Stepped arg s no_more m h = Ends-bind h λ r k. gives (Optioned-Walked arg s r.0 k)

  push_positional-Walked :
      (s : State F) (arg : List ℕ) → Gives (Walked (arg ∷ []) s) (push_positional wanted s arg)
  unfolding push_positional
  push_positional-Walked s arg =
      Ends-if (not wanted) (gives (Optioned-Walked arg s s (Grown_self s, refl))) (
        Ends-if (is_text arg)
          (gives (record {
            grown = record { same = Same-self s.opts; frame = λ d h. refl };
            gained = arg ∷ [];
            among = keep nothing;
            positionals = refl;
          }))
          (stops tt))

  step-Stepped :
      (s : State F) (no_more : Bool) (arg : List ℕ) (next : Option (List ℕ))
      → Gives (Stepped arg s) (step strtof strtod zero_real wanted s no_more arg next)
  unfolding step
  step-Stepped s no_more arg next = by_kind (kind no_more arg)
    where
      by_kind :
          (k : Kind)
          → Gives (Stepped arg s) (elim k [
            | dashes ↦ done (s, true, false)
            | long_form body ↦
                long_option strtof strtod zero_real s body next >>= λ r. done (r.0, no_more, r.1)
            | short_form body ↦
                short_loop strtof strtod zero_real s body next >>= λ r. done (r.0, no_more, r.1)
            | operand ↦ push_positional wanted s arg >>= λ s'. done (s', no_more, false)
          ])
      by_kind dashes = gives (Optioned-Walked arg s s (Grown_self s, refl))
      by_kind (long_form body) =
          Left-Stepped arg s no_more _ (long_option-Left strtof strtod zero_real s body next)
      by_kind (short_form body) =
          Left-Stepped arg s no_more _ (short_loop-Left strtof strtod zero_real s body next)
      by_kind operand = Ends-bind (push_positional-Walked s arg) λ s' h. gives h

  Walked-trans :
      (arg : List ℕ) (args : List (List ℕ)) (s t u : State F)
      → Walked (arg ∷ []) s t
      → Walked args t u
      → Walked (arg ∷ args) s u
  Walked-trans arg args s t u h k = record {
    grown = Grown_trans s t u h.grown k.grown;
    gained = h.gained ++ k.gained;
    among = join h.gained h.among;
    positionals =
        k.positionals
        ∙ ap (λ l. l ++ k.gained) h.positionals
        ∙ append_assoc s.positionals h.gained k.gained;
  }
    where
      join : (g : List (List ℕ)) → Within g (arg ∷ []) → Within (g ++ k.gained) (arg ∷ args)
      join [] w = skip k.among
      join (x ∷ []) (keep w) = keep k.among
      join (x ∷ y ∷ g) (keep w) = absurd (empty w)
      join (x ∷ g) (skip w) = absurd (empty w)

  pub walk-Walked :
      (args : List (List ℕ)) (s : State F) (no_more : Bool)
      → Gives (Walked args s) (walk strtof strtod zero_real wanted s no_more args)
  unfolding walk
  walk-Walked [] s no_more = gives (record {
    grown = Grown_self s;
    gained = [];
    among = nothing;
    positionals = sym (append-nil s.positionals);
  })
  walk-Walked (arg ∷ []) s no_more = Ends-bind (step-Stepped s no_more arg none) λ r h. gives h
  walk-Walked (arg ∷ v ∷ args) s no_more =
      let skipped = walk-Walked args in
      let next = walk-Walked (v ∷ args) in
      Ends-bind (step-Stepped s no_more arg (some v))
        λ (t, more, taken) h. on taken t more h (skipped t more) (next t more)
    where
      on :
          (taken : Bool) (t : State F) (more : Bool)
          → Walked (arg ∷ []) s t
          → Gives (Walked args t) (walk strtof strtod zero_real wanted t more args)
          → Gives (Walked (v ∷ args) t) (walk strtof strtod zero_real wanted t more (v ∷ args))
          → Gives (Walked (arg ∷ v ∷ args) s) (elim taken [
            | true ↦ walk strtof strtod zero_real wanted t more args
            | false ↦ walk strtof strtod zero_real wanted t more (v ∷ args)
          ])
      on true t more h a b =
          Ends-map a λ u k. Walked-trans arg (v ∷ args) s t u h (later v args t u k)
      on false t more h a b = Ends-map b λ u k. Walked-trans arg (v ∷ args) s t u h k
