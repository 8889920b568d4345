-- ===== src/Args/Forms.antt =====
-- Spellings of options that ucb_arg_parser_parse (src/ucb/argparse.c) takes for one another, and
-- what it does behind "--".
use ucb.Common.{
  ℕ, ◌≡◌, refl, sym, ap, ◌∙◌, Bool, true, false, Option, none, some, List, [], ◌∷◌, ◌++◌, ◌==◌, All,
}
use ucb.Args.{Opt, Result, done, failed, opt_takes_value}
use ucb.Args.Parse.{
  ◌>>=◌, State, find_long, apply_option, split_value, choose_value, use_long, long_option,
}
use ucb.Args.Walk.{kind, step, walk}

pub bind_congr {ℓ κ} :
    {A : Type ℓ} {B : Type κ} (m : Result A) {f g : A → Result B}
    → ((a : A) → f a ≡ g a)
    → (m >>= f) ≡ (m >>= g)
bind_congr (done a) h = h a
bind_congr (failed e) h = refl

pub bind_assoc {ℓ κ μ} :
    {A : Type ℓ} {B : Type κ} {C : Type μ} (m : Result A) (f : A → Result B) (g : B → Result C)
    → (m >>= f >>= g) ≡ (m >>= λ a. f a >>= g)
bind_assoc (done a) f g = refl
bind_assoc (failed e) f g = refl

abbrev pub first : List (List ℕ) → Option (List ℕ)
first [] = none
first (v ∷ args) = some v

abbrev pub others : Bool → List (List ℕ) → List (List ℕ)
others false args = args
others true [] = []
others true (v ∷ args) = args

-- No '=' in the name.
abbrev pub NoEq : List ℕ → Type 0
NoEq s = All (λ c. (c == 61) ≡ false) s

split_value-append : (name v : List ℕ) → NoEq name → split_value (name ++ (61 ∷ v)) ≡ (name, some v)
unfolding split_value
split_value-append [] v h = refl
split_value-append (c ∷ name) v (h, hs) = rw (split_value, h, split_value-append name v hs) refl

split_value-NoEq : (name : List ℕ) → NoEq name → split_value name ≡ (name, none)
unfolding split_value
split_value-NoEq [] h = refl
split_value-NoEq (c ∷ name) (h, hs) = rw (split_value, h, split_value-NoEq name hs) refl

module _ {ℓ} {F : Type ℓ} (strtof strtod : List ℕ → F × ℕ × Bool) (zero_real : F)
    (wanted : Bool) where
  -- The rest of the walk, behind one argument.
  abbrev pub walk_on : List (List ℕ) → State F × Bool × Bool → Result (State F)
  walk_on args r = walk strtof strtod zero_real wanted r.0 r.1 (others r.2 args)

  pub walk-cons :
      (s : State F) (no_more : Bool) (arg : List ℕ) (args : List (List ℕ))
      → walk strtof strtod zero_real wanted s no_more (arg ∷ args)
        ≡ (step strtof strtod zero_real wanted s no_more arg (first args) >>= walk_on args)
  unfolding walk
  walk-cons s no_more arg [] =
      bind_congr (step strtof strtod zero_real wanted s no_more arg none) λ r. ends r.0 r.1 r.2
    where
      ends :
          (s : State F) (no_more taken : Bool)
          → done s ≡ walk strtof strtod zero_real wanted s no_more (others taken [])
      ends s no_more false = refl
      ends s no_more true = refl
  walk-cons s no_more arg (v ∷ args) =
      bind_congr (step strtof strtod zero_real wanted s no_more arg (some v)) λ r. goes r.0 r.1 r.2
    where
      goes :
          (s : State F) (no_more taken : Bool)
          → elim taken [
            | true ↦ walk strtof strtod zero_real wanted s no_more args
            | false ↦ walk strtof strtod zero_real wanted s no_more (v ∷ args)
          ]
            ≡ walk strtof strtod zero_real wanted s no_more (others taken (v ∷ args))
      goes s no_more false = refl
      goes s no_more true = refl

  -- An option form without "--" before it leaves that as it is.
  abbrev pub kept : State F × Bool → Result (State F × Bool × Bool)
  kept r = done (r.0, false, r.1)

  long_option-found :
      (s : State F) (body name : List ℕ) (attached next : Option (List ℕ)) (i : ℕ) (o : Opt)
      → split_value body ≡ (name, attached)
      → find_long s.opts name ≡ some (i, o)
      → long_option strtof strtod zero_real s body next
        ≡ use_long strtof strtod zero_real s (i, o) attached next
  unfolding long_option
  long_option-found s body name attached next i o e f = rw (long_option, e, f, e) refl

  step-long :
      (s : State F) (c : ℕ) (body : List ℕ) (next : Option (List ℕ))
      → step strtof strtod zero_real wanted s false (45 ∷ 45 ∷ c ∷ body) next
        ≡ (long_option strtof strtod zero_real s (c ∷ body) next >>= kept)
  unfolding step kind
  step-long s c body next = refl

  -- An option that takes a value, whose value is attached or the next argument.
  use_long-value :
      (s : State F) (i : ℕ) (o : Opt) (attached next : Option (List ℕ)) (v : List ℕ) (taken : Bool)
      → opt_takes_value o.action ≡ true
      → choose_value o attached next ≡ done (v, taken)
      → use_long strtof strtod zero_real s (i, o) attached next
        ≡ (apply_option strtof strtod zero_real s i o (some v) >>= λ s'. done (s', taken))
  unfolding use_long
  use_long-value s i o attached next v taken e f = rw (e, f) refl

  -- The walk at an option that takes a value: the option is applied, and the walk goes on.
  walk-value :
      (s : State F) (c : ℕ) (body name : List ℕ) (attached : Option (List ℕ)) (i : ℕ) (o : Opt)
      (v : List ℕ) (taken : Bool) (args : List (List ℕ))
      → split_value (c ∷ body) ≡ (name, attached)
      → find_long s.opts name ≡ some (i, o)
      → opt_takes_value o.action ≡ true
      → choose_value o attached (first args) ≡ done (v, taken)
      → walk strtof strtod zero_real wanted s false ((45 ∷ 45 ∷ c ∷ body) ∷ args) ≡ (
          apply_option strtof strtod zero_real s i o (some v) >>= λ s'.
          walk strtof strtod zero_real wanted s' false (others taken args))
  walk-value s c body name attached i o v taken args e f takes chosen =
      walk-cons s false (45 ∷ 45 ∷ c ∷ body) args
      ∙ ap (λ m. m >>= walk_on args)
          (step-long s c body (first args)
            ∙ ap (λ m. m >>= kept)
                (long_option-found s (c ∷ body) name attached (first args) i o e f
                  ∙ use_long-value s i o attached (first args) v taken takes chosen))
      ∙ bind_twice (apply_option strtof strtod zero_real s i o (some v)) taken args
    where
      bind_twice :
          (m : Result (State F)) (taken : Bool) (args : List (List ℕ))
          → (m >>= (λ s'. done (s', taken)) >>= kept >>= walk_on args)
            ≡ (m >>= λ s'. walk strtof strtod zero_real wanted s' false (others taken args))
      bind_twice (done s') taken args = refl
      bind_twice (failed e) taken args = refl

  -- "--name=value" is "--name value", for an option that takes a value.
  pub walk-equals :
      (s : State F) (c : ℕ) (name v : List ℕ) (i : ℕ) (o : Opt) (args : List (List ℕ))
      → NoEq (c ∷ name)
      → find_long s.opts (c ∷ name) ≡ some (i, o)
      → opt_takes_value o.action ≡ true
      → walk strtof strtod zero_real wanted s false ((45 ∷ 45 ∷ c ∷ (name ++ (61 ∷ v))) ∷ args)
        ≡ walk strtof strtod zero_real wanted s false ((45 ∷ 45 ∷ c ∷ name) ∷ v ∷ args)
  unfolding choose_value
  walk-equals s c name v i o args h found takes =
      walk-value s c (name ++ (61 ∷ v)) (c ∷ name) (some v) i o v false args
        (split_value-append (c ∷ name) v h) found takes refl
      ∙ sym (
          walk-value s c name (c ∷ name) none i o v true (v ∷ args) (split_value-NoEq (c ∷ name) h)
            found takes refl)
