-- ===== src/Args/Clusters.antt =====
-- Clusters of short options, arguments behind "--", and the spellings that
-- ucb_arg_parser_parse (src/ucb/argparse.c) takes for one another.
use ucb.Common.{
  ℕ, ◌≡◌, refl, sym, ap, ◌∙◌, Bool, true, false, ◌||◌, Option, none, some, List, [], ◌∷◌, ◌++◌,
  append-nil, append_assoc, ◌==◌, All,
}
use ucb.Envmap.Environ.{is_text}
use ucb.Args.Convert.{is_digit}
use ucb.Args.{Opt, Result, done, opt_takes_value}
use ucb.Args.Parse.{
  ◌>>=◌, State, find_short, find_long, apply_option, choose_value, rest_value, short_loop,
  push_positional,
}
use ucb.Args.Walk.{kind, operand, short_form, step, walk}
use ucb.Args.Forms.{
  bind_congr, bind_assoc, first, others, NoEq, walk_on, kept, walk-cons, walk-equals,
}

-- A letter that starts a cluster: no dash, and nothing a negative number starts with.
pub record IsLetter (c : ℕ) : Type 0 where
  pub no_dash : (c == 45) ≡ false
  pub no_number : (is_digit c || (c == 46)) ≡ false

kind-short : (c : ℕ) (s : List ℕ) → IsLetter c → kind false (45 ∷ c ∷ s) ≡ short_form (c ∷ s)
unfolding kind
kind-short c s h = rw (h.no_dash, h.no_number) refl

module _ {ℓ} {F : Type ℓ} (strtof strtod : List ℕ → F × ℕ × Bool) (zero_real : F)
    (wanted : Bool) where
  -- What is left of a cluster, and the walk behind it.
  abbrev cluster_on : List (List ℕ) → State F × Bool → Result (State F)
  cluster_on args r = walk strtof strtod zero_real wanted r.0 false (others r.1 args)

  walk-short :
      (s : State F) (c : ℕ) (body : List ℕ) (args : List (List ℕ))
      → IsLetter c
      → walk strtof strtod zero_real wanted s false ((45 ∷ c ∷ body) ∷ args)
        ≡ (short_loop strtof strtod zero_real s (c ∷ body) (first args) >>= cluster_on args)
  unfolding step short_loop
  walk-short s c body args h =
      walk-cons strtof strtod zero_real wanted s false (45 ∷ c ∷ body) args
      ∙ ap (λ m. m >>= walk_on strtof strtod zero_real wanted args)
          (step-short s c body (first args) h)
      ∙ bind_assoc (short_loop strtof strtod zero_real s (c ∷ body) (first args)) _ _
    where
      step-short :
          (s : State F) (c : ℕ) (body : List ℕ) (next : Option (List ℕ))
          → IsLetter c
          → step strtof strtod zero_real wanted s false (45 ∷ c ∷ body) next ≡ (
              short_loop strtof strtod zero_real s (c ∷ body) next
              >>= kept strtof strtod zero_real wanted)
      step-short s c body next h = rw (step, kind-short c body h) refl

  short_loop-flag :
      (s : State F) (c : ℕ) (body : List ℕ) (next : Option (List ℕ)) (i : ℕ) (o : Opt)
      → find_short 0 s.opts c ≡ some (i, o)
      → opt_takes_value o.action ≡ false
      → short_loop strtof strtod zero_real s (c ∷ body) next ≡ (
          apply_option strtof strtod zero_real s i o none >>= λ s'.
          short_loop strtof strtod zero_real s' body next)
  unfolding short_loop
  short_loop-flag s c body next i o found flag = rw (short_loop, found, flag) refl

  short_loop-value :
      (s : State F) (c : ℕ) (body : List ℕ) (next : Option (List ℕ)) (i : ℕ) (o : Opt) (v : List ℕ)
      (taken : Bool)
      → find_short 0 s.opts c ≡ some (i, o)
      → opt_takes_value o.action ≡ true
      → choose_value o (rest_value body) next ≡ done (v, taken)
      → short_loop strtof strtod zero_real s (c ∷ body) next
        ≡ (apply_option strtof strtod zero_real s i o (some v) >>= λ s'. done (s', taken))
  unfolding short_loop
  short_loop-value s c body next i o v taken found takes chosen =
      rw (short_loop, found, takes, chosen) refl

  -- "-cd" is "-c -d", for a flag c.
  walk-cluster :
      (s : State F) (c d : ℕ) (body : List ℕ) (i : ℕ) (o : Opt) (args : List (List ℕ))
      → IsLetter c
      → IsLetter d
      → find_short 0 s.opts c ≡ some (i, o)
      → opt_takes_value o.action ≡ false
      → walk strtof strtod zero_real wanted s false ((45 ∷ c ∷ d ∷ body) ∷ args)
        ≡ walk strtof strtod zero_real wanted s false ((45 ∷ c ∷ []) ∷ (45 ∷ d ∷ body) ∷ args)
  unfolding walk short_loop
  walk-cluster s c d body i o args h k found flag =
      walk-short s c (d ∷ body) args h
      ∙ ap (λ m. m >>= cluster_on args) (short_loop-flag s c (d ∷ body) (first args) i o found flag)
      ∙ bind_assoc (apply_option strtof strtod zero_real s i o none) _ _
      ∙ bind_congr (apply_option strtof strtod zero_real s i o none)
          (λ s'. sym (walk-short s' d body args k))
      ∙ sym (
          walk-short s c [] ((45 ∷ d ∷ body) ∷ args) h
          ∙ ap (λ m. m >>= cluster_on ((45 ∷ d ∷ body) ∷ args))
              (short_loop-flag s c [] (some (45 ∷ d ∷ body)) i o found flag)
          ∙ bind_assoc (apply_option strtof strtod zero_real s i o none) _ _)

  -- "-cvalue" is "-c value", for an option c that takes a value.
  walk-attached :
      (s : State F) (c x : ℕ) (v : List ℕ) (i : ℕ) (o : Opt) (args : List (List ℕ))
      → IsLetter c
      → find_short 0 s.opts c ≡ some (i, o)
      → opt_takes_value o.action ≡ true
      → walk strtof strtod zero_real wanted s false ((45 ∷ c ∷ x ∷ v) ∷ args)
        ≡ walk strtof strtod zero_real wanted s false ((45 ∷ c ∷ []) ∷ (x ∷ v) ∷ args)
  unfolding choose_value
  walk-attached s c x v i o args h found takes =
      walk-short s c (x ∷ v) args h
      ∙ ap (λ m. m >>= cluster_on args)
          (short_loop-value s c (x ∷ v) (first args) i o (x ∷ v) false found takes refl)
      ∙ bind_assoc (apply_option strtof strtod zero_real s i o (some (x ∷ v))) _ _
      ∙ sym (
          walk-short s c [] ((x ∷ v) ∷ args) h
          ∙ ap (λ m. m >>= cluster_on ((x ∷ v) ∷ args))
              (short_loop-value s c [] (some (x ∷ v)) i o (x ∷ v) true found takes refl)
          ∙ bind_assoc (apply_option strtof strtod zero_real s i o (some (x ∷ v))) _ _)

-- Two spellings of one command line, for the options that are declared.
pub data Spelled (opts : List Opt) : List (List ℕ) → List (List ℕ) → Type 0 where
  equals :
      {c : ℕ} {name v : List ℕ} {i : ℕ} {o : Opt} {args : List (List ℕ)}
      → NoEq (c ∷ name)
      → find_long opts (c ∷ name) ≡ some (i, o)
      → opt_takes_value o.action ≡ true
      → Spelled opts ((45 ∷ 45 ∷ c ∷ (name ++ (61 ∷ v))) ∷ args) ((45 ∷ 45 ∷ c ∷ name) ∷ v ∷ args)
  attached :
      {c x : ℕ} {v : List ℕ} {i : ℕ} {o : Opt} {args : List (List ℕ)}
      → IsLetter c
      → find_short 0 opts c ≡ some (i, o)
      → opt_takes_value o.action ≡ true
      → Spelled opts ((45 ∷ c ∷ x ∷ v) ∷ args) ((45 ∷ c ∷ []) ∷ (x ∷ v) ∷ args)
  cluster :
      {c d : ℕ} {body : List ℕ} {i : ℕ} {o : Opt} {args : List (List ℕ)}
      → IsLetter c
      → IsLetter d
      → find_short 0 opts c ≡ some (i, o)
      → opt_takes_value o.action ≡ false
      → Spelled opts ((45 ∷ c ∷ d ∷ body) ∷ args) ((45 ∷ c ∷ []) ∷ (45 ∷ d ∷ body) ∷ args)

kind_operand : (a : List ℕ) → kind true a ≡ operand
unfolding kind
kind_operand [] = refl
kind_operand (c ∷ []) = refl
kind_operand (c ∷ d ∷ a) = refl

module _ {ℓ} {F : Type ℓ} (strtof strtod : List ℕ → F × ℕ × Bool) (zero_real : F) where
  -- Before "--", the walk over the arguments does the same, whatever that is, for "--name=value" and
  -- "--name value", for "-cvalue" and "-c value", where the option takes a value, and for "-cd" and
  -- "-c -d", where c takes none and d is a letter that may start a cluster.
  pub walk-Spelled :
      (wanted : Bool) (s : State F) (args args' : List (List ℕ))
      → Spelled s.opts args args'
      → walk strtof strtod zero_real wanted s false args
        ≡ walk strtof strtod zero_real wanted s false args'
  walk-Spelled wanted s args args' (equals {c} {name} {v} {i} {o} {args = rest} h f t) =
      walk-equals strtof strtod zero_real wanted s c name v i o rest h f t
  walk-Spelled wanted s args args' (attached {c} {x} {v} {i} {o} {args = rest} h f t) =
      walk-attached strtof strtod zero_real wanted s c x v i o rest h f t
  walk-Spelled wanted s args args' (cluster {c} {d} {body} {i} {o} {args = rest} h k f t) =
      walk-cluster strtof strtod zero_real wanted s c d body i o rest h k f t

  step_operand :
      (s : State F) (a : List ℕ) (next : Option (List ℕ))
      → is_text a ≡ true
      → step strtof strtod zero_real true s true a next
        ≡ done (record s { positionals = s.positionals ++ (a ∷ []) }, true, false)
  unfolding step push_positional
  step_operand s a next h = rw (step, kind_operand a) (rw h refl)

  walk_operands :
      (s : State F) (args : List (List ℕ))
      → All (λ a. is_text a ≡ true) args
      → walk strtof strtod zero_real true s true args
        ≡ done (record s { positionals = s.positionals ++ args })
  unfolding walk
  walk_operands s [] h =
      ap (λ p. done (record s { positionals = p })) (sym (append-nil s.positionals))
  walk_operands s (a ∷ args) (h, hs) =
      walk-cons strtof strtod zero_real true s true a args
      ∙ ap (λ m. m >>= walk_on strtof strtod zero_real true args) (step_operand s a (first args) h)
      ∙ walk_operands (record s { positionals = s.positionals ++ (a ∷ []) }) args hs
      ∙ ap (λ p. done (record s { positionals = p })) (append_assoc s.positionals (a ∷ []) args)

  -- Behind "--" every argument that is UTF-8 is positional, whatever it starts with, and no option
  -- is applied.
  pub walk-dashes :
      (s : State F) (args : List (List ℕ))
      → All (λ a. is_text a ≡ true) args
      → walk strtof strtod zero_real true s false ((45 ∷ 45 ∷ []) ∷ args)
        ≡ done (record s { positionals = s.positionals ++ args })
  unfolding step kind
  walk-dashes s args h =
      walk-cons strtof strtod zero_real true s false (45 ∷ 45 ∷ []) args ∙ walk_operands s args h
