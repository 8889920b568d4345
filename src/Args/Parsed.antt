-- ===== src/Args/Parsed.antt =====
-- What ucb_arg_parser_parse (src/ucb/argparse.c) has done when it returns UCB_ARG_OK.
use ucb.Common.{
  ℕ, ◌≡◌, ◌∙◌, inl, inr, Bool, true, false, not, ◌&&◌, List, [], ◌∷◌, ◌++◌, map, All, arith,
  Bool-cases,
}
use ucb.Args.{Opt, Store}
use ucb.Args.Parse.{State}
use ucb.Args.Walk.{check_required, arguments, parse}
use ucb.Args.Frame.{Gives, gives, stops, Ends-bind, Ends-map, Same, Foreign, unseen}
use ucb.Args.Options.{Within}
use ucb.Args.Walked.{walk-Walked}
use ucb.Args.Defaults.{init_all-Begun}

-- A required option has been seen.
abbrev Met : List Opt → Type 0
Met l = All (λ o. (o.required ≡ true) → o.seen ≡ true) l

check_required-Met : (l : List Opt) → Gives (λ _. Met l) (check_required l)
unfolding check_required
check_required-Met [] = gives tt
check_required-Met (o ∷ l) = elim (Bool-cases (o.required && not o.seen)) [
  | inl h ↦ rw h (stops tt)
  | inr h ↦ rw h (Ends-map (check_required-Met l) λ _ m. ((λ r. ground arith), m))
]

-- Foreign addresses do not depend on what has been seen.
Foreign-unseen : (d : ℕ) (l : List Opt) → Foreign d l → Foreign d (map unseen l)
Foreign-unseen d [] h = tt
Foreign-unseen d (o ∷ l) (h, hs) = (h, Foreign-unseen d l hs)

module _ {ℓ} {F : Type ℓ} where
  pub record Parsed (opts : List Opt) (st : Store F) (old argv : List (List ℕ)) (s : State F)
      : Type ℓ where
    pub options : Same (map unseen opts) s.opts
    pub required : Met s.opts
    pub frame : (d : ℕ) → Foreign d opts → s.dests d ≡ st d
    pub gained : List (List ℕ)
    pub among : Within gained (arguments argv)
    pub positionals : s.positionals ≡ old ++ gained

  -- When parsing succeeds, the options are those that were declared, but for the note that they have
  -- been seen, every required one has been seen, only destinations of options have been written, and
  -- the positional arguments have gained some of the arguments behind the program's name, in order.
  pub parse-Parsed :
      (strtof strtod : List ℕ → F × ℕ × Bool) (zero_real : F) (wanted : Bool)
      (version_text : List ℕ) (opts : List Opt) (st : Store F) (old argv : List (List ℕ))
      → Gives
          (Parsed opts st old argv)
          (parse strtof strtod zero_real wanted version_text opts st old argv)
  unfolding parse
  parse-Parsed strtof strtod zero_real wanted version_text opts st old argv =
      Ends-bind (init_all-Begun strtof strtod zero_real opts st) λ r b.
        Ends-bind
          (walk-Walked strtof strtod zero_real wanted (arguments argv)
            (record { opts = r.0; version_text = version_text; dests = r.1; positionals = old })
            false)
          λ s w. Ends-bind (check_required-Met s.opts) λ _ met. gives (record {
            options = rw (← b.fresh) w.grown.same;
            required = met;
            frame = λ d h. w.grown.frame d (rw b.fresh (Foreign-unseen d opts h)) ∙ b.frame d h;
            gained = w.gained;
            among = w.among;
            positionals = w.positionals;
          })
