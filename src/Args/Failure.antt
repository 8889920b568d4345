-- ===== src/Args/Failure.antt =====
-- Arguments that are not UTF-8: src/ucb/argparse.c.
use ucb.Common.{◌≡◌, refl, ap, ◌∙◌, Bool, true, false, Option, List, ◌∷◌, ℕ}
use ucb.Envmap.Environ.{is_text}
use ucb.Args.{aborted, failed}
use ucb.Args.Parse.{◌>>=◌, State, push_positional}
use ucb.Args.Walk.{kind, operand, step, walk}
use ucb.Args.Forms.{first, walk_on, walk-cons}

module _ {ℓ} {F : Type ℓ} (strtof strtod : List ℕ → F × ℕ × Bool) (zero_real : F) where
  step-not_text :
      (s : State F) (no_more : Bool) (arg : List ℕ) (next : Option (List ℕ))
      → kind no_more arg ≡ operand
      → is_text arg ≡ false
      → step strtof strtod zero_real true s no_more arg next ≡ failed aborted
  unfolding step push_positional
  step-not_text s no_more arg next e h = rw (step, e) (rw h refl)

  -- An argument that would be positional and is not UTF-8 aborts the program, where the caller wants
  -- positional arguments.
  walk-not_text :
      (s : State F) (no_more : Bool) (arg : List ℕ) (args : List (List ℕ))
      → kind no_more arg ≡ operand
      → is_text arg ≡ false
      → walk strtof strtod zero_real true s no_more (arg ∷ args) ≡ failed aborted
  walk-not_text s no_more arg args e h =
      walk-cons strtof strtod zero_real true s no_more arg args
      ∙ ap (λ m. m >>= walk_on strtof strtod zero_real true args)
          (step-not_text s no_more arg (first args) e h)
