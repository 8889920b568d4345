-- ===== src/Args/Names.antt =====
-- Declared options are found under their names: src/ucb/argparse.c.
use ucb.Common.{ℕ, ◌≡◌, false, Option, none, some, List, ◌∷◌, ◌==◌, if◌then◌else◌, length}
use ucb.Path.Bytes.{str_equal}
use ucb.Args.{Opt, text_or_empty}
use ucb.Args.Parse.{find_short, find_long}
use ucb.Args.Declare.{Desc, opt_of}

-- The first that is there.
abbrev or_else : Option (ℕ × Opt) → Option (ℕ × Opt) → Option (ℕ × Opt)
or_else none b = b
or_else (some r) b = some r

-- An option is found under the names of its descriptor, and the others as before.
pub record Declared (opts : List Opt) (d : Desc) (opts' : List Opt) : Type 0 where
  pub by_short :
      (c : ℕ)
      → (c == 0) ≡ false
      → find_short 0 opts' c
        ≡ (if d.short_name == c then some (length opts, opt_of d) else find_short 0 opts c)
  pub by_long :
      (c : ℕ) (name : List ℕ)
      → find_long opts' (c ∷ name) ≡ (
          if str_equal (text_or_empty d.long_name) (c ∷ name)
          then some (length opts, opt_of d)
          else find_long opts (c ∷ name))
