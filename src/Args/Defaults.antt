-- ===== src/Args/Defaults.antt =====
-- What init_default of src/ucb/argparse.c leaves of the options and their destinations.
use ucb.Common.{
  ℕ, ◌≡◌, refl, ap, ◌∙◌, inl, inr, Bool, true, false, Option, none, some, List, [], ◌∷◌, map,
  Option-cases,
}
use ucb.Envmap.Environ.{is_text}
use ucb.Args.{
  Opt, Action, store, store_true, store_false, count, append, help, version, Value, flag, Store,
  write, done, converted_default, store_default, flag_default, init_count, init_default, zero_dest,
  zero_value, is_str, number, texts, text_or_empty,
}
use ucb.Args.Walk.{init_all}
use ucb.Args.Frame.{
  Gives, gives, stops, Ends-bind, Ends-if, Ends-map, Wrote, write-Wrote, stored_as-Wrote, Foreign,
  unseen,
}
use ucb.Args.Options.{convert_store-Wrote}

module _ {ℓ} {F : Type ℓ} (strtof strtod : List ℕ → F × ℕ × Bool) (zero_real : F) where
  Wrote-trans :
      (d : ℕ) (st st' st'' : Store F) → Wrote d st st' → Wrote d st' st'' → Wrote d st st''
  Wrote-trans d st st' st'' a b k h = b k h ∙ a k h

  zero_dest-Wrote :
      (o : Opt) (st : Store F) → Wrote o.dest st (zero_dest strtof strtod zero_real o st)
  unfolding zero_dest
  zero_dest-Wrote o st = by_value (zero_value strtof strtod zero_real o.type)
    where
      by_value :
          (x : Option (Value F))
          → Wrote o.dest st (elim x [ none ↦ st | some x ↦ write o.dest x st ])
      by_value none k h = refl
      by_value (some x) k h = write-Wrote o.dest x st k h

  converted_default-Wrote :
      (o : Opt) (d : Option (List ℕ)) (st : Store F)
      → Gives (Wrote o.dest st) (converted_default strtof strtod zero_real o d st)
  unfolding converted_default
  converted_default-Wrote o none st = gives (zero_dest-Wrote o st)
  converted_default-Wrote o (some v) st =
      Ends-map
        (convert_store-Wrote strtof strtod zero_real o v (zero_dest strtof strtod zero_real o st))
        λ st' w. Wrote-trans o.dest st _ st' (zero_dest-Wrote o st) w

  store_default-Wrote :
      (o : Opt) (st : Store F)
      → Gives (Wrote o.dest st) (store_default strtof strtod zero_real o st)
  unfolding store_default
  store_default-Wrote o st =
      Ends-if (is_str o.type)
        (Ends-if (is_text (text_or_empty o.def)) (gives (write-Wrote o.dest _ st)) (stops tt))
        (converted_default-Wrote o o.def st)

  flag_default-Wrote :
      (o : Opt) (b : Bool) (st : Store F)
      → Gives (Wrote o.dest st) (flag_default strtof strtod zero_real o b st)
  unfolding flag_default
  flag_default-Wrote o b st = elim (Option-cases o.def) [
    | inl e ↦ rw e (gives (write-Wrote o.dest _ st))
    | inr (d, e) ↦ rw e (stored_as-Wrote o flag st _)
  ]

  init_default-Wrote :
      (o : Opt) (st : Store F) → Gives (Wrote o.dest st) (init_default strtof strtod zero_real o st)
  unfolding init_default
  init_default-Wrote o st = by_action o.action
    where
      counted :
          (d : Option (List ℕ))
          → Gives (Wrote o.dest st) (init_count strtof strtod zero_real o d st)
      counted none = gives (write-Wrote o.dest _ st)
      counted (some d) = stored_as-Wrote o number st _

      by_action :
          (a : Action)
          → Gives (Wrote o.dest st) (elim a [
            | store ↦ store_default strtof strtod zero_real o st
            | store_true ↦ flag_default strtof strtod zero_real o false st
            | store_false ↦ flag_default strtof strtod zero_real o true st
            | count ↦ init_count strtof strtod zero_real o o.def st
            | append ↦ done (write o.dest (texts []) st)
            | help ↦ done st
            | version ↦ done st
          ])
      by_action store = store_default-Wrote o st
      by_action store_true = flag_default-Wrote o false st
      by_action store_false = flag_default-Wrote o true st
      by_action count = counted o.def
      by_action append = gives (write-Wrote o.dest _ st)
      by_action help = gives (λ k h. refl)
      by_action version = gives (λ k h. refl)

  -- After the defaults: the options are those that were declared, and none has been seen.
  pub record Begun (opts : List Opt) (st : Store F) (r : List Opt × Store F) : Type ℓ where
    pub fresh : r.0 ≡ map unseen opts
    pub frame : (d : ℕ) → Foreign d opts → r.1 d ≡ st d

  pub init_all-Begun :
      (opts : List Opt) (st : Store F)
      → Gives (Begun opts st) (init_all strtof strtod zero_real opts st)
  unfolding init_all
  init_all-Begun [] st = gives (record { fresh = refl; frame = λ d h. refl })
  init_all-Begun (o ∷ opts) st = Ends-bind (init_default-Wrote o st) λ st' w.
      Ends-bind (init_all-Begun opts st') λ r b. gives (record {
        fresh = ap (◌∷◌ (record o { seen = false })) b.fresh;
        frame = λ d (h, hs). b.frame d hs ∙ w d h;
      })
