-- ===== src/Args/Accepted.antt =====
-- ucb_arg_parser_parse of src/ucb/argparse.c with options that ucb_arg_parser_add_options has taken,
-- from its defaults to its last test.
use ucb.Common.{
  ℕ, ◌≡◌, ◌≢◌, refl, inl, inr, Bool, true, false, not, ◌&&◌, Option, none, some, List, [], ◌∷◌,
  ◌++◌, ◌==◌, All, All-snoc, Bool-cases, arith,
}
use ucb.Common.Outcome.{Outcome, ok, fault, blocked, ◌>>=◌, verify-inv}
use ucb.Utf8.{check_at, validate_loop, validate}
use ucb.Envmap.Environ.{is_text}
use ucb.Args.{
  Opt, Action, aborted, store, store_true, store_false, count, append, help, version, Store, flag,
  number, done, failed, write, texts, text_or_empty, converted_default, store_default, flag_default,
  init_count, init_default, is_str,
}
use ucb.Args.Declare.{Desc, names_ok, copies_ok, opt_of, add_impl, add, add_options}
use ucb.Args.Walk.{init_all, check_required, arguments, parse}
use ucb.Args.Print.{help_ok, prints_help, prints_version}
use ucb.Args.Texts.{Named}
use ucb.Args.Frame.{gives, stops, Ends-bind, Ends-if}
use ucb.Args.Values.{
  Spares, Spares-not_aborted, Any, is_text_nil, stored_as-Spares, convert_store-Spares,
}
use ucb.Args.Spared.{walk-Spares}

is_text_zero : is_text (0 ∷ []) ≡ true
unfolding is_text validate validate_loop check_at
is_text_zero = refl

-- An option whose texts have been verified to be UTF-8.
record Copied (o : Opt) : Type 0 where
  short : is_text (o.short_name ∷ []) ≡ true
  long : is_text o.long_name ≡ true
  default : is_text (text_or_empty o.def) ≡ true

-- What is copied from a descriptor has been verified to be UTF-8.
opt_of-Copied : (d : Desc) → copies_ok d ≡ true → Copied (opt_of d)
unfolding copies_ok opt_of
opt_of-Copied d h = record {
  short = elim (Bool-cases (d.short_name == 0)) [
    | inl e ↦ let zero_name : d.short_name ≡ 0 = ground arith in rw zero_name is_text_zero
    | inr e ↦ ground arith
  ];
  long = ground arith;
  default = ground arith;
}

add-Copied :
    (mem_ok : Bool) (opts : List Opt) (d : Desc) (opts' : List Opt)
    → All Copied opts
    → add mem_ok opts d ≡ ok (true, opts')
    → All Copied opts'
unfolding add add_impl
add-Copied mem_ok opts d opts' h e =
    let (names, e1) = verify-inv (names_ok opts d) _ e in
    let (_, e2) = verify-inv _ _ e1 in let (_, e3) = verify-inv _ _ e2 in by_memory mem_ok e3
  where
    by_memory : (mem_ok : Bool) → add_impl mem_ok opts d ≡ ok (true, opts') → All Copied opts'
    by_memory false f = absurd cc
    by_memory true f =
        let (copied, g) = verify-inv (copies_ok d) _ f in
        let same : opts ++ (opt_of d ∷ []) ≡ opts' = cc in
        rw (← same) (All-snoc _ opts (opt_of d) h (opt_of-Copied d copied))

add_options-Copied :
    (mem_ok : Bool) (descs : List Desc) (opts opts' : List Opt)
    → All Copied opts
    → add_options mem_ok opts descs ≡ ok (true, opts')
    → All Copied opts'
unfolding add_options
add_options-Copied mem_ok [] opts opts' h e = let same : opts ≡ opts' = cc in rw (← same) h
add_options-Copied mem_ok (d ∷ descs) opts opts' h e =
    by_add (add mem_ok opts d) (add_options-Copied mem_ok descs) refl e
  where
    by_add :
        (m : Outcome (Bool × List Opt))
        → ((l l' : List Opt)
            → All Copied l
            → add_options mem_ok l descs ≡ ok (true, l')
            → All Copied l')
        → add mem_ok opts d ≡ m
        → ◌>>=◌ {B = Bool × List Opt} m
            (λ r. elim r.0 [ false ↦ ok (false, r.1) | true ↦ add_options mem_ok r.1 descs ])
          ≡ ok (true, opts')
        → All Copied opts'
    by_add (ok (true, l)) ih f e = ih l opts' (add-Copied mem_ok opts d l h f) e
    by_add (ok (false, l)) ih f e = absurd cc
    by_add fault ih f e = absurd cc
    by_add Outcome.aborted ih f e = absurd cc
    by_add blocked ih f e = absurd cc

Copied-Named : (opts : List Opt) → All Copied opts → prints_help opts ≡ true → All Named opts
unfolding prints_help
Copied-Named [] h p = tt
Copied-Named (o ∷ opts) (h, hs) p = (
  record { short = h.short; long = h.long; default = h.default; helps = ground arith },
  Copied-Named opts hs (ground arith),
)

module _ {ℓ} {F : Type ℓ} (strtof strtod : List ℕ → F × ℕ × Bool) (zero_real : F) where
  store_default-Spares :
      (o : Opt) (d : Option (List ℕ)) (st : Store F)
      → is_text (text_or_empty d) ≡ true
      → Spares Any (store_default strtof strtod zero_real (record o { def = d }) st)
  unfolding store_default converted_default
  store_default-Spares o none st h = Ends-if (is_str o.type) (rw is_text_nil (gives tt)) (gives tt)
  store_default-Spares o (some d) st h =
      Ends-if (is_str o.type) (rw h (gives tt))
        (convert_store-Spares strtof strtod zero_real (record o { def = some d }) d _ h)

  flag_default-Spares :
      (o : Opt) (d : Option (List ℕ)) (b : Bool) (st : Store F)
      → Spares Any (flag_default strtof strtod zero_real (record o { def = d }) b st)
  unfolding flag_default
  flag_default-Spares o none b st = gives tt
  flag_default-Spares o (some d) b st = stored_as-Spares o flag st _ _

  init_default-Spares :
      (o : Opt) (st : Store F)
      → is_text (text_or_empty o.def) ≡ true
      → Spares Any (init_default strtof strtod zero_real o st)
  unfolding init_default init_count
  init_default-Spares o st h = by_action o.action
    where
      counted : (d : Option (List ℕ)) → Spares Any (init_count strtof strtod zero_real o d st)
      counted none = gives tt
      counted (some d) = stored_as-Spares o number st _ _

      by_action :
          (a : Action)
          → Spares Any (elim a [
            | store ↦ store_default strtof strtod zero_real o st
            | store_true ↦ flag_default strtof strtod zero_real o false st
            | store_false ↦ flag_default strtof strtod zero_real o true st
            | count ↦ init_count strtof strtod zero_real o o.def st
            | append ↦ done (write o.dest (texts []) st)
            | help ↦ done st
            | version ↦ done st
          ])
      by_action store = store_default-Spares o o.def st h
      by_action store_true = flag_default-Spares o o.def false st
      by_action store_false = flag_default-Spares o o.def true st
      by_action count = counted o.def
      by_action append = gives tt
      by_action help = gives tt
      by_action version = gives tt

  init_all-Spares :
      (opts : List Opt) (st : Store F)
      → All Named opts
      → Spares (λ r. All Named r.0) (init_all strtof strtod zero_real opts st)
  unfolding init_all help_ok
  init_all-Spares [] st h = gives tt
  init_all-Spares (o ∷ opts) st (h, hs) = Ends-bind (init_default-Spares o st h.default) λ st' _.
      Ends-bind (init_all-Spares opts st' hs) λ r g.
        gives (record { short = h.short; long = h.long; default = h.default; helps = h.helps }, g)

  check_required-Spares : (opts : List Opt) → Spares Any (check_required opts)
  unfolding check_required
  check_required-Spares [] = gives tt
  check_required-Spares (o ∷ opts) =
      Ends-if (o.required && not o.seen) (stops tt) (check_required-Spares opts)

  parse-Spares :
      (wanted : Bool) (version_text : List ℕ) (opts : List Opt) (st : Store F)
      (old argv : List (List ℕ))
      → All Named opts
      → prints_version version_text ≡ true
      → All (λ a. is_text a ≡ true) (arguments argv)
      → Spares Any (parse strtof strtod zero_real wanted version_text opts st old argv)
  unfolding parse
  parse-Spares wanted version_text opts st old argv h v k =
      Ends-bind (init_all-Spares opts st h) λ r g.
        Ends-bind (walk-Spares strtof strtod zero_real wanted (arguments argv) _ false k (g, v))
          λ s _. Ends-bind (check_required-Spares s.opts) λ _ _. gives tt

  -- With options that ucb_arg_parser_add_options has taken, of which each that is printed with its
  -- name for a metavar has a name in ASCII, with a version that has been set, and with arguments
  -- behind the name of the program that are UTF-8, parsing does not abort the program, the printing
  -- of help and version included, whatever else is wrong with the arguments.
  pub parse-add_options :
      (mem_ok wanted : Bool) (version_text : List ℕ) (descs : List Desc) (opts : List Opt)
      (st : Store F) (old argv : List (List ℕ))
      → add_options mem_ok [] descs ≡ ok (true, opts)
      → prints_help opts ≡ true
      → prints_version version_text ≡ true
      → All (λ a. is_text a ≡ true) (arguments argv)
      → parse strtof strtod zero_real wanted version_text opts st old argv ≢ failed aborted
  parse-add_options mem_ok wanted version_text descs opts st old argv h p v k =
      let copied = add_options-Copied mem_ok descs [] opts tt h in
      Spares-not_aborted
        (parse-Spares wanted version_text opts st old argv (Copied-Named opts copied p) v k)
