-- ===== src/Args/Options.antt =====
-- What one option of ucb_arg_parser_parse (src/ucb/argparse.c) can change when it succeeds.
use ucb.Common.{
  ℕ, ◌≡◌, refl, ◌∙◌, inl, inr, Bool, false, Option, none, some, List, [], ◌∷◌, ◌++◌, get_elem?,
  Bool-cases, Option-cases,
}
use ucb.Envmap.Environ.{is_text}
use ucb.Args.{
  Opt, ArgType, no_type, bool, str, int, uint, long, ulong, llong, ullong, size, float, double,
  Action, store, store_true, store_false, count, append, help, version, Value, flag, text, error,
  takes_no_argument, Store, write, Result, done, failed, opt_takes_value, convert_store,
}
use ucb.Args.Parse.{
  ◌>>=◌, State, find_short, find_long, split_value, value_of, check_choices, act, apply_option,
  choose_value, rest_value, use_long, long_option, short_loop,
}
use ucb.Args.Frame.{
  Gives, gives, stops, Ends-bind, Ends-if, Ends-map, find_long-at, find_short-at, Wrote,
  write-Wrote, stored_as-Wrote, Same, Same-self, see-Same, Same-trans, Foreign, Same-Foreign,
  Foreign-at,
}

-- The arguments of one list are among those of another, in the same order.
pub data Within : List (List ℕ) → List (List ℕ) → Type 0 where
  nothing : {l : List (List ℕ)} → Within [] l
  skip : {x : List ℕ} {k l : List (List ℕ)} → Within k l → Within k (x ∷ l)
  keep : {x : List ℕ} {k l : List (List ℕ)} → Within k l → Within (x ∷ k) (x ∷ l)

pub empty : {x : List ℕ} {l : List (List ℕ)} → Within (x ∷ l) [] → ⊥
empty w = from [] w refl
  where
    from : {x : List ℕ} {l : List (List ℕ)} (k : List (List ℕ)) → Within (x ∷ l) k → k ≡ [] → ⊥
    from k (skip w) e = absurd cc
    from k (keep w) e = absurd cc

module _ {ℓ} {F : Type ℓ} where
  -- The options keep all but whether they have been seen, and stay seen; no other address than
  -- theirs is written to.
  pub record Grown (s s' : State F) : Type ℓ where
    pub same : Same s.opts s'.opts
    pub frame : (d : ℕ) → Foreign d s.opts → s'.dests d ≡ s.dests d

  -- The positional arguments gain some of these.
  pub record Walked (args : List (List ℕ)) (s s' : State F) : Type ℓ where
    pub grown : Grown s s'
    pub gained : List (List ℕ)
    pub among : Within gained args
    pub positionals : s'.positionals ≡ s.positionals ++ gained

  pub later :
      (v : List ℕ) (args : List (List ℕ)) (s t : State F) → Walked args s t → Walked (v ∷ args) s t
  later v args s t h = record {
    grown = h.grown;
    gained = h.gained;
    among = skip h.among;
    positionals = h.positionals;
  }

  pub Grown_self : (s : State F) → Grown s s
  Grown_self s = record { same = Same-self s.opts; frame = λ d h. refl }

  pub Grown_trans : (s t u : State F) → Grown s t → Grown t u → Grown s u
  Grown_trans s t u g h = record {
    same = Same-trans s.opts t.opts u.opts g.same h.same;
    frame = λ d k. h.frame d (Same-Foreign d s.opts t.opts g.same k) ∙ g.frame d k;
  }

  -- An option form adds no positional argument.
  abbrev pub Optioned : State F → State F → Type ℓ
  Optioned s t = Grown s t × (t.positionals ≡ s.positionals)

  Optioned-trans : (s t u : State F) → Optioned s t → Optioned t u → Optioned s u
  Optioned-trans s t u (g, e) (h, f) = (Grown_trans s t u g h, f ∙ e)

module _ {ℓ} {F : Type ℓ} (strtof strtod : List ℕ → F × ℕ × Bool) (zero_real : F) where
  pub convert_store-Wrote :
      (o : Opt) (v : List ℕ) (st : Store F)
      → Gives (Wrote o.dest st) (convert_store strtof strtod zero_real o v st)
  unfolding convert_store
  convert_store-Wrote o v st = by_type o v st o.type
    where
      by_type :
          (o : Opt) (v : List ℕ) (st : Store F) (t : ArgType)
          → Gives
              (Wrote o.dest st)
              (convert_store strtof strtod zero_real (record o { type = t }) v st)
      by_type o v st no_type = stops tt
      by_type o v st bool = stored_as-Wrote (record o { type = bool }) flag st _
      by_type o v st str = elim (Bool-cases (is_text v)) [
        | inl h ↦ rw h (gives (write-Wrote o.dest (text v) st))
        | inr h ↦ rw h (stops tt)
      ]
      by_type o v st int = stored_as-Wrote (record o { type = int }) _ st _
      by_type o v st uint = stored_as-Wrote (record o { type = uint }) _ st _
      by_type o v st long = stored_as-Wrote (record o { type = long }) _ st _
      by_type o v st ulong = stored_as-Wrote (record o { type = ulong }) _ st _
      by_type o v st llong = stored_as-Wrote (record o { type = llong }) _ st _
      by_type o v st ullong = stored_as-Wrote (record o { type = ullong }) _ st _
      by_type o v st size = stored_as-Wrote (record o { type = size }) _ st _
      by_type o v st float = stored_as-Wrote (record o { type = float }) _ st _
      by_type o v st double = stored_as-Wrote (record o { type = double }) _ st _

  -- A write of what a call returns.
  Wrote-bind :
      (d : ℕ) (st : Store F) (m : Result (Value F))
      → Gives (Wrote d st) (m >>= λ x. done (write d x st))
  Wrote-bind d st (done x) = gives (write-Wrote d x st)
  Wrote-bind d st (failed e) = stops tt

  act-Wrote :
      (opts : List Opt) (version_text : List ℕ) (o : Opt) (value : Option (List ℕ)) (st : Store F)
      → Gives (Wrote o.dest st) (act strtof strtod zero_real opts version_text o value st)
  unfolding act
  act-Wrote opts version_text o value st = by_action o st value o.action
    where
      by_action :
          (o : Opt) (st : Store F) (value : Option (List ℕ)) (a : Action)
          → Gives
              (Wrote o.dest st)
              (act strtof strtod zero_real opts version_text (record o { action = a }) value st)
      by_action o st value store =
          Ends-if (check_choices (record o { action = store }) (value_of value))
            (convert_store-Wrote (record o { action = store }) (value_of value) st) (stops tt)
      by_action o st value append =
          Ends-if (check_choices (record o { action = append }) (value_of value))
            (Wrote-bind o.dest st _) (stops tt)
      by_action o st value store_true = gives (write-Wrote o.dest _ st)
      by_action o st value store_false = gives (write-Wrote o.dest _ st)
      by_action o st value count = Wrote-bind o.dest st _
      by_action o st value help = stops tt
      by_action o st value version = stops tt

  apply_option-Optioned :
      (s : State F) (i : ℕ) (o : Opt) (value : Option (List ℕ))
      → get_elem? s.opts i ≡ some o
      → Gives (Optioned s) (apply_option strtof strtod zero_real s i o value)
  unfolding apply_option
  apply_option-Optioned s i o value at =
      Ends-bind (act-Wrote s.opts s.version_text o value s.dests) λ st w. gives (
        record { same = see-Same i s.opts; frame = λ d h. w d (Foreign-at d s.opts i o h at) },
        refl,
      )

  -- One form of an option: the state that is left, with a note.
  abbrev pub Left : State F → State F × Bool → Type ℓ
  Left s r = Optioned s r.0

  valued-Left :
      (s : State F) (i : ℕ) (o : Opt) (c : Result (List ℕ × Bool))
      → get_elem? s.opts i ≡ some o
      → Gives (Left s) (
          c >>= λ (v, taken).
          apply_option strtof strtod zero_real s i o (some v) >>= λ s'. done (s', taken))
  valued-Left s i o (failed e) at = stops tt
  valued-Left s i o (done (v, taken)) at =
      Ends-bind (apply_option-Optioned s i o (some v) at) λ s' h. gives h

  use_long-Left :
      (s : State F) (i : ℕ) (o : Opt) (attached next : Option (List ℕ))
      → get_elem? s.opts i ≡ some o
      → Gives (Left s) (use_long strtof strtod zero_real s (i, o) attached next)
  unfolding use_long
  use_long-Left s i o attached next at =
      Ends-if (opt_takes_value o.action) (valued-Left s i o (choose_value o attached next) at)
        (plain attached)
    where
      plain :
          (attached : Option (List ℕ))
          → Gives (Left s) (elim attached [
            | some v ↦ failed (error (takes_no_argument o.canon))
            | none ↦ apply_option strtof strtod zero_real s i o none >>= λ s'. done (s', false)
          ])
      plain (some v) = stops tt
      plain none = Ends-bind (apply_option-Optioned s i o none at) λ s' h. gives h

  pub long_option-Left :
      (s : State F) (body : List ℕ) (next : Option (List ℕ))
      → Gives (Left s) (long_option strtof strtod zero_real s body next)
  unfolding long_option
  long_option-Left s body next =
      let (name, attached) = split_value body in
      elim (Option-cases (find_long s.opts (split_value body).0)) [
        | inl e ↦ rw (long_option, e) (stops tt)
        | inr ((i, o), e) ↦
            rw (long_option, e)
              (use_long-Left s i o (split_value body).1 next (find_long-at s.opts _ (i, o) e))
      ]

  pub short_loop-Left :
      (s : State F) (body : List ℕ) (next : Option (List ℕ))
      → Gives (Left s) (short_loop strtof strtod zero_real s body next)
  unfolding short_loop
  short_loop-Left s [] next = gives (Grown_self s, refl)
  short_loop-Left s (c ∷ body) next = elim (Option-cases (find_short 0 s.opts c)) [
    | inl e ↦ rw (short_loop, e) (stops tt)
    | inr ((i, o), e) ↦
        let at = find_short-at s.opts c (i, o) e in
        elim (Bool-cases (opt_takes_value o.action)) [
          | inl t ↦
              rw (short_loop, e, t) (valued-Left s i o (choose_value o (rest_value body) next) at)
          | inr t ↦
              rw (short_loop, e, t)
                (Ends-bind (apply_option-Optioned s i o none at) λ s' h.
                  Ends-map (short_loop-Left s' body next) λ r k. Optioned-trans s s' r.0 h k)
        ]
  ]
