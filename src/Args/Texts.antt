-- ===== src/Args/Texts.antt =====
-- Which texts src/ucb/argparse.c cuts out of arguments that are UTF-8.
use ucb.Common.{
  ℕ, zero, suc, ◌+◌, ◌≡◌, refl, ap, inl, inr, Bool, true, false, not, ◌||◌, none, some, List, [],
  ◌∷◌, ◌++◌, ◌==◌, if◌then◌else◌, length, All, Bool-cases, arith,
}
use ucb.Utf8.{Verdict, valid, truncated, invalid, out_of_fuel, check_at, validate_loop, validate}
use ucb.Utf8.Cut.{validate-cut}
use ucb.Envmap.Environ.{is_text}
use ucb.Path.Bytes.{str_equal, str_equal-eq}
use ucb.Args.{Opt, text_or_empty}
use ucb.Args.Print.{help_ok, prints_help}
use ucb.Args.Parse.{find_short, scan_long, find_long, split_value, see}
use ucb.Args.Walk.{
  Kind, kind, dashes, operand, long_form, short_form, is_negative_number, long_or_dashes,
}

is_text_valid : (s : List ℕ) → is_text s ≡ true → validate s ≡ valid
unfolding is_text
is_text_valid s h = by_verdict (validate s) h
  where
    by_verdict : (v : Verdict) → (elim v [ valid ↦ true | _ ↦ false ]) ≡ true → v ≡ valid
    by_verdict valid h = refl
    by_verdict (truncated p n g) h = absurd cc
    by_verdict (invalid p) h = absurd cc
    by_verdict out_of_fuel h = absurd cc

-- What stands behind a text in a text is one.
pub is_text-cut : (s t : List ℕ) → is_text s ≡ true → is_text (s ++ t) ≡ true → is_text t ≡ true
unfolding is_text
is_text-cut s t h k =
    rw (is_text, validate-cut s t (is_text_valid s h) (is_text_valid (s ++ t) k)) refl

-- An option whose names and default are UTF-8, and whose row of the help can be printed.
pub record Named (o : Opt) : Type 0 where
  pub short : is_text (o.short_name ∷ []) ≡ true
  pub long : is_text o.long_name ≡ true
  pub default : is_text (text_or_empty o.def) ≡ true
  pub helps : help_ok o ≡ true

pub find_short-Named :
    (i c j : ℕ) (o : Opt) (opts : List Opt)
    → All Named opts
    → find_short i opts c ≡ some (j, o)
    → Named o × (is_text (c ∷ []) ≡ true)
unfolding find_short
find_short-Named i c j o [] h e = absurd cc
find_short-Named i c j o (p ∷ opts) (h, hs) e = elim (Bool-cases (p.short_name == c)) [
  | inl t ↦
      let found : some (i, p) ≡ some (j, o) = rw (find_short, t) at e in
      let same : p ≡ o = ap (λ x. (elim x [ none ↦ p | some r ↦ r.1 ])) found in
      let key : p.short_name ≡ c = ground arith in (rw same at h, rw key at h.short)
  | inr t ↦ find_short-Named (i + 1) c j o opts hs (rw (find_short, t) at e)
]

scan_long-Named :
    (i j : ℕ) (name : List ℕ) (o : Opt) (opts : List Opt)
    → All Named opts
    → scan_long i opts name ≡ some (j, o)
    → Named o × (is_text name ≡ true)
unfolding scan_long
scan_long-Named i j name o [] h e = absurd cc
scan_long-Named i j name o (p ∷ opts) (h, hs) e = elim (Bool-cases (str_equal p.long_name name)) [
  | inl t ↦
      let found : some (i, p) ≡ some (j, o) = rw (scan_long, t) at e in
      let same : p ≡ o = ap (λ x. (elim x [ none ↦ p | some r ↦ r.1 ])) found in
      (rw same at h, rw (str_equal-eq p.long_name name t) at h.long)
  | inr t ↦ scan_long-Named (i + 1) j name o opts hs (rw (scan_long, t) at e)
]

pub find_long-Named :
    (j : ℕ) (name : List ℕ) (o : Opt) (opts : List Opt)
    → All Named opts
    → find_long opts name ≡ some (j, o)
    → Named o × (is_text name ≡ true)
unfolding find_long
find_long-Named j name o opts h e = elim (Bool-cases (length name == 0)) [
  | inl t ↦ absurd (ground arith)
  | inr t ↦ scan_long-Named 0 j name o opts h (rw t at e)
]

pub prints_help-Named : (opts : List Opt) → All Named opts → prints_help opts ≡ true
unfolding prints_help
prints_help-Named [] h = refl
prints_help-Named (o ∷ opts) (h, hs) = rw (h.helps, prints_help-Named opts hs) refl

pub see-Named : (i : ℕ) (opts : List Opt) → All Named opts → All Named (see i opts)
unfolding see help_ok
see-Named i [] h = tt
see-Named zero (o ∷ opts) (h, hs) =
    (record { short = h.short; long = h.long; default = h.default; helps = h.helps }, hs)
see-Named (suc i) (o ∷ opts) (h, hs) = (h, see-Named i opts hs)

-- The value is behind the '='.
pub split_value-append :
    (body v : List ℕ) → (split_value body).1 ≡ some v → body ≡ (split_value body).0 ++ (61 ∷ v)
unfolding split_value
split_value-append [] v e = absurd cc
split_value-append (c ∷ s) v e = elim (Bool-cases (c == 61)) [
  | inl t ↦ rw (split_value, t) (ground arith)
  | inr t ↦ rw (split_value, t) (ap (◌∷◌ c) (split_value-append s v (rw (split_value, t) at e)))
]

-- What the body of an option is, of an argument that is a text.
abbrev pub Cut : Kind → Type 0
Cut dashes = Unit
Cut operand = Unit
Cut (long_form body) = is_text body ≡ true
Cut (short_form body) = is_text body ≡ true

dashed : (c : ℕ) → (c == 45) ≡ true → is_text (c ∷ []) ≡ true
unfolding is_text validate validate_loop check_at
dashed c h = let e : c ≡ 45 = ground arith in rw e refl

Cut-if : (x : Bool) (k l : Kind) → ((x ≡ true) → Cut k) → Cut l → Cut (if x then k else l)
Cut-if true k l h g = h refl
Cut-if false k l h g = g

-- An argument that starts with a dash, by what stands behind it.
behind_dash :
    (b : ℕ) (s : List ℕ)
    → is_text (b ∷ s) ≡ true
    → Cut (
        if b == 45
        then long_or_dashes s
        else if is_negative_number b
        then operand
        else short_form (b ∷ s))
behind_dash b s h =
    Cut-if (b == 45) _ _ (λ e. long s (is_text-cut (b ∷ []) s (dashed b e) h))
      (Cut-if (is_negative_number b) operand (short_form (b ∷ s)) (λ e. tt) h)
  where
    long : (s : List ℕ) → is_text s ≡ true → Cut (long_or_dashes s)
    long [] h = tt
    long (c ∷ s) h = h

pub kind-Cut : (no_more : Bool) (arg : List ℕ) → is_text arg ≡ true → Cut (kind no_more arg)
unfolding kind
kind-Cut no_more [] h = tt
kind-Cut no_more (a ∷ []) h = tt
kind-Cut no_more (a ∷ b ∷ s) h = elim (Bool-cases (no_more || not (a == 45))) [
  | inl t ↦ rw (kind, t) tt
  | inr t ↦
      let first : (a == 45) ≡ true = ground arith in
      let rest : is_text (b ∷ s) ≡ true = is_text-cut (a ∷ []) (b ∷ s) (dashed a first) h in
      rw (kind, t) (behind_dash b s rest)
]
