-- ===== src/Args/Frame.antt =====
-- What ucb_arg_parser_parse (src/ucb/argparse.c) can change when it succeeds.
use ucb.Common.{
  ℕ, zero, suc, ◌+◌, ◌≡◌, refl, ap, ◌∙◌, inl, inr, Bool, true, false, none, some, List, [], ◌∷◌,
  ◌==◌, if◌then◌else◌, length, get_elem?, All, arith, Bool-cases,
}
use ucb.Path.Bytes.{str_equal}
use ucb.Args.{Opt, Value, Store, write, Stop, Result, done, failed, stored_as}
use ucb.Args.Parse.{◌>>=◌, find_short, scan_long, find_long, see}

-- What holds of the result, if there is one, and of the reason to stop, if not.
pub data Ends {ℓ κ} {A : Type ℓ} (E : Stop → Type 0) (P : A → Type κ)
    : Result A → Type (ℓ ⊔ κ) where
  gives : {a : A} → P a → Ends E P (done a)
  stops : {e : Stop} → E e → Ends E P (failed e)

pub Ends-bind {ℓ κ ℓ' κ'} :
    {A : Type ℓ} {E : Stop → Type 0} {P : A → Type κ} {B : Type ℓ'} {Q : B → Type κ'} {m : Result A}
    {f : A → Result B}
    → Ends E P m
    → ((a : A) → P a → Ends E Q (f a))
    → Ends E Q (m >>= f)
Ends-bind (gives h) k = k _ h
Ends-bind (stops h) k = stops h

pub Ends-map {ℓ κ κ'} :
    {A : Type ℓ} {E : Stop → Type 0} {P : A → Type κ} {Q : A → Type κ'} {m : Result A}
    → Ends E P m
    → ((a : A) → P a → Q a)
    → Ends E Q m
Ends-map (gives h) k = gives (k _ h)
Ends-map (stops h) k = stops h

pub Ends-if {ℓ κ} :
    {A : Type ℓ} {E : Stop → Type 0} {P : A → Type κ} (b : Bool) {x y : Result A}
    → Ends E P x
    → Ends E P y
    → Ends E P (if b then x else y)
Ends-if true h k = h
Ends-if false h k = k

-- What holds of the result, if there is one.
abbrev pub Gives {ℓ κ} : {A : Type ℓ} → (A → Type κ) → Result A → Type (ℓ ⊔ κ)
Gives P m = Ends (λ _. Unit) P m

-- The store is as before, but at one address.
abbrev pub Wrote {ℓ} : {F : Type ℓ} → ℕ → Store F → Store F → Type ℓ
Wrote d st st' = (k : ℕ) → (k == d) ≡ false → st' k ≡ st k

pub write-Wrote {ℓ} : {F : Type ℓ} (d : ℕ) (x : Value F) (st : Store F) → Wrote d st (write d x st)
write-Wrote d x st k h = rw h refl

pub stored_as-Wrote {ℓ κ} :
    {A : Type ℓ} {F : Type κ} (o : Opt) (f : A → Value F) (st : Store F) (r : Result A)
    → Gives (Wrote o.dest st) (stored_as o f st r)
stored_as-Wrote o f st (done a) = gives (write-Wrote o.dest (f a) st)
stored_as-Wrote o f st (failed e) = stops tt

-- The options are those they were, but that more of them have been seen.
abbrev pub Same : List Opt → List Opt → Type 0
Same [] [] = Unit
Same [] (p ∷ m) = ⊥
Same (o ∷ l) [] = ⊥
Same (o ∷ l) (p ∷ m) =
    (p ≡ record o { seen = p.seen }) × ((o.seen ≡ true) → p.seen ≡ true) × Same l m

pub Same-self : (l : List Opt) → Same l l
Same-self [] = tt
Same-self (o ∷ l) = (refl, (λ h. h), Same-self l)

pub see-Same : (i : ℕ) (l : List Opt) → Same l (see i l)
unfolding see
see-Same i [] = tt
see-Same zero (o ∷ l) = (refl, (λ h. refl), Same-self l)
see-Same (suc i) (o ∷ l) = (refl, (λ h. h), see-Same i l)

pub Same-trans : (k l m : List Opt) → Same k l → Same l m → Same k m
Same-trans [] [] [] a b = tt
Same-trans [] [] (p ∷ m) a b = elim b [ ]
Same-trans [] (p ∷ l) m a b = elim a [ ]
Same-trans (o ∷ k) [] m a b = elim a [ ]
Same-trans (o ∷ k) (p ∷ l) [] a b = elim b [ ]
Same-trans (o ∷ k) (p ∷ l) (q ∷ m) (e, h, a) (f, g, b) = (
  f ∙ ap {A = Opt} {B = Opt} (λ x. record x { seen = q.seen }) e,
  (λ t. g (h t)),
  Same-trans k l m a b,
)

-- An option before parsing.
abbrev pub unseen : Opt → Opt
unseen o = record o { seen = false }

-- An address that no option writes to.
abbrev pub Foreign : ℕ → List Opt → Type 0
Foreign d l = All (λ o. (d == o.dest) ≡ false) l

pub Same-Foreign : (d : ℕ) (l m : List Opt) → Same l m → Foreign d l → Foreign d m
Same-Foreign d [] [] a h = tt
Same-Foreign d [] (p ∷ m) a h = elim a [ ]
Same-Foreign d (o ∷ l) [] a h = elim a [ ]
Same-Foreign d (o ∷ l) (p ∷ m) (e, _, a) (h, hs) =
    (ap (λ x. d == x.dest) e ∙ h, Same-Foreign d l m a hs)

pub Foreign-at :
    (d : ℕ) (l : List Opt) (i : ℕ) (o : Opt)
    → Foreign d l
    → get_elem? l i ≡ some o
    → (d == o.dest) ≡ false
Foreign-at d [] i o h e = absurd cc
Foreign-at d (p ∷ l) zero o (h, hs) e = let same : p ≡ o = cc in rw (← same) h
Foreign-at d (p ∷ l) (suc i) o (h, hs) e = Foreign-at d l i o hs e

-- What an option that is found is.
abbrev pub At : ℕ → List Opt → ℕ × Opt → Type 0
At i l r = (k : ℕ) × (r.0 ≡ i + k) × (get_elem? l k ≡ some r.1)

At-later : (i : ℕ) (o : Opt) (l : List Opt) (r : ℕ × Opt) → At (i + 1) l r → At i (o ∷ l) r
At-later i o l r (k, e, at) = (suc k, omega arith, at)

find_short-At : (i : ℕ) (l : List Opt) (c : ℕ) (r : ℕ × Opt) → find_short i l c ≡ some r → At i l r
unfolding find_short
find_short-At i [] c r e = absurd cc
find_short-At i (o ∷ l) c r e = elim (Bool-cases (o.short_name == c)) [
  | inl h ↦
      let g : some (i, o) ≡ some r = rw (find_short, h) at e in
      let same : (i, o) ≡ r = cc in rw (← same) (0, omega arith, refl)
  | inr h ↦ At-later i o l r (find_short-At (i + 1) l c r (rw (find_short, h) at e))
]

scan_long-At :
    (i : ℕ) (l : List Opt) (name : List ℕ) (r : ℕ × Opt) → scan_long i l name ≡ some r → At i l r
unfolding scan_long
scan_long-At i [] name r e = absurd cc
scan_long-At i (o ∷ l) name r e = elim (Bool-cases (str_equal o.long_name name)) [
  | inl h ↦
      let g : some (i, o) ≡ some r = rw (scan_long, h) at e in
      let same : (i, o) ≡ r = cc in rw (← same) (0, omega arith, refl)
  | inr h ↦ At-later i o l r (scan_long-At (i + 1) l name r (rw (scan_long, h) at e))
]

pub find_short-at :
    (l : List Opt) (c : ℕ) (r : ℕ × Opt) → find_short 0 l c ≡ some r → get_elem? l r.0 ≡ some r.1
find_short-at l c r e =
    let (k, i, at) = find_short-At 0 l c r e in let same : r.0 ≡ k = omega arith in rw same at

pub find_long-at :
    (l : List Opt) (name : List ℕ) (r : ℕ × Opt)
    → find_long l name ≡ some r
    → get_elem? l r.0 ≡ some r.1
unfolding find_long
find_long-at l name r e = elim (Bool-cases (length name == 0)) [
  | inl h ↦ let f : none ≡ some r = rw h at e in absurd cc
  | inr h ↦
      let (k, i, at) = scan_long-At 0 l name r (rw h at e) in
      let same : r.0 ≡ k = omega arith in rw same at
]
