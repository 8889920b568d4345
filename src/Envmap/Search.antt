-- ===== src/Envmap/Search.antt =====
-- envmap_find of src/ucb/envmap.c, and what follows for the entry that it finds.
use ucb.Common.{
  ℕ, zero, suc, ◌+◌, ◌≤◌, ◌<◌, ◌≡◌, refl, ap, ◌∙◌, inl, inr, false, Option, none, some, List, [],
  ◌∷◌, ◌++◌, length, take, drop, get_elem?, arith, Bool-cases,
}
use ucb.Common.Outcome.{Outcome, ok, ◌>>=◌, Returns, returns, Returns-bind}
use ucb.Path.Bytes.{str_equal, str_equal-eq}
use ucb.Vector.{Vector}
use ucb.Vector.Elements.{contents, IsValid, length-contents, Holds}
use ucb.Vector.Removal.{get-contents, set-Holds}
use ucb.Envmap.{Entry, find_from, find, value_at, set_value}
use ucb.Envmap.Lookup.{lookup, At, At-entry}

-- No entry before index `i` has the name.
abbrev Before : List ℕ → List Entry → ℕ → Type 0
Before name l zero = Unit
Before name [] (suc i) = Unit
Before name (e ∷ l) (suc i) = (str_equal e.name name ≡ false) × Before name l i

Before-At :
    (name : List ℕ) (l : List Entry) (i : ℕ) (e : Entry)
    → get_elem? l i ≡ some e
    → Before name l i
    → e.name ≡ name
    → At name l i
Before-At name [] i e g b h = absurd cc
Before-At name (f ∷ l) zero e g b h = let same : f ≡ e = cc in rw same h
Before-At name (f ∷ l) (suc i) e g (b, bs) h = (b, Before-At name l i e g bs h)

Before-next :
    (name : List ℕ) (l : List Entry) (i : ℕ) (e : Entry)
    → get_elem? l i ≡ some e
    → Before name l i
    → str_equal e.name name ≡ false
    → Before name l (suc i)
Before-next name [] i e g b h = tt
Before-next name (f ∷ l) zero e g b h = let same : f ≡ e = cc in (rw same h, tt)
Before-next name (f ∷ l) (suc i) e g (b, bs) h = (b, Before-next name l i e g bs h)

Before-all :
    (name : List ℕ) (l : List Entry) (i : ℕ) → length l ≤ i → Before name l i → lookup l name ≡ none
Before-all name [] i h b = refl
Before-all name (e ∷ l) zero h b = absurd (omega arith)
Before-all name (e ∷ l) (suc i) h (b, bs) = rw b (Before-all name l i (omega arith) bs)

-- What the search returns: the first entry of the name, or that there is none.
abbrev Sought : List Entry → List ℕ → Option ℕ → Type 0
Sought l name none = lookup l name ≡ none
Sought l name (some i) = At name l i

find_from-Sought :
    (v : Vector Entry) (name : List ℕ) (n i : ℕ)
    → IsValid v
    → i + n ≡ v.size
    → Before name (contents v) i
    → Returns (Sought (contents v) name) (find_from n i v name)
unfolding find_from
find_from-Sought v name zero i h e b =
    returns (Before-all name (contents v) i (omega (arith, length-contents v h)) b)
find_from-Sought v name (suc n) i h e b =
    let (x, g, at) = get-contents v i h (omega arith) in
    let next : i + 1 ≡ suc i = omega arith in
    rw g (elim (Bool-cases (str_equal x.name name)) [
      | inl f ↦
          rw (◌>>=◌, f)
            (returns (Before-At name (contents v) i x at b (str_equal-eq x.name name f)))
      | inr f ↦
          rw (◌>>=◌, f, next)
            (find_from-Sought v name n (suc i) h (omega arith)
              (Before-next name (contents v) i x at b f))
    ])

find-Sought :
    (v : Vector Entry) (name : List ℕ)
    → IsValid v
    → Returns (Sought (contents v) name) (find v name)
unfolding find
find-Sought v name h = find_from-Sought v name v.size 0 h (omega arith) tt

-- The value of the entry that was found.
pub value_at-lookup :
    (v : Vector Entry) (name : List ℕ) (i : ℕ)
    → IsValid v
    → At name (contents v) i
    → (value : List ℕ) × (value_at v i ≡ ok value) × (lookup (contents v) name ≡ some value)
unfolding value_at
value_at-lookup v name i h a =
    let (e, at, same, found, less) = At-entry name (contents v) i a in
    let (x, g, at') = get-contents v i h (omega (arith, length-contents v h)) in
    let entry : x ≡ e = cc in (x.value, rw g refl, rw entry found)

pub set_value-Holds :
    (v : Vector Entry) (name value : List ℕ) (i : ℕ)
    → IsValid v
    → At name (contents v) i
    → Returns
        (Holds
          (take i (contents v)
            ++ (record { name = name; value = value } ∷ drop (suc i) (contents v)))
          v.capacity)
        (set_value v i value)
unfolding set_value
set_value-Holds v name value i h a =
    let (e, at, same, found, less) = At-entry name (contents v) i a in
    let lt : i < v.size = omega (arith, length-contents v h) in
    let (x, g, at') = get-contents v i h lt in
    let entry : x ≡ e = cc in
    let named : x.name ≡ name = ap (λ e. e.name) entry ∙ same in
    rw (g, named) (set-Holds v i (record { name = name; value = value }) h lt)

by_cases {ℓ κ} :
    {B : Type ℓ} {P : B → Type κ} {x : Outcome B} {y : ℕ → Outcome B} (l : List Entry)
    (name : List ℕ) (o : Option ℕ)
    → Sought l name o
    → (lookup l name ≡ none → Returns P x)
    → ((i : ℕ) → At name l i → Returns P (y i))
    → Returns P (elim o [ none ↦ x | some i ↦ y i ])
by_cases l name none s f g = f s
by_cases l name (some i) s f g = g i s

-- A call that looks for a name first: what it does without and with an entry.
pub found-cases {ℓ κ} :
    {B : Type ℓ} {P : B → Type κ} {x : Outcome B} {y : ℕ → Outcome B} (v : Vector Entry)
    (name : List ℕ)
    → IsValid v
    → (lookup (contents v) name ≡ none → Returns P x)
    → ((i : ℕ) → At name (contents v) i → Returns P (y i))
    → Returns P (find v name >>= λ idx. elim idx [ none ↦ x | some i ↦ y i ])
found-cases v name h f g =
    Returns-bind (find-Sought v name h) λ o s. by_cases (contents v) name o s f g
