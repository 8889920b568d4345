-- ===== src/Envmap/Lookup.antt =====
-- What the list of entries of an environment map (src/ucb/envmap.c) says of a name.
use ucb.Common.{
  ℕ, zero, suc, ◌<◌, ◌≡◌, refl, ◌∙◌, inl, inr, false, Option, none, some, List, [], ◌∷◌, ◌++◌,
  if◌then◌else◌, length, take, drop, get_elem?, arith, Bool-cases,
}
use ucb.Path.Bytes.{str_equal, str_equal-eq, str_equal_self}
use ucb.Envmap.{Entry}

abbrev pub lookup : List Entry → List ℕ → Option (List ℕ)
lookup [] k = none
lookup (e ∷ l) k = if str_equal e.name k then some e.value else lookup l k

-- A table of values with another one for a name.
abbrev pub updated :
    (List ℕ → Option (List ℕ)) → List ℕ → Option (List ℕ) → List ℕ → Option (List ℕ)
updated s name o k = if str_equal name k then o else s k

-- No name stands in two entries.
abbrev pub Distinct : List Entry → Type 0
Distinct [] = Unit
Distinct (e ∷ l) = (lookup l e.name ≡ none) × Distinct l

-- The first entry of a name stands at index `m`.
abbrev pub At : List ℕ → List Entry → ℕ → Type 0
At name [] m = ⊥
At name (e ∷ l) zero = e.name ≡ name
At name (e ∷ l) (suc m) = (str_equal e.name name ≡ false) × At name l m

str_equal_sym : (s t : List ℕ) → str_equal s t ≡ false → str_equal t s ≡ false
str_equal_sym s t h = elim (Bool-cases (str_equal t s)) [
  | inl e ↦
      let same = str_equal-eq t s e in
      absurd (let f = str_equal_self s in let g = rw same at h in cc)
  | inr e ↦ e
]

pub At-entry :
    (name : List ℕ) (l : List Entry) (m : ℕ)
    → At name l m
    → (e : Entry) × (get_elem? l m ≡ some e)
      × (e.name ≡ name)
      × (lookup l name ≡ some e.value)
      × (m < length l)
At-entry name [] m a = elim a [ ]
At-entry name (e ∷ l) zero a = (e, refl, a, rw (a, str_equal_self name) refl, omega arith)
At-entry name (e ∷ l) (suc m) (h, a) =
    let (f, at, same, found, less) = At-entry name l m a in (f, at, same, rw h found, omega arith)

-- Another value for the name.
pub lookup-replaced :
    (name value : List ℕ) (l : List Entry) (m : ℕ)
    → At name l m
    → (k : List ℕ)
    → lookup (take m l ++ (record { name = name; value = value } ∷ drop (suc m) l)) k
      ≡ updated (lookup l) name (some value) k
lookup-replaced name value [] m a k = elim a [ ]
lookup-replaced name value (e ∷ l) zero a k = elim (Bool-cases (str_equal name k)) [
  | inl h ↦ rw h refl
  | inr h ↦ rw (h, a, h) refl
]
lookup-replaced name value (e ∷ l) (suc m) (h, a) k = elim (Bool-cases (str_equal e.name k)) [
  | inl g ↦
      let same = str_equal-eq e.name k g in
      let other = str_equal_sym e.name name h in
      let away : str_equal name k ≡ false = rw (← same) other in rw (g, away) refl
  | inr g ↦ rw g (lookup-replaced name value l m a k)
]

-- The entry is taken out.
pub lookup-removed :
    (name : List ℕ) (l : List Entry) (m : ℕ)
    → At name l m
    → Distinct l
    → (k : List ℕ) → lookup (take m l ++ drop (suc m) l) k ≡ updated (lookup l) name none k
lookup-removed name [] m a d k = elim a [ ]
lookup-removed name (e ∷ l) zero a (fresh, d) k = elim (Bool-cases (str_equal name k)) [
  | inl h ↦ let same = str_equal-eq name k h in rw (h, ← same, ← a) fresh
  | inr h ↦ rw (h, a, h) refl
]
lookup-removed name (e ∷ l) (suc m) (h, a) (fresh, d) k = elim (Bool-cases (str_equal e.name k)) [
  | inl g ↦
      let same = str_equal-eq e.name k g in
      let other = str_equal_sym e.name name h in
      let away : str_equal name k ≡ false = rw (← same) other in rw (g, away) refl
  | inr g ↦ rw g (lookup-removed name l m a d k)
]

-- A new entry behind the others.
pub lookup-added :
    (name value : List ℕ) (l : List Entry)
    → lookup l name ≡ none
    → (k : List ℕ)
    → lookup (l ++ (record { name = name; value = value } ∷ [])) k
      ≡ updated (lookup l) name (some value) k
lookup-added name value [] h k = refl
lookup-added name value (e ∷ l) h k = elim (Bool-cases (str_equal e.name name)) [
  | inl g ↦ let f = rw g at h in absurd cc
  | inr g ↦
      let other = str_equal_sym e.name name g in
      let rest = lookup-added name value l (rw g at h) k in
      elim (Bool-cases (str_equal e.name k)) [
        | inl f ↦
            let same = str_equal-eq e.name k f in
            let away : str_equal name k ≡ false = rw (← same) other in rw (f, away) refl
        | inr f ↦ rw f rest
      ]
]

-- A name that is no entry's stays so where its own table entry is not written.
still_none :
    (s : List ℕ → Option (List ℕ)) (name k : List ℕ) (o : Option (List ℕ))
    → str_equal k name ≡ false
    → s k ≡ none
    → updated s name o k ≡ none
still_none s name k o h e = rw (str_equal_sym k name h) e

pub replaced-Distinct :
    (name value : List ℕ) (l : List Entry) (m : ℕ)
    → At name l m
    → Distinct l
    → Distinct (take m l ++ (record { name = name; value = value } ∷ drop (suc m) l))
replaced-Distinct name value [] m a d = elim a [ ]
replaced-Distinct name value (e ∷ l) zero a (fresh, d) = (rw (← a) fresh, d)
replaced-Distinct name value (e ∷ l) (suc m) (h, a) (fresh, d) = (
  lookup-replaced name value l m a e.name ∙ still_none (lookup l) name e.name _ h fresh,
  replaced-Distinct name value l m a d,
)

pub removed-Distinct :
    (name : List ℕ) (l : List Entry) (m : ℕ)
    → At name l m
    → Distinct l
    → Distinct (take m l ++ drop (suc m) l)
removed-Distinct name [] m a d = elim a [ ]
removed-Distinct name (e ∷ l) zero a (fresh, d) = d
removed-Distinct name (e ∷ l) (suc m) (h, a) (fresh, d) = (
  lookup-removed name l m a d e.name ∙ still_none (lookup l) name e.name _ h fresh,
  removed-Distinct name l m a d,
)

pub added-Distinct :
    (name value : List ℕ) (l : List Entry)
    → lookup l name ≡ none
    → Distinct l
    → Distinct (l ++ (record { name = name; value = value } ∷ []))
added-Distinct name value [] h d = (refl, tt)
added-Distinct name value (e ∷ l) h (fresh, d) = elim (Bool-cases (str_equal e.name name)) [
  | inl g ↦ let f = rw g at h in absurd cc
  | inr g ↦
      let rest = rw g at h in
      (
        lookup-added name value l rest e.name ∙ still_none (lookup l) name e.name _ g fresh,
        added-Distinct name value l rest d,
      )
]
