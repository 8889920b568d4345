-- ===== src/Envmap/Table.antt =====
-- What src/ucb/envmap.c promises: a table of values by name, and what joining values means.
use ucb.Common.{
  ℕ, ◌≡◌, refl, ap, ◌∙◌, Bool, true, false, Option, none, some, List, [], ◌∷◌, ◌++◌, append-nil,
  append_assoc,
}
use ucb.Envmap.{separator}

abbrev pub Table : Type 0
Table = List ℕ → Option (List ℕ)

unfoldable pub is_some : Option (List ℕ) → Bool
is_some none = false
is_some (some x) = true

-- A value behind an old one and before it: the separator only where there is an old value, and it
-- is not empty.
unfoldable pub behind : Option (List ℕ) → List ℕ → Option (List ℕ) → List ℕ
behind none x sep = x
behind (some []) x sep = x
behind (some (c ∷ old)) x none = (c ∷ old) ++ x
behind (some (c ∷ old)) x (some sep) = (c ∷ old) ++ (sep ++ x)

unfoldable pub before : Option (List ℕ) → List ℕ → Option (List ℕ) → List ℕ
before none x sep = x
before (some []) x sep = x
before (some (c ∷ old)) x none = x ++ (c ∷ old)
before (some (c ∷ old)) x (some sep) = x ++ (sep ++ (c ∷ old))

pub behind-separator :
    (old x : List ℕ) (sep : Option (List ℕ))
    → (old ++ separator sep old) ++ x ≡ behind (some old) x sep
unfolding separator behind
behind-separator [] x none = refl
behind-separator [] x (some sep) = refl
behind-separator (c ∷ old) x none = ap (λ l. l ++ x) (append-nil (c ∷ old))
behind-separator (c ∷ old) x (some sep) = append_assoc (c ∷ old) sep x

pub before-separator :
    (old x : List ℕ) (sep : Option (List ℕ))
    → (x ++ separator sep old) ++ old ≡ before (some old) x sep
unfolding separator before
before-separator [] x none = append-nil (x ++ []) ∙ append-nil x
before-separator [] x (some sep) = append-nil (x ++ []) ∙ append-nil x
before-separator (c ∷ old) x none = ap (λ l. l ++ (c ∷ old)) (append-nil x)
before-separator (c ∷ old) x (some sep) = append_assoc x sep (c ∷ old)

-- Where there is no old value.
pub behind_none : (x : List ℕ) (sep : Option (List ℕ)) → behind none x sep ≡ x
unfolding behind
behind_none x sep = refl

pub before_none : (x : List ℕ) (sep : Option (List ℕ)) → before none x sep ≡ x
unfolding before
before_none x sep = refl
