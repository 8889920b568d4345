-- ===== src/Path/Bytes.antt =====
-- Equality of strings, ucb_str_equal in src/ucb/string.c, and the last byte of a string.
use ucb.Common.{
  ℕ, ◌≡◌, refl, Bool, true, false, not, ◌&&◌, List, [], ◌∷◌, ◌==◌, if◌then◌else◌, length, arith,
}

-- memcmp on the common length finds no difference.
unfoldable pub same_bytes : List ℕ → List ℕ → Bool
same_bytes [] t = true
same_bytes (c ∷ s) [] = true
same_bytes (c ∷ s) (d ∷ t) = c == d && same_bytes s t

unfoldable pub str_equal : List ℕ → List ℕ → Bool
unfolding same_bytes
str_equal s t = if not (length s == length t) then false else same_bytes s t

same_bytes-eq : (s t : List ℕ) → length s ≡ length t → same_bytes s t ≡ true → s ≡ t
unfolding same_bytes
same_bytes-eq [] [] l h = refl
same_bytes-eq [] (d ∷ t) l h = absurd (omega arith)
same_bytes-eq (c ∷ s) [] l h = absurd (omega arith)
same_bytes-eq (c ∷ s) (d ∷ t) l h = ground (arith, same_bytes-eq s t)

same_bytes_self : (s : List ℕ) → same_bytes s s ≡ true
unfolding same_bytes
same_bytes_self [] = refl
same_bytes_self (c ∷ s) = ground (arith, same_bytes_self s)

pub str_equal-eq : (s t : List ℕ) → str_equal s t ≡ true → s ≡ t
unfolding str_equal
str_equal-eq s t h = ground (arith, same_bytes-eq s t)

pub str_equal_self : (s : List ℕ) → str_equal s s ≡ true
unfolding str_equal
str_equal_self s = ground (arith, same_bytes_self s)
