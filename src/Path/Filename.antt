-- ===== src/Path/Filename.antt =====
-- path_parse_filename in src/ucb/path.c: the stem and the extension of a filename.
use ucb.Common.{
  ℕ, zero, suc, ◌-◌, ◌≤◌, ◌<◌, ◌≡◌, ◌≢◌, refl, ap, inl, inr, ◌⊎◌, Bool, true, false, Option, none,
  some, List, [], ◌∷◌, ◌++◌, leb, ◌==◌, if◌then◌else◌, length, length-take, take, drop,
  take-append-drop, append-nil, Bool-cases, Option-cases, arith, ==_iff,
}
use ucb.Path.{dot, leading_dots, test_at, find_dot, filename_dot, parse_filename}

abbrev is_dot_at : List ℕ → ℕ → Bool
is_dot_at s i = test_at (λ c. c == dot) s i

find_dot-some :
    (start : ℕ) (s : List ℕ) (i k : ℕ)
    → find_dot start s i ≡ some k
    → (k ≤ i) × (start ≤ k) × (0 < k) × (is_dot_at s k ≡ true)
unfolding find_dot
find_dot-some start s zero k h = ground arith
find_dot-some start s (suc i) k h = ground (arith, find_dot-some start s i k)

-- No dot is passed over.
find_dot-skipped :
    (start : ℕ) (s : List ℕ) (i j : ℕ)
    → start ≤ j
    → 0 < j
    → j ≤ i
    → is_dot_at s j ≡ true
    → (k : ℕ) × (find_dot start s i ≡ some k) × (j ≤ k)
unfolding find_dot
find_dot-skipped start s zero j a b c h = absurd (omega arith)
find_dot-skipped start s (suc i) j a b c h = elim (Bool-cases (is_dot_at s (suc i))) [
  | inl e ↦ (suc i, ground arith, omega arith)
  | inr e ↦
      let (k, f, g) = find_dot-skipped start s i j a b (below e) h in (k, ground (arith, f), g)
]
  where
    below : is_dot_at s (suc i) ≡ false → j ≤ i
    below e = ground arith

filename_dot-some :
    (s : List ℕ) (i : ℕ)
    → filename_dot s ≡ some i
    → (suc i < length s) × (leading_dots s ≤ i) × (0 < i) × (is_dot_at s i ≡ true)
unfolding filename_dot
filename_dot-some s i h = ground (arith, find_dot-some (leading_dots s) s (length s - 2) i)

drop_at :
    (s : List ℕ) (i : ℕ)
    → suc i < length s
    → is_dot_at s i ≡ true
    → (c : ℕ) × (e : List ℕ) × (drop i s ≡ dot ∷ c ∷ e)
unfolding test_at
drop_at (x ∷ y ∷ s) zero l h = (y, s, ap (λ z. z ∷ y ∷ s) ((==_iff x dot).0 h))
drop_at (x ∷ s) (suc i) l h = drop_at s i (omega arith) h
drop_at [] i l h = absurd (omega arith)
drop_at (x ∷ []) zero l h = absurd (omega arith)

not_all_dots :
    (s : List ℕ) (i : ℕ)
    → leading_dots s ≤ i
    → i < length s
    → is_dot_at s i ≡ true
    → leading_dots (take i s) < length (take i s)
unfolding leading_dots test_at
not_all_dots [] i a l h = absurd (omega arith)
not_all_dots (x ∷ s) zero a l h = ground arith
not_all_dots (x ∷ s) (suc i) a l h = ground (arith, not_all_dots s i)

-- An extension: a dot and at least one more byte, after a stem that is more than dots.
abbrev pub Splits : List ℕ × List ℕ → Type 0
Splits (stem, ext) =
    (ext ≡ [])
    ⊎ ((leading_dots stem < length stem) × ((c : ℕ) × (e : List ℕ) × (ext ≡ dot ∷ c ∷ e)))

split_none : (s : List ℕ) → filename_dot s ≡ none → parse_filename s ≡ (s, [])
unfolding parse_filename
split_none s e = rw (parse_filename, e)

split_some :
    (s : List ℕ) (i : ℕ) → filename_dot s ≡ some i → parse_filename s ≡ (take i s, drop i s)
unfolding parse_filename
split_some s i e = rw (parse_filename, e)

-- The stem and the extension are the filename again; the extension is empty, or it is a dot and
-- more, and the stem before it has a byte that is no dot.
pub parse_filename-Splits :
    (s : List ℕ) → ((parse_filename s).0 ++ (parse_filename s).1 ≡ s) × Splits (parse_filename s)
parse_filename-Splits s = elim (Option-cases (filename_dot s)) [
  | inl e ↦ rw (split_none s e) (append-nil s, inl refl)
  | inr (i, e) ↦
      let (l, a, p, d) = filename_dot-some s i e in
      rw (split_some s i e)
        (take-append-drop i s, inr (not_all_dots s i a (omega arith) d, drop_at s i l d))
]

-- A dot after the leading dots, and before the last byte, is in the extension unless the extension
-- starts after it.
parse_filename_last :
    (s : List ℕ) (j : ℕ)
    → leading_dots s ≤ j
    → 0 < j
    → suc j < length s
    → is_dot_at s j ≡ true
    → ((parse_filename s).1 ≢ []) × (j ≤ length (parse_filename s).0)
unfolding filename_dot
parse_filename_last s j a b l d =
    let (k, e, g) = find_dot-skipped (leading_dots s) s (length s - 2) j a b (omega arith) d in
    let f = enough e in
    let (l', a', p, d') = filename_dot-some s k f in
    let (c, x, m) = drop_at s k l' d' in
    rw (split_some s k f) ((λ n. ground arith), omega (arith, length-take k s (omega arith)))
  where
    enough :
        {o : Option ℕ}
        → find_dot (leading_dots s) s (length s - 2) ≡ o
        → (if leb 2 (length s) then find_dot (leading_dots s) s (length s - 2) else none) ≡ o
    enough e = ground arith
