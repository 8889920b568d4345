-- ===== src/Envmap/Transfer.antt =====
-- Copies of environment maps, and the way of a map to a child process and back: src/ucb/envmap.c.
use ucb.Common.{
  ℕ, zero, suc, ◌+◌, ◌^◌, ◌≤◌, ◌<◌, ◌≡◌, refl, sym, ap, ◌∙◌, true, false, some, List, [], ◌∷◌, ◌++◌,
  ◌==◌, map, append-nil, append_assoc, length, drop, get_elem?, arith, All,
}
use ucb.Common.Outcome.{granted, Outcome, ok, ◌>>=◌, Returns, returns, Returns-bind, Returns-map}
use ucb.Utf8.{valid, validate}
use ucb.Vector.{Vector, new_vector}
use ucb.Vector
use ucb.Vector.Elements.{contents, IsValid, length-contents}
use ucb.Vector.Insertion.{push_back-Appended}
use ucb.Vector.Removal.{get-contents}
use ucb.Envmap.{Entry, Envmap, new_map}
use ucb.Envmap.Environ.{
  cstr, split_eq, is_text, named_entry, entry_from_nv, add_parsed, load_loop, init_from_current,
  copy_loop, copy, text_of, envp_loop, to_envp,
}

drop-all {ℓ} : {A : Type ℓ} (i : ℕ) (l : List A) → length l ≤ i → drop i l ≡ []
drop-all zero [] h = refl
drop-all zero (x ∷ l) h = absurd (omega arith)
drop-all (suc i) [] h = refl
drop-all (suc i) (x ∷ l) h = drop-all i l (omega arith)

drop-cons {ℓ} :
    {A : Type ℓ} (i : ℕ) (l : List A) (x : A)
    → get_elem? l i ≡ some x
    → drop i l ≡ x ∷ drop (suc i) l
drop-cons i [] x e = absurd cc
drop-cons zero (y ∷ l) x e = let same : y ≡ x = cc in rw same refl
drop-cons (suc i) (y ∷ l) x e = drop-cons i l x e

-- A valid vector that has these entries.
abbrev pub Has : List Entry → Vector Entry → Type 0
Has l w = IsValid w × (contents w ≡ l)

new_vector-IsValid : IsValid {A = Entry} new_vector
new_vector-IsValid = record { filled = refl; room = omega arith; live = refl }

-- Entries that go behind those of a vector.
abbrev Gained : Vector Entry → List Entry → Vector Entry → Type 0
Gained v l w = Has (contents v ++ l) w

module _ (junk : ℕ → Entry) where
  push-Gained :
      (v : Vector Entry) (x : Entry) (l : List Entry) (f : Vector Entry → Outcome (Vector Entry))
      → IsValid v
      → v.size < 2 ^ 63
      → ((u : Vector Entry) → IsValid u → u.size ≡ suc v.size → Returns (Gained u l) (f u))
      → Returns (Gained v (x ∷ l)) (Vector.push_back junk granted v x >>= f)
  push-Gained v x l f h small k =
      Returns-bind (push_back-Appended junk v x h small) λ u (live, same, more).
        Returns-map (k u live more) λ w (live', all).
          (live', all ∙ ap (λ c. c ++ l) same ∙ append_assoc (contents v) (x ∷ []) l)

  copy_loop-Gained :
      (src dst : Vector Entry) (n i : ℕ)
      → IsValid src
      → IsValid dst
      → i + n ≡ src.size
      → dst.size + n < 2 ^ 63
      → Returns (Gained dst (drop i (contents src))) (copy_loop junk true granted n i src dst)
  unfolding copy_loop
  copy_loop-Gained src dst zero i h k e small =
      let nothing = drop-all i (contents src) (omega (arith, length-contents src h)) in
      returns (k, rw nothing (sym (append-nil (contents dst))))
  copy_loop-Gained src dst (suc n) i h k e small =
      let (x, g, at) = get-contents src i h (omega arith) in
      let next : i + 1 ≡ suc i = omega arith in
      rw (g, drop-cons i (contents src) x at)
        (push-Gained dst x (drop (suc i) (contents src)) _ k (omega arith) λ u live more.
          rw next (copy_loop-Gained src u n (suc i) h live (omega arith) (omega (arith, more))))

  -- A copy of a valid map has the entries of the source, in the same order, where memory suffices,
  -- whatever the destination had.
  copy-Has :
      (dst : Envmap) (src : Vector Entry)
      → IsValid src
      → src.size < 2 ^ 63
      → Returns
          (λ m. (w : Vector Entry) × (m ≡ some w) × Has (contents src) w)
          (copy junk true granted true dst (some src))
  unfolding copy
  copy-Has dst src h small =
      Returns-bind
        (copy_loop-Gained src new_vector src.size 0 h new_vector-IsValid (omega arith)
          (omega arith))
        λ w has. returns (w, refl, has)

-- Bytes without NUL, and names without '=' too.
abbrev NoNul : List ℕ → Type 0
NoNul s = All (λ c. (c == 0) ≡ false) s

-- What a variable of an environment is: text, of which the name is not empty.
pub record IsVariable (e : Entry) : Type 0 where
  pub first : ℕ
  pub others : List ℕ
  pub named : e.name ≡ first ∷ others
  pub no_eq : All (λ c. (c == 61) ≡ false) e.name
  pub name_NoNul : NoNul e.name
  pub value_NoNul : NoNul e.value
  pub name_text : validate e.name ≡ valid
  pub value_text : validate e.value ≡ valid

cstr-NoNul : (s : List ℕ) → NoNul s → cstr s ≡ s
unfolding cstr
cstr-NoNul [] h = refl
cstr-NoNul (c ∷ s) (h, hs) = rw h (ap (◌∷◌ c) (cstr-NoNul s hs))

split_eq-append :
    (name value : List ℕ)
    → All (λ c. (c == 61) ≡ false) name
    → split_eq (name ++ (61 ∷ value)) ≡ some (name, value)
unfolding split_eq
split_eq-append [] value h = refl
split_eq-append (c ∷ name) value (h, hs) = rw (split_eq, h, split_eq-append name value hs) refl

is_text-valid : (s : List ℕ) → validate s ≡ valid → is_text s ≡ true
unfolding is_text
is_text-valid s e = rw (is_text, e) refl

-- A variable is read back from its text.
entry_from_nv-text_of : (e : Entry) → IsVariable e → entry_from_nv true (text_of e) ≡ ok (some e)
unfolding entry_from_nv text_of named_entry
entry_from_nv-text_of e h =
    let text : is_text (h.first ∷ h.others) ≡ true =
      rw (← h.named) (is_text-valid e.name h.name_text) in
    rw
      (
        cstr-NoNul e.name h.name_NoNul,
        cstr-NoNul e.value h.value_NoNul,
        entry_from_nv,
        split_eq-append e.name e.value h.no_eq,
        h.named,
        text,
        is_text-valid e.value h.value_text,
      )
      refl

load_loop-Gained :
    (junk : ℕ → Entry) (l : List Entry) (v : Vector Entry)
    → IsValid v
    → All IsVariable l
    → v.size + length l < 2 ^ 63
    → Returns (Gained v l) (load_loop junk true granted (map text_of l) v)
unfolding load_loop add_parsed
load_loop-Gained junk [] v h vs small = returns (h, sym (append-nil (contents v)))
load_loop-Gained junk (e ∷ l) v h (var, vs) small = rw (entry_from_nv-text_of e var) (
    push-Gained junk v e l _ h (omega arith)
      λ u live more. load_loop-Gained junk l u live vs (omega (arith, more)))

envp_loop-map :
    (v : Vector Entry) (n i : ℕ)
    → IsValid v
    → i + n ≡ v.size
    → envp_loop true n i v ≡ ok (some (map text_of (drop i (contents v))))
unfolding envp_loop
envp_loop-map v zero i h e =
    let nothing = drop-all i (contents v) (omega (arith, length-contents v h)) in rw nothing refl
envp_loop-map v (suc n) i h e =
    let (x, g, at) = get-contents v i h (omega arith) in
    let next : i + 1 ≡ suc i = omega arith in
    let rest = envp_loop-map v n (suc i) h (omega arith) in
    rw (g, drop-cons i (contents v) x at) (rw (◌>>=◌, next, rest) refl)

-- The array that a child process gets from a valid map of variables makes, read as its environment
-- into an empty map, a valid map with the same entries, where memory suffices.
pub envp_roundtrip :
    (junk : ℕ → Entry) (v : Vector Entry)
    → IsValid v
    → All IsVariable (contents v)
    → v.size < 2 ^ 63
    → Returns
        (λ o.
          (environ : List (List ℕ)) × (o ≡ some environ)
          × Returns
              (λ m. (w : Vector Entry) × (m ≡ some w) × Has (contents v) w)
              (init_from_current junk true granted environ new_map))
        (to_envp true true (some v))
unfolding to_envp init_from_current
envp_roundtrip junk v h vars small = rw (envp_loop-map v v.size 0 h (omega arith)) (
    returns (
      map text_of (contents v),
      refl,
      Returns-bind
          (load_loop-Gained junk (contents v) new_vector new_vector-IsValid vars
            (omega (arith, length-contents v h)))
          (λ w has. returns (w, refl, has)),
    ))
