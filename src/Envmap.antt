-- ===== src/Envmap.antt =====
-- Environment maps: src/ucb/envmap.c as a POSIX build compiles it, on the vectors of Vector. An
-- entry stands in the vector by value: each is owned by the one slot that points to it. Strings are
-- lists of bytes. Whether the allocation of an entry and that of a larger vector succeed are the
-- arguments `entry_ok` and `grow`; the value strings find memory.
pub mod Lookup
pub mod Search
pub mod Table
pub mod Changes
pub mod Failure
pub mod Session
pub mod Environ
pub mod Transfer
mod Tests
use ucb.Common.{
  ℕ, zero, suc, ◌+◌, Bool, true, false, not, ◌&&◌, Option, none, some, List, [], ◌∷◌, ◌++◌, ◌==◌,
  if◌then◌else◌,
}
use ucb.Common.Outcome.{Realloc, Outcome, ok, ◌>>=◌}
use ucb.Path.Bytes.{str_equal}
use ucb.Vector.{Vector, new_vector}
use ucb.Vector

pub record Entry : Type 0 where
  pub name : List ℕ
  pub value : List ℕ

-- `none` where `entries` is NULL, as a copy that finds no memory leaves it.
abbrev pub Envmap : Type 0
Envmap = Option (Vector Entry)

abbrev pub new_map : Envmap
new_map = some new_vector

-- `n` entries from index `i` on.
unfoldable pub find_from : ℕ → ℕ → Vector Entry → List ℕ → Outcome (Option ℕ)
find_from zero i v name = ok none
find_from (suc n) i v name = Vector.get v i >>= λ entry. elim (str_equal entry.name name) [
  | true ↦ ok (some i)
  | false ↦ find_from n (i + 1) v name
]

unfoldable pub find : Vector Entry → List ℕ → Outcome (Option ℕ)
unfolding find_from
find v name = find_from v.size 0 v name

-- The entry at an index, and a new value for it.
unfoldable pub value_at : Vector Entry → ℕ → Outcome (List ℕ)
value_at v i = do entry ← Vector.get v i; ok entry.value

unfoldable pub set_value : Vector Entry → ℕ → List ℕ → Outcome (Vector Entry)
set_value v i value = do entry ← Vector.get v i; Vector.set v i (record entry { value = value })

unfoldable pub has : Envmap → List ℕ → Outcome Bool
unfolding find
has none name = ok false
has (some v) name = do idx ← find v name; elim idx [ none ↦ ok false | some i ↦ ok true ]

unfoldable pub get : Envmap → List ℕ → Outcome (Option (List ℕ))
unfolding find value_at
get none name = ok none
get (some v) name = do
  idx ← find v name
  elim idx [ none ↦ ok none | some i ↦ value_at v i >>= λ value. ok (some value) ]

-- The separator, if there is one, between two values; nothing before or behind an empty old one.
unfoldable pub separator : Option (List ℕ) → List ℕ → List ℕ
separator none old = []
separator (some sep) [] = []
separator (some sep) (c ∷ old) = sep

module _ (junk : ℕ → Entry) (entry_ok : Bool) (grow : Realloc) where
  unfoldable pub add_entry : Vector Entry → List ℕ → List ℕ → Outcome (Bool × Envmap)
  add_entry v name value =
      if entry_ok
      then (do
        w ← Vector.push_back junk grow v (record { name = name; value = value })
        ok (true, some w))
      else ok (false, some v)

  unfoldable pub set : Envmap → List ℕ → List ℕ → Outcome (Bool × Envmap)
  unfolding find set_value add_entry
  set none name value = ok (false, none)
  set (some v) name value = do
    idx ← find v name
    elim idx [
      | none ↦ add_entry v name value
      | some i ↦ set_value v i value >>= λ w. ok (true, some w)
    ]

  unfoldable pub append : Envmap → List ℕ → List ℕ → Option (List ℕ) → Outcome (Bool × Envmap)
  unfolding find set_value value_at set separator
  append none name value sep = ok (false, none)
  append (some v) name value sep = do
    idx ← find v name
    elim idx [
      | none ↦ set (some v) name value
      | some i ↦ value_at v i >>= λ old.
          set_value v i ((old ++ separator sep old) ++ value) >>= λ w. ok (true, some w)
    ]

  unfoldable pub prepend : Envmap → List ℕ → List ℕ → Option (List ℕ) → Outcome (Bool × Envmap)
  unfolding find set_value value_at set separator
  prepend none name value sep = ok (false, none)
  prepend (some v) name value sep = do
    idx ← find v name
    elim idx [
      | none ↦ set (some v) name value
      | some i ↦ value_at v i >>= λ old.
          set_value v i ((value ++ separator sep old) ++ old) >>= λ w. ok (true, some w)
    ]

unfoldable pub unset : Envmap → List ℕ → Outcome (Bool × Envmap)
unfolding find
unset none name = ok (false, none)
unset (some v) name = do
  idx ← find v name
  elim idx [
    | none ↦ ok (false, some v)
    | some i ↦ Vector.remove v i >>= λ (removed, w). ok (true, some w)
  ]
