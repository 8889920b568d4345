-- ===== src/Envmap/Environ.antt =====
-- Environment maps of src/ucb/envmap.c as a whole: the map of the process's environment, the array
-- for a child process, and copies. The entries of `environ` are an argument. Whether an allocation
-- succeeds is one too: of an entry, of a larger vector, of a map or its vector, of an array.
use ucb.Common.{
  ℕ, zero, suc, ◌+◌, Bool, true, false, Option, none, some, List, [], ◌∷◌, ◌++◌, ◌==◌,
  if◌then◌else◌,
}
use ucb.Common.Outcome.{Realloc, Outcome, ok, ◌>>=◌, ◌>>◌, verify}
use ucb.Utf8.{valid, validate}
use ucb.Vector.{Vector, new_vector}
use ucb.Vector
use ucb.Envmap.{Entry, Envmap, new_map}

-- The bytes of a string before the first NUL, as strlen and memcpy take them.
unfoldable pub cstr : List ℕ → List ℕ
cstr [] = []
cstr (c ∷ s) = if c == 0 then [] else c ∷ cstr s

-- strchr with '='.
unfoldable pub split_eq : List ℕ → Option (List ℕ × List ℕ)
split_eq [] = none
split_eq (c ∷ s) = elim (c == 61) [
  | true ↦ some ([], s)
  | false ↦ elim (split_eq s) [ none ↦ none | some r ↦ some (c ∷ r.0, r.1) ]
]

-- ucb_str_new aborts on bytes that are not UTF-8.
unfoldable pub is_text : List ℕ → Bool
is_text s = elim (validate s) [ valid ↦ true | _ ↦ false ]

unfoldable pub named_entry : Bool → List ℕ × List ℕ → Outcome (Option Entry)
unfolding is_text
named_entry entry_ok ([], value) = ok none
named_entry entry_ok (c ∷ name, value) =
    if entry_ok
    then (do
      verify (is_text (c ∷ name))
      verify (is_text value)
      ok (some (record { name = c ∷ name; value = value })))
    else ok none

unfoldable pub entry_from_nv : Bool → List ℕ → Outcome (Option Entry)
unfolding split_eq named_entry
entry_from_nv entry_ok nv = elim (split_eq nv) [ none ↦ ok none | some r ↦ named_entry entry_ok r ]

module _ (junk : ℕ → Entry) (entry_ok : Bool) (grow : Realloc) where
  unfoldable pub add_parsed : Vector Entry → Option Entry → Outcome (Vector Entry)
  add_parsed v none = ok v
  add_parsed v (some entry) = Vector.push_back junk grow v entry

  unfoldable pub load_loop : List (List ℕ) → Vector Entry → Outcome (Vector Entry)
  unfolding entry_from_nv add_parsed
  load_loop [] v = ok v
  load_loop (nv ∷ environ) v = do
    entry ← entry_from_nv entry_ok nv
    w ← add_parsed v entry
    load_loop environ w

  unfoldable pub init_from_current : List (List ℕ) → Envmap → Outcome Envmap
  unfolding load_loop
  init_from_current environ none = ok none
  init_from_current environ (some v) = do w ← load_loop environ v; ok (some w)

  -- `n` entries of the source from index `i` on; an entry that cannot be cloned is left out.
  unfoldable pub copy_loop : ℕ → ℕ → Vector Entry → Vector Entry → Outcome (Vector Entry)
  copy_loop zero i src dst = ok dst
  copy_loop (suc n) i src dst = do
    entry ← Vector.get src i
    w ← if entry_ok then Vector.push_back junk grow dst entry else ok dst
    copy_loop n (i + 1) src w

  -- The maps are two.
  unfoldable pub copy : (new_ok : Bool) → (dst src : Envmap) → Outcome Envmap
  unfolding copy_loop
  copy new_ok dst none = ok dst
  copy new_ok dst (some src) =
      if new_ok then (do w ← copy_loop src.size 0 src new_vector; ok (some w)) else ok none

  unfoldable pub clone : (map_ok new_ok : Bool) → Envmap → Outcome (Option Envmap)
  unfolding copy
  clone map_ok new_ok src =
      if map_ok then (do w ← copy new_ok new_map src; ok (some w)) else ok none

-- The calls of ucb_env_set and ucb_env_unset that apply makes: an empty value takes the name away.
data EnvCall : Type 0 where
  env_set : List ℕ → List ℕ → EnvCall
  env_unset : List ℕ → EnvCall

abbrev env_call : Entry → EnvCall
env_call entry = elim entry.value [
  | [] ↦ env_unset entry.name
  | ◌∷◌ c value ↦ env_set entry.name entry.value
]

unfoldable apply_loop : ℕ → ℕ → Vector Entry → Outcome (List EnvCall)
apply_loop zero i v = ok []
apply_loop (suc n) i v = do
  entry ← Vector.get v i
  rest ← apply_loop n (i + 1) v
  ok (env_call entry ∷ rest)

unfoldable apply : Envmap → Outcome (List EnvCall)
unfolding apply_loop
apply none = ok []
apply (some v) = apply_loop v.size 0 v

unfoldable reserve : (ℕ → Entry) → Realloc → Envmap → ℕ → Outcome Envmap
reserve junk grow none count = ok none
reserve junk grow (some v) count = do (reserved, w) ← Vector.reserve junk grow v count; ok (some w)

-- The array for a child process; `none` is an error that is thrown.
unfoldable pub text_of : Entry → List ℕ
unfolding cstr
text_of entry = cstr entry.name ++ (61 ∷ cstr entry.value)

unfoldable pub envp_loop :
    (text_ok : Bool) → ℕ → ℕ → Vector Entry → Outcome (Option (List (List ℕ)))
unfolding text_of
envp_loop text_ok zero i v = ok (some [])
envp_loop text_ok (suc n) i v = Vector.get v i >>= λ entry. elim text_ok [
  | false ↦ ok none
  | true ↦ envp_loop text_ok n (i + 1) v >>= λ rest.
      ok (elim rest [ none ↦ none | some r ↦ some (text_of entry ∷ r) ])
]

unfoldable pub to_envp : (array_ok text_ok : Bool) → Envmap → Outcome (Option (List (List ℕ)))
unfolding envp_loop
to_envp array_ok text_ok none = if array_ok then ok (some []) else ok none
to_envp array_ok text_ok (some v) = if array_ok then envp_loop text_ok v.size 0 v else ok none
