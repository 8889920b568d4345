-- ===== src/Envmap/Tests.antt =====
-- Runs of the environment map of src/ucb/envmap.c, and its theorems at concrete inputs.
use ucb.Common.{ℕ, ◌≡◌, refl, true, false, some, none, List, [], ◌∷◌, All, arith}
use ucb.Common.Outcome.{granted, ok, Returns}
use ucb.Utf8.{validate, validate_loop, check_at}
use ucb.Path.Bytes.{str_equal, same_bytes}
use ucb.Vector.{Vector}
use ucb.Vector.Elements.{contents, IsValid}
use ucb.Envmap.{Entry, new_map, separator}
use ucb.Envmap.Lookup.{lookup}
use ucb.Envmap.Changes.{Tracks}
use ucb.Envmap.Table.{is_some, behind, before}
use ucb.Envmap.Session.{Op, Reply, run, table_run, table_step, run-table_run}
use ucb.Envmap.Environ.{init_from_current, to_envp}
use ucb.Envmap.Transfer.{Has, IsVariable, envp_roundtrip}

-- "A=xy" and "B=", in a vector of two.
abbrev entry_a : Entry
entry_a = record { name = 65 ∷ []; value = 120 ∷ 121 ∷ [] }

abbrev entry_b : Entry
entry_b = record { name = 66 ∷ []; value = [] }

abbrev sample : Vector Entry
sample = record { elements = entry_a ∷ entry_b ∷ []; size = 2; capacity = 2; lost = false }

sample-IsValid : IsValid sample
sample-IsValid = record { filled = refl; room = omega arith; live = refl }

-- What a larger array holds.
abbrev junk : ℕ → Entry
junk i = entry_b

abbrev calls : List Op
calls =
    Op.append (65 ∷ []) (122 ∷ []) (some (58 ∷ []))
    ∷ Op.get (65 ∷ [])
    ∷ Op.set (67 ∷ []) (49 ∷ [])
    ∷ Op.unset (66 ∷ [])
    ∷ Op.has (66 ∷ [])
    ∷ Op.prepend (67 ∷ []) (50 ∷ []) none
    ∷ Op.get (67 ∷ [])
    ∷ []

sample-Tracks : Tracks sample (lookup (contents sample))
unfolding str_equal same_bytes
sample-Tracks = record { valid = sample-IsValid; distinct = (refl, (refl, tt)); same = λ k. refl }

replies :
    run junk (some sample) calls
    ≡ ok (
        Reply.did true
        ∷ Reply.gave (some (120 ∷ 121 ∷ 58 ∷ 122 ∷ []))
        ∷ Reply.did true
        ∷ Reply.did true
        ∷ Reply.did false
        ∷ Reply.did true
        ∷ Reply.gave (some (50 ∷ 49 ∷ []))
        ∷ [])
unfolding str_equal same_bytes table_run table_step is_some behind before separator
replies = run-table_run junk calls sample (lookup (contents sample)) sample-Tracks (omega arith)

run-table_run_example :
    run junk (some sample) calls ≡ ok (table_run (lookup (contents sample)) calls)
run-table_run_example =
    run-table_run junk calls sample (lookup (contents sample)) sample-Tracks (omega arith)

variables : All IsVariable (contents sample)
unfolding validate validate_loop check_at
variables = (
  record {
    first = 65;
    others = [];
    named = refl;
    no_eq = (refl, tt);
    name_NoNul = (refl, tt);
    value_NoNul = (refl, (refl, tt));
    name_text = refl;
    value_text = refl;
  },
  (
    record {
      first = 66;
      others = [];
      named = refl;
      no_eq = (refl, tt);
      name_NoNul = (refl, tt);
      value_NoNul = tt;
      name_text = refl;
      value_text = refl;
    },
    tt,
  ),
)

envp_roundtrip_example :
    Returns
      (λ o.
        (environ : List (List ℕ)) × (o ≡ some environ)
        × Returns
            (λ m. (w : Vector Entry) × (m ≡ some w) × Has (contents sample) w)
            (init_from_current junk true granted environ new_map))
      (to_envp true true (some sample))
envp_roundtrip_example = envp_roundtrip junk sample sample-IsValid variables (omega arith)
