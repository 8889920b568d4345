-- ===== src/Vector/Search.antt =====
-- Finding and inserting by a comparison, in include/ucb/container/templates/vector_template.h.
-- The result of the comparison, an `int` r, is kept as r + 2 ^ 31. `high` is `end - 1`.
use ucb.Common.{ℕ, zero, suc, ◌+◌, ◌-◌, ◌/◌, ◌^◌, true, false, List, ltb, ◌==◌}
use ucb.Common.Outcome.{Realloc, Outcome, ok, ◌>>=◌}
use ucb.Vector.{Vector, array, load, insert}

-- An index, or `-(index + 1)` for an insert point.
pub data Find : Type 0 where
  hit gap : ℕ → Find
  out_of_fuel : Find

-- To the right of the matches, or at the insert point.
unfoldable pub ins_index : Find → ℕ
ins_index (hit i) = i + 1
ins_index (gap i) = i
ins_index out_of_fuel = 0

module _ {ℓ} {A : Type ℓ} (func : A → A → ℕ) (val : A) where
  -- To the rightmost of the elements that compare equal.
  unfoldable pub find_right : ℕ → List A → ℕ → ℕ → Outcome Find
  find_right zero d mid end = ok out_of_fuel
  find_right (suc fuel) d mid end = elim (ltb (mid + 1) end) [
    | false ↦ ok (hit mid)
    | true ↦ load d (mid + 1) >>= λ y. elim (func val y == 2 ^ 31) [
      | true ↦ find_right fuel d (mid + 1) end
      | false ↦ ok (hit mid)
    ]
  ]

  unfoldable pub find_loop : ℕ → List A → ℕ → ℕ → Outcome Find
  unfolding find_right
  find_loop zero d low end = ok out_of_fuel
  find_loop (suc fuel) d low end =
      let mid = low + (end - 1 - low) / 2 in
      elim (ltb low end) [
        | false ↦ ok (gap low)
        | true ↦ load d mid >>= λ y. elim (func val y == 2 ^ 31) [
          | true ↦ find_right end d mid end
          | false ↦ elim (ltb (func val y) (2 ^ 31)) [
            | true ↦ find_loop fuel d low mid
            | false ↦ find_loop fuel d (mid + 1) end
          ]
        ]
      ]

  unfoldable pub find_with : Vector A → Outcome Find
  unfolding find_loop
  find_with v = do d ← array v; find_loop (suc v.size) d 0 v.size

  unfoldable pub insert_sorted_with : (ℕ → A) → Realloc → Vector A → Outcome (ℕ × Vector A)
  unfolding find_with ins_index insert
  insert_sorted_with junk mem v = do
    pos ← find_with v
    w ← insert junk mem v (ins_index pos) val
    ok (ins_index pos, w)
