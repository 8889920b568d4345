-- ===== src/Vector/Tests.antt =====
-- Runs of the vector of include/ucb/container/templates/vector_template.h, and its theorems at
-- concrete inputs.
use ucb.Common.{
  ℕ, ◌+◌, ◌-◌, ◌^◌, ◌≡◌, refl, false, some, none, List, [], ◌∷◌, arith, ltb, ◌==◌, if◌then◌else◌,
}
use ucb.Common.Outcome.{aborted, fatal, granted, null, ok, fault, ◌>>=◌, Returns}
use ucb.Vector.{Vector, fit, push_back, insert, get, free_vector}
use ucb.Vector.Elements.{contents, IsValid}
use ucb.Vector.Session.{Op, run, list_run, list_step, found, take_out, put_in, session_refines}
use ucb.Vector.Search.{hit, gap, find_with, find_loop, find_right, insert_sorted_with}
use ucb.Vector.Finds.{Found, find_with-Found}
use ucb.Vector.Insertion.{Inserted, insert_sorted_with-Inserted}
use ucb.Vector.Shrink.{fit-empty, insert-no_memory}

-- What a larger array holds.
abbrev junk : ℕ → ℕ
junk i = 99

-- Four sorted elements, of which the middle ones are equal, in an array of four.
abbrev sample : Vector ℕ
sample = record { elements = 2 ∷ 5 ∷ 5 ∷ 9 ∷ []; size = 4; capacity = 4; lost = false }

sample-IsValid : IsValid sample
sample-IsValid = record { filled = refl; room = omega arith; live = refl }

abbrev compare : ℕ → ℕ → ℕ
compare a b = if ltb a b then 2 ^ 31 - 1 else if a == b then 2 ^ 31 else 2 ^ 31 + 1

find_rightmost : find_with compare 5 sample ≡ ok (hit 2)
unfolding find_with find_loop find_right
find_rightmost = refl

find_missing : find_with compare 6 sample ≡ ok (gap 3)
unfolding find_with find_loop find_right
find_missing = refl

abbrev calls : List (Op ℕ)
calls =
    Op.push_back 7
    ∷ Op.insert 1 3
    ∷ Op.remove 0
    ∷ Op.set 0 4
    ∷ Op.get 0
    ∷ Op.pop_back
    ∷ Op.push_front 1
    ∷ Op.pop_front
    ∷ []

replies :
    run junk sample calls ≡ ok (none ∷ none ∷ some 2 ∷ none ∷ some 4 ∷ some 7 ∷ none ∷ some 1 ∷ [])
unfolding list_run list_step found take_out put_in
replies = session_refines junk calls sample sample-IsValid (omega arith)

session_refines_example : run junk sample calls ≡ list_run (contents sample) calls
session_refines_example = session_refines junk calls sample sample-IsValid (omega arith)

find_with-Found_example : Returns (Found compare 5 (contents sample)) (find_with compare 5 sample)
find_with-Found_example = find_with-Found compare 5 sample sample-IsValid (omega arith)

insert_sorted_with-Inserted_example :
    Returns (Inserted compare 5 sample) (insert_sorted_with compare 5 junk granted sample)
insert_sorted_with-Inserted_example =
    insert_sorted_with-Inserted compare 5 junk sample sample-IsValid (omega arith) (omega arith)

fit-empty_example :
    let v = record sample { size = 0 } in
    ((fit granted v >>= λ w. push_back junk granted w 3) ≡ fault)
    × ((fit granted v >>= free_vector) ≡ fault)
fit-empty_example =
    fit-empty junk granted (record sample { size = 0 }) 3
      (record { filled = refl; room = omega arith; live = refl }) refl (omega arith)

insert-no_memory_example :
    (insert junk fatal sample 2 6 ≡ aborted)
    × Returns (λ w. (w.size ≡ 4) × (get w 1 ≡ fault)) (insert junk null sample 2 6)
insert-no_memory_example =
    insert-no_memory junk sample 2 1 6 sample-IsValid (omega arith) refl (omega arith) (omega arith)
      (omega arith)
