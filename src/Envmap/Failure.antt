-- ===== src/Envmap/Failure.antt =====
-- ucb_envmap_set of src/ucb/envmap.c where the vector of entries cannot grow.
use ucb.Common.{ℕ, zero, suc, ◌^◌, ◌<◌, ◌≡◌, refl, true, false, ltb, none, some, List, arith}
use ucb.Common.Outcome.{null, ok, fault, Returns, returns, Returns-bind}
use ucb.Vector
use ucb.Vector.{Vector}
use ucb.Vector.Elements.{IsValid}
use ucb.Vector.Shrink.{insert-no_memory}
use ucb.Envmap.{Entry, find_from, find, add_entry, set}

find-fault :
    (n : ℕ) (w : Vector Entry) (k : List ℕ)
    → 0 < n
    → Vector.get w 0 ≡ fault
    → find_from n 0 w k ≡ fault
unfolding find_from
find-fault zero w k h e = absurd (omega arith)
find-fault (suc n) w k h e = rw (find_from, e) refl

-- The call for a new name, on a valid map whose vector has an array that is full and cannot grow,
-- where a handler of fatal errors returns, returns true, but whatever name is looked up next, the array that is read has been freed.
set-no_memory :
    (junk : ℕ → Entry) (v : Vector Entry) (name value : List ℕ)
    → IsValid v
    → find v name ≡ ok none
    → v.size ≡ v.capacity
    → 0 < v.capacity
    → v.capacity < 2 ^ 63
    → Returns
        (λ r.
          (r.0 ≡ true) × (w : Vector Entry) × (r.1 ≡ some w) × ((k : List ℕ) → find w k ≡ fault))
        (set junk true null (some v) name value)
unfolding set add_entry Vector.push_back find
set-no_memory junk v name value h fresh full more small =
    let at_end : ltb v.size v.capacity ≡ false = ground arith in
    let entry : Entry = record { name = name; value = value } in
    rw (fresh, at_end)
      (Returns-bind
        (insert-no_memory junk v v.size 0 entry h (omega arith) full more small (omega arith)).1
        λ w (same, gone). returns (refl, w, refl, λ k. find-fault w.size w k (omega arith) gone))
