-- ===== src/Pqueue/Tests.antt =====
-- Runs of the priority queue of src/ucb/container/pqueue.c, and its theorems at concrete inputs.
use ucb.Common.{ℕ, ◌≡◌, refl, inl, true, false, none, some, List, [], ◌∷◌, arith}
use ucb.Common.Outcome.{aborted, fatal, granted, null, ok, blocked, Returns}
use ucb.Pqueue.{Bucket, Pqueue, free, is_some, search_bucket, push_node, push}
use ucb.Pqueue.Take
use ucb.Pqueue.BinarySearch.{locate, search_bucket-locate}
use ucb.Pqueue.Contents.{contents, IsValid}
use ucb.Pqueue.Push.{Queued, entry, push_refines}
use ucb.Pqueue.Failure.{stranded, push_unchanged, push-stranded, stranded_blocked}
use ucb.Pqueue.Session.{Op, position, item, count, test, run, list_run, run_refines}

abbrev single : ℕ → Bucket ℕ
single p = record { priority = p; items = p ∷ []; num_items = 1 }

-- Two items of priority 9 before one of priority 4.
abbrev sample : Pqueue ℕ
sample = record {
  buckets =
      record { priority = 9; items = 1 ∷ 2 ∷ []; num_items = 2 }
      ∷ record { priority = 4; items = 3 ∷ []; num_items = 1 }
      ∷ [];
  alloc_buckets = 16;
  lost = false;
  data_clone = none;
  data_free = true;
  mutex = free;
}

-- Sixteen buckets, of priorities 32 down to 2.
abbrev full : Pqueue ℕ
full = record sample {
  buckets =
      single 32
      ∷ single 30
      ∷ single 28
      ∷ single 26
      ∷ single 24
      ∷ single 22
      ∷ single 20
      ∷ single 18
      ∷ single 16
      ∷ single 14
      ∷ single 12
      ∷ single 10
      ∷ single 8
      ∷ single 6
      ∷ single 4
      ∷ single 2
      ∷ [];
}

sample-IsValid : IsValid sample
unfolding is_some
sample-IsValid = record {
  descending = omega arith;
  counted = omega arith;
  room = omega arith;
  initial = omega arith;
  live = refl;
  owned = refl;
  unlocked = cc;
}

full-IsValid : IsValid full
unfolding is_some
full-IsValid = record {
  descending = omega arith;
  counted = omega arith;
  room = omega arith;
  initial = omega arith;
  live = refl;
  owned = refl;
  unlocked = cc;
}

abbrev script : List (Op ℕ)
script = Op.push 7 9 ∷ Op.push 8 5 ∷ Op.pop ∷ Op.peek ∷ Op.size ∷ Op.empty ∷ []

run-script :
    run sample script
    ≡ ok (
        position (some 2)
        ∷ position (some 3)
        ∷ item (some 1)
        ∷ item (some 2)
        ∷ count 4
        ∷ test false
        ∷ [])
unfolding list_run
run-script = run_refines script sample sample-IsValid refl

run_refines_example : run sample script ≡ ok (list_run (contents sample.buckets) script)
run_refines_example = run_refines script sample sample-IsValid refl

push_refines_example :
    Returns (λ r. Queued sample 9 7 (r.0, r.1) × (r.2 ≡ [])) (push sample 7 9 true null)
unfolding entry
push_refines_example = push_refines sample 7 7 9 null sample-IsValid (inl (omega arith)) refl

search_bucket-locate_example : search_bucket full.buckets 7 ≡ locate full.buckets 7
search_bucket-locate_example = search_bucket-locate full.buckets 7 (omega arith)

push_unchanged_example : push sample 7 9 false granted ≡ ok (none, sample, [])
push_unchanged_example = push_unchanged sample 7 9 false granted (inl refl)

push-stranded_example :
    (push full 7 5 true fatal ≡ aborted)
    × Returns (λ r. (r.0 ≡ none) × (r.1 ≡ stranded full)) (push full 7 5 true null)
unfolding entry
push-stranded_example = push-stranded full 7 7 5 full-IsValid refl (omega arith) refl

stranded_blocked_example :
    (push_node (stranded full) 5 7 granted ≡ blocked)
    × (Take.pop (stranded full) ≡ blocked)
    × (Take.peek (stranded full) ≡ blocked)
    × (Take.size (stranded full) ≡ blocked)
    × (Take.empty (stranded full) ≡ blocked)
    × (Take.clear (stranded full) ≡ blocked)
stranded_blocked_example = stranded_blocked full 7 5 granted refl
