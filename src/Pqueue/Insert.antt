-- ===== src/Pqueue/Insert.antt =====
-- ucb_pqueue_push_node of src/ucb/container/pqueue.c on the bucket array: what the two branches do
-- to the abstract queue.
use ucb.Common.{
  ℕ, zero, suc, ◌+◌, ◌-◌, ◌<◌, ◌≡◌, refl, sym, ◌∙◌, List, [], ◌∷◌, ◌++◌, ltb, ◌==◌, length-append,
  arith, Bool-cases, inl, inr, ltb→lt, ==_iff,
}
use ucb.Pqueue.{
  Bucket, Search, found, missing, outside, out_of_fuel, append_at, insert_at, num_items_at,
  ins_pos_loop, ins_pos,
}
use ucb.Pqueue.BinarySearch.{AllBelow, Descending, locate, shift}
use ucb.Pqueue.Contents.{
  tag, contents, insert_stable, count_ge, Counted, insert_stable-tag, count_ge-tag,
  count_ge-tag_lower, tag-append,
}

-- The index of the bucket that gets the item.
abbrev pub index : Search → ℕ
index (found i) = i
index (missing i) = i
index outside = 0
index out_of_fuel = 0

-- The search has stopped inside the array.
abbrev pub IsPlace : Search → Type 0
IsPlace (found i) = Unit
IsPlace (missing i) = Unit
IsPlace outside = ⊥
IsPlace out_of_fuel = ⊥

module _ {ℓ} {A : Type ℓ} where
  -- The buckets after a push, by the result of the search.
  unfoldable pub placed : List (Bucket A) → Search → ℕ → A → List (Bucket A)
  unfolding append_at insert_at
  placed bs (found i) p x = append_at bs i x
  placed bs (missing i) p x =
      insert_at bs i (record { priority = p; items = x ∷ []; num_items = 1 })
  placed bs outside p x = bs
  placed bs out_of_fuel p x = bs

  count_ge-below : (p : ℕ) (bs : List (Bucket A)) → AllBelow p bs → count_ge p (contents bs) ≡ 0
  count_ge-below p [] h = refl
  count_ge-below p (b ∷ bs) h =
      count_ge-tag_lower p b.priority b.items (contents bs) h.0 ∙ count_ge-below p bs h.1

  insert_stable-below :
      (p : ℕ) (x : A) (bs : List (Bucket A))
      → AllBelow p bs
      → Counted bs
      → insert_stable p x (contents bs) ≡ (p, x) ∷ contents bs
  insert_stable-below p x [] h c = refl
  insert_stable-below p x (b ∷ bs) h c = go b.items (insert_stable-below p x bs h.1 c.2)
    where
      go :
          (xs : List A)
          → insert_stable p x (contents bs) ≡ (p, x) ∷ contents bs
          → insert_stable p x (tag b.priority xs ++ contents bs)
            ≡ (p, x) ∷ (tag b.priority xs ++ contents bs)
      go [] ih = ih
      go (y ∷ ys) ih = ground arith

  AllBelow-mono : (p q : ℕ) (bs : List (Bucket A)) → AllBelow p bs → p < q → AllBelow q bs
  AllBelow-mono p q [] a h = tt
  AllBelow-mono p q (b ∷ bs) a h = (omega arith, AllBelow-mono p q bs a.1 h)

  pub locate-IsPlace : (bs : List (Bucket A)) (p : ℕ) → IsPlace (locate bs p)
  unfolding locate
  locate-IsPlace [] p = tt
  locate-IsPlace (b ∷ bs) p = elim (Bool-cases (ltb p b.priority)) [
    | inl up ↦ rw up (shifted (locate bs p) (locate-IsPlace bs p))
    | inr here ↦
        rw here (elim (Bool-cases (b.priority == p)) [ inl eq ↦ rw eq tt | inr ne ↦ rw ne tt ])
  ]
    where
      shifted : (s : Search) → IsPlace s → IsPlace (shift s)
      shifted (found i) h = tt
      shifted (missing i) h = tt
      shifted outside h = h
      shifted out_of_fuel h = h

  placed-shift :
      (b : Bucket A) (bs : List (Bucket A)) (s : Search) (p : ℕ) (x : A)
      → placed (b ∷ bs) (shift s) p x ≡ b ∷ placed bs s p x
  unfolding placed
  placed-shift b bs (found i) p x = refl
  placed-shift b bs (missing i) p x = refl
  placed-shift b bs outside p x = refl
  placed-shift b bs out_of_fuel p x = refl

  ins_pos_loop-cons :
      (b : Bucket A) (bs : List (Bucket A)) (i n : ℕ)
      → ins_pos_loop (b ∷ bs) (suc i) n ≡ b.num_items + ins_pos_loop bs i n
  unfolding ins_pos_loop num_items_at
  ins_pos_loop-cons b bs zero n = omega arith
  ins_pos_loop-cons b bs (suc i) n = ins_pos_loop-cons b bs i (n + num_items_at bs i)

  ins_pos-shift :
      (b : Bucket A) (bs : List (Bucket A)) (s : Search)
      → IsPlace s
      → ins_pos (b ∷ bs) (index (shift s)) ≡ b.num_items + ins_pos bs (index s)
  unfolding ins_pos
  ins_pos-shift b bs (found i) h = ins_pos_loop-cons b bs i (num_items_at bs i - 1)
  ins_pos-shift b bs (missing i) h = ins_pos_loop-cons b bs i (num_items_at bs i - 1)
  ins_pos-shift b bs outside h = absurd h
  ins_pos-shift b bs out_of_fuel h = absurd h

  -- What a push does to the array, in terms of the abstract queue.
  pub record Inserted (bs : List (Bucket A)) (p : ℕ) (x : A) (s : Search) : Type ℓ where
    pub stable : contents (placed bs s p x) ≡ insert_stable p x (contents bs)
    pub position : ins_pos (placed bs s p x) (index s) ≡ count_ge p (contents bs)
    pub counted : Counted (placed bs s p x)
    pub descending : Descending (placed bs s p x)
    pub below : (q : ℕ) → p < q → AllBelow q bs → AllBelow q (placed bs s p x)

  -- The bucket that the item joins, at the head of the array.
  Inserted-found :
      (b : Bucket A) (bs : List (Bucket A)) (p : ℕ) (x : A)
      → b.priority ≡ p
      → Descending (b ∷ bs)
      → Counted (b ∷ bs)
      → Inserted (b ∷ bs) p x (found 0)
  unfolding placed ins_pos num_items_at
  Inserted-found b bs p x e d c = record {
    stable = ground (
      arith,
      tag-append b.priority b.items x (contents bs),
      insert_stable-tag p b.priority x b.items (contents bs),
      insert_stable-below p x bs lower c.2,
    );
    position =
        ground (arith, count_ge-tag p b.priority b.items (contents bs), count_ge-below p bs lower);
    counted = (ground (arith, length-append b.items (x ∷ [])), omega arith, c.2);
    descending = d;
    below = λ q h l. l;
  }
    where
      lower : AllBelow p bs
      lower = rw e at d.0

  Inserted-missing :
      (bs : List (Bucket A)) (p : ℕ) (x : A)
      → AllBelow p bs
      → Descending bs
      → Counted bs
      → Inserted bs p x (missing 0)
  unfolding placed ins_pos num_items_at
  Inserted-missing bs p x a d c = record {
    stable = sym (insert_stable-below p x bs a c);
    position = sym (count_ge-below p bs a);
    counted = (refl, omega arith, c);
    descending = (a, d);
    below = λ q h l. (h, l);
  }

  Inserted-shift :
      (b : Bucket A) (bs : List (Bucket A)) (p : ℕ) (x : A) (s : Search)
      → p < b.priority
      → IsPlace s
      → Descending (b ∷ bs)
      → Counted (b ∷ bs)
      → Inserted bs p x s
      → Inserted (b ∷ bs) p x (shift s)
  Inserted-shift b bs p x s h place d c r = record {
    stable =
        rw placed-shift ground
          (arith, insert_stable-tag p b.priority x b.items (contents bs), r.stable);
    position =
        rw (placed-shift, ins_pos-shift _ _ s place) ground
          (arith, count_ge-tag p b.priority b.items (contents bs), r.position);
    counted = rw placed-shift (c.0, c.1, r.counted);
    descending = rw placed-shift (r.below b.priority h d.0, r.descending);
    below = λ q g l. rw placed-shift (l.0, r.below q g l.1);
  }

  -- Where the scan stops, the item goes to its place in the abstract queue.
  pub locate-Inserted :
      (bs : List (Bucket A)) (p : ℕ) (x : A)
      → Descending bs
      → Counted bs
      → Inserted bs p x (locate bs p)
  unfolding locate
  locate-Inserted [] p x d c = Inserted-missing [] p x tt tt tt
  locate-Inserted (b ∷ bs) p x d c = elim (Bool-cases (ltb p b.priority)) [
    | inl up ↦ rw up (
        Inserted-shift b bs p x (locate bs p) (ltb→lt p b.priority up) (locate-IsPlace bs p) d c
          (locate-Inserted bs p x d.1 c.2))
    | inr here ↦ rw here (elim (Bool-cases (b.priority == p)) [
      | inl eq ↦ rw eq (Inserted-found b bs p x ((==_iff b.priority p).0 eq) d c)
      | inr ne ↦
          let lower : b.priority < p = ground arith in
          rw ne (Inserted-missing (b ∷ bs) p x (lower, AllBelow-mono b.priority p bs d.0 lower) d c)
    ])
  ]
