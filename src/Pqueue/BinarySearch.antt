-- ===== src/Pqueue/BinarySearch.antt =====
-- ucb_pqueue_search_bucket of src/ucb/container/pqueue.c: the binary search against a linear scan.
use ucb.Common.{
  ℕ, zero, suc, ◌+◌, ◌-◌, ◌/◌, ◌≤◌, ◌<◌, ◌≡◌, refl, sym, Option, none, some, List, [], ◌∷◌, ltb,
  leb, ◌==◌, if◌then◌else◌, length, get_elem?, get_elem?-some, arith, Bool-cases, inl, inr,
}
use ucb.Pqueue.{Bucket, Search, found, missing, outside, out_of_fuel, search_loop, search_bucket}

abbrev pub shift : Search → Search
shift (found i) = found (suc i)
shift (missing i) = missing (suc i)
shift outside = outside
shift out_of_fuel = out_of_fuel

module _ {ℓ} {A : Type ℓ} where
  abbrev pub AllBelow : ℕ → List (Bucket A) → Type 0
  AllBelow p [] = Unit
  AllBelow p (b ∷ bs) = (b.priority < p) × AllBelow p bs

  -- Priorities fall from each bucket to all later ones.
  abbrev pub Descending : List (Bucket A) → Type 0
  Descending [] = Unit
  Descending (b ∷ bs) = AllBelow b.priority bs × Descending bs

  -- The linear scan: past the buckets of higher priority.
  unfoldable pub locate : List (Bucket A) → ℕ → Search
  locate [] p = missing 0
  locate (b ∷ bs) p =
      if ltb p b.priority
      then shift (locate bs p)
      else if b.priority == p
      then found 0
      else missing 0

  -- The bucket at `i`, where there is one, satisfies `P`.
  abbrev At : (ℕ → Type 0) → Option (Bucket A) → Type 0
  At P none = Unit
  At P (some b) = P b.priority

  AllBelow-At :
      (p q : ℕ) (bs : List (Bucket A)) (i : ℕ)
      → AllBelow p bs
      → p ≤ q
      → At (λ r. r < q) (get_elem? bs i)
  AllBelow-At p q [] i h le = tt
  AllBelow-At p q (b ∷ bs) zero h le = omega arith
  AllBelow-At p q (b ∷ bs) (suc i) h le = AllBelow-At p q bs i h.1 le

  -- Below index `i` a bucket with a priority above that of the one at `i`; from `i` on, lower.
  locate-found :
      (bs : List (Bucket A)) (i p : ℕ) (b : Bucket A)
      → Descending bs
      → get_elem? bs i ≡ some b
      → b.priority ≡ p
      → locate bs p ≡ found i
  unfolding locate
  locate-found [] i p b d e h = absurd (cc)
  locate-found (c ∷ bs) zero p b d e h = ground arith
  locate-found (c ∷ bs) (suc i) p b d e h = ground (arith, locate-found bs i p b d.1 e h, below)
    where
      below : b.priority < c.priority
      below = rw e at (AllBelow-At c.priority c.priority bs i d.0 (omega arith))

  locate-missing :
      (bs : List (Bucket A)) (i p : ℕ)
      → i ≤ length bs
      → ((j : ℕ) → j < i → At (λ r. p < r) (get_elem? bs j))
      → At (λ r. r < p) (get_elem? bs i)
      → locate bs p ≡ missing i
  unfolding locate
  locate-missing [] zero p le above below = refl
  locate-missing [] (suc i) p le above below = absurd (omega arith)
  locate-missing (b ∷ bs) zero p le above below = ground arith
  locate-missing (b ∷ bs) (suc i) p le above below = ground (
    arith,
    above 0 (omega arith),
    locate-missing bs i p (omega arith) (λ j h. above (suc j) (omega arith)) below,
  )

  -- Where one bucket's priority is above `p`, so are those of the earlier ones.
  above-At :
      (bs : List (Bucket A)) (i j p : ℕ) (b : Bucket A)
      → Descending bs
      → get_elem? bs i ≡ some b
      → p < b.priority
      → j < i + 1
      → At (λ r. p < r) (get_elem? bs j)
  above-At [] i j p b d e h le = tt
  above-At (c ∷ bs) zero zero p b d e h le = ground arith
  above-At (c ∷ bs) zero (suc j) p b d e h le = absurd (omega arith)
  above-At (c ∷ bs) (suc i) zero p b d e h le =
      let lower : b.priority < c.priority =
        rw e at (AllBelow-At c.priority c.priority bs i d.0 (omega arith)) in
      omega arith
  above-At (c ∷ bs) (suc i) (suc j) p b d e h le = above-At bs i j p b d.1 e h (omega arith)

  -- One step of the search sees the range `low` to `end` only.
  search_loop-locate :
      (fuel : ℕ) (bs : List (Bucket A)) (p low end : ℕ)
      → Descending bs
      → end < low + fuel
      → low ≤ end
      → end ≤ length bs
      → ((j : ℕ) → j < low → At (λ r. p < r) (get_elem? bs j))
      → At (λ r. r < p) (get_elem? bs end)
      → search_loop fuel bs p low end ≡ locate bs p
  unfolding search_loop
  search_loop-locate zero bs p low end d f le lt above below = absurd (omega arith)
  search_loop-locate (suc fuel) bs p low end d f le lt above below =
      elim (Bool-cases (ltb low end)) [
        | inr stop ↦
            let e : low ≡ end = ground arith in
            rw (stop, search_loop) (sym (locate-missing bs low p (omega arith) above (rw e below)))
        | inl go ↦
            let inside : mid < length bs = ground arith in
            let (b, at) = get_elem?-some bs mid inside in
            rw (go, search_loop)
              (rw (at, search_loop)
                (elim (Bool-cases (b.priority == p)) [
                  | inl eq ↦
                      rw (eq, search_loop) (sym (locate-found bs mid p b d at (ground arith)))
                  | inr ne ↦ elim (Bool-cases (leb p b.priority)) [
                    | inl up ↦
                        rw (ne, search_loop)
                          (rw (up, search_loop)
                            ((search_loop-locate fuel bs p (mid + 1) end d (omega arith)
                              (ground arith) lt (λ j h. above-At bs mid j p b d at (ground arith) h)
                              below)))
                    | inr down ↦
                        rw (ne, search_loop)
                          (rw (down, search_loop)
                            ((search_loop-locate fuel bs p low mid d (ground arith) (ground arith)
                              (omega arith) above (rw at (ground arith)))))
                  ]
                ]))
      ]
    where
      mid : ℕ
      mid = low + (end - 1 - low) / 2

  -- On buckets of falling priority the binary search ends within its fuel, reads no index outside
  -- the array, and gives what the linear scan gives.
  pub search_bucket-locate :
      (bs : List (Bucket A)) (p : ℕ) → Descending bs → search_bucket bs p ≡ locate bs p
  unfolding search_bucket
  search_bucket-locate bs p d =
      search_loop-locate (length bs + 1) bs p 0 (length bs) d (omega arith) (omega arith)
        (omega arith) (λ j h. absurd (omega arith)) (past bs)
    where
      past : (cs : List (Bucket A)) → At (λ r. r < p) (get_elem? cs (length cs))
      past [] = tt
      past (c ∷ cs) = past cs
