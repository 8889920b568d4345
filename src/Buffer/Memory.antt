-- ===== src/Buffer/Memory.antt =====
-- The memory of a buffer: what realloc and memcpy do to it, for src/ucb/buffer.c.
use ucb.Common.{
  ℕ, zero, suc, ◌+◌, ◌-◌, ◌≤◌, ◌≡◌, refl, sym, ap, ◌∙◌, List, [], ◌∷◌, ◌++◌, leb, if◌then◌else◌,
  length, length-append, take, arith, min, append-nil,
}
use ucb.Common.Outcome.{Outcome, ok, fault}

pub zeros : ℕ → List ℕ
zeros zero = []
zeros (suc n) = 0 ∷ zeros n

-- `n` bytes of an allocation from index `i` on, that nothing has been written to.
fresh : (ℕ → ℕ) → ℕ → ℕ → List ℕ
fresh junk i zero = []
fresh junk i (suc n) = junk i ∷ fresh junk (i + 1) n

-- realloc to `n` bytes keeps the bytes that fit.
unfoldable pub realloc : (ℕ → ℕ) → ℕ → List ℕ → List ℕ
unfolding fresh
realloc junk n s = take n s ++ fresh junk (length s) (n - length s)

-- Bytes written over those from `off` on.
overwrite : ℕ → List ℕ → List ℕ → List ℕ
overwrite off [] s = s
overwrite zero (b ∷ bs) [] = []
overwrite zero (b ∷ bs) (c ∷ s) = b ∷ overwrite zero bs s
overwrite (suc off) (b ∷ bs) [] = []
overwrite (suc off) (b ∷ bs) (c ∷ s) = c ∷ overwrite off (b ∷ bs) s

-- memcpy into the memory; a write past its end is a fault.
unfoldable pub write : ℕ → List ℕ → List ℕ → Outcome (List ℕ)
unfolding overwrite
write off bs s = if leb (off + length bs) (length s) then ok (overwrite off bs s) else fault

length-zeros : (n : ℕ) → length (zeros n) ≡ n
unfolding zeros
length-zeros zero = refl
length-zeros (suc n) = ap suc (length-zeros n)

length-fresh : (junk : ℕ → ℕ) (i n : ℕ) → length (fresh junk i n) ≡ n
unfolding fresh
length-fresh junk i zero = refl
length-fresh junk i (suc n) = ap suc (length-fresh junk (i + 1) n)

pub length-take : (n : ℕ) (s : List ℕ) → length (take n s) ≡ min n (length s)
length-take zero s = omega arith
length-take (suc n) [] = omega arith
length-take (suc n) (b ∷ s) = omega (arith, length-take n s)

take-append : (n : ℕ) (s t : List ℕ) → n ≤ length s → take n (s ++ t) ≡ take n s
take-append zero s t h = refl
take-append (suc n) [] t h = absurd (omega arith)
take-append (suc n) (b ∷ s) t h = ap (◌∷◌ b) (take-append n s t (omega arith))

pub take-take : (n m : ℕ) (s : List ℕ) → n ≤ m → take n (take m s) ≡ take n s
take-take zero m s h = refl
take-take (suc n) zero s h = absurd (omega arith)
take-take (suc n) (suc m) [] h = refl
take-take (suc n) (suc m) (b ∷ s) h = ap (◌∷◌ b) (take-take n m s (omega arith))

pub length-realloc : (junk : ℕ → ℕ) (n : ℕ) (s : List ℕ) → length (realloc junk n s) ≡ n
unfolding realloc
length-realloc junk n s = omega (
  arith,
  length-append (take n s) (fresh junk (length s) (n - length s)),
  length-fresh junk (length s) (n - length s),
  length-take n s,
)

-- What fits stays.
pub take-realloc :
    (junk : ℕ → ℕ) (n k : ℕ) (s : List ℕ)
    → k ≤ n
    → k ≤ length s
    → take k (realloc junk n s) ≡ take k s
unfolding realloc
take-realloc junk n k s h h' =
    take-append k (take n s) _ (omega (arith, length-take n s)) ∙ take-take k n s h

length-overwrite : (off : ℕ) (bs s : List ℕ) → length (overwrite off bs s) ≡ length s
unfolding overwrite
length-overwrite off [] s = refl
length-overwrite zero (b ∷ bs) [] = refl
length-overwrite zero (b ∷ bs) (c ∷ s) = ap suc (length-overwrite zero bs s)
length-overwrite (suc off) (b ∷ bs) [] = refl
length-overwrite (suc off) (b ∷ bs) (c ∷ s) = ap suc (length-overwrite off (b ∷ bs) s)

-- The bytes up to the end of those written.
take-overwrite :
    (off : ℕ) (bs s : List ℕ)
    → off + length bs ≤ length s
    → take (off + length bs) (overwrite off bs s) ≡ take off s ++ bs
unfolding overwrite
take-overwrite off [] s h =
    let e : off + 0 ≡ off = omega arith in rw e (sym (append-nil (take off s)))
take-overwrite zero (b ∷ bs) [] h = absurd (omega arith)
take-overwrite zero (b ∷ bs) (c ∷ s) h =
    let e : 0 + suc (length bs) ≡ suc (0 + length bs) = omega arith in
    rw e (ap (◌∷◌ b) (take-overwrite zero bs s (omega arith)))
take-overwrite (suc off) (b ∷ bs) [] h = absurd (omega arith)
take-overwrite (suc off) (b ∷ bs) (c ∷ s) h =
    let e : suc off + suc (length bs) ≡ suc (off + suc (length bs)) = omega arith in
    rw e (ap (◌∷◌ c) (take-overwrite off (b ∷ bs) s (omega arith)))

-- A write that fits succeeds, and what stands up to its end is what stood before it and the bytes.
pub write-fits :
    (off : ℕ) (bs s : List ℕ)
    → off + length bs ≤ length s
    → (t : List ℕ) × (write off bs s ≡ ok t)
      × (length t ≡ length s)
      × (take (off + length bs) t ≡ take off s ++ bs)
unfolding write
write-fits off bs s h =
    (overwrite off bs s, ground arith, length-overwrite off bs s, take-overwrite off bs s h)
