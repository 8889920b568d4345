-- ===== src/Buffer/Room.antt =====
-- Resizing, growing and ensuring room in src/ucb/buffer.c.
use ucb.Common.{
  ℕ, zero, suc, ◌+◌, ◌-◌, ◌≤◌, ◌≡◌, refl, sym, ap, ◌∙◌, subst, ◌⊎◌, inl, inr, Bool, true, false,
  Option, none, some, List, [], ltb, leb, ◌==◌, length, take, arith, Bool-cases, ==_iff,
}
use ucb.Common.Outcome.{Returns, returns, Returns-map}
use ucb.Buffer.{
  Backing, fixed, heap, is_heap, Grow, Buffer, contents, size_max, resize_heap, cut_size, resize,
  grow_by, grow, ensure,
}
use ucb.Buffer.Memory.{realloc, length-realloc, take-realloc}

pub record IsValid (buf : Buffer) : Type 0 where
  pub within : buf.size ≤ buf.alloc
  pub memory : length buf.bytes ≡ buf.alloc
  pub bounded : buf.alloc ≤ size_max

-- A grow function keeps its contract: the capacity that it gives has room for the bytes needed, and
-- is a size_t.
abbrev pub Meets : Option Grow → Type 0
Meets none = Unit
Meets (some g) =
    (bytes : List ℕ) (size alloc inc : ℕ)
    → alloc + inc ≤ size_max
    → (alloc + inc ≤ g bytes size alloc inc) × (g bytes size alloc inc ≤ size_max)

pub is_heap-heap : (b : Backing) → b ≡ heap → is_heap b ≡ true
unfolding is_heap
is_heap-heap fixed h = absurd (cc)
is_heap-heap heap h = refl

pub eq_heap_of_is_heap : (b : Backing) → is_heap b ≡ true → b ≡ heap
unfolding is_heap
eq_heap_of_is_heap fixed h = absurd (cc)
eq_heap_of_is_heap heap h = refl

pub eq_fixed_of_not_is_heap : (b : Backing) → is_heap b ≡ false → b ≡ fixed
unfolding is_heap
eq_fixed_of_not_is_heap fixed h = refl
eq_fixed_of_not_is_heap heap h = absurd (cc)

pub is_heap-fixed : (b : Backing) → b ≡ fixed → is_heap b ≡ false
unfolding is_heap
is_heap-fixed fixed h = refl
is_heap-fixed heap h = absurd (cc)

take-none : (k : ℕ) (s : List ℕ) → k ≤ 0 → take k [] ≡ take k s
take-none zero s h = refl
take-none (suc k) s h = absurd (omega arith)

-- There is room, or a heap buffer can grow to make it.
abbrev pub CanHold : Buffer → ℕ → Type 0
CanHold buf n =
    (buf.size + n ≤ buf.alloc)
    ⊎ (buf.backing ≡ heap) × Meets buf.grow_func × (buf.size + n ≤ size_max)

module _ (junk : ℕ → ℕ) where
  -- A resized buffer: the stored bytes that fit are kept.
  pub record Resized (buf : Buffer) (n : ℕ) (r : Bool × Buffer) : Type 0 where
    pub done : r.0 ≡ true
    pub capacity : r.1.alloc ≡ n
    pub size : (r.1.size ≤ buf.size) × (r.1.size ≤ n) × ((r.1.size ≡ buf.size) ⊎ (r.1.size ≡ n))
    pub kept : contents r.1 ≡ take r.1.size buf.bytes
    pub setup : (r.1.grow_func ≡ buf.grow_func) × (r.1.backing ≡ buf.backing)
    pub valid : IsValid r.1

  -- The cut after the capacity has been set to `n`, over memory that keeps the stored bytes.
  cut_size-Resized :
      (buf : Buffer) (n : ℕ) (bytes : List ℕ)
      → IsValid buf
      → n ≤ size_max
      → length bytes ≡ n
      → ((k : ℕ) → k ≤ n → k ≤ length buf.bytes → take k bytes ≡ take k buf.bytes)
      → Resized buf n (cut_size junk true (true, record buf { bytes = bytes; alloc = n }))
  unfolding cut_size
  cut_size-Resized buf n bytes v le len same = elim (Bool-cases (ltb n buf.size)) [
    | inl cut ↦ rw cut (record {
      done = refl;
      capacity = refl;
      size = (ground arith, omega arith, inr refl);
      kept = same n (omega arith) (ground arith);
      setup = (refl, refl);
      valid = record { within = omega arith; memory = len; bounded = le };
    })
    | inr whole ↦ rw whole (record {
      done = refl;
      capacity = refl;
      size = (omega arith, ground arith, inl refl);
      kept = same buf.size (ground arith) (omega arith);
      setup = (refl, refl);
      valid = record { within = ground arith; memory = len; bounded = le };
    })
  ]

  -- Resizing a valid heap buffer, where memory suffices, sets the capacity and keeps the stored
  -- bytes up to it.
  pub resize-Resized :
      (buf : Buffer) (n : ℕ)
      → IsValid buf
      → buf.backing ≡ heap
      → n ≤ size_max
      → Returns (Resized buf n) (resize junk true buf n)
  unfolding resize resize_heap
  resize-Resized buf n v h le =
      rw (is_heap-heap buf.backing h) (elim (Bool-cases (buf.alloc == n)) [
        | inl same ↦
            let e : buf.alloc ≡ n = (==_iff buf.alloc n).0 same in
            rw same (
              returns (
                subst (λ m. Resized buf m (cut_size junk true (true, buf))) e
                  (cut_size-Resized buf buf.alloc buf.bytes v v.bounded v.memory (λ k p q. refl))))
        | inr other ↦ rw other (elim (Bool-cases (n == 0)) [
          | inl none_left ↦
              let e : n ≡ 0 = (==_iff n 0).0 none_left in
              let emptied = record buf { bytes = []; alloc = 0 } in
              rw none_left (
                returns (
                  subst (λ m. Resized buf m (cut_size junk true (true, emptied))) (sym e)
                    (cut_size-Resized buf 0 [] v (omega arith) refl
                      (λ k p q. take-none k buf.bytes p))))
          | inr some_left ↦ rw some_left (
              returns (
                cut_size-Resized buf n (realloc junk n buf.bytes) v le
                  (length-realloc junk n buf.bytes) (λ k p q. take-realloc junk n k buf.bytes p q)))
        ])
      ])

  -- Room for `n` more bytes, and nothing else changed.
  pub record Roomy (buf : Buffer) (n : ℕ) (r : Bool × Buffer) : Type 0 where
    pub done : r.0 ≡ true
    pub size : r.1.size ≡ buf.size
    pub same : contents r.1 ≡ contents buf
    pub room : r.1.size + n ≤ r.1.alloc
    pub setup : (r.1.grow_func ≡ buf.grow_func) × (r.1.backing ≡ buf.backing)
    pub valid : IsValid r.1

  Roomy-of_Resized :
      (buf : Buffer) (n m : ℕ) (r : Bool × Buffer)
      → IsValid buf
      → buf.alloc ≤ m
      → buf.size + n ≤ m
      → Resized buf m r
      → Roomy buf n r
  Roomy-of_Resized buf n m r v le fits rs =
      let size : r.1.size ≡ buf.size = ground (arith, rs.size, v.within) in
      record {
        done = rs.done;
        size = size;
        same = rs.kept ∙ ap (λ k. take k buf.bytes) size;
        room = omega (arith, rs.capacity);
        setup = rs.setup;
        valid = rs.valid;
      }

  grow_by-Roomy :
      (g : Option Grow) (buf : Buffer) (inc n : ℕ)
      → IsValid buf
      → buf.backing ≡ heap
      → Meets g
      → buf.alloc + inc ≤ size_max
      → buf.size + n ≤ buf.alloc + inc
      → Returns (Roomy buf n) (grow_by junk true g buf inc)
  unfolding grow_by
  grow_by-Roomy none buf inc n v h meets le fits =
      let checked : leb inc (size_max - buf.alloc) ≡ true = ground arith in
      rw checked (
        Returns-map (resize-Resized buf (buf.alloc + inc) v h le)
          λ r rs. Roomy-of_Resized buf n (buf.alloc + inc) r v (omega arith) fits rs)
  grow_by-Roomy (some g) buf inc n v h meets le fits =
      let m = g buf.bytes buf.size buf.alloc inc in
      let (enough, small) = meets buf.bytes buf.size buf.alloc inc le in
      let kept : ltb m buf.alloc ≡ false = ground arith in
      rw kept (
        Returns-map (resize-Resized buf m v h small)
          λ r rs. Roomy-of_Resized buf n m r v (omega arith) (omega arith) rs)

  -- Where there is room or a heap buffer can grow, ensure returns true and makes room for the bytes
  -- asked for; the stored bytes stay.
  pub ensure-Roomy :
      (buf : Buffer) (n : ℕ)
      → IsValid buf
      → CanHold buf n
      → Returns (Roomy buf n) (ensure junk true buf n)
  unfolding ensure grow
  ensure-Roomy buf n v can = elim (Bool-cases (leb n (buf.alloc - buf.size))) [
    | inl fits ↦ rw fits (
        returns (record {
          done = refl;
          size = refl;
          same = refl;
          room = ground (arith, v.within);
          setup = (refl, refl);
          valid = v;
        }))
    | inr more ↦ rw more (elim can [
      | inl fits ↦ absurd (ground (arith, v.within))
      | inr (h, meets, le) ↦
          grow_by-Roomy buf.grow_func buf (n - (buf.alloc - buf.size)) n v h meets
            (ground (arith, v.within)) (ground (arith, v.within))
    ])
  ]
