-- ===== src/Buffer/Push.antt =====
-- Pushing bytes in src/ucb/buffer.c, against the list of the stored bytes.
use ucb.Common.{
  ℕ, ◌+◌, ◌-◌, ◌≤◌, ◌<◌, ◌≡◌, refl, sym, ap, ◌∙◌, inl, inr, Bool, true, false, Option, none, some,
  List, [], ◌∷◌, ◌++◌, ltb, leb, ◌==◌, length, length-append, take, append-nil, arith, Bool-cases,
}
use ucb.Common.Outcome.{ok, aborted, ◌>>=◌, Returns, returns, Returns-bind}
use ucb.Buffer.{
  fixed, heap, Grow, Buffer, contents, size_max, resize, resize_heap, cut_size, grow_by, grow,
  ensure, append, push, formatted, push_formatv,
}
use ucb.Buffer.Memory.{write-fits}
use ucb.Buffer.Room.{IsValid, Meets, Roomy, CanHold, ensure-Roomy, is_heap-heap, is_heap-fixed}

-- The bytes `s` stand behind those that were stored.
pub record Appended {ℓ} {A : Type ℓ} (buf : Buffer) (s : List ℕ) (expected : A) (r : A × Buffer)
    : Type ℓ where
  pub result : r.0 ≡ expected
  pub stored : contents r.1 ≡ contents buf ++ s
  pub setup : (r.1.grow_func ≡ buf.grow_func) × (r.1.backing ≡ buf.backing)
  pub valid : IsValid r.1

module _ (junk : ℕ → ℕ) where
  append-Appended :
      (buf : Buffer) (s : List ℕ) (r : Bool × Buffer)
      → Roomy junk buf (length s) r
      → Returns (Appended buf s true) (append junk true s r)
  unfolding append
  append-Appended buf s (false, q) h = absurd (cc h.done)
  append-Appended buf s (true, q) h =
      let fits : q.size + length s ≤ length q.bytes = omega (arith, h.room, h.valid.memory) in
      let (t, e, len, same) = write-fits q.size s q.bytes fits in
      rw e (
        returns (record {
          result = refl;
          stored = same ∙ ap (λ l. l ++ s) h.same;
          setup = h.setup;
          valid = record {
            within = h.room;
            memory = len ∙ h.valid.memory;
            bounded = h.valid.bounded;
          };
        }))

  push-ensure :
      (buf : Buffer) (s : List ℕ)
      → (length s == 0) ≡ false
      → push junk true buf s ≡ (ensure junk true buf (length s) >>= append junk true s)
  unfolding push ensure
  push-ensure buf s some_bytes =
      rw some_bytes (elim (Bool-cases (leb (length s) (buf.alloc - buf.size))) [
        | inl fits ↦
            let no_growth : ltb (buf.alloc - buf.size) (length s) ≡ false = ground arith in
            rw (fits, no_growth)
        | inr more ↦
            let growth : ltb (buf.alloc - buf.size) (length s) ≡ true = ground arith in
            rw (more, growth)
      ])

  -- A push onto a valid buffer that has room, or that is on the heap and can grow, returns true,
  -- stores exactly the bytes behind those that were there, and leaves a valid buffer.
  pub push_appends :
      (buf : Buffer) (s : List ℕ)
      → IsValid buf
      → CanHold buf (length s)
      → Returns (Appended buf s true) (push junk true buf s)
  unfolding push
  push_appends buf s v can = elim (Bool-cases (length s == 0)) [
    | inl nothing ↦
        let e : s ≡ [] = ground arith in
        rw (nothing, push)
          (returns (record {
            result = refl;
            stored = rw e (sym (append-nil (contents buf)));
            setup = (refl, refl);
            valid = v;
          }))
    | inr some_bytes ↦
        rw (push-ensure buf s some_bytes)
          (Returns-bind (ensure-Roomy junk buf (length s) v can) (append-Appended buf s))
  ]

  formatted-Appended :
      (buf : Buffer) (text : List ℕ) (r : Bool × Buffer)
      → Roomy junk buf (length text + 1) r
      → Returns (Appended buf (text ++ (0 ∷ [])) (some (length text))) (formatted junk true text r)
  unfolding formatted
  formatted-Appended buf text (false, q) h = absurd (cc h.done)
  formatted-Appended buf text (true, q) h =
      let total = length-append text (0 ∷ []) in
      let fits : q.size + length (text ++ (0 ∷ [])) ≤ length q.bytes =
        omega (arith, h.room, h.valid.memory) in
      let (t, e, len, same) = write-fits q.size (text ++ (0 ∷ [])) q.bytes fits in
      rw e (
        returns (record {
          result = refl;
          stored =
              ap (λ k. take (q.size + k) t) (sym total)
              ∙ same
              ∙ ap (λ l. l ++ (text ++ (0 ∷ []))) h.same;
          setup = h.setup;
          valid = record {
            within = h.room;
            memory = len ∙ h.valid.memory;
            bounded = h.valid.bounded;
          };
        }))

  -- Pushing a formatted text onto a valid buffer that can hold it and a NUL stores both, and returns
  -- the length without the NUL.
  pub push_formatv_appends :
      (buf : Buffer) (text : List ℕ)
      → IsValid buf
      → CanHold buf (length text + 1)
      → Returns
          (Appended buf (text ++ (0 ∷ [])) (some (length text)))
          (push_formatv junk true buf text)
  unfolding push_formatv
  push_formatv_appends buf text v can =
      Returns-bind (ensure-Roomy junk buf (length text + 1) v can) (formatted-Appended buf text)

  resize-fixed :
      (buf : Buffer) (n : ℕ) (mem_ok : Bool)
      → buf.backing ≡ fixed
      → resize junk mem_ok buf n ≡ aborted
  unfolding resize
  resize-fixed buf n mem_ok h = rw (is_heap-fixed buf.backing h)

  pub grow_by-fixed :
      (g : Option Grow) (buf : Buffer) (inc : ℕ) (mem_ok : Bool)
      → buf.backing ≡ fixed
      → grow_by junk mem_ok g buf inc ≡ aborted
  unfolding grow_by
  grow_by-fixed (some g) buf inc mem_ok h = resize-fixed buf _ mem_ok h
  grow_by-fixed none buf inc mem_ok h = elim (Bool-cases (leb inc (size_max - buf.alloc))) [
    | inl fits ↦ rw fits (resize-fixed buf (buf.alloc + inc) mem_ok h)
    | inr over ↦ rw over
  ]

  pub grow_by-overflow :
      (g : Option Grow) (buf : Buffer) (inc : ℕ) (mem_ok : Bool)
      → g ≡ none
      → leb inc (size_max - buf.alloc) ≡ false
      → grow_by junk mem_ok g buf inc ≡ aborted
  unfolding grow_by
  grow_by-overflow none buf inc mem_ok h over = rw over
  grow_by-overflow (some g) buf inc mem_ok h over = absurd (cc)

  grow_by-no_memory :
      (g : Option Grow) (buf : Buffer) (inc : ℕ)
      → buf.backing ≡ heap
      → Meets g
      → 0 < inc
      → buf.alloc + inc ≤ size_max
      → grow_by junk false g buf inc ≡ ok (false, buf)
  unfolding grow_by resize resize_heap cut_size
  grow_by-no_memory none buf inc h meets pos le =
      let checked : leb inc (size_max - buf.alloc) ≡ true = ground arith in
      let other : (buf.alloc == buf.alloc + inc) ≡ false = ground arith in
      let some_left : (buf.alloc + inc == 0) ≡ false = ground arith in
      rw (checked, is_heap-heap buf.backing h) (rw (other, some_left))
  grow_by-no_memory (some g) buf inc h meets pos le =
      let m = g buf.bytes buf.size buf.alloc inc in
      let (enough, small) = meets buf.bytes buf.size buf.alloc inc le in
      let kept : ltb m buf.alloc ≡ false = ground arith in
      let other : (buf.alloc == m) ≡ false = ground arith in
      let some_left : (m == 0) ≡ false = ground arith in
      rw (kept, is_heap-heap buf.backing h) (rw (other, some_left))

  push-grow :
      (buf : Buffer) (s : List ℕ) (mem_ok : Bool)
      → IsValid buf
      → buf.alloc < buf.size + length s
      → push junk mem_ok buf s ≡ (
          grow_by junk mem_ok buf.grow_func buf (length s - (buf.alloc - buf.size))
          >>= append junk mem_ok s)
  unfolding push grow
  push-grow buf s mem_ok v over =
      let some_bytes : (length s == 0) ≡ false = ground (arith, v.within) in
      let growth : ltb (buf.alloc - buf.size) (length s) ≡ true = ground (arith, v.within) in
      rw (some_bytes, growth)

  -- A static buffer never grows: a push of more bytes than it has room for is reported and aborts,
  -- whatever its grow function.
  push-static_full :
      (buf : Buffer) (s : List ℕ) (mem_ok : Bool)
      → IsValid buf
      → buf.backing ≡ fixed
      → buf.alloc < buf.size + length s
      → push junk mem_ok buf s ≡ aborted
  push-static_full buf s mem_ok v h over =
      push-grow buf s mem_ok v over
      ∙ ap (λ m. m >>= append junk mem_ok s) (grow_by-fixed buf.grow_func buf _ mem_ok h)

  -- Where a heap buffer has to grow and there is no memory, push returns false and changes nothing.
  push-no_memory :
      (buf : Buffer) (s : List ℕ)
      → IsValid buf
      → buf.backing ≡ heap
      → Meets buf.grow_func
      → buf.alloc < buf.size + length s
      → buf.size + length s ≤ size_max
      → push junk false buf s ≡ ok (false, buf)
  unfolding append
  push-no_memory buf s v h meets over le =
      push-grow buf s false v over
      ∙ ap (λ m. m >>= append junk false s)
          (grow_by-no_memory buf.grow_func buf _ h meets (ground (arith, v.within))
            (ground (arith, v.within)))
