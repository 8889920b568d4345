-- ===== src/Encoder/Chunks.antt =====
-- The chunks of ucb_uc_encode_codepoints in src/ucb/unicode.c.
use ucb.Common.{
  ℕ, ◌+◌, ◌*◌, ◌≤◌, ◌<◌, ◌≡◌, refl, sym, ap, ◌∙◌, subst, inl, inr, Bool, true, false, List, [], ◌∷◌,
  ◌++◌, leb, ◌==◌, length, All, length-append, append_assoc, append-nil, Bool-cases, arith,
}
use ucb.Common.Outcome.{Returns, returns, Returns-bind}
use ucb.Buffer.{Buffer, contents}
use ucb.Buffer.Room.{IsValid}
use ucb.Buffer.Push.{Appended, push_appends}
use ucb.Utf8.Scalar.{IsScalar, utf8, utf8_all}
use ucb.Utf8.Encode.{is_scalar, encode_codepoint-utf8}
use ucb.Encoder.{Reply, encoded, invalid, reply, store, flush, rest, encode_loop, encode_codepoints}
use ucb.Encoder.Gathered.{
  CanGrow, Gathered, length-utf8, encode_scalar, stored_all, pushed_lem, more, can_push,
}

-- What an invalid code point leaves: less than four code points' room of the text is missing.
pub record Partial (multi_len : ℕ) (orig : Buffer) (cp : ℕ) (text : List ℕ) (r : Reply × Buffer)
    : Type 0 where
  pub result : r.0 ≡ invalid cp
  pub pushed : List ℕ
  pub lost : List ℕ
  pub split : text ≡ pushed ++ lost
  pub few : length lost < 4 * multi_len
  pub stored : contents r.1 ≡ contents orig ++ pushed
  pub valid : IsValid r.1

module _ (junk : ℕ → ℕ) (multi_len : ℕ) where
  -- The chunk after a flush has room for one more code point.
  flush-Gathered :
      (left : ℕ) (orig : Buffer) (bytes : List ℕ) (n : ℕ) (chunk : List ℕ) (buf : Buffer)
      → 0 < multi_len
      → Gathered orig bytes n chunk buf
      → Returns
          (λ r. (r.0 ≡ true) × (length r.1.0 < 4 * multi_len) × Gathered orig bytes n r.1.0 r.1.1)
          (flush junk (λ k. true) multi_len left chunk buf)
  unfolding flush
  flush-Gathered left orig bytes n chunk buf m g =
      elim (Bool-cases (leb (4 * multi_len) (length chunk))) [
        | inl e ↦ rw e (
            Returns-bind (push_appends junk buf chunk g.valid (can_push orig bytes n chunk buf g))
              (λ r a. returns (a.result, omega arith, pushed_lem orig bytes n chunk buf r g a)))
        | inr e ↦ rw e (returns (refl, ground arith, g))
      ]

  rest-Appended :
      (orig : Buffer) (bytes chunk : List ℕ) (buf : Buffer)
      → Gathered orig bytes 0 chunk buf
      → Returns (Appended orig bytes encoded) (rest junk (λ k. true) multi_len chunk buf)
  unfolding rest reply
  rest-Appended orig bytes chunk buf g = elim (Bool-cases (length chunk == 0)) [
    | inl e ↦
        let c : chunk ≡ [] = ground arith in
        rw e (
          returns (record {
            result = refl;
            stored =
                g.stored
                ∙ ap (contents orig ++◌)
                    (sym (g.split ∙ ap (g.pushed ++◌) c ∙ append-nil g.pushed));
            setup = g.setup;
            valid = g.valid;
          }))
    | inr e ↦ rw e (
        Returns-bind (push_appends junk buf chunk g.valid (can_push orig bytes 0 chunk buf g))
          (λ r a. returns (finished r a)))
  ]
    where
      finished :
          (r : Bool × Buffer)
          → Appended buf chunk true r
          → Appended orig bytes encoded (reply r.0, r.1)
      finished r a =
          let h = pushed_lem orig bytes 0 chunk buf r g a in
          record {
            result = ap reply a.result;
            stored = stored_all orig bytes 0 chunk buf r g a;
            setup = h.setup;
            valid = h.valid;
          }

  -- One scalar value: the encoder stays inside the chunk, and the loop goes on.
  loop-step :
      {Q : Reply × Buffer → Type 0} (cp : ℕ) (cps : List ℕ) (orig : Buffer) (bytes chunk : List ℕ)
      (n : ℕ) (buf : Buffer)
      → 3 ≤ multi_len
      → IsScalar cp
      → length chunk < 4 * multi_len
      → Gathered orig bytes (length (utf8 cp) + n) chunk buf
      → ((left : List ℕ) (b : Buffer)
          → length left < 4 * multi_len
          → Gathered orig (bytes ++ utf8 cp) n left b
          → Returns Q (encode_loop junk (λ k. true) multi_len cps left b))
      → Returns Q (encode_loop junk (λ k. true) multi_len (cp ∷ cps) chunk buf)
  unfolding encode_loop store
  loop-step cp cps orig bytes chunk n buf m s l g f =
      let k : leb (length chunk + length (utf8 cp)) (5 * multi_len) ≡ true =
        ground (arith, length-utf8 cp) in
      rw (encode_loop, encode_scalar cp s, k)
        (Returns-bind
          (flush-Gathered (length cps) orig (bytes ++ utf8 cp) n (chunk ++ utf8 cp) buf
            (omega arith) (more orig bytes n chunk buf (utf8 cp) g))
          (λ r (t, l', g'). rw t (f r.1.0 r.1.1 l' g')))

  room-append :
      (cp : ℕ) (cps : List ℕ) (orig : Buffer) (bytes chunk : List ℕ) (buf : Buffer)
      → Gathered orig bytes (length (utf8_all (cp ∷ cps))) chunk buf
      → Gathered orig bytes (length (utf8 cp) + length (utf8_all cps)) chunk buf
  unfolding utf8_all
  room-append cp cps orig bytes chunk buf g =
      subst (λ n. Gathered orig bytes n chunk buf) (length-append (utf8 cp) (utf8_all cps)) g

  all_assoc :
      (bytes : List ℕ) (cp : ℕ) (cps : List ℕ)
      → bytes ++ utf8 cp ++ utf8_all cps ≡ bytes ++ utf8_all (cp ∷ cps)
  unfolding utf8_all
  all_assoc bytes cp cps = append_assoc bytes (utf8 cp) (utf8_all cps)

  loop-Appended :
      (cps : List ℕ) (orig : Buffer) (bytes chunk : List ℕ) (buf : Buffer)
      → 3 ≤ multi_len
      → All IsScalar cps
      → length chunk < 4 * multi_len
      → Gathered orig bytes (length (utf8_all cps)) chunk buf
      → Returns
          (Appended orig (bytes ++ utf8_all cps) encoded)
          (encode_loop junk (λ k. true) multi_len cps chunk buf)
  unfolding encode_loop utf8_all
  loop-Appended [] orig bytes chunk buf m a l g =
      rw (append-nil bytes) (rest-Appended orig bytes chunk buf g)
  loop-Appended (cp ∷ cps) orig bytes chunk buf m (s, a) l g =
      loop-step cp cps orig bytes chunk (length (utf8_all cps)) buf m s l
        (room-append cp cps orig bytes chunk buf g)
        (λ left b l' g'.
          subst
            (λ z.
              Returns (Appended orig z encoded) (encode_loop junk (λ k. true) multi_len cps left b))
            (all_assoc bytes cp cps) (loop-Appended cps orig (bytes ++ utf8 cp) left b m a l' g'))

  start : (buf : Buffer) (n : ℕ) → IsValid buf → CanGrow buf n → Gathered buf [] n [] buf
  start buf n v (h, m, l) = record {
    pushed = [];
    split = refl;
    stored = sym (append-nil (contents buf));
    setup = (refl, refl);
    valid = v;
    room = (h, m, omega (arith, l));
  }

  -- Where the chunk has room for three code points at least, memory suffices and a valid heap buffer
  -- can grow by the text, encoding scalar values returns true, adds exactly their UTF-8 bytes behind
  -- what was stored, and leaves a valid buffer; no byte is written past the chunk.
  pub encode_appends :
      (buf : Buffer) (cps : List ℕ)
      → 3 ≤ multi_len
      → IsValid buf
      → All IsScalar cps
      → CanGrow buf (length (utf8_all cps))
      → Returns
          (Appended buf (utf8_all cps) encoded)
          (encode_codepoints junk (λ k. true) multi_len buf cps)
  unfolding encode_codepoints
  encode_appends buf cps m v a r =
      loop-Appended cps buf [] [] buf m a (omega arith) (start buf (length (utf8_all cps)) v r)

  loop-Partial :
      (before after : List ℕ) (cp : ℕ) (orig : Buffer) (bytes chunk : List ℕ) (buf : Buffer)
      → 3 ≤ multi_len
      → All IsScalar before
      → is_scalar cp ≡ false
      → length chunk < 4 * multi_len
      → Gathered orig bytes (length (utf8_all before)) chunk buf
      → Returns
          (Partial multi_len orig cp (bytes ++ utf8_all before))
          (encode_loop junk (λ k. true) multi_len (before ++ cp ∷ after) chunk buf)
  unfolding encode_loop utf8_all
  loop-Partial [] after cp orig bytes chunk buf m a i l g =
      rw (append-nil bytes, encode_loop, encode_codepoint-utf8 cp, i)
        (returns (record {
          result = refl;
          pushed = g.pushed;
          lost = chunk;
          split = g.split;
          few = l;
          stored = g.stored;
          valid = g.valid;
        }))
  loop-Partial (c ∷ before) after cp orig bytes chunk buf m (s, a) i l g =
      loop-step c (before ++ cp ∷ after) orig bytes chunk (length (utf8_all before)) buf m s l
        (room-append c before orig bytes chunk buf g)
        (λ left b l' g'.
          subst
            (λ z.
              Returns (Partial multi_len orig cp z)
                (encode_loop junk (λ k. true) multi_len (before ++ cp ∷ after) left b))
            (all_assoc bytes c before)
            (loop-Partial before after cp orig (bytes ++ utf8 c) left b m a i l' g'))

  -- Where the chunk has room for three code points at least, memory suffices and a valid heap buffer
  -- can grow by the text before it, the first code point that is no scalar value is reported; the
  -- buffer stays valid, and what was stored is followed by the bytes of the code points before it,
  -- less an end, shorter than the limit of the chunk, that was not pushed yet.
  pub encode_invalid :
      (buf : Buffer) (before : List ℕ) (cp : ℕ) (after : List ℕ)
      → 3 ≤ multi_len
      → IsValid buf
      → All IsScalar before
      → is_scalar cp ≡ false
      → CanGrow buf (length (utf8_all before))
      → Returns
          (Partial multi_len buf cp (utf8_all before))
          (encode_codepoints junk (λ k. true) multi_len buf (before ++ cp ∷ after))
  unfolding encode_codepoints
  encode_invalid buf before cp after m v a i r =
      loop-Partial before after cp buf [] [] buf m a i (omega arith)
        (start buf (length (utf8_all before)) v r)
