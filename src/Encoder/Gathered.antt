-- ===== src/Encoder/Gathered.antt =====
-- What ucb_uc_encode_codepoints in src/ucb/unicode.c has in its chunk and in the buffer.
use ucb.Common.{
  ℕ, ◌+◌, ◌≤◌, ◌≡◌, sym, ap, ◌∙◌, subst, inr, Bool, true, some, List, [], ◌++◌, length, length-take,
  length-append, append_assoc, append-nil, arith,
}
use ucb.Buffer.{Buffer, heap, contents, size_max}
use ucb.Buffer.Room.{IsValid, Meets, CanHold}
use ucb.Buffer.Push.{Appended}
use ucb.Utf8.{encode_codepoint}
use ucb.Utf8.Scalar.{IsScalar, utf8}
use ucb.Utf8.Encode.{is_scalar, encode_codepoint-utf8}

pub length-utf8 : (cp : ℕ) → length (utf8 cp) ≤ 4
unfolding utf8
length-utf8 cp = ground arith

pub encode_scalar : (cp : ℕ) → IsScalar cp → encode_codepoint cp ≡ some (utf8 cp)
encode_scalar cp s = encode_codepoint-utf8 cp ∙ rw (is_scalar_of s)
  where
    is_scalar_of : IsScalar cp → is_scalar cp ≡ true
    is_scalar_of s = ground arith

-- A heap buffer that can grow by `n` bytes.
abbrev pub CanGrow : Buffer → ℕ → Type 0
CanGrow buf n = (buf.backing ≡ heap) × Meets buf.grow_func × (buf.size + n ≤ size_max)

pub length-contents : (buf : Buffer) → IsValid buf → length (contents buf) ≡ buf.size
length-contents buf v = length-take buf.size buf.bytes (omega (arith, v.within, v.memory))

CanGrow-after :
    (buf : Buffer) (s : List ℕ) (n : ℕ) (r : Bool × Buffer)
    → IsValid buf
    → CanGrow buf (length s + n)
    → Appended buf s true r
    → CanGrow r.1 n
CanGrow-after buf s n (b, q) v (h, m, l) a = (
  a.setup.1 ∙ h,
  subst Meets (sym a.setup.0) m,
  omega (
    arith,
    l,
    length-contents buf v,
    length-contents q a.valid,
    ap length a.stored,
    length-append (contents buf) s,
  ),
)

-- `bytes` has been encoded: what is not in the buffer yet is the chunk, and there is room for it and
-- `n` bytes.
pub record Gathered (orig : Buffer) (bytes : List ℕ) (n : ℕ) (chunk : List ℕ) (buf : Buffer)
    : Type 0 where
  pub pushed : List ℕ
  pub split : bytes ≡ pushed ++ chunk
  pub stored : contents buf ≡ contents orig ++ pushed
  pub setup : (buf.grow_func ≡ orig.grow_func) × (buf.backing ≡ orig.backing)
  pub valid : IsValid buf
  pub room : CanGrow buf (length chunk + n)

pub stored_all :
    (orig : Buffer) (bytes : List ℕ) (n : ℕ) (chunk : List ℕ) (buf : Buffer) (r : Bool × Buffer)
    → Gathered orig bytes n chunk buf
    → Appended buf chunk true r
    → contents r.1 ≡ contents orig ++ bytes
stored_all orig bytes n chunk buf r g a =
    a.stored
    ∙ ap (◌++ chunk) g.stored
    ∙ append_assoc (contents orig) g.pushed chunk
    ∙ ap (contents orig ++◌) (sym g.split)

pub pushed_lem :
    (orig : Buffer) (bytes : List ℕ) (n : ℕ) (chunk : List ℕ) (buf : Buffer) (r : Bool × Buffer)
    → Gathered orig bytes n chunk buf
    → Appended buf chunk true r
    → Gathered orig bytes n [] r.1
pushed_lem orig bytes n chunk buf (b, q) g a = record {
  pushed = bytes;
  split = sym (append-nil bytes);
  stored = stored_all orig bytes n chunk buf (b, q) g a;
  setup = (a.setup.0 ∙ g.setup.0, a.setup.1 ∙ g.setup.1);
  valid = a.valid;
  room =
      let (h, m, l) = CanGrow-after buf chunk n (b, q) g.valid g.room a in (h, m, omega (arith, l));
}

pub more :
    (orig : Buffer) (bytes : List ℕ) (n : ℕ) (chunk : List ℕ) (buf : Buffer) (s : List ℕ)
    → Gathered orig bytes (length s + n) chunk buf
    → Gathered orig (bytes ++ s) n (chunk ++ s) buf
more orig bytes n chunk buf s g = record {
  pushed = g.pushed;
  split = ap (◌++ s) g.split ∙ append_assoc g.pushed chunk s;
  stored = g.stored;
  setup = g.setup;
  valid = g.valid;
  room = (g.room.0, g.room.1, omega (arith, g.room.2, length-append chunk s));
}

pub can_push :
    (orig : Buffer) (bytes : List ℕ) (n : ℕ) (chunk : List ℕ) (buf : Buffer)
    → Gathered orig bytes n chunk buf
    → CanHold buf (length chunk)
can_push orig bytes n chunk buf g = inr (g.room.0, g.room.1, omega (arith, g.room.2))
