-- ===== src/Path/DirLoop.antt =====
-- The loop of path_build_dir in src/ucb/path.c, for the separator of POSIX.
use ucb.Common.{
  ℕ, ◌≡◌, refl, sym, ap, ◌∙◌, inl, inr, ◌⊎◌, Bool, true, false, not, ◌&&◌, List, [], ◌∷◌, ◌++◌,
  if◌then◌else◌, Bool-cases, arith, append_assoc, append-nil, ==_iff,
}
use ucb.Path.{slash, is_sep, open_end, is_empty, dir_loop}
use ucb.Path.Segments.{segments}
use ucb.Path.Render.{segments-append, segments_sep, segments_empty}

-- What the loop has written after a byte that is no separator.
abbrev pub grown : List ℕ → Bool → ℕ → List ℕ
grown tmp p c = tmp ++ (if p && not (is_empty tmp) then slash ∷ [] else []) ++ c ∷ []

abbrev mark : Bool → List ℕ
mark p = if p then slash ∷ [] else []

pub is_sep-slash : (c : ℕ) → is_sep c ≡ true → c ≡ slash
is_sep-slash c e = (==_iff c slash).0 e

skip_slash : (s : List ℕ) → segments slash (slash ∷ s) ≡ segments slash s
skip_slash s = segments_sep slash slash s refl

-- One byte that is no separator, with the separator that it may have to bring.
written :
    (pending_sep : Bool) (tmp : List ℕ) (c : ℕ) (s : List ℕ)
    → segments slash
        (tmp ++ (if pending_sep && not (is_empty tmp) then slash ∷ [] else []) ++ c ∷ [] ++ s)
      ≡ segments slash (tmp ++ (mark pending_sep ++ c ∷ s))
unfolding is_empty
written false tmp c s = rw (append-nil tmp, append_assoc tmp (c ∷ []) s)
written true [] c s = sym (skip_slash (c ∷ s))
written true (d ∷ tmp) c s =
    ap (λ t. segments slash (d ∷ t))
      (append_assoc (tmp ++ slash ∷ []) (c ∷ []) s ∙ append_assoc tmp (slash ∷ []) (c ∷ s))

-- The loop keeps the segments of what it has written and of what it has to read.
pub dir_loop-segments :
    (tmp : List ℕ) (pending_sep has_content : Bool) (s : List ℕ)
    → segments slash (dir_loop slash tmp pending_sep has_content s).0
      ≡ segments slash (tmp ++ (mark pending_sep ++ s))
unfolding dir_loop is_empty
dir_loop-segments tmp true has_content [] = sym (
    segments-append slash tmp [] (omega arith)
    ∙ rw (segments_empty slash) (append-nil (segments slash tmp)))
dir_loop-segments tmp false has_content [] = ap (segments slash) (sym (append-nil tmp))
dir_loop-segments tmp pending_sep has_content (c ∷ s) = elim (Bool-cases (is_sep c)) [
  | inl e ↦
      rw (dir_loop, e)
        (dir_loop-segments tmp true has_content s ∙ later pending_sep ∙ rw (is_sep-slash c e))
  | inr e ↦ rw (dir_loop, e) (dir_loop-segments _ false true s ∙ written pending_sep tmp c s)
]
  where
    later :
        (p : Bool)
        → segments slash (tmp ++ slash ∷ s) ≡ segments slash (tmp ++ (mark p ++ slash ∷ s))
    later true =
        segments-append slash tmp s (omega arith)
        ∙ sym (segments-append slash tmp (slash ∷ s) (omega arith) ∙ rw (skip_slash s))
    later false = refl

-- After content, the last byte is no separator; without content nothing is written.
abbrev pub EndsOpen : List ℕ → List ℕ × Bool → Type 0
EndsOpen tmp (out, has_content) =
    ((has_content ≡ true) × (open_end slash out ≡ true)) ⊎ ((has_content ≡ false) × (out ≡ tmp))

pub open_end-append :
    (tmp : List ℕ) (c : ℕ) → is_sep c ≡ false → open_end slash (tmp ++ c ∷ []) ≡ true
unfolding open_end
open_end-append [] c e = rw e
open_end-append (d ∷ []) c e = rw e
open_end-append (d ∷ f ∷ tmp) c e = open_end-append (f ∷ tmp) c e

pub content_loop :
    (tmp : List ℕ) (p : Bool) (s : List ℕ)
    → open_end slash tmp ≡ true
    → ((dir_loop slash tmp p true s).1 ≡ true)
      × (open_end slash (dir_loop slash tmp p true s).0 ≡ true)
unfolding dir_loop
content_loop tmp p [] h = (refl, h)
content_loop tmp p (c ∷ s) h = elim (Bool-cases (is_sep c)) [
  | inl e ↦ rw (dir_loop, e) (content_loop tmp true s h)
  | inr e ↦ rw (dir_loop, e) (content_loop (grown tmp p c) false s (open_end-append _ c e))
]

pub dir_loop-EndsOpen :
    (tmp : List ℕ) (p : Bool) (s : List ℕ) → EndsOpen tmp (dir_loop slash tmp p false s)
unfolding dir_loop
dir_loop-EndsOpen tmp p [] = inr (refl, refl)
dir_loop-EndsOpen tmp p (c ∷ s) = elim (Bool-cases (is_sep c)) [
  | inl e ↦ rw (dir_loop, e) (dir_loop-EndsOpen tmp true s)
  | inr e ↦ rw (dir_loop, e) (inl (content_loop (grown tmp p c) false s (open_end-append _ c e)))
]
