-- ===== src/Envmap/Session.antt =====
-- Sequences of calls on an environment map of src/ucb/envmap.c, where memory suffices: the map
-- against a table of values by name.
use ucb.Common.{
  ℕ, suc, ◌+◌, ◌^◌, ◌≤◌, ◌<◌, ◌≡◌, refl, sym, ◌∙◌, Bool, true, Option, none, some, List, [], ◌∷◌,
  length, arith,
}
use ucb.Common.Outcome.{granted, Outcome, ok, ◌>>=◌, Returns, returns, Returns-bind}
use ucb.Vector.{Vector}
use ucb.Envmap.{Entry, Envmap, new_map, find, value_at, set_value, add_entry, separator}
use ucb.Envmap
use ucb.Envmap.Lookup.{updated}
use ucb.Envmap.Search.{value_at-lookup, found-cases}
use ucb.Envmap.Table.{Table, is_some, behind, before}
use ucb.Envmap.Changes.{Tracks, After, after, set-After, unset-After, append-After, prepend-After}

pub data Op : Type 0 where
  has get unset : List ℕ → Op
  set : List ℕ → List ℕ → Op
  append prepend : List ℕ → List ℕ → Option (List ℕ) → Op

pub data Reply : Type 0 where
  did : Bool → Reply
  gave : Option (List ℕ) → Reply

pub step : (ℕ → Entry) → Envmap → Op → Outcome (Reply × Envmap)
step junk m (has n) = do b ← Envmap.has m n; ok (did b, m)
step junk m (get n) = do o ← Envmap.get m n; ok (gave o, m)
step junk m (unset n) = do (b, w) ← Envmap.unset m n; ok (did b, w)
step junk m (set n x) = do (b, w) ← Envmap.set junk true granted m n x; ok (did b, w)
step junk m (append n x sep) = do (b, w) ← Envmap.append junk true granted m n x sep; ok (did b, w)
step junk m (prepend n x sep) = do
  (b, w) ← Envmap.prepend junk true granted m n x sep
  ok (did b, w)

pub run : (ℕ → Entry) → Envmap → List Op → Outcome (List Reply)
unfolding step
run junk m [] = ok []
run junk m (o ∷ os) = do (r, w) ← step junk m o; rs ← run junk w os; ok (r ∷ rs)

unfoldable pub table_step : Table → Op → Reply × Table
unfolding is_some behind before
table_step s (has n) = (did (is_some (s n)), s)
table_step s (get n) = (gave (s n), s)
table_step s (unset n) = (did (is_some (s n)), updated s n none)
table_step s (set n x) = (did true, updated s n (some x))
table_step s (append n x sep) = (did true, updated s n (some (behind (s n) x sep)))
table_step s (prepend n x sep) = (did true, updated s n (some (before (s n) x sep)))

unfoldable pub table_run : Table → List Op → List Reply
unfolding table_step
table_run s [] = []
table_run s (o ∷ os) = let (r, t) = table_step s o in r ∷ table_run t os

data Answers (n : ℕ) (s : Table) (r : Reply) : Reply × Envmap → Type 0 where
  answers : {w : Vector Entry} → Tracks w s → w.size ≤ suc n → Answers n s r (r, some w)

After-Answers :
    {n : ℕ} {s : Table} {b : Bool} {m : Outcome (Bool × Envmap)}
    → Returns (After n s b) m
    → Returns (Answers n s (did b)) (m >>= λ (b, w). ok (did b, w))
After-Answers (returns (after t l)) = returns (answers t l)

module _ (junk : ℕ → Entry) (v : Vector Entry) (s : Table) (t : Tracks v s) where
  has-Answers :
      (name : List ℕ)
      → Returns
          (Answers v.size s (did (is_some (s name))))
          (Envmap.has (some v) name >>= λ b. ok (did b, some v))
  unfolding Envmap.has is_some
  has-Answers name =
      Returns-bind
        (found-cases {P = λ b. b ≡ is_some (s name)} v name t.valid
          (λ fresh. let e : s name ≡ none = sym (t.same name) ∙ fresh in returns (rw e refl))
          (λ i a.
            let (old, e, there) = value_at-lookup v name i t.valid a in
            let f : s name ≡ some old = sym (t.same name) ∙ there in returns (rw f refl)))
        (λ b e. rw e (returns (answers t (omega arith))))

  get-Answers :
      (name : List ℕ)
      → Returns
          (Answers v.size s (gave (s name)))
          (Envmap.get (some v) name >>= λ o. ok (gave o, some v))
  unfolding Envmap.get
  get-Answers name =
      Returns-bind
        (found-cases {P = λ o. o ≡ s name} v name t.valid
          (λ fresh. returns (sym fresh ∙ t.same name))
          (λ i a.
            let (old, e, there) = value_at-lookup v name i t.valid a in
            rw e (returns (sym there ∙ t.same name))))
        (λ o e. rw e (returns (answers t (omega arith))))

  step-Answers :
      (o : Op)
      → v.size < 2 ^ 63
      → let (r, s') = table_step s o in Returns (Answers v.size s' r) (step junk (some v) o)
  unfolding step table_step
  step-Answers (has n) small = has-Answers n
  step-Answers (get n) small = get-Answers n
  step-Answers (unset n) small = After-Answers (unset-After junk v s t n)
  step-Answers (set n x) small = After-Answers (set-After junk v s t n x small)
  step-Answers (append n x sep) small = After-Answers (append-After junk v s t n x sep small)
  step-Answers (prepend n x sep) small = After-Answers (prepend-After junk v s t n x sep small)

Answers-bind :
    {n : ℕ} {s : Table} {r : Reply} {m : Outcome (Reply × Envmap)}
    (f : Envmap → Outcome (List Reply)) (rs : List Reply)
    → Returns (Answers n s r) m
    → ((w : Vector Entry) → Tracks w s → w.size ≤ suc n → f (some w) ≡ ok rs)
    → (m >>= λ (r', w). f w >>= λ rs'. ok (r' ∷ rs')) ≡ ok (r ∷ rs)
Answers-bind f rs (returns (answers {w} t l)) h = rw (h w t l) refl

-- No sequence of calls tells a valid map, where memory suffices, from a table of values by name:
-- every call returns, and replies as the table does; the size and the number of calls stay below
-- 2 ^ 63 together.
pub run-table_run :
    (junk : ℕ → Entry) (os : List Op) (v : Vector Entry) (s : Table)
    → Tracks v s
    → v.size + length os < 2 ^ 63
    → run junk (some v) os ≡ ok (table_run s os)
unfolding run table_run
run-table_run junk [] v s t small = refl
run-table_run junk (o ∷ os) v s t small =
    let s' = (table_step s o).1 in
    Answers-bind (λ w. run junk w os) (table_run s' os) (step-Answers junk v s t o (omega arith))
      (λ w t' less. run-table_run junk os w s' t' (omega arith))
