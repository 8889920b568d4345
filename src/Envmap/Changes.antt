-- ===== src/Envmap/Changes.antt =====
-- What a call of src/ucb/envmap.c that changes a map does to the table of values by name.
use ucb.Common.{
  ℕ, suc, ◌^◌, ◌≤◌, ◌<◌, ◌≡◌, refl, sym, ap, ◌∙◌, inl, inr, Bool, true, Option, none, some, List,
  ◌++◌, length, arith, Bool-cases, if◌then◌else◌,
}
use ucb.Common.Outcome.{granted, ok, ◌>>=◌, Returns, returns, Returns-bind}
use ucb.Path.Bytes.{str_equal, str_equal-eq}
use ucb.Vector.{Vector}
use ucb.Vector.Elements.{contents, IsValid, length-contents}
use ucb.Vector.Insertion.{push_back-Appended}
use ucb.Vector.Removal.{remove-Took}
use ucb.Vector.Session.{length-replaced, length-removed}
use ucb.Envmap.{Entry, Envmap, new_map, find, value_at, set_value, add_entry, separator}
use ucb.Envmap
use ucb.Envmap.Lookup.{
  lookup, updated, Distinct, At, At-entry, lookup-replaced, lookup-removed, lookup-added,
  replaced-Distinct, removed-Distinct, added-Distinct,
}
use ucb.Envmap.Table.{
  Table, is_some, behind, before, behind-separator, before-separator, behind_none, before_none,
}
use ucb.Envmap.Search.{value_at-lookup, set_value-Holds, found-cases}

-- The map is valid and says what the table says.
pub record Tracks (v : Vector Entry) (s : Table) : Type 0 where
  pub valid : IsValid v
  pub distinct : Distinct (contents v)
  pub same : (k : List ℕ) → lookup (contents v) k ≡ s k

pub data After (n : ℕ) (s : Table) (b : Bool) : Bool × Envmap → Type 0 where
  after : {w : Vector Entry} → Tracks w s → w.size ≤ suc n → After n s b (b, some w)

updated-same :
    (s t : Table) (name : List ℕ) (o : Option (List ℕ)) (k : List ℕ)
    → s k ≡ t k
    → updated s name o k ≡ updated t name o k
updated-same s t name o k e = ap (λ x. if str_equal name k then o else x) e

-- Taking away a name that is not there.
updated_absent : (s : Table) (name k : List ℕ) → s name ≡ none → updated s name none k ≡ s k
updated_absent s name k e = elim (Bool-cases (str_equal name k)) [
  | inl h ↦ let same = str_equal-eq name k h in rw (h, ← same, e) refl
  | inr h ↦ rw h refl
]

module _ (junk : ℕ → Entry) (v : Vector Entry) (s : Table) (t : Tracks v s) where
  replaced-After :
      (name value : List ℕ) (i : ℕ)
      → At name (contents v) i
      → Returns
          (After v.size (updated s name (some value)) true)
          (set_value v i value >>= λ w. ok (true, some w))
  replaced-After name value i a =
      let (e, at, same, found, less) = At-entry name (contents v) i a in
      let entry : Entry = record { name = name; value = value } in
      Returns-bind (set_value-Holds v name value i t.valid a) λ w h. returns (
        after
          (record {
            valid = h.valid;
            distinct = rw h.same (replaced-Distinct name value (contents v) i a t.distinct);
            same = λ k. rw h.same (
                lookup-replaced name value (contents v) i a k
                ∙ updated-same (lookup (contents v)) s name _ k (t.same k));
          })
          (omega (
            arith,
            length-contents w h.valid,
            ap length h.same,
            length-replaced i entry (contents v) less,
            length-contents v t.valid,
          )))

  added-After :
      (name value : List ℕ)
      → lookup (contents v) name ≡ none
      → v.size < 2 ^ 63
      → Returns
          (After v.size (updated s name (some value)) true)
          (add_entry junk true granted v name value)
  unfolding add_entry
  added-After name value fresh small =
      let entry : Entry = record { name = name; value = value } in
      Returns-bind (push_back-Appended junk v entry t.valid small) λ w (valid, same, more).
        returns (
          after
            (record {
              valid = valid;
              distinct = rw same (added-Distinct name value (contents v) fresh t.distinct);
              same = λ k. rw same (
                  lookup-added name value (contents v) fresh k
                  ∙ updated-same (lookup (contents v)) s name _ k (t.same k));
            })
            (omega (arith, more)))

  pub set-After :
      (name value : List ℕ)
      → v.size < 2 ^ 63
      → Returns
          (After v.size (updated s name (some value)) true)
          (Envmap.set junk true granted (some v) name value)
  unfolding Envmap.set
  set-After name value small =
      found-cases v name t.valid (λ fresh. added-After name value fresh small)
        (λ i a. replaced-After name value i a)

  pub unset-After :
      (name : List ℕ)
      → Returns (After v.size (updated s name none) (is_some (s name))) (Envmap.unset (some v) name)
  unfolding Envmap.unset is_some
  unset-After name =
      found-cases v name t.valid
        (λ fresh.
          let none_there : s name ≡ none = sym (t.same name) ∙ fresh in
          rw none_there (
            returns (
              after
                (record {
                  valid = t.valid;
                  distinct = t.distinct;
                  same = λ k. t.same k ∙ sym (updated_absent s name k none_there);
                })
                (omega arith))))
        (λ i a.
          let (e, at, named, there, less) = At-entry name (contents v) i a in
          let some_there : s name ≡ some e.value = sym (t.same name) ∙ there in
          let lt : i < v.size = omega (arith, length-contents v t.valid) in
          rw some_there (
            Returns-bind (remove-Took v i t.valid lt) λ (x, w) (at', h). returns (
              after
                (record {
                  valid = h.valid;
                  distinct = rw h.same (removed-Distinct name (contents v) i a t.distinct);
                  same = λ k. rw h.same (
                      lookup-removed name (contents v) i a t.distinct k
                      ∙ updated-same (lookup (contents v)) s name _ k (t.same k));
                })
                (omega (
                  arith,
                  length-contents w h.valid,
                  ap length h.same,
                  length-removed i (contents v) less,
                  length-contents v t.valid,
                )))))

  pub append-After :
      (name value : List ℕ) (sep : Option (List ℕ))
      → v.size < 2 ^ 63
      → Returns
          (After v.size (updated s name (some (behind (s name) value sep))) true)
          (Envmap.append junk true granted (some v) name value sep)
  unfolding Envmap.append
  append-After name value sep small =
      found-cases v name t.valid
        (λ fresh.
          let none_there : s name ≡ none = sym (t.same name) ∙ fresh in
          rw (none_there, behind_none value sep) (set-After name value small))
        (λ i a.
          let (old, e, there) = value_at-lookup v name i t.valid a in
          let some_there : s name ≡ some old = sym (t.same name) ∙ there in
          rw (some_there, e, ← behind-separator old value sep)
            (replaced-After name ((old ++ separator sep old) ++ value) i a))

  pub prepend-After :
      (name value : List ℕ) (sep : Option (List ℕ))
      → v.size < 2 ^ 63
      → Returns
          (After v.size (updated s name (some (before (s name) value sep))) true)
          (Envmap.prepend junk true granted (some v) name value sep)
  unfolding Envmap.prepend
  prepend-After name value sep small =
      found-cases v name t.valid
        (λ fresh.
          let none_there : s name ≡ none = sym (t.same name) ∙ fresh in
          rw (none_there, before_none value sep) (set-After name value small))
        (λ i a.
          let (old, e, there) = value_at-lookup v name i t.valid a in
          let some_there : s name ≡ some old = sym (t.same name) ∙ there in
          rw (some_there, e, ← before-separator old value sep)
            (replaced-After name ((value ++ separator sep old) ++ old) i a))
