-- ===== src/Common/Outcome.antt =====
-- How a call of the library ends: with a value, by an access outside live memory, by a report that
-- aborts the program (UCB_VERIFY in include/ucb/error.h: the reporter does not return), or waiting
-- for a mutex that is never unlocked.
use mathlib.Core.Path.{◌≡◌, refl}
use mathlib.Core.Bool.{Bool, true, false}

pub data Outcome {ℓ} (A : Type ℓ) : Type ℓ where
  ok : A → Outcome A
  fault aborted blocked : Outcome A

infixl 5 ◌>>=◌ ◌>>◌
abbrev pub ◌>>=◌ {ℓ κ} : {A : Type ℓ} {B : Type κ} → Outcome A → (A → Outcome B) → Outcome B
ok a >>= f = f a
fault >>= f = fault
aborted >>= f = aborted
blocked >>= f = blocked

abbrev pub ◌>>◌ {ℓ} : {B : Type ℓ} → Outcome (Unit {0}) → Outcome B → Outcome B
m >> k = m >>= λ _. k

-- UCB_VERIFY: go on, or report and abort.
abbrev pub verify : Bool → Outcome (Unit {0})
verify true = ok tt
verify false = aborted

-- How a call of ucb_realloc ends: with the memory; with NULL, where there is none and the user has
-- set a handler of fatal errors that returns; or, without such a handler, in UCB_FATAL, which aborts.
pub data Realloc : Type 0 where
  granted null fatal : Realloc

abbrev pub reallocated : Realloc → Outcome Bool
reallocated granted = ok true
reallocated null = ok false
reallocated fatal = aborted

-- A call behind a verification that returns.
pub verify-inv {ℓ} :
    {A : Type ℓ} {a : A} (b : Bool) (m : Outcome A)
    → (verify b >> m) ≡ ok a
    → (b ≡ true) × (m ≡ ok a)
verify-inv true m e = (refl, e)
verify-inv false m e = absurd cc

-- The call returns, and what it returns satisfies `P`.
pub data Returns {ℓ κ} {A : Type ℓ} (P : A → Type κ) : Outcome A → Type (ℓ ⊔ κ) where
  returns : {a : A} → P a → Returns P (ok a)

module _ {ℓ κ} {A : Type ℓ} {P : A → Type κ} where
  pub Returns-bind {ℓ' κ'} :
      {B : Type ℓ'} {Q : B → Type κ'} {m : Outcome A} {f : A → Outcome B}
      → Returns P m
      → ((a : A) → P a → Returns Q (f a))
      → Returns Q (m >>= f)
  Returns-bind (returns h) k = k _ h

  pub Returns-map {κ'} :
      {Q : A → Type κ'} {m : Outcome A} → Returns P m → ((a : A) → P a → Q a) → Returns Q m
  Returns-map (returns h) k = returns (k _ h)

  pub Returns-inv : {m : Outcome A} → Returns P m → (a : A) × (m ≡ ok a) × P a
  Returns-inv (returns h) = (_, refl, h)

  Returns-ok : {a : A} → Returns P (ok a) → P a
  Returns-ok (returns h) = h

  -- What is proved of the result of a call that has returned.
  pub Returns-at : {m : Outcome A} {a : A} → Returns P m → m ≡ ok a → P a
  Returns-at h e = Returns-ok (rw e at h)
