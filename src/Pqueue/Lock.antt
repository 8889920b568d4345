-- ===== src/Pqueue/Lock.antt =====
-- LOCK_MUTEX and UNLOCK_MUTEX of src/ucb/container/pqueue.c on a mutex that is not held.
use ucb.Common.{◌≡◌, ◌≢◌, refl, false}
use ucb.Common.Outcome.{ok}
use ucb.Pqueue.{Pqueue, Mutex, access, absent, free, held, lock, unlock}

-- The mutex as LOCK_MUTEX leaves it.
unfoldable pub taken : Mutex → Mutex
taken absent = absent
taken free = held
taken held = held

pub lock-taken : (m : Mutex) → m ≢ held → lock m ≡ ok (taken m)
unfolding lock taken
lock-taken absent h = refl
lock-taken free h = refl
lock-taken held h = absurd (h refl)

pub unlock-taken : (m : Mutex) → m ≢ held → unlock (taken m) ≡ m
unfolding unlock taken
unlock-taken absent h = refl
unlock-taken free h = refl
unlock-taken held h = absurd (h refl)

pub access-live {ℓ} : {A : Type ℓ} (pq : Pqueue A) → pq.lost ≡ false → access pq ≡ ok pq.buckets
unfolding access
access-live pq h = rw h
