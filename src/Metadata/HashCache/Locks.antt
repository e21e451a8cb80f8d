-- ===== src/Metadata/HashCache/Locks.antt =====
-- Threads that call `get_or_insert` of event-listener/src/metadata/hash_cache.rs on one cache, with
-- the guards of its lock. When the lock grants a request is parking_lot's, a parameter.
pub mod Progress
pub mod Ends
use event_listener.Prelude.{ℕ, suc, ◌≡◌, Option, none, some, List, [], ◌∷◌, ◌++◌, All, map}
use event_listener.Outcome.{Result, ok, err, Run, done, panic}
use event_listener.Metadata.HashCache.{PalletItemKey, HashCache, get, insert}

pub data Guard : Type 0 where
  shared exclusive : Guard

-- Where a call is: it waits for the read lock, holds it, runs its closure, waits for the write lock
-- with the hash, holds it, and has ended with a result or a panic.
pub data Point (E : Type 0) : Type 0 where
  at_read reading computing : Point E
  at_write writing : List ℕ → Point E
  ended : Run (Result (List ℕ) E) → Point E

pub record Caller (E : Type 0) : Type 0 where
  pub key : PalletItemKey
  pub point : Point E

pub record Shared (E : Type 0) : Type 0 where
  pub cache : HashCache
  pub callers : List (Caller E)

module _ {E : Type 0} where
  -- The guard that a call holds: each guard is a temporary of one statement, and is dropped at the
  -- statement's end.
  unfoldable pub guard_of : Point E → Option Guard
  guard_of at_read = none
  guard_of reading = some shared
  guard_of computing = none
  guard_of (at_write hash) = none
  guard_of (writing hash) = some exclusive
  guard_of (ended r) = none

  -- The guard that a call waits for.
  unfoldable pub request_of : Point E → Option Guard
  request_of at_read = some shared
  request_of (at_write hash) = some exclusive
  request_of _ = none

  -- The guard is dropped with the copy of what was found.
  unfoldable pub after_lookup : Option (List ℕ) → Point E
  after_lookup (some hash) = ended (done (ok hash))
  after_lookup none = computing

  -- `f()?`
  unfoldable pub after_value : Run (Result (List ℕ) E) → Point E
  after_value (done (ok hash)) = at_write hash
  after_value (done (err e)) = ended (done (err e))
  after_value panic = ended panic

  -- What a call does next, once it is granted what it waits for.
  unfoldable pub proceed :
      (PalletItemKey → Run (Result (List ℕ) E))
      → HashCache
      → PalletItemKey
      → Point E
      → HashCache × Point E
  unfolding after_lookup after_value
  proceed value c k at_read = (c, reading)
  proceed value c k reading = (c, after_lookup (get c.inner k))
  proceed value c k computing = (c, after_value (value k))
  proceed value c k (at_write hash) = (c, writing hash)
  proceed value c k (writing hash) =
      (record { inner = insert c.inner k hash }, ended (done (ok hash)))
  proceed value c k (ended r) = (c, ended r)

-- When the lock grants a guard, told from the guards that the threads hold and from those that they
-- wait for. It grants a write guard at least where no guard is held, and a read guard at least where
-- no guard is held and no thread waits to write: a waiting writer may keep readers waiting.
pub record RwLock : Type 1 where
  pub Grants : Guard → (held waiting : List (Option Guard)) → Type 0
  pub grants_exclusive :
      (held waiting : List (Option Guard))
      → All (λ g. g ≡ none) held
      → Grants exclusive held waiting
  pub grants_shared :
      (held waiting : List (Option Guard))
      → All (λ g. g ≡ none) held
      → All (λ g. ¬ (g ≡ some exclusive)) waiting
      → Grants shared held waiting

module _ {E : Type 0} (lock : RwLock) (value : PalletItemKey → Run (Result (List ℕ) E)) where
  -- A call that has not ended may proceed if the lock grants what it waits for.
  abbrev pub MayProceed : List (Caller E) → Point E → Type 0
  MayProceed callers p =
      (¬ ((r : Run (Result (List ℕ) E)) × (p ≡ ended r)))
      × ((g : Guard)
          → request_of p ≡ some g
          → lock.Grants g (map (λ t. guard_of t.point) callers)
              (map (λ t. request_of t.point) callers))

  -- Any thread may be the next.
  pub data Step (from : Shared E) : Shared E → Type 0 where
    moves :
        (front : List (Caller E)) (t : Caller E) (back : List (Caller E))
        → from.callers ≡ front ++ (t ∷ back)
        → MayProceed from.callers t.point
        → Step from (record {
          cache = (proceed value from.cache t.key t.point).0;
          callers =
              front
              ++ (record { key = t.key; point = (proceed value from.cache t.key t.point).1 }
                  ∷ back);
        })

  -- The states after a number of steps.
  pub data Reaches (from : Shared E) : ℕ → Shared E → Type 0 where
    at_start : Reaches from 0 from
    one_more : {n : ℕ} {s t : Shared E} → Reaches from n s → Step s t → Reaches from (suc n) t

  -- The calls of the given keys, none of which has begun.
  abbrev pub calling : HashCache → List PalletItemKey → Shared E
  calling c ks = record { cache = c; callers = map (λ k. record { key = k; point = at_read }) ks }
