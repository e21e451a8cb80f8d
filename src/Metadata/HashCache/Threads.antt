-- ===== src/Metadata/HashCache/Threads.antt =====
-- Threads that call `get_or_insert` of event-listener/src/metadata/hash_cache.rs on one cache: a
-- thread holds the lock while it reads and while it writes, and no lock while its closure runs.
pub mod Answers
pub mod Maps
pub mod Turns
pub mod Serial
use event_listener.Prelude.{
  ℕ, ◌≡◌, refl, sym, ap, subst, Option, none, some, List, [], ◌∷◌, ◌++◌, All, All-append, All-split,
  map,
}
use event_listener.Outcome.{Result, ok, err, Run, done, panic}
use event_listener.Metadata.HashCache.{
  PalletItemKey, HashCache, get, insert, insert_result, on_read, get_or_insert,
}
use event_listener.Metadata.HashCache.Calls.{IsValid, insert-IsValid}

-- Where a call is: before the read lock, before the closure, before the write lock, and ended by a
-- result or a panic.
pub data Stage (E : Type 0) : Type 0 where
  reading computing : Stage E
  writing : List ℕ → Stage E
  ended : Run (Result (List ℕ) E) → Stage E

pub record Caller (E : Type 0) : Type 0 where
  pub key : PalletItemKey
  pub stage : Stage E

pub record Shared (E : Type 0) : Type 0 where
  pub cache : HashCache
  pub callers : List (Caller E)

module _ {E : Type 0} where
  -- The first lock is released with the copy of what was found.
  unfoldable pub after_read : Option (List ℕ) → Stage E
  after_read (some hash) = ended (done (ok hash))
  after_read none = computing

  -- `f()?`
  unfoldable pub after_closure : Run (Result (List ℕ) E) → Stage E
  after_closure (done (ok hash)) = writing hash
  after_closure (done (err e)) = ended (done (err e))
  after_closure panic = ended panic

  module _ (value : PalletItemKey → Run (Result (List ℕ) E)) where
    -- What a call does up to its next lock.
    unfoldable pub turn : HashCache → PalletItemKey → Stage E → HashCache × Stage E
    unfolding after_read after_closure
    turn c k reading = (c, after_read (get c.inner k))
    turn c k computing = (c, after_closure (value k))
    turn c k (writing hash) = (record { inner = insert c.inner k hash }, ended (done (ok hash)))
    turn c k (ended r) = (c, ended r)

    -- A call without a break.
    unfoldable pub three_turns : HashCache → PalletItemKey → Stage E → HashCache × Stage E
    unfolding turn
    three_turns c k s = let one = turn c k s in let two = turn one.0 k one.1 in turn two.0 k two.1

    -- Any thread may be the next.
    pub data Step (from : Shared E) : Shared E → Type 0 where
      moves :
          (front : List (Caller E)) (t : Caller E) (back : List (Caller E))
          → from.callers ≡ front ++ (t ∷ back)
          → Step from (record {
            cache = (turn from.cache t.key t.stage).0;
            callers =
                front ++ (record { key = t.key; stage = (turn from.cache t.key t.stage).1 } ∷ back);
          })

    pub data Reaches (from : Shared E) : Shared E → Type 0 where
      at_start : Reaches from from
      one_more : {s t : Shared E} → Reaches from s → Step s t → Reaches from t

    -- The calls of the given keys, none of which has begun.
    abbrev pub waiting : HashCache → List PalletItemKey → Shared E
    waiting c ks = record { cache = c; callers = map (λ k. record { key = k; stage = reading }) ks }
