-- ===== src/Metadata/HashCache/Threads/Turns.antt =====
-- What one turn of a call of `get_or_insert` of event-listener/src/metadata/hash_cache.rs does to the
-- cache.
use event_listener.Metadata.HashCache.Threads.Maps.{Keeps, Within, insert-Fills, get-insert_own}
use event_listener.Prelude.{ℕ, ◌≡◌, refl, inl, Option, none, some, List, [], ◌∷◌}
use event_listener.Outcome.{Result, ok, err, Run, done, panic}
use event_listener.Metadata.HashCache.{PalletItemKey, HashCache, get}
use event_listener.Metadata.HashCache.Calls.{IsValid}
use event_listener.Metadata.HashCache.Threads.{
  Stage, reading, computing, writing, ended, after_read, after_closure, turn,
}
use event_listener.Metadata.HashCache.Threads.Answers.{Agrees}

module _ {E : Type 0} (value : PalletItemKey → Run (Result (List ℕ) E)) where
  -- A call that has ended with a hash has put it into the cache, or found it there.
  abbrev pub Filed : HashCache → PalletItemKey → Stage E → Type 0
  Filed d k (ended (done (ok h))) = get d.inner k ≡ some h
  Filed d k (ended (done (err x))) = Unit
  Filed d k (ended panic) = Unit
  Filed d k reading = Unit
  Filed d k computing = Unit
  Filed d k (writing h) = Unit

  pub Filed-Keeps :
      (c d : HashCache) (k : PalletItemKey) (s : Stage E) → Keeps c d → Filed c k s → Filed d k s
  Filed-Keeps c d k (ended (done (ok h))) f p = f k h p
  Filed-Keeps c d k (ended (done (err x))) f p = tt
  Filed-Keeps c d k (ended panic) f p = tt
  Filed-Keeps c d k reading f p = tt
  Filed-Keeps c d k computing f p = tt
  Filed-Keeps c d k (writing h) f p = tt

  after_read-Filed :
      (c : HashCache) (k : PalletItemKey) (o : Option (List ℕ))
      → get c.inner k ≡ o
      → Filed c k (after_read o)
  unfolding after_read
  after_read-Filed c k (some h) e = e
  after_read-Filed c k none e = tt

  after_closure-Filed :
      (c : HashCache) (k : PalletItemKey) (r : Run (Result (List ℕ) E))
      → Filed c k (after_closure r)
  unfolding after_closure
  after_closure-Filed c k (done (ok h)) = tt
  after_closure-Filed c k (done (err x)) = tt
  after_closure-Filed c k panic = tt

  -- What one turn of a call does to the cache.
  pub turn-Keeps :
      (c : HashCache) (k : PalletItemKey) (s : Stage E)
      → IsValid value c
      → Agrees value k s
      → Filed c k s
      → Keeps c (turn value c k s).0
        × Within c (k ∷ []) (turn value c k s).0
        × Filed (turn value c k s).0 k (turn value c k s).1
  unfolding turn
  turn-Keeps c k reading v a f =
      (λ j h p. p, λ j h p. inl p, after_read-Filed c k (get c.inner k) refl)
  turn-Keeps c k computing v a f = (λ j h p. p, λ j h p. inl p, after_closure-Filed c k (value k))
  turn-Keeps c k (writing w) v a f =
      let g = insert-Fills value c k w v a in (g.keeps, g.within, get-insert_own value c k w)
  turn-Keeps c k (ended r) v a f = (λ j h p. p, λ j h p. inl p, f)
