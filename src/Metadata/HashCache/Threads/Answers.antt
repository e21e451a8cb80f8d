-- ===== src/Metadata/HashCache/Threads/Answers.antt =====
-- What threads get from `get_or_insert` of event-listener/src/metadata/hash_cache.rs.
use event_listener.Prelude.{
  ℕ, ◌≡◌, refl, subst, Option, none, some, List, [], ◌∷◌, All, All-append, All-split, map,
}
use event_listener.Outcome.{Result, ok, err, Run, done, panic}
use event_listener.Metadata.HashCache.{
  PalletItemKey, HashCache, get, insert_result, on_read, get_or_insert,
}
use event_listener.Metadata.HashCache.Calls.{IsValid, insert-IsValid}
use event_listener.Metadata.HashCache.Threads.{
  Stage, reading, computing, writing, ended, Caller, Shared, after_read, after_closure, turn,
  three_turns, Step, moves, Reaches, at_start, one_more, waiting,
}

module _ {E : Type 0} (value : PalletItemKey → Run (Result (List ℕ) E)) where
  -- What a call has computed or answered is what its closure computes.
  abbrev pub Agrees : PalletItemKey → Stage E → Type 0
  Agrees k reading = Unit
  Agrees k computing = Unit
  Agrees k (writing hash) = value k ≡ done (ok hash)
  Agrees k (ended r) = value k ≡ r

  abbrev pub CallerAgrees : Caller E → Type 0
  CallerAgrees t = Agrees t.key t.stage

  pub record IsSound (s : Shared E) : Type 0 where
    pub valid : IsValid value s.cache
    pub agree : All CallerAgrees s.callers

  after_read-Agrees :
      (c : HashCache) (k : PalletItemKey) (o : Option (List ℕ))
      → IsValid value c
      → get c.inner k ≡ o
      → Agrees k (after_read o)
  unfolding after_read
  after_read-Agrees c k (some hash) v e = v.at_key k hash e
  after_read-Agrees c k none v e = tt

  after_closure-Agrees :
      (k : PalletItemKey) (r : Run (Result (List ℕ) E)) → value k ≡ r → Agrees k (after_closure r)
  unfolding after_closure
  after_closure-Agrees k (done (ok hash)) e = e
  after_closure-Agrees k (done (err x)) e = e
  after_closure-Agrees k panic e = e

  turn-Agrees :
      (c : HashCache) (k : PalletItemKey) (s : Stage E)
      → IsValid value c
      → Agrees k s
      → IsValid value (turn value c k s).0 × Agrees k (turn value c k s).1
  unfolding turn
  turn-Agrees c k reading v a = (v, after_read-Agrees c k (get c.inner k) v refl)
  turn-Agrees c k computing v a = (v, after_closure-Agrees k (value k) refl)
  turn-Agrees c k (writing hash) v a = (insert-IsValid value c k hash v a, a)
  turn-Agrees c k (ended r) v a = (v, a)

  Step-IsSound : (s t : Shared E) → IsSound s → Step value s t → IsSound t
  Step-IsSound s t h (moves front caller back e) =
      let (before, (own, after)) =
        All-split CallerAgrees front (caller ∷ back) (subst (All CallerAgrees) e h.agree) in
      let (valid, agrees) = turn-Agrees s.cache caller.key caller.stage h.valid own in
      record { valid = valid; agree = All-append CallerAgrees front _ before (agrees, after) }

  Reaches-IsSound : (s t : Shared E) → IsSound s → Reaches value s t → IsSound t
  Reaches-IsSound s t h at_start = h
  Reaches-IsSound s t h (one_more {s = m} before step) =
      Step-IsSound m t (Reaches-IsSound s m h before) step

  waiting-Agree :
      (ks : List PalletItemKey)
      → All CallerAgrees (map (λ k. record { key = k; stage = reading }) ks)
  waiting-Agree [] = tt
  waiting-Agree (k ∷ ks) = (tt, waiting-Agree ks)

  -- Threads call `get_or_insert` on a valid cache, each with a key and the closure of that key, and
  -- any of them may do the next step. Then the cache is valid in every state they reach, and a
  -- call that has ended has ended as its closure does, with its hash, its error or its panic.
  pub get_or_insert-interleaved :
      (c : HashCache) (ks : List PalletItemKey) (s : Shared E)
      → IsValid value c
      → Reaches value (waiting value c ks) s
      → IsSound s
  get_or_insert-interleaved c ks s v r =
      Reaches-IsSound (waiting value c ks) s (record { valid = v; agree = waiting-Agree ks }) r

  -- How the call of `get_or_insert` leaves the cache and its stage.
  abbrev pub at_end : HashCache → Run (Result (List ℕ) E × HashCache) → HashCache × Stage E
  at_end c (done (r, c')) = (c', ended (done r))
  at_end c panic = (c, ended panic)

  three_turns-on_read :
      (c : HashCache) (k : PalletItemKey) (o : Option (List ℕ)) (r : Run (Result (List ℕ) E))
      → value k ≡ r
      → (let two = turn value c k (after_read o) in turn value two.0 k two.1)
        ≡ at_end c (on_read c k r o)
  unfolding turn after_read after_closure on_read insert_result
  three_turns-on_read c k (some hash) r e = refl
  three_turns-on_read c k none (done (ok hash)) e = rw e refl
  three_turns-on_read c k none (done (err x)) e = rw e refl
  three_turns-on_read c k none panic e = rw e refl

  -- The steps are those of `get_or_insert`: a call that no other thread interrupts has the outcome
  -- of `get_or_insert`, and leaves the cache that it leaves.
  three_turns-get_or_insert :
      (c : HashCache) (k : PalletItemKey)
      → three_turns value c k reading ≡ at_end c (get_or_insert c k.pallet k.item (value k))
  unfolding three_turns turn get_or_insert
  three_turns-get_or_insert c k = three_turns-on_read c k (get c.inner k) (value k) refl
