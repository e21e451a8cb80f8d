-- ===== src/Metadata/HashCache/Locks/Ends.antt =====
-- Threads that call `get_or_insert` of event-listener/src/metadata/hash_cache.rs under its lock: their
-- answers, and that no call waits for ever.
use event_listener.Prelude.{
  ℕ, ◌+◌, ◌*◌, ◌<◌, ◌≤◌, ◌≡◌, refl, sym, ap, ◌∙◌, subst, ◌⊎◌, inl, inr, Option, none, some, List,
  [], ◌∷◌, ◌++◌, All, All-append, All-split, All-mono, map, length, arith,
}
use event_listener.Outcome.{Result, ok, err, Run, done, panic}
use event_listener.Metadata.HashCache.{PalletItemKey, HashCache, get}
use event_listener.Metadata.HashCache.Calls.{IsValid, insert-IsValid}
use event_listener.Metadata.HashCache.Locks.{
  Point, at_read, reading, computing, at_write, writing, ended, Caller, Shared, after_lookup,
  after_value, proceed, RwLock, Step, moves, Reaches, at_start, one_more, calling,
}
use event_listener.Metadata.HashCache.Locks.Progress.{All-both, HasEnded, all_ended-or-Step}

module _ {E : Type 0} where
  -- The steps that a call has left, at most.
  abbrev pub rank : Point E → ℕ
  rank at_read = 5
  rank reading = 4
  rank computing = 3
  rank (at_write hash) = 2
  rank (writing hash) = 1
  rank (ended r) = 0

  abbrev pub ranks : List (Caller E) → ℕ
  ranks [] = 0
  ranks (t ∷ ts) = rank t.point + ranks ts

  ranks-cut :
      (front : List (Caller E)) (s t : Caller E) (back : List (Caller E))
      → rank s.point < rank t.point
      → ranks (front ++ (s ∷ back)) < ranks (front ++ (t ∷ back))
  ranks-cut [] s t back h = omega arith
  ranks-cut (x ∷ front) s t back h = omega (arith, ranks-cut front s t back h)

  keys-cut :
      (front : List (Caller E)) (s t : Caller E) (back : List (Caller E))
      → s.key ≡ t.key
      → map (λ u. u.key) (front ++ (s ∷ back)) ≡ map (λ u. u.key) (front ++ (t ∷ back))
  keys-cut [] s t back h = ap (λ k. k ∷ map (λ u. u.key) back) h
  keys-cut (x ∷ front) s t back h = ap (λ ks. x.key ∷ ks) (keys-cut front s t back h)

module _ {E : Type 0} (lock : RwLock) (value : PalletItemKey → Run (Result (List ℕ) E)) where
  after_lookup-rank : (o : Option (List ℕ)) → rank {E = E} (after_lookup o) < 4
  unfolding after_lookup
  after_lookup-rank none = omega arith
  after_lookup-rank (some hash) = omega arith

  after_value-rank : (r : Run (Result (List ℕ) E)) → rank (after_value r) < 3
  unfolding after_value
  after_value-rank (done (ok hash)) = omega arith
  after_value-rank (done (err e)) = omega arith
  after_value-rank panic = omega arith

  proceed-rank :
      (c : HashCache) (k : PalletItemKey) (p : Point E)
      → ¬ HasEnded p
      → rank (proceed value c k p).1 < rank p
  unfolding proceed
  proceed-rank c k at_read h = omega arith
  proceed-rank c k reading h = after_lookup-rank (get c.inner k)
  proceed-rank c k computing h = after_value-rank (value k)
  proceed-rank c k (at_write hash) h = omega arith
  proceed-rank c k (writing hash) h = omega arith
  proceed-rank c k (ended r) h = absurd (h (r, refl))

  -- What a call has computed or answered is what its closure computes.
  abbrev pub Agrees : PalletItemKey → Point E → Type 0
  Agrees k (at_write hash) = value k ≡ done (ok hash)
  Agrees k (writing hash) = value k ≡ done (ok hash)
  Agrees k (ended r) = value k ≡ r
  Agrees k _ = Unit

  after_lookup-Agrees :
      (c : HashCache) (k : PalletItemKey) (o : Option (List ℕ))
      → IsValid value c
      → get c.inner k ≡ o
      → Agrees k (after_lookup o)
  unfolding after_lookup
  after_lookup-Agrees c k (some hash) v e = v.at_key k hash e
  after_lookup-Agrees c k none v e = tt

  after_value-Agrees :
      (k : PalletItemKey) (r : Run (Result (List ℕ) E)) → value k ≡ r → Agrees k (after_value r)
  unfolding after_value
  after_value-Agrees k (done (ok hash)) e = e
  after_value-Agrees k (done (err x)) e = e
  after_value-Agrees k panic e = e

  proceed-Agrees :
      (c : HashCache) (k : PalletItemKey) (p : Point E)
      → IsValid value c
      → Agrees k p
      → IsValid value (proceed value c k p).0 × Agrees k (proceed value c k p).1
  unfolding proceed
  proceed-Agrees c k at_read v a = (v, tt)
  proceed-Agrees c k reading v a = (v, after_lookup-Agrees c k (get c.inner k) v refl)
  proceed-Agrees c k computing v a = (v, after_value-Agrees k (value k) refl)
  proceed-Agrees c k (at_write hash) v a = (v, a)
  proceed-Agrees c k (writing hash) v a = (insert-IsValid value c k hash v a, a)
  proceed-Agrees c k (ended r) v a = (v, a)

  -- The cache is valid, and the calls agree with their closures.
  abbrev pub Sound : Shared E → Type 0
  Sound s = IsValid value s.cache × All (λ t. Agrees t.key t.point) s.callers

  Step-Sound : (s t : Shared E) → Sound s → Step lock value s t → Sound t
  Step-Sound s t (v, agree) (moves front caller back e may) =
      let P : Caller E → Type 0 = λ t. Agrees t.key t.point in
      let (before, (own, after)) = All-split P front (caller ∷ back) (subst (All P) e agree) in
      let (valid, agrees) = proceed-Agrees s.cache caller.key caller.point v own in
      (valid, All-append P front _ before (agrees, after))

  Step-ranks : (s t : Shared E) → Step lock value s t → ranks t.callers < ranks s.callers
  Step-ranks s t (moves front caller back e may) =
      let next : Caller E = record {
        key = caller.key;
        point = (proceed value s.cache caller.key caller.point).1;
      } in
      let less = proceed-rank s.cache caller.key caller.point may.0 in
      omega (arith, ranks-cut front next caller back less, ap ranks e)

  Step-keys :
      (s t : Shared E)
      → Step lock value s t
      → map (λ u. u.key) t.callers ≡ map (λ u. u.key) s.callers
  Step-keys s t (moves front caller back e may) =
      keys-cut front _ caller back refl ∙ ap (λ us. map (λ u. u.key) us) (sym e)

  Reaches-Sound :
      (s : Shared E) (n : ℕ) (t : Shared E) → Sound s → Reaches lock value s n t → Sound t
  Reaches-Sound s n t h at_start = h
  Reaches-Sound s n t h (one_more {n = m} {s = u} before step) =
      Step-Sound u t (Reaches-Sound s m u h before) step

  Reaches-ranks :
      (s : Shared E) (n : ℕ) (t : Shared E)
      → Reaches lock value s n t
      → (n + ranks t.callers ≤ ranks s.callers)
        × (map (λ u. u.key) t.callers ≡ map (λ u. u.key) s.callers)
  Reaches-ranks s n t at_start = (omega arith, refl)
  Reaches-ranks s n t (one_more {n = m} {s = u} before step) =
      let (le, same) = Reaches-ranks s m u before in
      (omega (arith, le, Step-ranks u t step), Step-keys u t step ∙ same)

  calling-ranks :
      (c : HashCache) (ks : List PalletItemKey)
      → ranks (calling lock value c ks).callers ≡ 5 * length ks
  calling-ranks c [] = refl
  calling-ranks c (k ∷ ks) = omega (arith, calling-ranks c ks)

  calling-keys :
      (c : HashCache) (ks : List PalletItemKey)
      → map (λ u. u.key) (calling lock value c ks).callers ≡ ks
  calling-keys c [] = refl
  calling-keys c (k ∷ ks) = ap (λ js. k ∷ js) (calling-keys c ks)

  calling-Agree :
      (c : HashCache) (ks : List PalletItemKey)
      → All (λ t. Agrees t.key t.point) (calling lock value c ks).callers
  calling-Agree c [] = tt
  calling-Agree c (k ∷ ks) = (tt, calling-Agree c ks)

  answered :
      (t : Caller E) → Agrees t.key t.point × HasEnded t.point → t.point ≡ ended (value t.key)
  answered t (a, (r, e)) = let own : value t.key ≡ r = subst (Agrees t.key) e a in rw (e, own) refl

  -- Threads call `get_or_insert` on a valid cache, each with a key and the closure of that key, and
  -- hold and wait for guards of the cache's lock. It grants a write guard at least where no guard is
  -- held, and a read guard at least where no guard is held and no thread waits to write. Then no
  -- order of their steps deadlocks or goes on for ever: in every state that they reach, at most
  -- five times as many steps have been made as there are calls, the calls have their keys, and either
  -- all of them have ended as the closures of their keys do, or some call may go on.
  pub get_or_insert-ends :
      (c : HashCache) (ks : List PalletItemKey) (n : ℕ) (s : Shared E)
      → IsValid value c
      → Reaches lock value (calling lock value c ks) n s
      → (n ≤ 5 * length ks)
        × (map (λ t. t.key) s.callers ≡ ks)
        × (All (λ t. t.point ≡ ended (value t.key)) s.callers
            ⊎ ((u : Shared E) × Step lock value s u))
  get_or_insert-ends c ks n s v r =
      let (le, same) = Reaches-ranks (calling lock value c ks) n s r in
      let sound = Reaches-Sound (calling lock value c ks) n s (v, calling-Agree c ks) r in
      (
        omega (arith, le, calling-ranks c ks),
        same ∙ calling-keys c ks,
        elim (all_ended-or-Step lock value s) [
          | inl h ↦ inl (All-mono answered s.callers (All-both _ _ s.callers sound.1 h))
          | inr step ↦ inr step
        ],
      )
