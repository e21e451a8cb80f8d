-- ===== src/Metadata/HashCache/Threads/Serial.antt =====
-- The map that threads leave behind by `get_or_insert` of
-- event-listener/src/metadata/hash_cache.rs, whatever the order of their steps.
use event_listener.Metadata.HashCache.Threads.Turns.{Filed, Filed-Keeps, turn-Keeps}
use event_listener.Metadata.HashCache.Threads.Maps.{
  as_map, Among, Keeps, Within, Filled, Fills, in_turn, in_turn-Fills, SameEntries-Fills,
}
use mathlib.Core.Quot
use mathlib.Core.Quot.{Quot}
use event_listener.Prelude.{
  ℕ, ◌≡◌, refl, sym, ap, subst, ◌∙◌, All-mono, inl, inr, some, List, [], ◌∷◌, ◌++◌, All, All-append,
  All-split, map,
}
use event_listener.Outcome.{Result, ok, err, Run, done, panic}
use event_listener.Metadata.HashCache.{PalletItemKey, HashCache, get}
use event_listener.Metadata.HashCache.Calls.{IsValid}
use event_listener.Metadata.HashCache.Threads.{
  Stage, reading, computing, writing, ended, Caller, Shared, turn, Step, moves, Reaches, at_start,
  one_more, waiting,
}
use event_listener.Metadata.HashCache.Threads.Answers.{
  IsSound, Agrees, CallerAgrees, get_or_insert-interleaved,
}

module _ {E : Type 0} (value : PalletItemKey → Run (Result (List ℕ) E)) where
  -- The keys of the calls.
  abbrev keys_of : List (Caller E) → List PalletItemKey
  keys_of ts = map (λ t. t.key) ts

  keys_of-append :
      (front : List (Caller E)) (t u : Caller E) (back : List (Caller E))
      → t.key ≡ u.key
      → keys_of (front ++ (t ∷ back)) ≡ keys_of (front ++ (u ∷ back))
  keys_of-append [] t u back e = ap (λ k. k ∷ keys_of back) e
  keys_of-append (s ∷ front) t u back e = ap (λ ks. s.key ∷ ks) (keys_of-append front t u back e)

  Among-append :
      (front : List (Caller E)) (t : Caller E) (back : List (Caller E))
      → Among t.key (keys_of (front ++ (t ∷ back)))
  Among-append [] t back = inl refl
  Among-append (s ∷ front) t back = inr (Among-append front t back)

  keys_of-waiting :
      (ks : List PalletItemKey) → keys_of (map (λ k. record { key = k; stage = reading }) ks) ≡ ks
  keys_of-waiting [] = refl
  keys_of-waiting (k ∷ ks) = ap (λ l. k ∷ l) (keys_of-waiting ks)

  Within-trans :
      (c d e : HashCache) (k : PalletItemKey) (ks : List PalletItemKey)
      → Among k ks
      → Within c ks d
      → Within d (k ∷ []) e
      → Within c ks e
  Within-trans c d e k ks m f g j h p = elim (g j h p) [
    | inl q ↦ f j h q
    | inr w ↦ elim w [ inl q ↦ inr (subst (λ i. Among i ks) q m) | inr q ↦ absurd q ]
  ]

  abbrev CallerFiled : HashCache → Caller E → Type 0
  CallerFiled d t = Filed value d t.key t.stage

  -- What the threads have made of the cache so far.
  record Tracks (c : HashCache) (ks : List PalletItemKey) (s : Shared E) : Type 0 where
    keys : keys_of s.callers ≡ ks
    keeps : Keeps c s.cache
    within : Within c ks s.cache
    filed : All (CallerFiled s.cache) s.callers

  Step-Tracks :
      (c : HashCache) (ks : List PalletItemKey) (s t : Shared E)
      → IsSound value s
      → Tracks c ks s
      → Step value s t
      → Tracks c ks t
  Step-Tracks c ks s t h g (moves front caller back e) =
      let (before, (own, after)) =
        All-split (CallerAgrees value) front (caller ∷ back)
          (subst (All (CallerAgrees value)) e h.agree) in
      let (filed_before, (filed, filed_after)) =
        All-split (CallerFiled s.cache) front (caller ∷ back)
          (subst (All (CallerFiled s.cache)) e g.filed) in
      let (keeps, within, now) =
        turn-Keeps value s.cache caller.key caller.stage h.valid own filed in
      let keys : keys_of (front ++ (caller ∷ back)) ≡ ks = subst (λ l. keys_of l ≡ ks) e g.keys in
      let next = (turn value s.cache caller.key caller.stage).0 in
      let mono = λ (u : Caller E) (f : CallerFiled s.cache u).
        Filed-Keeps value s.cache next u.key u.stage keeps f in
      record {
        keys = sym (keys_of-append front caller _ back refl) ∙ keys;
        keeps = λ j w p. keeps j w (g.keeps j w p);
        within =
            Within-trans c s.cache next caller.key ks
              (subst (Among caller.key) keys (Among-append front caller back)) g.within within;
        filed =
            All-append (CallerFiled next) front _ (All-mono mono front filed_before)
              (now, All-mono mono back filed_after);
      }

  waiting-Filed :
      (c : HashCache) (ks : List PalletItemKey)
      → All (CallerFiled c) (map (λ k. record { key = k; stage = reading }) ks)
  waiting-Filed c [] = tt
  waiting-Filed c (k ∷ ks) = (tt, waiting-Filed c ks)

  Reaches-Tracks :
      (c : HashCache) (ks : List PalletItemKey) (s : Shared E)
      → IsValid value c
      → Reaches value (waiting value c ks) s
      → Tracks c ks s
  Reaches-Tracks c ks s v at_start = record {
    keys = keys_of-waiting ks;
    keeps = λ k h p. p;
    within = λ k h p. inl p;
    filed = waiting-Filed c ks;
  }
  Reaches-Tracks c ks s v (one_more {s = m} before step) =
      Step-Tracks c ks m s (get_or_insert-interleaved value c ks m v before)
        (Reaches-Tracks c ks m v before) step

  -- The call has ended, with a result or a panic.
  abbrev pub HasEnded : Caller E → Type 0
  HasEnded t = (r : Run (Result (List ℕ) E)) × (t.stage ≡ ended r)

  ended-Filled :
      (d : HashCache) (k : PalletItemKey) (s : Stage E) (r : Run (Result (List ℕ) E))
      → s ≡ ended r
      → Agrees value k s
      → Filed value d k s
      → Filled value d k
  ended-Filled d k (ended (done (ok w))) r e a f h p = subst (λ x. get d.inner k ≡ some x) (cc) f
  ended-Filled d k (ended (done (err x))) r e a f h p = cc
  ended-Filled d k (ended panic) r e a f h p = cc
  ended-Filled d k reading r e a f h p = cc
  ended-Filled d k computing r e a f h p = cc
  ended-Filled d k (writing w) r e a f h p = cc

  all_ended-Filled :
      (d : HashCache) (ts : List (Caller E))
      → All HasEnded ts
      → All (CallerAgrees value) ts
      → All (CallerFiled d) ts
      → All (Filled value d) (keys_of ts)
  all_ended-Filled d [] e a f = tt
  all_ended-Filled d (t ∷ ts) ((r, p), e) (a, b) (f, g) =
      (ended-Filled d t.key t.stage r p a f, all_ended-Filled d ts e b g)

  -- Threads call `get_or_insert` on a valid cache, each with a key and the closure of that key, and
  -- any of them may do the next step. Once all the calls have ended the cache is, as a map, what
  -- the calls leave when they are made one after the other in the order of the list: the order of
  -- the steps does not matter.
  pub get_or_insert-in_turn :
      (c : HashCache) (ks : List PalletItemKey) (s : Shared E)
      → IsValid value c
      → Reaches value (waiting value c ks) s
      → All HasEnded s.callers
      → as_map s.cache ≡ as_map (in_turn value c ks)
  get_or_insert-in_turn c ks s v r e =
      let sound = get_or_insert-interleaved value c ks s v r in
      let tracks = Reaches-Tracks c ks s v r in
      let fills : Fills value c ks s.cache = record {
        valid = sound.valid;
        keeps = tracks.keeps;
        within = tracks.within;
        filled =
            subst (All (Filled value s.cache)) tracks.keys
              (all_ended-Filled s.cache s.callers e sound.agree tracks.filed);
      } in
      Quot.sound (
        SameEntries-Fills value c s.cache (in_turn value c ks) ks fills
          (in_turn-Fills value ks c v))
