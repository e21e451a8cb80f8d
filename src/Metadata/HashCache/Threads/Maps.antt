-- ===== src/Metadata/HashCache/Threads/Maps.antt =====
-- The cache of event-listener/src/metadata/hash_cache.rs as a map that forgets the order of its
-- entries, and what calls of `get_or_insert` make of it, one after the other.
use mathlib.Core.Quot.{Quot}
use event_listener.Prelude.{
  ℕ, ◌≡◌, refl, sym, subst, ◌⊎◌, inl, inr, Option, none, some, List, [], ◌∷◌, All, arith,
}
use event_listener.Outcome.{Result, ok, err, Run, done, panic}
use event_listener.Metadata.HashCache.{
  PalletItemKey, HashCache, get, insert, insert_result, on_read, get_or_insert,
}
use event_listener.Metadata.HashCache.Laws.{key_eq_iff, get-insert}
use event_listener.Metadata.HashCache.Calls.{IsValid, insert-IsValid}
use event_listener.Metadata.HashCache.Threads.Answers.{at_end}

-- The abstract view of the cache: association lists that answer every key alike are one map.
abbrev pub SameEntries : List (PalletItemKey × List ℕ) → List (PalletItemKey × List ℕ) → Type 0
SameEntries m n = (k : PalletItemKey) → get m k ≡ get n k

abbrev pub KeyMap : Type 0
KeyMap = Quot SameEntries

abbrev pub as_map : HashCache → KeyMap
as_map c = Quot.mk c.inner

abbrev pub Among : PalletItemKey → List PalletItemKey → Type 0
Among k [] = ⊥
Among k (j ∷ js) = (j ≡ k) ⊎ Among k js

All-at :
    (P : PalletItemKey → Type 0) (k : PalletItemKey) (ks : List PalletItemKey)
    → All P ks
    → Among k ks
    → P k
All-at P k [] h m = absurd m
All-at P k (j ∷ js) (p, h) (inl e) = subst P e p
All-at P k (j ∷ js) (p, h) (inr m) = All-at P k js h m

-- Entries are kept.
abbrev pub Keeps : HashCache → HashCache → Type 0
Keeps c d = (k : PalletItemKey) (h : List ℕ) → get c.inner k ≡ some h → get d.inner k ≡ some h

-- Entries come from the first cache, or have one of the keys.
abbrev pub Within : HashCache → List PalletItemKey → HashCache → Type 0
Within c ks d =
    (k : PalletItemKey) (h : List ℕ)
    → get d.inner k ≡ some h
    → (get c.inner k ≡ some h) ⊎ Among k ks

module _ {E : Type 0} (value : PalletItemKey → Run (Result (List ℕ) E)) where
  -- The key has an entry if its closure computes a hash.
  abbrev pub Filled : HashCache → PalletItemKey → Type 0
  Filled d k = (h : List ℕ) → value k ≡ done (ok h) → get d.inner k ≡ some h

  -- What calls with the keys `ks` make of the cache `c`.
  pub record Fills (c : HashCache) (ks : List PalletItemKey) (d : HashCache) : Type 0 where
    pub valid : IsValid value d
    pub keeps : Keeps c d
    pub within : Within c ks d
    pub filled : All (Filled d) ks

  entry-Fills :
      (c d e : HashCache) (ks : List PalletItemKey) (k : PalletItemKey) (h : List ℕ)
      → Fills c ks d
      → Fills c ks e
      → get d.inner k ≡ some h
      → get e.inner k ≡ some h
  entry-Fills c d e ks k h f g p = elim (f.within k h p) [
    | inl q ↦ g.keeps k h q
    | inr m ↦ All-at (Filled e) k ks g.filled m h (f.valid.at_key k h p)
  ]

  pub SameEntries-Fills :
      (c d e : HashCache) (ks : List PalletItemKey)
      → Fills c ks d
      → Fills c ks e
      → SameEntries d.inner e.inner
  SameEntries-Fills c d e ks f g k =
      agree (get d.inner k) (get e.inner k) (λ h. entry-Fills c d e ks k h f g)
        (λ h. entry-Fills c e d ks k h g f)
    where
      agree :
          (o p : Option (List ℕ))
          → ((h : List ℕ) → o ≡ some h → p ≡ some h)
          → ((h : List ℕ) → p ≡ some h → o ≡ some h)
          → o ≡ p
      agree (some h) p f g = sym (f h refl)
      agree none (some h) f g = g h refl
      agree none none f g = refl

  Fills-start : (c : HashCache) → IsValid value c → Fills c [] c
  Fills-start c v = record { valid = v; keeps = λ k h e. e; within = λ k h e. inl e; filled = tt }

  -- One call after another.
  Fills-cons :
      (c d e : HashCache) (k : PalletItemKey) (ks : List PalletItemKey)
      → Fills c (k ∷ []) d
      → Fills d ks e
      → Fills c (k ∷ ks) e
  Fills-cons c d e k ks f g = record {
    valid = g.valid;
    keeps = λ j h p. g.keeps j h (f.keeps j h p);
    within = λ j h p. elim (g.within j h p) [
      | inl q ↦ elim (f.within j h q) [
        | inl r ↦ inl r
        | inr m ↦ elim m [ inl w ↦ inr (inl w) | inr w ↦ absurd w ]
      ]
      | inr m ↦ inr (inr m)
    ];
    filled = (λ h p. g.keeps k h (f.filled.0 h p), g.filled);
  }

  insert-Keeps :
      (c : HashCache) (k : PalletItemKey) (v : List ℕ)
      → IsValid value c
      → value k ≡ done (ok v)
      → Keeps c (record { inner = insert c.inner k v })
  insert-Keeps c k v valid e j h p =
      ground (arith, get-insert c.inner k j v, key_eq_iff k j, valid.at_key j h p)

  insert-Within :
      (c : HashCache) (k j : PalletItemKey) (v h : List ℕ)
      → get (insert c.inner k v) j ≡ some h
      → (get c.inner j ≡ some h) ⊎ (k ≡ j)
  insert-Within c k j v h p = ground (arith, get-insert c.inner k j v, key_eq_iff k j)

  pub get-insert_own :
      (c : HashCache) (k : PalletItemKey) (v : List ℕ) → get (insert c.inner k v) k ≡ some v
  get-insert_own c k v = ground (arith, get-insert c.inner k k v, key_eq_iff k k)

  pub insert-Fills :
      (c : HashCache) (k : PalletItemKey) (v : List ℕ)
      → IsValid value c
      → value k ≡ done (ok v)
      → Fills c (k ∷ []) (record { inner = insert c.inner k v })
  insert-Fills c k v valid e = record {
    valid = insert-IsValid value c k v valid e;
    keeps = insert-Keeps c k v valid e;
    within = λ j h p. elim (insert-Within c k j v h p) [ inl q ↦ inl q | inr q ↦ inr (inl q) ];
    filled =
        (λ h p. subst (λ w. get (insert c.inner k v) k ≡ some w) (cc) (get-insert_own c k v), tt);
  }

  -- A call that writes nothing.
  same-Fills :
      (c : HashCache) (k : PalletItemKey) → IsValid value c → Filled c k → Fills c (k ∷ []) c
  same-Fills c k v f = record {
    valid = v;
    keeps = λ j h p. p;
    within = λ j h p. inl p;
    filled = (f, tt);
  }

  on_read-Fills :
      (c : HashCache) (k : PalletItemKey) (r : Run (Result (List ℕ) E)) (o : Option (List ℕ))
      → IsValid value c
      → get c.inner k ≡ o
      → value k ≡ r
      → Fills c (k ∷ []) (at_end value c (on_read c k r o)).0
  unfolding on_read insert_result
  on_read-Fills c k r (some h) v e p =
      same-Fills c k v (λ w q. subst (λ x. get c.inner k ≡ some x) (let s = v.at_key k h e in cc) e)
  on_read-Fills c k (done (ok h)) none v e p = insert-Fills c k h v p
  on_read-Fills c k (done (err x)) none v e p = same-Fills c k v (λ h q. cc)
  on_read-Fills c k panic none v e p = same-Fills c k v (λ h q. cc)

  -- What a call leaves in the cache; a call that panics leaves it as it is.
  unfoldable pub after_call : HashCache → PalletItemKey → HashCache
  after_call c k = (at_end value c (get_or_insert c k.pallet k.item (value k))).0

  after_call-Fills :
      (c : HashCache) (k : PalletItemKey) → IsValid value c → Fills c (k ∷ []) (after_call c k)
  unfolding after_call get_or_insert
  after_call-Fills c k v = on_read-Fills c k (value k) (get c.inner k) v refl refl

  -- The calls one after the other.
  unfoldable pub in_turn : HashCache → List PalletItemKey → HashCache
  in_turn c [] = c
  in_turn c (k ∷ ks) = in_turn (after_call c k) ks

  pub in_turn-Fills :
      (ks : List PalletItemKey) (c : HashCache) → IsValid value c → Fills c ks (in_turn c ks)
  unfolding in_turn
  in_turn-Fills [] c v = Fills-start c v
  in_turn-Fills (k ∷ ks) c v =
      let one = after_call-Fills c k v in
      Fills-cons c (after_call c k) _ k ks one (in_turn-Fills ks (after_call c k) one.valid)
