-- ===== src/Metadata/HashCache/Calls.antt =====
-- Calls of `get_or_insert` of event-listener/src/metadata/hash_cache.rs, one after the other.
use event_listener.Prelude.{ℕ, String, ◌≡◌, refl, subst, sym, Option, none, some, List, arith}
use event_listener.Outcome.{Result, ok, err, Run, done, panic, map_run, Leaves, Leaves-intro}
use event_listener.Metadata.HashCache.{
  PalletItemKey, HashCache, empty_cache, get, insert, insert_result, on_read, get_or_insert,
}
use event_listener.Metadata.HashCache.Laws.{key_eq_iff, get-insert}

get-insert_self :
    (m : List (PalletItemKey × List ℕ)) (k : PalletItemKey) (v : List ℕ)
    → get (insert m k v) k ≡ some v
get-insert_self m k v = ground (arith, get-insert m k k v, key_eq_iff k k)

module _ {E : Type 0} where
  -- A hit.
  on_read-some :
      (c : HashCache) (k : PalletItemKey) (g : Run (Result (List ℕ) E)) (h : List ℕ)
      → get c.inner k ≡ some h
      → on_read c k g (get c.inner k) ≡ done (ok h, c)
  unfolding on_read
  on_read-some c k g h hit = rw hit refl

  -- After a call that returns a hash the key is bound to it.
  get-on_read :
      (c c' : HashCache) (k : PalletItemKey) (f : Run (Result (List ℕ) E)) (o : Option (List ℕ))
      (h : List ℕ)
      → o ≡ get c.inner k
      → on_read c k f o ≡ done (ok h, c')
      → get c'.inner k ≡ some h
  unfolding on_read insert_result
  get-on_read c c' k f (some v) h e r = ground arith
  get-on_read c c' k (done (ok v)) none h e r = ground (arith, get-insert_self c.inner k v)
  get-on_read c c' k (done (err x)) none h e r = cc
  get-on_read c c' k panic none h e r = cc

-- Once a call has returned a hash, every later call with the same key returns that hash, leaves the
-- cache as it is and does not run its closure, whatever that would do.
pub get_or_insert_twice :
    {E : Type 0} (c c' : HashCache) (pallet item : String) (f g : Run (Result (List ℕ) E))
    (h : List ℕ)
    → get_or_insert c pallet item f ≡ done (ok h, c')
    → get_or_insert c' pallet item g ≡ done (ok h, c')
unfolding get_or_insert
get_or_insert_twice c c' pallet item f g h e =
    let k : PalletItemKey = record { pallet = pallet; item = item } in
    on_read-some c' k g h (get-on_read c c' k f (get c.inner k) h refl e)

-- Every entry is the hash that `value` computes for its key.
pub record IsValid {E : Type 0} (value : PalletItemKey → Run (Result (List ℕ) E)) (c : HashCache)
    : Type 0 where
  pub at_key : (k : PalletItemKey) (h : List ℕ) → get c.inner k ≡ some h → value k ≡ done (ok h)

module _ {E : Type 0} (value : PalletItemKey → Run (Result (List ℕ) E)) where
  pub empty_cache-IsValid : IsValid value empty_cache
  unfolding get
  empty_cache-IsValid = record { at_key = λ k h e. cc }

  pub insert-IsValid :
      (c : HashCache) (k : PalletItemKey) (h : List ℕ)
      → IsValid value c
      → value k ≡ done (ok h)
      → IsValid value (record { inner = insert c.inner k h })
  insert-IsValid c k h v e = record {
    at_key = λ j w p. ground (arith, get-insert c.inner k j h, key_eq_iff k j, v.at_key j w);
  }

  on_read-IsValid :
      (c : HashCache) (k : PalletItemKey) (f : Run (Result (List ℕ) E)) (o : Option (List ℕ))
      → IsValid value c
      → o ≡ get c.inner k
      → f ≡ value k
      → (map_run (λ r. r.0) (on_read c k f o) ≡ value k)
        × ((r : Result (List ℕ) E) (c' : HashCache)
            → on_read c k f o ≡ done (r, c')
            → IsValid value c')
  unfolding on_read insert_result
  on_read-IsValid c k f (some h) v e p =
      (sym (v.at_key k h (sym e)), λ r c' q. subst (IsValid value) (cc) v)
  on_read-IsValid c k (done (ok h)) none v e p =
      (p, λ r c' q. subst (IsValid value) (cc) (insert-IsValid c k h v (sym p)))
  on_read-IsValid c k (done (err x)) none v e p = (p, λ r c' q. subst (IsValid value) (cc) v)
  on_read-IsValid c k panic none v e p = (p, λ r c' q. cc)

  -- On a valid cache a call with the closure of its key has the closure's outcome, and the cache that
  -- it leaves is valid.
  pub get_or_insert-IsValid :
      (c : HashCache) (pallet item : String)
      → IsValid value c
      → (map_run
            (λ r. r.0)
            (get_or_insert c pallet item (value (record { pallet = pallet; item = item })))
          ≡ value (record { pallet = pallet; item = item }))
        × ((r : Result (List ℕ) E) (c' : HashCache)
            → get_or_insert c pallet item (value (record { pallet = pallet; item = item }))
              ≡ done (r, c')
            → IsValid value c')
  unfolding get_or_insert
  get_or_insert-IsValid c pallet item v =
      let k : PalletItemKey = record { pallet = pallet; item = item } in
      on_read-IsValid c k (value k) (get c.inner k) v refl refl

  -- Caching is transparent: on a valid cache a call with the closure of its key has the outcome that
  -- the closure has, an error and a panic included, and leaves a valid cache if it returns.
  pub get_or_insert-transparent :
      (c : HashCache) (pallet item : String)
      → IsValid value c
      → (map_run
            (λ r. r.0)
            (get_or_insert c pallet item (value (record { pallet = pallet; item = item })))
          ≡ value (record { pallet = pallet; item = item }))
        × Leaves
            (λ r. IsValid value r.1)
            (get_or_insert c pallet item (value (record { pallet = pallet; item = item })))
  get_or_insert-transparent c pallet item v =
      let (same, next) = get_or_insert-IsValid c pallet item v in
      (same, Leaves-intro _ _ λ (r, c') e. next r c' e)
