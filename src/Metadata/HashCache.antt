-- ===== src/Metadata/HashCache.antt =====
-- event-listener/src/metadata/hash_cache.rs.
pub mod Laws
pub mod Calls
pub mod Locks
pub mod Threads
use event_listener.Prelude.{
  ℕ, String, Bool, Option, none, some, List, [], ◌∷◌, ◌&&◌, str_eq, if◌then◌else◌,
}
use event_listener.Outcome.{Result, ok, err, Run, done, map_run}

pub record PalletItemKey : Type 0 where
  pub pallet : String
  pub item : String

unfoldable pub key_eq : PalletItemKey → PalletItemKey → Bool
key_eq j k = str_eq j.pallet k.pallet && str_eq j.item k.item

-- The hash map under the lock, as an association list.
pub record HashCache : Type 0 where
  pub inner : List (PalletItemKey × List ℕ)

abbrev pub empty_cache : HashCache
empty_cache = record { inner = [] }

unfoldable pub get : List (PalletItemKey × List ℕ) → PalletItemKey → Option (List ℕ)
unfolding key_eq
get [] k = none
get ((j, v) ∷ m) k = if key_eq j k then some v else get m k

unfoldable pub insert :
    List (PalletItemKey × List ℕ) → PalletItemKey → List ℕ → List (PalletItemKey × List ℕ)
unfolding key_eq
insert [] k v = (k, v) ∷ []
insert ((j, w) ∷ m) k v = if key_eq j k then (k, v) ∷ m else (j, w) ∷ insert m k v

-- What follows once `f` has been run.
unfoldable pub insert_result :
    {E : Type 0} → HashCache → PalletItemKey → Result (List ℕ) E → Result (List ℕ) E × HashCache
insert_result c k (ok hash) = (ok hash, record { inner = insert c.inner k hash })
insert_result c k (err e) = (err e, c)

-- What follows once the map has been read: `f`, the closure's computation, is run on a miss only.
unfoldable pub on_read :
    {E : Type 0}
    → HashCache
    → PalletItemKey
    → (f : Run (Result (List ℕ) E)) → Option (List ℕ)
    → Run (Result (List ℕ) E × HashCache)
unfolding insert_result
on_read c k f (some hash) = done (ok hash, c)
on_read c k f none = map_run (insert_result c k) f

unfoldable pub get_or_insert :
    {E : Type 0}
    → HashCache
    → (pallet item : String) → (f : Run (Result (List ℕ) E)) → Run (Result (List ℕ) E × HashCache)
unfolding get on_read
get_or_insert c pallet item f =
    let key : PalletItemKey = record { pallet = pallet; item = item } in
    on_read c key f (get c.inner key)
