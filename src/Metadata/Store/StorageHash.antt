-- ===== src/Metadata/Store/StorageHash.antt =====
-- `Metadata::storage_hash` of event-listener/src/metadata/metadata_type.rs, through its cache.
use event_listener.Prelude.{
  ap, ◌∷◌, ℕ, suc, String, ◌≡◌, refl, sym, subst, ◌∙◌, List, [], length, arith,
}
use event_listener.Outcome.{
  panic, and_run, Result, ok, err, map_err, Run, done, map_run, Returns, Returns-map_run,
  map_run-map_run, map_run-eq-done, Leaves, Leaves-intro,
}
use event_listener.Error.{MetadataError, pallet_not_found, storage_not_found}
use event_listener.Metadata.Types.{
  PalletMetadata, RuntimeMetadataV14, StorageEntryMetadata, RuntimeMetadataPrefixed,
}
use event_listener.Metadata.HashCache.{PalletItemKey}
use event_listener.Metadata.HashCache.Calls.{IsValid, empty_cache-IsValid, get_or_insert-IsValid}
use event_listener.Metadata.TypeHash.{NotFound, lookup_entry, entry_hash_result, get_storage_hash}
use event_listener.Metadata.TypeHash.Lookup.{
  NoneNamed, IsFirst, pallet_name, entry_name, entries_of, Declares, Found, no_pallet, no_item,
  declared, lookup_entry-Found,
}
use event_listener.Metadata.TypeHash.Visited.{unvisited-le}
use event_listener.Metadata.TypeHash.Total.{
  IsClosed, EntryBelow, Hashed, get_storage_entry_hash-Hashed,
}
use event_listener.Metadata.Store.{Metadata, from_not_found, storage_hash, try_from}
use event_listener.Metadata.Store.Events.{from_runtime-eq-ok, try_from-eq-ok}

module _ (twox_256 : List ℕ → List ℕ) where
  -- The hash of a storage entry with no cache.
  abbrev pub fresh_hash : RuntimeMetadataV14 → PalletItemKey → Run (Result (List ℕ) MetadataError)
  fresh_hash meta k =
      map_run (map_err from_not_found) (get_storage_hash twox_256 meta k.pallet k.item)

  -- The cache holds hashes of this metadata only.
  abbrev pub CacheIsValid : Metadata → Type 0
  CacheIsValid m = IsValid (fresh_hash m.metadata) m.cached_storage_hashes

  -- A converted metadata starts with a valid cache.
  pub try_from-CacheIsValid :
      (meta_reserved : ℕ) (prefixed : RuntimeMetadataPrefixed) (m : Metadata)
      → try_from meta_reserved prefixed ≡ ok m
      → CacheIsValid m
  try_from-CacheIsValid meta_reserved prefixed m h =
      let (magic, g) = try_from-eq-ok meta_reserved prefixed m h in
      subst (IsValid (fresh_hash m.metadata)) (sym (from_runtime-eq-ok prefixed.metadata m g).2)
        (empty_cache-IsValid (fresh_hash m.metadata))

  -- On a valid cache `storage_hash` has the outcome of `fresh_hash`, and the cache that it leaves is
  -- valid.
  pub storage_hash-CacheIsValid :
      (m : Metadata) (pallet storage : String)
      → CacheIsValid m
      → (map_run (λ r. r.0) (storage_hash twox_256 m pallet storage)
          ≡ fresh_hash m.metadata (record { pallet = pallet; item = storage }))
        × ((r : Result (List ℕ) MetadataError) (m' : Metadata)
            → storage_hash twox_256 m pallet storage ≡ done (r, m')
            → CacheIsValid m' × (m'.metadata ≡ m.metadata) × (m'.events ≡ m.events))
  unfolding storage_hash
  storage_hash-CacheIsValid m pallet storage v =
      let (same, next) =
        get_or_insert-IsValid (fresh_hash m.metadata) m.cached_storage_hashes pallet storage v in
      (
        map_run-map_run (λ r. r.0) _ _ ∙ same,
        λ r m' e.
            let ((r', c'), run, eq) = map_run-eq-done _ _ e in
            let valid : IsValid (fresh_hash m.metadata) c' = next r' c' run in
            let same_m : record m { cached_storage_hashes = c' } ≡ m' = cc in
            subst (λ n. CacheIsValid n × (n.metadata ≡ m.metadata) × (n.events ≡ m.events)) same_m
              (valid, refl, refl),
      )

  -- On a valid cache `storage_hash` has the outcome of a computation with no cache. If it returns,
  -- the cache is valid again, and the rest of the metadata has not changed.
  pub storage_hash-transparent :
      (m : Metadata) (pallet storage : String)
      → CacheIsValid m
      → (map_run (λ r. r.0) (storage_hash twox_256 m pallet storage)
          ≡ fresh_hash m.metadata (record { pallet = pallet; item = storage }))
        × Leaves
            (λ r. CacheIsValid r.1 × (r.1.metadata ≡ m.metadata) × (r.1.events ≡ m.events))
            (storage_hash twox_256 m pallet storage)
  storage_hash-transparent m pallet storage v =
      let (same, next) = storage_hash-CacheIsValid m pallet storage v in
      (same, Leaves-intro _ _ λ (r, m') e. next r m' e)

  -- Calls of `storage_hash` one after the other, and what they answer.
  abbrev pub storage_hashes :
      Metadata → List PalletItemKey → Run (List (Result (List ℕ) MetadataError))
  storage_hashes m [] = done []
  storage_hashes m (k ∷ ks) =
      and_run (storage_hash twox_256 m k.pallet k.item)
        λ r. map_run (λ hs. r.0 ∷ hs) (storage_hashes r.1 ks)

  -- The same with no cache.
  abbrev pub fresh_hashes :
      RuntimeMetadataV14 → List PalletItemKey → Run (List (Result (List ℕ) MetadataError))
  fresh_hashes meta [] = done []
  fresh_hashes meta (k ∷ ks) =
      and_run (fresh_hash meta k) λ h. map_run (λ hs. h ∷ hs) (fresh_hashes meta ks)

  storage_hashes_valid :
      (ks : List PalletItemKey) (m : Metadata)
      → CacheIsValid m
      → storage_hashes m ks ≡ fresh_hashes m.metadata ks
  storage_hashes_valid [] m v = refl
  storage_hashes_valid (k ∷ ks) m v =
      let (same, next) = storage_hash-CacheIsValid m k.pallet k.item v in
      one (storage_hash twox_256 m k.pallet k.item) same next
        (λ m' v'. storage_hashes_valid ks m' v')
    where
      one :
          (run : Run (Result (List ℕ) MetadataError × Metadata))
          → map_run (λ r. r.0) run ≡ fresh_hash m.metadata k
          → ((r : Result (List ℕ) MetadataError) (m' : Metadata)
              → run ≡ done (r, m')
              → CacheIsValid m' × (m'.metadata ≡ m.metadata) × (m'.events ≡ m.events))
          → ((m' : Metadata) → CacheIsValid m' → storage_hashes m' ks ≡ fresh_hashes m'.metadata ks)
          → and_run run (λ r. map_run (λ hs. r.0 ∷ hs) (storage_hashes r.1 ks))
            ≡ and_run
                (fresh_hash m.metadata k)
                (λ h. map_run (λ hs. h ∷ hs) (fresh_hashes m.metadata ks))
      one panic same next ih = rw (sym same) refl
      one (done (r, m')) same next ih =
          let (valid, same_metadata, same_events) = next r m' refl in
          rw (sym same)
            (ap (map_run (λ hs. r ∷ hs)) (ih m' valid ∙ ap (λ t. fresh_hashes t ks) same_metadata))

  -- After a successful conversion, any sequence of calls of `storage_hash` that share the cache
  -- answers as calls with no cache would, a panic included, which ends both.
  pub storage_hashes-try_from :
      (meta_reserved : ℕ) (prefixed : RuntimeMetadataPrefixed) (m : Metadata)
      (ks : List PalletItemKey)
      → try_from meta_reserved prefixed ≡ ok m
      → storage_hashes m ks ≡ fresh_hashes m.metadata ks
  storage_hashes-try_from meta_reserved prefixed m ks h =
      storage_hashes_valid ks m (try_from-CacheIsValid meta_reserved prefixed m h)

  -- The answer that the metadata's names give: 32 bytes for an entry that is declared, and what is
  -- missing otherwise.
  pub data Answers (meta : RuntimeMetadataV14) (pallet storage : String)
      : Result (List ℕ) MetadataError → Type 0 where
    no_such_pallet :
        NoneNamed pallet_name pallet meta.pallets
        → Answers meta pallet storage (err pallet_not_found)
    no_such_entry :
        (p : PalletMetadata)
        → IsFirst pallet_name pallet meta.pallets p
        → NoneNamed entry_name storage (entries_of p)
        → Answers meta pallet storage (err storage_not_found)
    hashed :
        (entry : StorageEntryMetadata)
        → Declares meta pallet storage entry
        → (h : List ℕ) → length h ≡ 32
        → Answers meta pallet storage (ok h)

  module _ (wide : (bytes : List ℕ) → length (twox_256 bytes) ≡ 32) where
    fresh_hash-Answers :
        (meta : RuntimeMetadataV14) (pallet storage : String)
        (o : Result StorageEntryMetadata NotFound)
        → IsClosed meta.types
        → ((entry : StorageEntryMetadata)
            → Declares meta pallet storage entry
            → EntryBelow meta.types.len entry.ty)
        → Found meta pallet storage o
        → Returns
            (Answers meta pallet storage)
            (map_run (map_err from_not_found) (entry_hash_result twox_256 meta.types o))
    unfolding entry_hash_result from_not_found
    fresh_hash-Answers meta pallet storage o closed below (no_pallet h e) = rw e (no_such_pallet h)
    fresh_hash-Answers meta pallet storage o closed below (no_item p h g e) =
        rw e (no_such_entry p h g)
    fresh_hash-Answers meta pallet storage o closed below (declared entry d e) =
        rw (e, map_run-map_run)
          (Returns-map_run (Hashed meta.types.len (suc meta.types.len))
            (Answers meta pallet storage) _ _
            (get_storage_entry_hash-Hashed twox_256 wide meta.types closed (suc meta.types.len)
              entry [] (below entry d) (omega (arith, unvisited-le meta.types.len [])))
            λ r hr. hashed entry d r.0 hr.0)

    -- If `twox_256` yields 32 bytes: on a closed registry that has the types of the entry, and with a
    -- valid cache, `storage_hash` returns. If no pallet has the name, it gives `PalletNotFound`; if the
    -- first pallet with the name has no storage entry with the item's name, `StorageNotFound`; and
    -- otherwise 32 bytes.
    pub storage_hash-Answers :
        (m : Metadata) (pallet storage : String)
        → CacheIsValid m
        → IsClosed m.metadata.types
        → ((entry : StorageEntryMetadata)
            → Declares m.metadata pallet storage entry
            → EntryBelow m.metadata.types.len entry.ty)
        → Returns
            (Answers m.metadata pallet storage)
            (map_run (λ r. r.0) (storage_hash twox_256 m pallet storage))
    unfolding get_storage_hash
    storage_hash-Answers m pallet storage v closed below =
        rw (storage_hash-CacheIsValid m pallet storage v).0 (
          fresh_hash-Answers m.metadata pallet storage (lookup_entry m.metadata pallet storage)
            closed below (lookup_entry-Found m.metadata pallet storage))
