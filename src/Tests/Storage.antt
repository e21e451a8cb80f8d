-- ===== src/Tests/Storage.antt =====
-- The metadata, the hashes of its storage and their cache.
use event_listener.Prelude.{
  ℕ, ◌<◌, ◌≡◌, refl, sym, inl, inr, subst, ◌↔◌, zero, suc, none, some, List, [], ◌∷◌, length, All,
  arith,
}
use event_listener.Outcome.{ok, ok_or, map_run, Returns, Leaves}
use event_listener.Error.{event_not_found}
use event_listener.Metadata.Types.{TypeDef, RuntimeMetadataV14, v14, StorageEntryMetadata}
use event_listener.Metadata.HashCache.{PalletItemKey}
use event_listener.Metadata.HashCache.Calls.{empty_cache-IsValid}
use event_listener.Metadata.TypeHash.{get_storage_entry_hash, repeat_32}
use event_listener.Metadata.TypeHash.Lookup.{IsFirst, entry_name, entries_of, Declares}
use event_listener.Metadata.TypeHash.Visited.{unvisited-le}
use event_listener.Metadata.TypeHash.Total.{
  EntryBelow, Below, IsClosed, Hashed, get_storage_entry_hash-Hashed,
}
use event_listener.Metadata.Store.{
  Metadata, event, storage_hash, try_from, from_runtime, as_v14, insert_pallets, insert_pallet,
  insert_variants, get_type_def_variant, as_variants, insert_event, event_of,
}
use event_listener.Metadata.Store.Events.{
  last_declared, declared_events, event-try_from, HasVariants, try_from_iff,
}
use event_listener.Metadata.Store.StorageHash.{
  fresh_hash, CacheIsValid, Answers, storage_hashes, fresh_hashes, storage_hashes-try_from,
  storage_hash-transparent, storage_hash-Answers,
}
use event_listener.Tests.Data.{meta, prefixed, metadata, types, something}

event-try_from_example :
    event metadata 0 1
    ≡ ok_or (last_declared (declared_events types meta.pallets) 0 1 none) (event_not_found 0 1)
unfolding try_from from_runtime as_v14 insert_pallets insert_pallet insert_variants
    get_type_def_variant as_variants insert_event event_of
event-try_from_example = event-try_from 1635018093 prefixed metadata 0 1 refl

try_from_iff_example : ((m : Metadata) × (try_from 1635018093 prefixed ≡ ok m)) ↔ (
    (r : RuntimeMetadataV14) × (prefixed.magic ≡ 1635018093)
    × (v14 meta ≡ v14 r)
    × All (λ p. HasVariants r.types p.event) r.pallets)
try_from_iff_example = try_from_iff 1635018093 prefixed

-- A hash that depends on the length alone.
abbrev twox_256 : List ℕ → List ℕ
twox_256 bytes = repeat_32 (length bytes)

abbrev keys : List PalletItemKey
keys =
    record { pallet = "Template"; item = "Something" }
    ∷ (record { pallet = "Template"; item = "Nothing" }
        ∷ (record { pallet = "Template"; item = "Something" } ∷ []))

storage_hashes-try_from_example :
    storage_hashes twox_256 metadata keys ≡ fresh_hashes twox_256 meta keys
unfolding try_from from_runtime as_v14 insert_pallets insert_pallet insert_variants
    get_type_def_variant as_variants insert_event event_of
storage_hashes-try_from_example =
    storage_hashes-try_from twox_256 1635018093 prefixed metadata keys refl

metadata-CacheIsValid : CacheIsValid twox_256 metadata
metadata-CacheIsValid = empty_cache-IsValid (fresh_hash twox_256 meta)

storage_hash-transparent_example :
    (map_run (λ r. r.0) (storage_hash twox_256 metadata "Template" "Something")
      ≡ fresh_hash twox_256 meta (record { pallet = "Template"; item = "Something" }))
    × Leaves
        (λ r. CacheIsValid twox_256 r.1 × (r.1.metadata ≡ meta) × (r.1.events ≡ metadata.events))
        (storage_hash twox_256 metadata "Template" "Something")
storage_hash-transparent_example =
    storage_hash-transparent twox_256 metadata "Template" "Something" metadata-CacheIsValid

types-IsClosed : IsClosed types
types-IsClosed = record { resolves = at_id }
  where
    at_id : (id : ℕ) → id < 2 → (def : TypeDef) × (types.resolve id ≡ some def) × Below 2 def
    at_id zero h = (_, refl, ((omega arith, (omega arith, tt)), tt))
    at_id (suc zero) h = (_, refl, tt)
    at_id (suc (suc n)) h = absurd (omega arith)

something-EntryBelow :
    (entry : StorageEntryMetadata)
    → Declares meta "Template" "Something" entry
    → EntryBelow 2 entry.ty
something-EntryBelow entry (p, inl (n, e), at) =
    of_entries (subst (λ q. IsFirst entry_name "Something" (entries_of q) entry) (sym e) at)
  where
    of_entries : IsFirst entry_name "Something" (something ∷ []) entry → EntryBelow 2 entry.ty
    of_entries (inl (n, e)) =
        subst (λ (x : StorageEntryMetadata). EntryBelow 2 x.ty) e (omega arith)
    of_entries (inr (n, h)) = absurd h
something-EntryBelow entry (p, inr (n, h), at) = absurd (n refl)

storage_hash-Answers_example :
    Returns
      (Answers twox_256 meta "Template" "Something")
      (map_run (λ r. r.0) (storage_hash twox_256 metadata "Template" "Something"))
storage_hash-Answers_example =
    storage_hash-Answers twox_256 (λ bytes. refl) metadata "Template" "Something"
      metadata-CacheIsValid types-IsClosed something-EntryBelow

get_storage_entry_hash-Hashed_example :
    Returns (Hashed 2 3) (get_storage_entry_hash twox_256 types 3 something [])
get_storage_entry_hash-Hashed_example =
    get_storage_entry_hash-Hashed twox_256 (λ bytes. refl) types types-IsClosed 3 something []
      (omega arith) (omega (arith, unvisited-le 2 []))
