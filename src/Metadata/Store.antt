-- ===== src/Metadata/Store.antt =====
-- `Metadata` and its conversion of event-listener/src/metadata/metadata_type.rs. The `Arc`s share
-- values that do not change, but for the cache, which a call passes and returns.
pub mod Events
pub mod Texts
pub mod StorageHash
use event_listener.Prelude.{
  ℕ, String, ◌==◌, ◌&&◌, Option, none, some, List, [], ◌∷◌, if◌then◌else◌, map,
}
use event_listener.Outcome.{Result, ok, err, ok_or, map_err, Run, map_run, ◌>>=◌}
use event_listener.Error.{
  MetadataError, pallet_not_found, storage_not_found, event_not_found, InvalidMetadataError,
  invalid_prefix, invalid_version, missing_type, type_def_not_variant,
}
use event_listener.Metadata.Types.{
  Field, Variant, TypeDef, PortableRegistry, PalletMetadata, RuntimeMetadataV14, RuntimeMetadata,
  v14, other_version, RuntimeMetadataPrefixed,
}
use event_listener.Metadata.HashCache.{HashCache, empty_cache, get_or_insert}
use event_listener.Metadata.TypeHash.{NotFound, pallet, item, get_storage_hash}

pub record EventMetadata : Type 0 where
  pub pallet : String
  pub event : String
  pub fields : List (Option String × ℕ)
  pub docs : List String

-- `HashMap<(u8, u8), EventMetadata>`, as an association list.
abbrev pub EventMap : Type 0
EventMap = List ((ℕ × ℕ) × EventMetadata)

pub record Metadata : Type 0 where
  pub metadata : RuntimeMetadataV14
  pub events : EventMap
  pub cached_storage_hashes : HashCache

unfoldable pub get_event : EventMap → ℕ → ℕ → Option EventMetadata
get_event [] p e = none
get_event (((q, f), v) ∷ m) p e = if q == p && f == e then some v else get_event m p e

unfoldable pub insert_event : EventMap → ℕ → ℕ → EventMetadata → EventMap
insert_event [] p e v = ((p, e), v) ∷ []
insert_event (((q, f), w) ∷ m) p e v =
    if q == p && f == e then ((p, e), v) ∷ m else ((q, f), w) ∷ insert_event m p e v

unfoldable pub event : Metadata → ℕ → ℕ → Result EventMetadata MetadataError
unfolding get_event
event m pallet_index event_index =
    ok_or (get_event m.events pallet_index event_index) (event_not_found pallet_index event_index)

unfoldable pub runtime_metadata : Metadata → RuntimeMetadataV14
runtime_metadata m = m.metadata

unfoldable pub from_not_found : NotFound → MetadataError
from_not_found pallet = pallet_not_found
from_not_found item = storage_not_found

unfoldable pub storage_hash :
    (twox_256 : List ℕ → List ℕ)
    → Metadata
    → (pallet storage : String) → Run (Result (List ℕ) MetadataError × Metadata)
unfolding from_not_found
storage_hash twox_256 m pallet_name storage_name =
    map_run (λ r. (r.0, record m { cached_storage_hashes = r.1 }))
      (get_or_insert m.cached_storage_hashes pallet_name storage_name (
        map_run (map_err from_not_found)
          (get_storage_hash twox_256 m.metadata pallet_name storage_name)))

-- `get_type_def_variant`, on the outcome of `resolve`.
unfoldable pub as_variants : ℕ → Option TypeDef → Result (List Variant) InvalidMetadataError
as_variants type_id none = err (missing_type type_id)
as_variants type_id (some (TypeDef.variant variants)) = ok variants
as_variants type_id (some _) = err (type_def_not_variant type_id)

unfoldable pub get_type_def_variant :
    PortableRegistry → ℕ → Result (List Variant) InvalidMetadataError
unfolding as_variants
get_type_def_variant types type_id = as_variants type_id (types.resolve type_id)

unfoldable pub event_of : String → Variant → EventMetadata
event_of pallet_name v = record {
  pallet = pallet_name;
  event = v.name;
  fields = map (λ (f : Field). (f.name, f.ty)) v.fields;
  docs = v.docs;
}

-- `for variant in event_variant.variants()`
unfoldable pub insert_variants : PalletMetadata → List Variant → EventMap → EventMap
unfolding insert_event event_of
insert_variants p [] events = events
insert_variants p (v ∷ vs) events =
    insert_variants p vs (insert_event events p.index v.index (event_of p.name v))

-- `if let Some(event) = &pallet.event`
unfoldable pub insert_pallet :
    PortableRegistry → PalletMetadata → Option ℕ → EventMap → Result EventMap InvalidMetadataError
unfolding get_type_def_variant insert_variants
insert_pallet types p none events = ok events
insert_pallet types p (some event_type_id) events = do
  variants ← get_type_def_variant types event_type_id
  ok (insert_variants p variants events)

-- `for pallet in &metadata.pallets`
unfoldable pub insert_pallets :
    PortableRegistry → List PalletMetadata → EventMap → Result EventMap InvalidMetadataError
unfolding insert_pallet
insert_pallets types [] events = ok events
insert_pallets types (p ∷ ps) events = do
  events' ← insert_pallet types p p.event events
  insert_pallets types ps events'

unfoldable pub as_v14 : RuntimeMetadata → Result RuntimeMetadataV14 InvalidMetadataError
as_v14 (v14 meta) = ok meta
as_v14 (other_version _) = err invalid_version

-- What follows the check of the magic number.
unfoldable pub from_runtime : RuntimeMetadata → Result Metadata InvalidMetadataError
unfolding as_v14 insert_pallets
from_runtime r = do
  meta ← as_v14 r
  events ← insert_pallets meta.types meta.pallets []
  ok (record { metadata = meta; events = events; cached_storage_hashes = empty_cache })

-- `META_RESERVED` is a constant of frame_metadata.
unfoldable pub try_from :
    (meta_reserved : ℕ) → RuntimeMetadataPrefixed → Result Metadata InvalidMetadataError
unfolding from_runtime
try_from meta_reserved m =
    if m.magic == meta_reserved then from_runtime m.metadata else err invalid_prefix
