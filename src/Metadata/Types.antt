-- ===== src/Metadata/Types.antt =====
-- The parts of frame_metadata and scale_info that event-listener/src/metadata reads: the fields and
-- the cases that its accessors and matches show. A type id is the `u32` behind `ty().id()`.
use event_listener.Prelude.{ℕ, String, Option, List}

-- `scale_info::Field`: `name()` and `ty().id()`.
pub record Field : Type 0 where
  pub name : Option String
  pub ty : ℕ

-- `scale_info::Variant`: `name()`, `fields()`, `index()` and `docs()`.
pub record Variant : Type 0 where
  pub name : String
  pub fields : List Field
  pub index : ℕ
  pub docs : List String

-- `scale_info::TypeDef`; a primitive is its discriminant.
pub data TypeDef : Type 0 where
  composite : List Field → TypeDef
  variant : List Variant → TypeDef
  sequence : (type_param : ℕ) → TypeDef
  array : (len type_param : ℕ) → TypeDef
  tuple : List ℕ → TypeDef
  primitive : (discriminant : ℕ) → TypeDef
  compact : (type_param : ℕ) → TypeDef
  bit_sequence : (bit_order_type bit_store_type : ℕ) → TypeDef

-- `scale_info::PortableRegistry`: `resolve(id)`, the definition of a type, and how many types it has.
pub record PortableRegistry : Type 0 where
  pub len : ℕ
  pub resolve : ℕ → Option TypeDef

-- `StorageEntryType`; a hasher is its discriminant.
pub data StorageEntryType : Type 0 where
  plain : (ty : ℕ) → StorageEntryType
  map : (hashers : List ℕ) (key value : ℕ) → StorageEntryType

-- `StorageEntryMetadata`; the modifier is its discriminant.
pub record StorageEntryMetadata : Type 0 where
  pub name : String
  pub modifier : ℕ
  pub ty : StorageEntryType
  pub default : List ℕ

pub record PalletStorageMetadata : Type 0 where
  pub entries : List StorageEntryMetadata

-- `event` is the id of the pallet's event type.
pub record PalletMetadata : Type 0 where
  pub name : String
  pub storage : Option PalletStorageMetadata
  pub event : Option ℕ
  pub index : ℕ

pub record RuntimeMetadataV14 : Type 0 where
  pub types : PortableRegistry
  pub pallets : List PalletMetadata

-- `RuntimeMetadata`: version 14, or another one.
pub data RuntimeMetadata : Type 0 where
  v14 : RuntimeMetadataV14 → RuntimeMetadata
  other_version : ℕ → RuntimeMetadata

-- The magic number, and the metadata.
pub record RuntimeMetadataPrefixed : Type 0 where
  pub magic : ℕ
  pub metadata : RuntimeMetadata
