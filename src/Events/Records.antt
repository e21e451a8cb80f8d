-- ===== src/Events/Records.antt =====
-- The test utilities of event-listener/src/events/events_type.rs: the encoding of the events of a
-- block. The encoders of the crate `codec` are parameters.
pub mod Decode
pub mod RoundTrip
pub mod Search
pub mod RootEvent
pub mod Broken
pub mod Fields
pub mod Pallet
pub mod Filtered
pub mod Received
use event_listener.Prelude.{ℕ, ◌%◌, ◌^◌, String, Option, some, List, [], ◌∷◌, ◌++◌, length}
use event_listener.Outcome.{Result, ok, err, Run}
use event_listener.Metadata.Types.{RuntimeMetadataV14, v14}
use event_listener.Metadata.Store.{Metadata, try_from}
use event_listener.Events.Details.{expect_ok}
use event_listener.Events.Codec.{Phase, Codec}
use event_listener.Events.Block as Block
use event_listener.Events.Block.{Events}

-- `codec::Encode`; `event` is that of the events' type `E`.
pub record Encoders (Hash E : Type 0) : Type 0 where
  pub compact_u32 : ℕ → List ℕ
  pub phase : Phase → List ℕ
  pub topics : List Hash → List ℕ
  pub event : E → List ℕ

-- `AllEvents<Ev>`, an enum with one variant.
pub data AllEvents (E : Type 0) : Type 0 where
  test : E → AllEvents E

pub record EventRecord (Hash E : Type 0) : Type 0 where
  pub phase : Phase
  pub event : AllEvents E
  pub topics : List Hash

unfoldable pub event_record : {Hash E : Type 0} → Phase → E → EventRecord Hash E
event_record phase event = record { phase = phase; event = test event; topics = [] }

-- `PalletMetadata` before its types `T` are registered; it has no storage.
pub record MetaPallet (T : Type 0) : Type 0 where
  pub name : String
  pub event : Option T
  pub index : ℕ

-- `metadata::<E>()`: `new_v14` is `RuntimeMetadataV14::new`, which registers the types, and
-- `META_RESERVED` the constant that its conversion puts in front.
unfoldable pub metadata :
    {T : Type 0}
    → (meta_reserved : ℕ) → (new_v14 : List (MetaPallet T) → RuntimeMetadataV14) → T
    → Run Metadata
unfolding try_from
metadata {T} meta_reserved new_v14 meta_type =
    let pallet : MetaPallet T = record { name = "Test"; event = some meta_type; index = 0 } in
    expect_ok (
      try_from meta_reserved
        (record { magic = meta_reserved; metadata = v14 (new_v14 (pallet ∷ [])) }))

module _ {Hash E : Type 0} (enc : Encoders Hash E) where
  -- The derived encoders: the variant's index and its fields, and the fields in their order.
  unfoldable pub encode_all_events : AllEvents E → List ℕ
  encode_all_events (test e) = 0 ∷ enc.event e

  unfoldable pub encode_record : EventRecord Hash E → List ℕ
  unfolding encode_all_events
  encode_record r = enc.phase r.phase ++ (encode_all_events r.event ++ enc.topics r.topics)

  -- `for ev in event_records`
  unfoldable pub encode_records : List (EventRecord Hash E) → List ℕ
  encode_records [] = []
  encode_records (r ∷ rs) = encode_record r ++ encode_records rs

  unfoldable pub events_raw :
      Codec Hash → (default_hash : Hash) → Metadata → List ℕ → (num_events : ℕ) → Events Hash
  events_raw c default_hash metadata event_bytes num_events =
      Block.new c metadata default_hash (enc.compact_u32 num_events ++ event_bytes)

  unfoldable pub events :
      Codec Hash → (default_hash : Hash) → Metadata → List (EventRecord Hash E) → Events Hash
  unfolding encode_records events_raw
  events c default_hash metadata event_records =
      events_raw c default_hash metadata (encode_records event_records)
        (length event_records % 2 ^ 32)
