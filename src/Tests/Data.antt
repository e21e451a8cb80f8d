-- ===== src/Tests/Data.antt =====
-- The decoders, the metadata and the bytes of the tests: a pallet with one event of two fields and
-- one storage item, and a block with two such events.
use event_listener.Prelude.{ℕ, ◌==◌, refl, String, Option, none, some, List, [], ◌∷◌, if◌then◌else◌}
use event_listener.Outcome.{Result, ok, err}
use event_listener.Error.{CodecError}
use event_listener.Metadata.Types.{
  Variant, TypeDef, PortableRegistry, StorageEntryMetadata, plain, PalletMetadata,
  RuntimeMetadataV14, RuntimeMetadataPrefixed, v14,
}
use event_listener.Metadata.HashCache.{empty_cache}
use event_listener.Metadata.Store.{Metadata}
use event_listener.Events.Codec.{
  Phase, finalization, initialization, Decoder, StaticEvent, Codec, Reads, IsLawful,
}
use event_listener.Events.Details.{EventDetails}
use event_listener.Events.Block.{Events}

-- A value of one byte.
abbrev pub one_byte : {A : Type 0} → (ℕ → Result A String) → Decoder A String
one_byte f [] = (err "Not enough data to fill buffer", [])
one_byte f (b ∷ bytes) = (f b, bytes)

pub one_byte-Reads :
    {A : Type 0} (f : ℕ → Result A String) (bytes : List ℕ) → Reads bytes (one_byte f bytes).1
one_byte-Reads f [] = ([], refl)
one_byte-Reads f (b ∷ bytes) = (b ∷ [], refl)

abbrev pub phase_of : ℕ → Result Phase CodecError
phase_of b =
    if b == 1 then ok finalization else if b == 2 then ok initialization else err "no such phase"

-- No topics.
abbrev pub topics_of : ℕ → Result (List ℕ) CodecError
topics_of b = if b == 0 then ok [] else err "topics"

abbrev pub codec : Codec ℕ
codec = record {
  compact_u32 = one_byte ok;
  u8 = one_byte ok;
  phase = one_byte phase_of;
  topics = one_byte topics_of;
  skip = λ types id. one_byte (λ b. ok tt);
}

pub codec-IsLawful : IsLawful codec
codec-IsLawful = record {
  compact_u32_reads = one_byte-Reads ok;
  phase_reads = one_byte-Reads phase_of;
  topics_reads = one_byte-Reads topics_of;
  skip_reads = λ types id. one_byte-Reads (λ b. ok tt);
  u8_byte = λ b bytes. refl;
  u8_empty = ("Not enough data to fill buffer", refl);
}

abbrev pub something_stored : Variant
something_stored = record {
  name = "SomethingStored";
  fields = record { name = some "something"; ty = 1 } ∷ (record { name = some "who"; ty = 1 } ∷ []);
  index = 0;
  docs = [];
}

abbrev pub type_def : ℕ → Option TypeDef
type_def id =
    if id == 0
    then some (TypeDef.variant (something_stored ∷ []))
    else if id == 1
    then some (TypeDef.primitive 5)
    else none

abbrev pub types : PortableRegistry
types = record { len = 2; resolve = type_def }

abbrev pub something : StorageEntryMetadata
something = record { name = "Something"; modifier = 0; ty = plain 1; default = [] }

abbrev pub template : PalletMetadata
template = record {
  name = "Template";
  storage = some (record { entries = something ∷ [] });
  event = some 0;
  index = 0;
}

abbrev pub meta : RuntimeMetadataV14
meta = record { types = types; pallets = template ∷ [] }

abbrev pub prefixed : RuntimeMetadataPrefixed
prefixed = record { magic = 1635018093; metadata = v14 meta }

abbrev pub metadata : Metadata
metadata = record {
  metadata = meta;
  events =
      (
        (0, 0),
        record {
          pallet = "Template";
          event = "SomethingStored";
          fields = (some "something", 1) ∷ ((some "who", 1) ∷ []);
          docs = [];
        },
      )
      ∷ [];
  cached_storage_hashes = empty_cache;
}

-- Two events: each has its phase, two indices, two fields and its topics.
abbrev pub event_bytes : List ℕ
event_bytes = 2 ∷ 2 ∷ 0 ∷ 0 ∷ 7 ∷ 8 ∷ 0 ∷ 1 ∷ 0 ∷ 0 ∷ 9 ∷ 8 ∷ 0 ∷ []

abbrev pub block : Events ℕ
block = record {
  metadata = metadata;
  block_hash = 77;
  event_bytes = event_bytes;
  start_idx = 1;
  num_events = 2;
}

-- The value and the account of an event.
abbrev pub stored : StaticEvent ℕ
stored = record { pallet = "Template"; event = "SomethingStored"; decode = one_byte ok }

abbrev pub other_event : StaticEvent ℕ
other_event = record { pallet = "System"; event = "CodeUpdated"; decode = one_byte ok }

abbrev pub first_event : EventDetails
first_event = record {
  phase = initialization;
  index = 0;
  all_bytes = event_bytes;
  start_idx = 1;
  fields_start_idx = 4;
  fields_end_idx = 6;
  end_idx = 7;
  metadata = metadata;
}
