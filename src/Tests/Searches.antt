-- ===== src/Tests/Searches.antt =====
-- The searches of a block that the test utilities have encoded, and its root events.
use event_listener.Prelude.{
  ◌==◌, if◌then◌else◌, String, ℕ, zero, suc, ◌≡◌, ◌≢◌, refl, List, [], ◌∷◌, ◌++◌, map, length, All,
  arith,
}
use event_listener.Outcome.{ok, err, done}
use event_listener.Error.{CodecError, codec, event_not_found, show_metadata_error}
use event_listener.Metadata.Store.{event, get_event}
use event_listener.Metadata.Store.Texts.{event-show_metadata_error}
use event_listener.Events.Codec.{finalization, initialization, Decoder}
use event_listener.Events.Details.{EventDetails}
use event_listener.Events.Block.{find, iter}
use event_listener.Events.Records.{
  AllEvents, test, EventRecord, event_record, encode_records, events, events_raw,
}
use event_listener.Events.Records.Broken.{no_phase, iter-until_error}
use event_listener.Events.Records.RoundTrip.{RecordDescribed, Restored}
use event_listener.Events.Records.Search.{matching, find-matching}
use event_listener.Events.Records.RootEvent.{IsRefused, as_root_event-IsRefused}
use event_listener.Events.Records.Fields.{ReadsValues, AllValued, field_values-events}
use event_listener.Metadata.Types.{PortableRegistry}
use event_listener.Tests.Data.{metadata, stored, one_byte}
use event_listener.Tests.Records.{
  full_codec, full_codec-IsLawful, full_codec-IsInverse, encoders, records, records-described,
  stored-IsDescribed,
}

find-matching_example :
    find full_codec stored (events encoders full_codec 0 metadata records)
    ≡ done (matching full_codec encoders metadata stored records records-described)
find-matching_example =
    find-matching full_codec full_codec-IsLawful encoders full_codec-IsInverse 0 metadata stored
      records records-described (omega arith)

-- The root event of one pallet, with its index, and of one variant.
abbrev root : Decoder (AllEvents (ℕ × ℕ)) CodecError
root (zero ∷ (zero ∷ (a ∷ (b ∷ bytes)))) = (ok (test (a, b)), bytes)
root bytes = (err "no such event", bytes)

root-refuses : (b : ℕ) (rest : List ℕ) → b ≢ 0 → (e : CodecError) × ((root (b ∷ rest)).0 ≡ err e)
root-refuses zero rest h = absurd (h refl)
root-refuses (suc b) rest h = ("no such event", refl)

-- No extrinsic has deposited these events.
abbrev hooks : List (EventRecord ℕ (ℕ × ℕ))
hooks = event_record initialization (7, 8) ∷ (event_record finalization (9, 8) ∷ [])

hooks-described : All (RecordDescribed full_codec encoders metadata) hooks
unfolding event_record
hooks-described = (stored-IsDescribed (7, 8), (stored-IsDescribed (9, 8), tt))

as_root_event-IsRefused_example :
    (ds : List EventDetails) × (iter full_codec (events encoders full_codec 0 metadata hooks)
      ≡ done (map ok ds))
    × (length ds ≡ 2)
    × All (IsRefused full_codec encoders metadata root) ds
unfolding event_record
as_root_event-IsRefused_example =
    as_root_event-IsRefused full_codec full_codec-IsLawful encoders full_codec-IsInverse 0 metadata
      root hooks hooks-described (omega arith) root-refuses
      ((2, [], refl, omega arith), ((1, [], refl, omega arith), tt))

-- Bytes that begin with no phase, behind two records.
iter-until_error_example :
    (ds : List EventDetails) × (iter full_codec (
        events_raw encoders full_codec 0 metadata
          (encode_records encoders records ++ (3 ∷ (127 ∷ [])))
          3)
      ≡ done (map ok ds ++ (err (codec "no such phase") ∷ [])))
    × Restored full_codec encoders metadata 0 records records-described ds
iter-until_error_example =
    iter-until_error full_codec full_codec-IsLawful encoders full_codec-IsInverse 0 metadata records
      records-described (3 ∷ (127 ∷ [])) (codec "no such phase") 3
      (no_phase "no such phase" (127 ∷ []) refl) (omega arith) (omega arith) (omega arith)

-- A value is a byte, and is encoded as it.
abbrev decode_byte : PortableRegistry → ℕ → Decoder ℕ String
decode_byte types id = one_byte ok

abbrev encode_byte : PortableRegistry → ℕ → ℕ → List ℕ
encode_byte types id v = v ∷ []

byte_values : ReadsValues full_codec encoders metadata decode_byte encode_byte
byte_values id [] h = let e = h [] in cc
byte_values id (b ∷ []) h = (b, λ after. refl, refl)
byte_values id (b ∷ (x ∷ xs)) h = let e = h [] in cc

field_values-events_example :
    (ds : List EventDetails) × (iter full_codec (events encoders full_codec 0 metadata records)
      ≡ done (map ok ds))
    × AllValued full_codec encoders metadata decode_byte encode_byte records records-described ds
field_values-events_example =
    field_values-events full_codec encoders metadata decode_byte encode_byte full_codec-IsLawful
      full_codec-IsInverse byte_values 0 records records-described (omega arith)

abbrev one_digit : ℕ → String
one_digit n = if n == 0 then "0" else "1"

-- No event of the pallet has the index 1 or 2.
event-show_metadata_error_example :
    show_metadata_error one_digit (event_not_found 0 1)
    ≡ show_metadata_error one_digit (event_not_found 0 2)
unfolding event get_event
event-show_metadata_error_example =
    event-show_metadata_error one_digit metadata 0 1 2 (event_not_found 0 1) (event_not_found 0 2)
      refl refl
