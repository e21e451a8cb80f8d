-- ===== src/Tests/Records.antt =====
-- The test utilities of the events: decoders and encoders that are the inverse of each other, and a
-- block of two records.
use event_listener.Prelude.{ℕ, zero, suc, ◌≡◌, refl, ap, List, [], ◌∷◌, ◌++◌, map, arith, All}
use event_listener.Outcome.{Result, ok, err, done}
use event_listener.Error.{CodecError}
use event_listener.Metadata.Store.{event, get_event}
use event_listener.Events.Codec.{
  Phase, apply_extrinsic, finalization, initialization, Decoder, Codec, Reads, IsLawful,
}
use event_listener.Events.Details.{EventDetails}
use event_listener.Events.Block.{iter}
use event_listener.Events.Records.{Encoders, test, EventRecord, event_record, events}
use event_listener.Events.Records.Decode.{IsInverse, IsDescribed}
use event_listener.Events.Records.RoundTrip.{RecordDescribed, Restored, iter-events}
use event_listener.Tests.Data.{one_byte, one_byte-Reads, codec, codec-IsLawful, phase_of, metadata}

-- An extrinsic's index follows the tag 0.
abbrev pub phase : Decoder Phase CodecError
phase [] = (err "Not enough data to fill buffer", [])
phase (zero ∷ bytes) = one_byte (λ n. ok (apply_extrinsic n)) bytes
phase (suc b ∷ bytes) = (phase_of (suc b), bytes)

phase-Reads : (bytes : List ℕ) → Reads bytes (phase bytes).1
phase-Reads [] = ([], refl)
phase-Reads (zero ∷ bytes) =
    let (used, e) = one_byte-Reads {A = Phase} (λ n. ok (apply_extrinsic n)) bytes in
    (0 ∷ used, ap (λ l. 0 ∷ l) e)
phase-Reads (suc b ∷ bytes) = (suc b ∷ [], refl)

abbrev pub encode_phase : Phase → List ℕ
encode_phase (apply_extrinsic n) = 0 ∷ (n ∷ [])
encode_phase finalization = 1 ∷ []
encode_phase initialization = 2 ∷ []

-- A topic is one more than it is, and 0 ends the topics.
abbrev pub add_topic : ℕ → Result (List ℕ) CodecError → Result (List ℕ) CodecError
add_topic t (ok ts) = ok (t ∷ ts)
add_topic t (err e) = err e

abbrev pub topics : Decoder (List ℕ) CodecError
topics [] = (err "Not enough data to fill buffer", [])
topics (zero ∷ bytes) = (ok [], bytes)
topics (suc t ∷ bytes) = (add_topic t (topics bytes).0, (topics bytes).1)

topics-Reads : (bytes : List ℕ) → Reads bytes (topics bytes).1
topics-Reads [] = ([], refl)
topics-Reads (zero ∷ bytes) = (0 ∷ [], refl)
topics-Reads (suc t ∷ bytes) =
    let (used, e) = topics-Reads bytes in (suc t ∷ used, ap (λ l. suc t ∷ l) e)

abbrev pub encode_topics : List ℕ → List ℕ
encode_topics [] = 0 ∷ []
encode_topics (t ∷ ts) = suc t ∷ encode_topics ts

pub topics-encode_topics : (ts rest : List ℕ) → topics (encode_topics ts ++ rest) ≡ (ok ts, rest)
topics-encode_topics [] rest = refl
topics-encode_topics (t ∷ ts) rest = rw (topics-encode_topics ts rest) refl

abbrev pub full_codec : Codec ℕ
full_codec = record {
  compact_u32 = codec.compact_u32;
  u8 = codec.u8;
  phase = phase;
  topics = topics;
  skip = codec.skip;
}

pub full_codec-IsLawful : IsLawful full_codec
full_codec-IsLawful = record {
  compact_u32_reads = codec-IsLawful.compact_u32_reads;
  phase_reads = phase-Reads;
  topics_reads = topics-Reads;
  skip_reads = codec-IsLawful.skip_reads;
  u8_byte = codec-IsLawful.u8_byte;
  u8_empty = codec-IsLawful.u8_empty;
}

-- An event is the value and the account of `SomethingStored`.
abbrev pub encoders : Encoders ℕ (ℕ × ℕ)
encoders = record {
  compact_u32 = λ n. n ∷ [];
  phase = encode_phase;
  topics = encode_topics;
  event = λ e. 0 ∷ (e.0 ∷ (e.1 ∷ []));
}

pub phase-encode_phase : (p : Phase) (rest : List ℕ) → phase (encode_phase p ++ rest) ≡ (ok p, rest)
phase-encode_phase (apply_extrinsic n) rest = refl
phase-encode_phase finalization rest = refl
phase-encode_phase initialization rest = refl

pub full_codec-IsInverse : IsInverse full_codec encoders
full_codec-IsInverse = record {
  compact_u32 = λ n rest h. refl;
  phase = phase-encode_phase;
  topics = topics-encode_topics;
}

pub stored-IsDescribed : (e : ℕ × ℕ) → IsDescribed full_codec encoders metadata e
unfolding event get_event
stored-IsDescribed e = record {
  variant = 0;
  fields = e.0 ∷ (e.1 ∷ []);
  declared = _;
  encoded = refl;
  is_declared = refl;
  splits = (e.0 ∷ [], e.1 ∷ [], refl, λ after. refl, (e.1 ∷ [], [], refl, λ after. refl, refl));
}

abbrev pub records : List (EventRecord ℕ (ℕ × ℕ))
records =
    event_record initialization (7, 8)
    ∷ (record { phase = apply_extrinsic 3; event = test (9, 8); topics = 4 ∷ [] } ∷ [])

pub records-described : All (RecordDescribed full_codec encoders metadata) records
unfolding event_record
records-described = (stored-IsDescribed (7, 8), (stored-IsDescribed (9, 8), tt))

iter-events_example :
    (ds : List EventDetails) × (iter full_codec (events encoders full_codec 0 metadata records)
      ≡ done (map ok ds))
    × Restored full_codec encoders metadata 0 records records-described ds
iter-events_example =
    iter-events full_codec full_codec-IsLawful encoders full_codec-IsInverse 0 metadata records
      records-described (omega arith)
