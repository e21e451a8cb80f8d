-- ===== src/Tests/Whole.antt =====
-- From calls of the pallet to what the example logs of their block.
use event_listener.Prelude.{ℕ, ◌≡◌, refl, none, List, [], ◌∷◌, ◌++◌, arith}
use event_listener.Outcome.{ok, err}
use event_listener.Error.{CodecError}
use event_listener.Metadata.Store.{event, get_event}
use event_listener.Events.Codec.{initialization, Decoder, StaticEvent}
use event_listener.Events.Records.{Encoders, EventRecord, event_record}
use event_listener.Events.Records.Decode.{IsInverse, IsDescribed}
use event_listener.Pallet.{Event, something_stored, State}
use event_listener.Example.Chain.{block_of, Sees, dispatch_all-Sees}
use event_listener.Tests.Data.{metadata}
use event_listener.Tests.Records.{
  full_codec, full_codec-IsLawful, encode_phase, encode_topics, phase-encode_phase,
  topics-encode_topics,
}
use event_listener.Tests.Calls.{ensure_signed, calls}

abbrev encode_event : Event ℕ → List ℕ
encode_event (something_stored n who) = 0 ∷ (n ∷ (who ∷ []))

abbrev encoders : Encoders ℕ (Event ℕ)
encoders = record {
  compact_u32 = λ n. n ∷ [];
  phase = encode_phase;
  topics = encode_topics;
  event = encode_event;
}

encoders-IsInverse : IsInverse full_codec encoders
encoders-IsInverse = record {
  compact_u32 = λ n rest h. refl;
  phase = phase-encode_phase;
  topics = topics-encode_topics;
}

abbrev decode_event : Decoder (Event ℕ) CodecError
decode_event (n ∷ (who ∷ bytes)) = (ok (something_stored n who), bytes)
decode_event bytes = (err "Not enough data to fill buffer", bytes)

abbrev stored : StaticEvent (Event ℕ)
stored = record { pallet = "Template"; event = "SomethingStored"; decode = decode_event }

abbrev fields : Event ℕ → List ℕ
fields (something_stored n who) = n ∷ (who ∷ [])

unfoldable described : (e : Event ℕ) → IsDescribed full_codec encoders metadata e
unfolding event get_event
described (something_stored n who) = record {
  variant = 0;
  fields = n ∷ (who ∷ []);
  declared = _;
  encoded = refl;
  is_declared = refl;
  splits = (n ∷ [], who ∷ [], refl, λ after. refl, (who ∷ [], [], refl, λ after. refl, refl));
}

-- The system's state is the list of its records.
abbrev deposit : List (EventRecord ℕ (Event ℕ)) → Event ℕ → List (EventRecord ℕ (Event ℕ))
deposit log e = log ++ (event_record initialization e ∷ [])

abbrev start : State (List (EventRecord ℕ (Event ℕ)))
start = record { something = none; system = [] }

named :
    (e : Event ℕ)
    → ((described e).declared.pallet ≡ "Template")
      × ((described e).declared.event ≡ "SomethingStored")
unfolding described
named (something_stored n who) = (refl, refl)

reads : (e : Event ℕ) → (decode_event (described e).fields).0 ≡ ok e
unfolding described
reads (something_stored n who) = refl

dispatch_all-Sees_example :
    Sees deposit
      (λ log. log)
      (λ log. initialization)
      (λ log e. refl)
      full_codec
      encoders
      metadata
      stored
      described
      named
      reads
      full_codec-IsLawful
      encoders-IsInverse
      ensure_signed
      77
      (block_of deposit
        (λ log. log)
        (λ log. initialization)
        (λ log e. refl)
        full_codec
        encoders
        metadata
        stored
        described
        named
        reads
        full_codec-IsLawful
        encoders-IsInverse
        ensure_signed
        77
        calls
        start)
      (something_stored 7 8 ∷ [])
dispatch_all-Sees_example =
    dispatch_all-Sees deposit (λ log. log) (λ log. initialization) (λ log e. refl) full_codec
      encoders metadata stored described named reads full_codec-IsLawful encoders-IsInverse
      ensure_signed 77 calls start refl (omega arith)
