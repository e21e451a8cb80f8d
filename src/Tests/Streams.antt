-- ===== src/Tests/Streams.antt =====
-- The streams over the events of blocks.
use event_listener.Prelude.{
  ℕ, suc, ◌+◌, ◌≡◌, refl, arith, Option, none, some, List, [], ◌∷◌, length,
}
use event_listener.Outcome.{Result, ok, err, done}
use event_listener.Error.{Error, other, RpcError, rpc}
use event_listener.Events.Codec.{is_event, initialization}
use event_listener.Events.Details.{
  as_event, event_metadata, field_bytes, pallet_index, variant_index, slice, at, is_static,
}
use event_listener.Events.Block.{Events}
use event_listener.Metadata.Store.{event, get_event}
use event_listener.Events.Filter.{
  Poll, pending, ready, Script, FilterEvents, FilteredEventDetails, EventTuple, many, attempt_of,
  nil, cons, tuple, with_event, no_events, filter_next, filtered, return_or,
}
use event_listener.Events.Filter as Filter
use event_listener.Events.Filter.Stream as FilterStream
use event_listener.Events.Filter.Total.{collect-matches}
use event_listener.Events.Filter.Tuples.{filter_next-somes}
use event_listener.Events.Subscription.{Future, new}
use event_listener.Events.Subscription.Stream.{
  blocks, blocks_from, work, collect, collect-blocks_from,
}
use event_listener.Events.Subscription.Filtered.{
  matches_of, filter_events, filter_events-matches_of,
}
use event_listener.Events.Records.{EventRecord, events}
use event_listener.Events.Records.Received.{picked_from, filter_events-picked_from}
use event_listener.Tests.Records.{
  full_codec, full_codec-IsLawful, full_codec-IsInverse, encoders, records, records-described,
}
use event_listener.Tests.Data as Data
use event_listener.Tests.Data.{metadata, codec-IsLawful, block, first_event, stored, other_event}

-- A block, a pending poll and an error.
abbrev script : Script (Result (Events ℕ) Error)
script =
    ready (some (ok block)) ∷ (pending ∷ (ready (some (err (other "gone"))) ∷ (ready none ∷ [])))

abbrev pair : EventTuple (Option ℕ × (Option ℕ × Unit {0}))
pair = cons other_event (cons stored nil)

collect-matches_example :
    (out : List (FilterStream.Filtrate Data.codec (attempt_of (many pair)))) × (FilterStream.matches
        Data.codec
        (attempt_of (many pair))
        script
      ≡ done out)
    × (FilterStream.collect Data.codec
          (attempt_of (many pair))
          (suc (length out + 4))
          (Filter.new script)
        ≡ done out)
collect-matches_example = collect-matches Data.codec codec-IsLawful (many pair) script

filter_next-somes_example : (tuple pair).somes (none, (some 7, tt)) ≡ 1
unfolding tuple with_event no_events filter_next filtered as_event event_metadata field_bytes
    pallet_index variant_index slice at is_static is_event event get_event
filter_next-somes_example =
    filter_next-somes {Hash = ℕ} pair 77 (ok first_event ∷ []) []
      (record { phase = initialization; block_hash = 77; event = (none, (some 7, tt)) }) refl

-- A header is its block's hash, and the events of a block take two polls.
abbrev at_hash : ℕ → Future (Result (Events ℕ) Error)
at_hash h = record { delay = 1; output = ok block }

abbrev headers : Script (Result ℕ RpcError)
headers = ready (some (ok 77)) ∷ (pending ∷ (ready (some (err (record { message = "gone" }))) ∷ []))

collect-blocks_from_example :
    collect (λ h. h) rpc at_hash 7 (new headers)
    ≡ done (ok block ∷ (err (rpc (record { message = "gone" })) ∷ []))
unfolding new blocks work
collect-blocks_from_example = collect-blocks_from (λ h. h) rpc at_hash 7 (new headers) (omega arith)

filter_events-matches_of_example :
    (out : List (FilterStream.Filtrate Data.codec (attempt_of (many pair))))
    × (stream : FilterEvents ℕ) × (matches_of Data.codec
          (attempt_of (many pair))
          (blocks_from (λ h. h) rpc at_hash (new headers))
        ≡ done out)
    × (filter_events (λ h. h) rpc at_hash 7 (new headers) ≡ done stream)
    × (FilterStream.collect Data.codec (attempt_of (many pair)) (suc (length out + 7)) stream
        ≡ done out)
unfolding new work
filter_events-matches_of_example =
    filter_events-matches_of Data.codec codec-IsLawful (many pair) (λ h. h) rpc at_hash 7
      (new headers) (omega arith)

-- Every block holds the two records.
abbrev records_at : ℕ → List (EventRecord ℕ (ℕ × ℕ))
records_at h = records

abbrev gives_records : ℕ → Future (Result (Events ℕ) Error)
gives_records h = record { delay = 1; output = ok (events encoders full_codec h metadata records) }

filter_events-picked_from_example :
    (stream : FilterEvents ℕ) × (filter_events (λ h. h) rpc gives_records 7 (new headers)
      ≡ done stream)
    × (FilterStream.collect full_codec
          (attempt_of (many pair))
          (suc (
            length (
              picked_from full_codec full_codec-IsLawful encoders full_codec-IsInverse metadata
                (many pair)
                (λ h. h)
                rpc
                gives_records
                records_at
                (λ h. records-described)
                headers)
            + 7))
          stream
        ≡ done (
            picked_from full_codec full_codec-IsLawful encoders full_codec-IsInverse metadata
              (many pair)
              (λ h. h)
              rpc
              gives_records
              records_at
              (λ h. records-described)
              headers))
unfolding work
filter_events-picked_from_example =
    filter_events-picked_from full_codec full_codec-IsLawful encoders full_codec-IsInverse metadata
      (many pair) (λ h. h) rpc gives_records records_at (λ h. records-described) (λ h. omega arith)
      (λ h. refl) 7 headers (omega arith)
