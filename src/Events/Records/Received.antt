-- ===== src/Events/Records/Received.antt =====
-- `filter_events` of event-listener/src/events/event_subscription.rs where each block is one that the
-- test utilities of event-listener/src/events/events_type.rs have encoded.
use event_listener.Prelude.{
  ℕ, suc, ◌+◌, ◌<◌, ◌^◌, ◌≡◌, refl, sym, ap, ◌∙◌, none, some, List, [], ◌∷◌, ◌++◌, length, All,
  arith,
}
use event_listener.Outcome.{Result, ok, err, done}
use event_listener.Error.{Error}
use event_listener.Metadata.Store.{Metadata}
use event_listener.Events.Codec.{Codec, IsLawful}
use event_listener.Events.Block.{Events}
use event_listener.Events.Block as Block
use event_listener.Events.Filter.{
  pending, ready, Script, FilterEvents, EventFilter, attempt_of, FilteredEventDetails,
}
use event_listener.Events.Filter.Stream.{collect}
use event_listener.Events.Records.{Encoders, EventRecord, events, events_raw}
use event_listener.Events.Records.Decode.{IsInverse}
use event_listener.Events.Records.RoundTrip.{RecordDescribed, iter-events}
use event_listener.Events.Records.Filtered.{filtered_records, filter_all-Restored}
use event_listener.Events.Subscription.{Future, new}
use event_listener.Events.Subscription.Stream.{blocks, work}
use event_listener.Events.Subscription.Filtered.{
  matches_of, filter_events, filter_events-matches_of,
}

module _ {Hash E R Header X : Type 0} (c : Codec Hash) (law : IsLawful c) (enc : Encoders Hash E)
    (inv : IsInverse c enc) (metadata : Metadata) (f : EventFilter R) (hash : Header → Hash)
    (into : X → Error) (at_hash : Hash → Future (Result (Events Hash) Error))
    (records_at : Hash → List (EventRecord Hash E))
    (described : (h : Hash) → All (RecordDescribed c enc metadata) (records_at h)) where
  -- The specification: for each header in order what the filter picks of the block's records, up to
  -- the end of the headers or their first error, which comes last.
  unfoldable pub picked_from :
      Script (Result Header X) → List (Result (FilteredEventDetails Hash R) Error)
  picked_from [] = []
  picked_from (pending ∷ sub) = picked_from sub
  picked_from (ready none ∷ sub) = []
  picked_from (ready (some (err e)) ∷ sub) = err (into e) ∷ []
  picked_from (ready (some (ok header)) ∷ sub) =
      filtered_records c enc metadata f (hash header) (records_at (hash header))
        (described (hash header))
      ++ picked_from sub

  module _ (small : (h : Hash) → length (records_at h) < 2 ^ 32)
      (gives : (h : Hash) → (at_hash h).output ≡ ok (events enc c h metadata (records_at h))) where
    matches_of-picked_from :
        (sub : Script (Result Header X))
        → matches_of c (attempt_of f) (blocks hash into at_hash sub) ≡ done (picked_from sub)
    unfolding matches_of blocks picked_from events events_raw Block.new
    matches_of-picked_from [] = refl
    matches_of-picked_from (pending ∷ sub) = matches_of-picked_from sub
    matches_of-picked_from (ready none ∷ sub) = refl
    matches_of-picked_from (ready (some (err e)) ∷ sub) = refl
    matches_of-picked_from (ready (some (ok header)) ∷ sub) =
        let h = hash header in
        let (ds, run, all) =
          iter-events c law enc inv h metadata (records_at h) (described h) (small h) in
        rw (gives h) (
          rw
            (
              run,
              filter_all-Restored c enc metadata f h 0 (records_at h) (described h) ds all,
              matches_of-picked_from sub,
            )
            refl)

    -- With decoders that read back what the encoders write, and take bytes off the front: where `at`
    -- gives for each header the block of records whose events the metadata describes, fewer than
    -- 2 ^ 32 of them, and the number of polls is above the work that the headers make, no poll
    -- panics, and a consumer of the filtered subscription that polls often enough receives, for each
    -- header in order and each record of its block, the record's phase, the block's hash and the
    -- event of the tuple that has the declared names, decoded from the record's fields, or the error
    -- of decoding it, and nothing for other events; an error of the headers comes last.
    pub filter_events-picked_from :
        (n : ℕ) (sub : Script (Result Header X))
        → work hash into at_hash sub < n
        → (stream : FilterEvents Hash) × (filter_events hash into at_hash n (new sub) ≡ done stream)
          × (collect c (attempt_of f) (suc (length (picked_from sub) + n)) stream
              ≡ done (picked_from sub))
    unfolding new
    filter_events-picked_from n sub more =
        let (out, stream, all, made, received) =
          filter_events-matches_of c law f hash into at_hash n (new sub) (omega arith) in
        let same : out ≡ picked_from sub = let whole = matches_of-picked_from sub in cc in
        (
          stream,
          made,
          ap (λ o. collect c (attempt_of f) (suc (length o + n)) stream) (sym same)
              ∙ received
              ∙ ap done same,
        )
