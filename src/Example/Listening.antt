-- ===== src/Example/Listening.antt =====
-- What event-listener-example/src/lib.rs logs of blocks whose events the test utilities of
-- event-listener/src/events/events_type.rs have encoded.
use event_listener.Prelude.{
  ℕ, ◌+◌, ◌%◌, ◌^◌, ◌<◌, ◌≡◌, refl, none, some, List, [], ◌∷◌, ◌++◌, map, length, All,
}
use event_listener.Outcome.{Result, ok, err, Run, done, panic, map_run}
use event_listener.Error.{Error}
use event_listener.Metadata.Store.{Metadata}
use event_listener.Events.Codec.{Codec, IsLawful}
use event_listener.Events.Details.{EventDetails, pallet_name, variant_name}
use event_listener.Events.Block as Block
use event_listener.Events.Block.{Events, iter}
use event_listener.Events.Filter.{pending, ready, Script}
use event_listener.Events.Records.{Encoders, EventRecord, encode_records, events, events_raw}
use event_listener.Events.Records.Decode.{IsInverse}
use event_listener.Events.Records.RoundTrip.{
  RecordDescribed, Restores, Restored, declared_of, iter-events,
}
use event_listener.Events.Records.Search.{event_metadata-Restores}
use event_listener.Events.Subscription.{Future}
use event_listener.Events.Subscription.Stream.{blocks}
use event_listener.Example.{
  Line, block_line, event_line, log_event, log_items, log_block, log_result,
}
use event_listener.Example.Received.{log_blocks}

module _ {Hash E : Type 0} (c : Codec Hash) (enc : Encoders Hash E) (metadata : Metadata) where
  -- The line of each record: the names that the metadata declares for its event.
  abbrev pub lines :
      (rs : List (EventRecord Hash E)) → All (RecordDescribed c enc metadata) rs → List (Line Hash)
  lines [] hs = []
  lines (r ∷ rs) (h, hs) =
      let m = declared_of c enc metadata r.event h in event_line m.pallet m.event ∷ lines rs hs

  log_event-Restores :
      (index : ℕ) (r : EventRecord Hash E) (h : RecordDescribed c enc metadata r) (d : EventDetails)
      → Restores c enc metadata index r.phase r.event r.topics h d
      → log_event {Hash = Hash} d
        ≡ done (
            event_line
              (declared_of c enc metadata r.event h).pallet
              (declared_of c enc metadata r.event h).event)
  unfolding log_event pallet_name variant_name
  log_event-Restores index r h d s = rw (event_metadata-Restores c enc metadata index r h d s) refl

  log_items-lines :
      (index : ℕ) (rs : List (EventRecord Hash E)) (hs : All (RecordDescribed c enc metadata) rs)
      (ds : List EventDetails)
      → Restored c enc metadata index rs hs ds
      → log_items {Hash = Hash} (map ok ds) ≡ done (lines rs hs)
  unfolding log_items
  log_items-lines index [] hs ds e = rw e refl
  log_items-lines index (r ∷ rs) hs [] e = absurd e
  log_items-lines index (r ∷ rs) (h, hs) (d ∷ ds) (e, es) =
      rw (log_event-Restores index r h d e, log_items-lines (index + 1) rs hs ds es) refl

  -- The bytes that the storage holds for a block.
  abbrev pub stored : List (EventRecord Hash E) → List ℕ
  stored rs = enc.compact_u32 (length rs % 2 ^ 32) ++ encode_records enc rs

  -- The block of these bytes is logged as a line for the block and one for each record.
  pub log_result-stored :
      (law : IsLawful c) (inv : IsInverse c enc) (h : Hash) (rs : List (EventRecord Hash E))
      (hs : All (RecordDescribed c enc metadata) rs)
      → length rs < 2 ^ 32
      → log_result c (ok (Block.new c metadata h (stored rs))) ≡ done (block_line h ∷ lines rs hs)
  unfolding log_result log_block events events_raw Block.new
  log_result-stored law inv h rs hs small =
      let (ds, run, all) = iter-events c law enc inv h metadata rs hs small in
      rw (run, log_items-lines 0 rs hs ds all) refl

  module _ {Header X : Type 0} (hash : Header → Hash)
      (records_at : Hash → List (EventRecord Hash E))
      (described : (h : Hash) → All (RecordDescribed c enc metadata) (records_at h)) where
    -- The specification: for each header a line for its block, and one for each record of the
    -- block, in order; an error of the headers panics.
    unfoldable pub log_headers : Script (Result Header X) → Run (List (Line Hash))
    log_headers [] = done []
    log_headers (pending ∷ sub) = log_headers sub
    log_headers (ready none ∷ sub) = done []
    log_headers (ready (some (err e)) ∷ sub) = panic
    log_headers (ready (some (ok header)) ∷ sub) =
        map_run
          (λ rest.
            (block_line (hash header) ∷ lines (records_at (hash header)) (described (hash header)))
            ++ rest)
          (log_headers sub)

    module _ (law : IsLawful c) (inv : IsInverse c enc)
        (small : (h : Hash) → length (records_at h) < 2 ^ 32) (into : X → Error)
        (at_hash : Hash → Future (Result (Events Hash) Error))
        (gives : (h : Hash)
          → (at_hash h).output ≡ ok (Block.new c metadata h (stored (records_at h)))) where
      pub log_blocks-log_headers :
          (sub : Script (Result Header X))
          → log_blocks hash into at_hash c (blocks hash into at_hash sub) ≡ log_headers sub
      unfolding log_blocks blocks log_headers log_result
      log_blocks-log_headers [] = refl
      log_blocks-log_headers (pending ∷ sub) = log_blocks-log_headers sub
      log_blocks-log_headers (ready none ∷ sub) = refl
      log_blocks-log_headers (ready (some (err e)) ∷ sub) = refl
      log_blocks-log_headers (ready (some (ok header)) ∷ sub) =
          let h = hash header in
          rw
            (
              gives h,
              log_result-stored law inv h (records_at h) (described h) (small h),
              log_blocks-log_headers sub,
            )
            refl
