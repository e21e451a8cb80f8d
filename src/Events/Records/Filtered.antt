-- ===== src/Events/Records/Filtered.antt =====
-- The filters of event-listener/src/events/filter_events.rs on blocks that the test utilities of
-- event-listener/src/events/events_type.rs have encoded.
use mathlib.Core.Option
use event_listener.Prelude.{
  ℕ, ◌+◌, ◌≡◌, refl, ap, Bool, true, false, if◌then◌else◌, Option, none, some, List, [], ◌∷◌, map,
  All,
}
use event_listener.Outcome.{Result, ok, err, map_ok, done}
use event_listener.Error.{Error, codec, CodecError}
use event_listener.Metadata.Store.{Metadata, EventMetadata}
use event_listener.Events.Codec.{StaticEvent, Codec}
use event_listener.Events.Details.{EventDetails}
use event_listener.Events.Block.{prepend}
use event_listener.Events.Filter.{
  FilteredEventDetails, EventTuple, nil, cons, EventFilter, one, many, tuple, no_events, with_event,
  or_else, single, attempt_of, filtered,
}
use event_listener.Events.Filter.Stream.{filter_all}
use event_listener.Events.Records.{Encoders, EventRecord}
use event_listener.Events.Records.RoundTrip.{
  RecordDescribed, fields_of, declared_of, Restores, Restored,
}
use event_listener.Events.Records.Search.{has_names, decoded, as_event-Restores}

module _ {Hash E : Type 0} (c : Codec Hash) (enc : Encoders Hash E) (metadata : Metadata) where
  -- The specification of a filter on the event of a record: the first event of the tuple that has the
  -- declared names is decoded, and the others are absent.
  abbrev pub picked_tuple :
      {R : Type 0} → EventTuple R → EventMetadata → List ℕ → Result (Option R) CodecError
  picked_tuple nil m fields = ok none
  picked_tuple (cons ev t) m fields =
      let rest = picked_tuple t m fields in
      if has_names c enc metadata ev m
      then map_ok (λ a. some (some a, (tuple t).default)) (ev.decode fields).0
      else map_ok (Option.map (λ r. (none, r))) rest

  abbrev pub picked :
      {R : Type 0} → EventFilter R → EventMetadata → List ℕ → Result (Option R) CodecError
  picked (one ev) m fields = decoded c enc metadata ev (has_names c enc metadata ev m) fields
  picked (many t) m fields = picked_tuple t m fields

  or_else-decoded :
      {A R : Type 0} (ev : StaticEvent A) (default : R) (b : Bool) (fields : List ℕ)
      (rest : Result (Option R) CodecError)
      → or_else default (done rest) (decoded c enc metadata ev b fields)
        ≡ done (
            if b
            then map_ok (λ a. some (some a, default)) (ev.decode fields).0
            else map_ok (Option.map (λ r. (none, r))) rest)
  or_else-decoded {A} {R} ev default true fields rest = by_outcome (ev.decode fields).0
    where
      by_outcome :
          (o : Result A CodecError)
          → or_else default (done rest) (map_ok some o)
            ≡ done (map_ok (λ a. some (some a, default)) o)
      by_outcome (ok a) = refl
      by_outcome (err e) = refl
  or_else-decoded ev default false fields rest = refl

  module _ (index : ℕ) (r : EventRecord Hash E) (h : RecordDescribed c enc metadata r)
      (d : EventDetails) (s : Restores c enc metadata index r.phase r.event r.topics h d) where
    tuple-Restores :
        {R : Type 0} (t : EventTuple R)
        → (tuple t).attempt d
          ≡ done (
              picked_tuple t
                (declared_of c enc metadata r.event h)
                (fields_of c enc metadata r.event h))
    unfolding tuple no_events with_event
    tuple-Restores nil = refl
    tuple-Restores (cons ev t) =
        rw (as_event-Restores c enc metadata ev index r h d s, tuple-Restores t)
          (or_else-decoded ev (tuple t).default
            (has_names c enc metadata ev (declared_of c enc metadata r.event h))
            (fields_of c enc metadata r.event h)
            (picked_tuple t (declared_of c enc metadata r.event h)
              (fields_of c enc metadata r.event h)))

    attempt_of-Restores :
        {R : Type 0} (f : EventFilter R)
        → attempt_of f d
          ≡ done
              (picked f (declared_of c enc metadata r.event h) (fields_of c enc metadata r.event h))
    unfolding attempt_of single
    attempt_of-Restores (one ev) = as_event-Restores c enc metadata ev index r h d s
    attempt_of-Restores (many t) = tuple-Restores t

  module _ {R : Type 0} (f : EventFilter R) (block_hash : Hash) where
    -- What is yielded for a record: its phase with the block's hash and the event, or the error.
    abbrev pub yielded_for :
        EventRecord Hash E
        → Result (Option R) CodecError
        → List (Result (FilteredEventDetails Hash R) Error)
        → List (Result (FilteredEventDetails Hash R) Error)
    yielded_for r (ok none) rest = rest
    yielded_for r (ok (some e)) rest =
        ok (record { phase = r.phase; block_hash = block_hash; event = e }) ∷ rest
    yielded_for r (err e) rest = err (codec e) ∷ rest

    -- The specification of a filter on a block.
    unfoldable pub filtered_records :
        (rs : List (EventRecord Hash E))
        → All (RecordDescribed c enc metadata) rs
        → List (Result (FilteredEventDetails Hash R) Error)
    filtered_records [] hs = []
    filtered_records (r ∷ rs) (h, hs) =
        yielded_for r
          (picked f (declared_of c enc metadata r.event h) (fields_of c enc metadata r.event h))
          (filtered_records rs hs)

    prepend-filtered :
        (r : EventRecord Hash E) (d : EventDetails) (o : Result (Option R) CodecError)
        (rest : List (Result (FilteredEventDetails Hash R) Error))
        → d.phase ≡ r.phase
        → prepend (filtered (attempt_of f) block_hash d o) rest ≡ yielded_for r o rest
    unfolding filtered
    prepend-filtered r d (ok none) rest e = refl
    prepend-filtered r d (ok (some a)) rest e = rw e refl
    prepend-filtered r d (err x) rest e = refl

    pub filter_all-Restored :
        (index : ℕ) (rs : List (EventRecord Hash E)) (hs : All (RecordDescribed c enc metadata) rs)
        (ds : List EventDetails)
        → Restored c enc metadata index rs hs ds
        → filter_all (attempt_of f) block_hash (map ok ds) ≡ done (filtered_records rs hs)
    unfolding filter_all filtered_records
    filter_all-Restored index [] hs ds e = rw e refl
    filter_all-Restored index (r ∷ rs) hs [] e = absurd e
    filter_all-Restored index (r ∷ rs) (h, hs) (d ∷ ds) (s, e) =
        rw (attempt_of-Restores index r h d s f, filter_all-Restored (index + 1) rs hs ds e)
          (ap done (prepend-filtered r d _ (filtered_records rs hs) s.same_phase))
