-- ===== src/Events/Records/Search.antt =====
-- The searches of event-listener/src/events/events_type.rs, and the decoding of its root events, on a
-- block that its test utilities have encoded.
use event_listener.Prelude.{
  ℕ, ◌+◌, ◌<◌, ◌^◌, ◌≡◌, refl, ap, Bool, true, false, if◌then◌else◌, str_eq, ◌&&◌, Option, none,
  some, List, [], ◌∷◌, map, length, All,
}
use event_listener.Outcome.{Result, ok, err, map_ok, map_err, done, map_run}
use event_listener.Error.{Error, codec, CodecError}
use event_listener.Metadata.Store.{Metadata, EventMetadata, event}
use event_listener.Events.Codec.{StaticEvent, Codec, IsLawful}
use event_listener.Events.Details.{EventDetails, event_metadata, is_static, as_event}
use event_listener.Events.Block.{find_all, found, transpose_found, prepend, find}
use event_listener.Events.Records.{Encoders, AllEvents, test, EventRecord, events}
use event_listener.Events.Records.Decode.{IsInverse}
use event_listener.Events.Records.RoundTrip.{
  AllEventsDescribed, RecordDescribed, variant_of, fields_of, declared_of, Restores, Restored,
  iter-events,
}

module _ {Hash E : Type 0} (c : Codec Hash) (enc : Encoders Hash E) (metadata : Metadata) where
  variant_of-declared :
      (a : AllEvents E) (h : AllEventsDescribed c enc metadata a)
      → event metadata 0 (variant_of c enc metadata a h) ≡ ok (declared_of c enc metadata a h)
  variant_of-declared (test e) h = h.is_declared

  -- A decoded event has the entry of the metadata that describes it.
  pub event_metadata-Restores :
      (index : ℕ) (r : EventRecord Hash E) (h : RecordDescribed c enc metadata r) (d : EventDetails)
      → Restores c enc metadata index r.phase r.event r.topics h d
      → event_metadata d ≡ done (declared_of c enc metadata r.event h)
  unfolding event_metadata
  event_metadata-Restores index r h d s =
      rw (s.first_pallet, s.same_variant, s.same_metadata, variant_of-declared r.event h) refl

  module _ {A : Type 0} (ev : StaticEvent A) where
    -- The event is declared with the names of the static event.
    abbrev pub has_names : EventMetadata → Bool
    has_names m = str_eq m.pallet ev.pallet && str_eq m.event ev.event

    -- The outcome of `as_event` for the event of a record.
    abbrev pub decoded : (b : Bool) → List ℕ → Result (Option A) CodecError
    decoded b fields = if b then map_ok some (ev.decode fields).0 else ok none

    pub as_event-Restores :
        (index : ℕ) (r : EventRecord Hash E) (h : RecordDescribed c enc metadata r)
        (d : EventDetails)
        → Restores c enc metadata index r.phase r.event r.topics h d
        → as_event ev d
          ≡ done (
              decoded
                (has_names (declared_of c enc metadata r.event h))
                (fields_of c enc metadata r.event h))
    unfolding as_event is_static
    as_event-Restores index r h d s =
        rw (event_metadata-Restores index r h d s, s.same_fields)
          (branch (has_names (declared_of c enc metadata r.event h)))
      where
        branch :
            (b : Bool)
            → (if b
                then map_run
                    (λ input. map_ok some (ev.decode input).0)
                    (done (fields_of c enc metadata r.event h))
                else done (ok none))
              ≡ done (decoded b (fields_of c enc metadata r.event h))
        branch true = refl
        branch false = refl

    -- The specification of a search: the fields, decoded, of each record whose event has the names
    -- that are searched for.
    unfoldable pub matching :
        (rs : List (EventRecord Hash E))
        → All (RecordDescribed c enc metadata) rs
        → List (Result A Error)
    matching [] hs = []
    matching (r ∷ rs) (h, hs) =
        let rest = matching rs hs in
        if has_names (declared_of c enc metadata r.event h)
        then map_err codec (ev.decode (fields_of c enc metadata r.event h)).0 ∷ rest
        else rest

    prepend-decoded :
        (b : Bool) (fields : List ℕ) (rest : List (Result A Error))
        → prepend (transpose_found (decoded b fields)) rest
          ≡ (if b then map_err codec (ev.decode fields).0 ∷ rest else rest)
    unfolding transpose_found
    prepend-decoded true fields rest = by_outcome (ev.decode fields).0
      where
        by_outcome :
            (o : Result A CodecError)
            → prepend (transpose_found (map_ok some o)) rest ≡ map_err codec o ∷ rest
        by_outcome (ok a) = refl
        by_outcome (err e) = refl
    prepend-decoded false fields rest = refl

    find_all-Restored :
        (index : ℕ) (rs : List (EventRecord Hash E)) (hs : All (RecordDescribed c enc metadata) rs)
        (ds : List EventDetails)
        → Restored c enc metadata index rs hs ds
        → find_all ev (map ok ds) ≡ done (matching rs hs)
    unfolding find_all found matching
    find_all-Restored index [] hs ds e = rw e refl
    find_all-Restored index (r ∷ rs) hs [] e = absurd e
    find_all-Restored index (r ∷ rs) (h, hs) (d ∷ ds) (s, e) =
        rw (as_event-Restores index r h d s, find_all-Restored (index + 1) rs hs ds e)
          (ap done (
            prepend-decoded (has_names (declared_of c enc metadata r.event h))
              (fields_of c enc metadata r.event h) (matching rs hs)))

module _ {Hash E A : Type 0} (c : Codec Hash) (law : IsLawful c) (enc : Encoders Hash E)
    (inv : IsInverse c enc) (default_hash : Hash) (metadata : Metadata) (ev : StaticEvent A) where
  -- With decoders that read back what the encoders write, and take bytes off the front: where the
  -- metadata describes the records' events, and there are fewer than 2 ^ 32 of them, `find` on the
  -- block that `events` builds does not panic, and yields for each record whose event is declared
  -- with the names of the static event, in the order of the records, its fields decoded, or the
  -- error of decoding them, and nothing else.
  pub find-matching :
      (rs : List (EventRecord Hash E)) (hs : All (RecordDescribed c enc metadata) rs)
      → length rs < 2 ^ 32
      → find c ev (events enc c default_hash metadata rs) ≡ done (matching c enc metadata ev rs hs)
  unfolding find
  find-matching rs hs small =
      let (ds, run, all) = iter-events c law enc inv default_hash metadata rs hs small in
      rw run (find_all-Restored c enc metadata ev 0 rs hs ds all)
