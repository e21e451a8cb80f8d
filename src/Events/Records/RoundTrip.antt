-- ===== src/Events/Records/RoundTrip.antt =====
-- The iteration over a block that the test utilities of events_type.rs have encoded.
use event_listener.Prelude.{
  ℕ, zero, suc, ◌+◌, ◌-◌, ◌<◌, ◌≤◌, ◌%◌, ◌^◌, ◌≡◌, refl, sym, ap, ◌∙◌, none, some, List, [], ◌∷◌,
  ◌++◌, map, length, append_assoc, append-nil, length-append, arith, leb, ◌==◌, ◌||◌, false, All,
}
use event_listener.Outcome.{ok, done}
use event_listener.Metadata.Store.{Metadata, EventMetadata}
use event_listener.Events.Codec.{Phase, Codec, IsLawful}
use event_listener.Events.Details.{
  EventDetails, decode_from, pallet_index, variant_index, bytes, field_bytes,
}
use event_listener.Events.Block.{Events, after_decode, next, start, items, iter, new, count_or_zero}
use event_listener.Events.Records.{
  Encoders, AllEvents, test, EventRecord, encode_record, encode_records, encode_all_events,
  events_raw, events,
}
use event_listener.Events.Records.Decode.{IsInverse, IsDescribed, decode_from-described}

module _ {Hash E : Type 0} (c : Codec Hash) (enc : Encoders Hash E) (metadata : Metadata) where
  abbrev pub AllEventsDescribed : AllEvents E → Type 0
  AllEventsDescribed (test e) = IsDescribed c enc metadata e

  abbrev pub variant_of : (a : AllEvents E) → AllEventsDescribed a → ℕ
  variant_of (test e) h = h.variant

  abbrev pub fields_of : (a : AllEvents E) → AllEventsDescribed a → List ℕ
  fields_of (test e) h = h.fields

  -- The accessors of the decoded event give back the record, and its place among the records.
  pub record Restores (index : ℕ) (p : Phase) (a : AllEvents E) (ts : List Hash)
      (h : AllEventsDescribed a) (d : EventDetails) : Type 0 where
    pub same_phase : d.phase ≡ p
    pub same_index : d.index ≡ index
    pub same_metadata : d.metadata ≡ metadata
    pub first_pallet : pallet_index d ≡ done 0
    pub same_variant : variant_index d ≡ done (variant_of a h)
    pub same_fields : field_bytes d ≡ done (fields_of a h)
    pub same_bytes : bytes d ≡ done (enc.phase p ++ (encode_all_events enc a ++ enc.topics ts))

  abbrev pub declared_of : (a : AllEvents E) → AllEventsDescribed a → EventMetadata
  declared_of (test e) h = h.declared

  -- The metadata describes every record.
  abbrev pub RecordDescribed : EventRecord Hash E → Type 0
  RecordDescribed r = AllEventsDescribed r.event

  abbrev pub Restored :
      ℕ → (rs : List (EventRecord Hash E)) → All RecordDescribed rs → List EventDetails → Type 0
  Restored index [] hs ds = ds ≡ []
  Restored index (r ∷ rs) hs [] = ⊥
  Restored index (r ∷ rs) (h, hs) (d ∷ ds) =
      Restores index r.phase r.event r.topics h d × Restored (index + 1) rs hs ds

module _ {Hash E : Type 0} (c : Codec Hash) (law : IsLawful c) (enc : Encoders Hash E)
    (inv : IsInverse c enc) (metadata : Metadata) where
  decode_from-parts :
      (p : Phase) (a : AllEvents E) (ts : List Hash) (h : AllEventsDescribed c enc metadata a)
      (front back : List ℕ) (index : ℕ)
      → (d : EventDetails) × (decode_from c metadata
            (front ++ ((enc.phase p ++ (encode_all_events enc a ++ enc.topics ts)) ++ back))
            (length front)
            index
          ≡ done (ok d))
        × Restores c enc metadata index p a ts h d
  unfolding encode_all_events
  decode_from-parts p (test e) ts h front back index =
      let (d, dec, ph, ix, md, pi, vi, fb, b) =
        decode_from-described c enc metadata law inv e h p ts front back index in
      (
        d,
        rw
            (
              h.encoded,
              append_assoc (enc.phase p) (0 ∷ (h.variant ∷ (h.fields ++ enc.topics ts))) back,
              append_assoc h.fields (enc.topics ts) back,
            )
            dec,
        record {
          same_phase = ph;
          same_index = ix;
          same_metadata = md;
          first_pallet = pi;
          same_variant = vi;
          same_fields = fb;
          same_bytes = rw (h.encoded) b;
        },
      )

module _ {Hash E : Type 0} (c : Codec Hash) (law : IsLawful c) (enc : Encoders Hash E)
    (inv : IsInverse c enc) (evs : Events Hash) where
  encode_all_events_pos : (a : AllEvents E) → 0 < length (encode_all_events enc a)
  unfolding encode_all_events
  encode_all_events_pos (test e) = omega arith

  pub encode_record_pos : (r : EventRecord Hash E) → 0 < length (encode_record enc r)
  unfolding encode_record
  encode_record_pos r = omega (
    arith,
    encode_all_events_pos r.event,
    length-append (enc.phase r.phase) (encode_all_events enc r.event ++ enc.topics r.topics),
    length-append (encode_all_events enc r.event) (enc.topics r.topics),
  )

  pub next-record :
      (r : EventRecord Hash E) (h : RecordDescribed c enc evs.metadata r) (front back : List ℕ)
      (index : ℕ)
      → evs.event_bytes ≡ front ++ (encode_record enc r ++ back)
      → index < evs.num_events
      → (d : EventDetails) × (next c evs (record { pos = length front; index = index })
          ≡ done (
            some (ok d),
            record { pos = length (front ++ encode_record enc r); index = index + 1 },
          ))
        × Restores c enc evs.metadata index r.phase r.event r.topics h d
  unfolding next after_decode encode_record
  next-record r h front back index cut more =
      let (d, dec, res) =
        decode_from-parts c law enc inv evs.metadata r.phase r.event r.topics h front back index in
      let guard : (leb (length evs.event_bytes) (length front) || evs.num_events == index) ≡ false =
        ground (
          arith,
          ap length cut,
          length-append front (encode_record enc r ++ back),
          length-append (encode_record enc r) back,
          encode_record_pos r,
        ) in
      let decoded : decode_from c evs.metadata evs.event_bytes (length front) index ≡ done (ok d) =
        rw cut dec in
      (d, rw (guard, decoded, res.same_bytes, length-append front (encode_record enc r)) refl, res)

  pub next_at_end :
      (front : List ℕ) (index : ℕ)
      → length evs.event_bytes ≤ length front
      → next c evs (record { pos = length front; index = index })
        ≡ done (none, record { pos = length front; index = index })
  unfolding next
  next_at_end front index h = ground arith

  -- With more fuel than bytes are left, the items from the first record on are the records' events.
  items-records :
      (fuel : ℕ) (rs : List (EventRecord Hash E)) (hs : All (RecordDescribed c enc evs.metadata) rs)
      (front : List ℕ) (index : ℕ)
      → evs.event_bytes ≡ front ++ encode_records enc rs
      → index + length rs ≡ evs.num_events
      → length (encode_records enc rs) < fuel
      → (ds : List EventDetails) × (items c evs fuel (record { pos = length front; index = index })
          ≡ done (map ok ds))
        × Restored c enc evs.metadata index rs hs ds
  unfolding items encode_records
  items-records zero rs hs front index cut count lt = elim lt [ ]
  items-records (suc fuel) [] hs front index cut count lt = (
    [],
    rw (next_at_end front index (omega (arith, ap length cut, ap length (append-nil front)))) refl,
    refl,
  )
  items-records (suc fuel) (r ∷ rs) (h, hs) front index cut count lt =
      let (d, step, res) = next-record r h front (encode_records enc rs) index cut (omega arith) in
      let (ds, rest, all) =
        items-records fuel rs hs (front ++ encode_record enc r) (index + 1)
          (cut ∙ sym (append_assoc front (encode_record enc r) (encode_records enc rs)))
          (omega arith)
          (omega (
            arith,
            length-append (encode_record enc r) (encode_records enc rs),
            encode_record_pos r,
          )) in
      (d ∷ ds, rw (step, rest) refl, (res, all))

  -- The iteration over a block that is a count and the bytes of the records.
  iter-records :
      (rs : List (EventRecord Hash E)) (hs : All (RecordDescribed c enc evs.metadata) rs)
      (front : List ℕ)
      → evs.start_idx ≡ length front
      → evs.event_bytes ≡ front ++ encode_records enc rs
      → length rs ≡ evs.num_events
      → (ds : List EventDetails) × (iter c evs ≡ done (map ok ds))
        × Restored c enc evs.metadata 0 rs hs ds
  unfolding iter start
  iter-records rs hs front at_front cut count =
      let (ds, run, all) =
        items-records (suc (length evs.event_bytes)) rs hs front 0 cut (omega (arith, count))
          (omega (arith, ap length cut, length-append front (encode_records enc rs))) in
      (
        ds,
        ap (λ q. items c evs (suc (length evs.event_bytes)) (record { pos = q; index = 0 }))
              at_front
            ∙ run,
        all,
      )

module _ {Hash E : Type 0} (c : Codec Hash) (law : IsLawful c) (enc : Encoders Hash E)
    (inv : IsInverse c enc) (default_hash : Hash) (metadata : Metadata) where
  -- With decoders that read back what the encoders write, and take bytes off the front: where the
  -- metadata describes the records' events, and there are fewer than 2 ^ 32 of them, the iteration
  -- over the block that `events` builds yields an event for each record, in their order and with no
  -- error. The event has the record's phase, bytes, variant and fields, its place as its index, and
  -- the block's metadata.
  pub iter-events :
      (rs : List (EventRecord Hash E)) (hs : All (RecordDescribed c enc metadata) rs)
      → length rs < 2 ^ 32
      → (ds : List EventDetails) × (iter c (events enc c default_hash metadata rs)
          ≡ done (map ok ds))
        × Restored c enc metadata 0 rs hs ds
  unfolding events events_raw new count_or_zero
  iter-events rs hs small =
      let n : ℕ = length rs % 2 ^ 32 in
      let front = enc.compact_u32 n in
      let body = encode_records enc rs in
      let read = inv.compact_u32 n body (omega arith) in
      let at_front : length (front ++ body) - length (c.compact_u32 (front ++ body)).1
          ≡ length front =
        rw read (omega (arith, length-append front body)) in
      let count : length rs ≡ count_or_zero (c.compact_u32 (front ++ body)).0 =
        rw read (omega arith) in
      iter-records c law enc inv (events enc c default_hash metadata rs) rs hs front at_front refl
        count
