-- ===== src/Events/Records/Broken.antt =====
-- The iteration over a block whose events are followed by bytes that are no event, as in the test
-- `dynamically_decode_multiple_events_until_error` of event-listener/src/events/events_type.rs.
use event_listener.Prelude.{
  ℕ, zero, suc, ◌+◌, ◌-◌, ◌<◌, ◌^◌, ◌≡◌, refl, sym, ap, ◌∙◌, some, List, [], ◌∷◌, ◌++◌, map, drop,
  length, append_assoc, length-append, drop-append_length, arith, ltb, leb, ◌==◌, ◌||◌, false, All,
}
use event_listener.Outcome.{ok, err, done}
use event_listener.Error.{Error, CodecError, MetadataError, codec}
use event_listener.Metadata.Store.{Metadata, event}
use event_listener.Events.Codec.{Phase, Codec, IsLawful}
use event_listener.Events.Details.{EventDetails, decode_record, decode_from}
use event_listener.Events.Block.{Events, after_decode, next, start, items, iter, new, count_or_zero}
use event_listener.Events.Records.{Encoders, EventRecord, encode_record, encode_records, events_raw}
use event_listener.Events.Records.Decode.{IsInverse}
use event_listener.Events.Records.RoundTrip.{
  RecordDescribed, Restored, next-record, next_at_end, encode_record_pos,
}

module _ {Hash : Type 0} (c : Codec Hash) (metadata : Metadata) where
  -- Bytes that begin with no phase, or with a phase and the indices of no declared event.
  pub data IsBroken (bytes : List ℕ) : Error → Type 0 where
    no_phase :
        (x : CodecError) (rest : List ℕ) → c.phase bytes ≡ (err x, rest) → IsBroken bytes (codec x)
    undeclared :
        (p : Phase) (pallet variant : ℕ) (rest : List ℕ) (x : MetadataError)
        → c.phase bytes ≡ (ok p, pallet ∷ variant ∷ rest)
        → event metadata pallet variant ≡ err x
        → IsBroken bytes (Error.metadata x)

  decode_record-IsBroken :
      (law : IsLawful c) (all bytes : List ℕ) (i index : ℕ) (e : Error)
      → IsBroken bytes e
      → (decode_record c metadata all i index bytes).0 ≡ err e
  unfolding decode_record
  decode_record-IsBroken law all bytes i index e (no_phase x rest p) = rw p refl
  decode_record-IsBroken law all bytes i index e (undeclared p b v rest x q r) =
      rw q (rw (law.u8_byte b (v ∷ rest)) (rw (law.u8_byte v rest, r) refl))

module _ {Hash E : Type 0} (c : Codec Hash) (law : IsLawful c) (enc : Encoders Hash E)
    (inv : IsInverse c enc) (evs : Events Hash) (broken : List ℕ) (e : Error)
    (b : IsBroken c evs.metadata broken e) where
  decode_from-broken :
      (front : List ℕ) (index : ℕ)
      → evs.event_bytes ≡ front ++ broken
      → decode_from c evs.metadata evs.event_bytes (length front) index ≡ done (err e)
  unfolding decode_from
  decode_from-broken front index cut =
      let inside : ltb (length evs.event_bytes) (length front) ≡ false =
        ground (arith, ap length cut, length-append front broken) in
      let at : drop (length front) evs.event_bytes ≡ broken =
        rw cut (drop-append_length front broken) in
      rw (inside, at)
        (ap done (
          decode_record-IsBroken c evs.metadata law evs.event_bytes broken (length front) index e
            b))

  next-broken :
      (front : List ℕ) (index : ℕ)
      → evs.event_bytes ≡ front ++ broken
      → 0 < length broken
      → index < evs.num_events
      → next c evs (record { pos = length front; index = index })
        ≡ done (some (err e), record { pos = length evs.event_bytes; index = index })
  unfolding next after_decode
  next-broken front index cut some_left more =
      let guard : (leb (length evs.event_bytes) (length front) || evs.num_events == index) ≡ false =
        ground (arith, ap length cut, length-append front broken) in
      rw (guard, decode_from-broken front index cut) refl

  -- With more fuel than bytes are left, the items are the records' events and then the error.
  items-broken :
      (fuel : ℕ) (rs : List (EventRecord Hash E)) (hs : All (RecordDescribed c enc evs.metadata) rs)
      (front : List ℕ) (index : ℕ)
      → evs.event_bytes ≡ front ++ (encode_records enc rs ++ broken)
      → 0 < length broken
      → index + length rs < evs.num_events
      → length (encode_records enc rs) + 1 < fuel
      → (ds : List EventDetails) × (items c evs fuel (record { pos = length front; index = index })
          ≡ done (map ok ds ++ (err e ∷ [])))
        × Restored c enc evs.metadata index rs hs ds
  unfolding items encode_records
  items-broken zero rs hs front index cut left count lt = elim lt [ ]
  items-broken (suc zero) rs hs front index cut left count lt = absurd (omega (arith, lt))
  items-broken (suc (suc fuel)) [] hs front index cut left count lt = (
    [],
    rw (next-broken front index cut left (omega arith))
        (rw (next_at_end c law enc inv evs evs.event_bytes index (omega arith)) refl),
    refl,
  )
  items-broken (suc (suc fuel)) (r ∷ rs) (h, hs) front index cut left count lt =
      let back = encode_records enc rs ++ broken in
      let (d, step, res) =
        next-record c law enc inv evs r h front back index
          (cut
            ∙ ap (λ t. front ++ t)
                (append_assoc (encode_record enc r) (encode_records enc rs) broken))
          (omega arith) in
      let (ds, rest, all) =
        items-broken (suc fuel) rs hs (front ++ encode_record enc r) (index + 1)
          (cut
            ∙ ap (λ t. front ++ t)
                (append_assoc (encode_record enc r) (encode_records enc rs) broken)
            ∙ sym (append_assoc front (encode_record enc r) back))
          left (omega arith)
          (omega (
            arith,
            length-append (encode_record enc r) (encode_records enc rs),
            encode_record_pos c law enc inv evs r,
          )) in
      (d ∷ ds, rw (step, rest) refl, (res, all))

module _ {Hash E : Type 0} (c : Codec Hash) (law : IsLawful c) (enc : Encoders Hash E)
    (inv : IsInverse c enc) (default_hash : Hash) (metadata : Metadata) where
  -- With decoders that read back what the encoders write, and take bytes off the front: the bytes of
  -- a block are those of records whose events the metadata describes, and behind them at least one
  -- byte that begins no event, with no phase or with the indices of no declared event. Where the
  -- block declares more events than there are records, and fewer than 2 ^ 32, the iteration yields
  -- an event for each record, in order and with its phase, bytes, variant, fields and place, then
  -- the error of the bytes behind them, and nothing more.
  pub iter-until_error :
      (rs : List (EventRecord Hash E)) (hs : All (RecordDescribed c enc metadata) rs)
      (broken : List ℕ) (e : Error) (num_events : ℕ)
      → IsBroken c metadata broken e
      → 0 < length broken
      → length rs < num_events
      → num_events < 2 ^ 32
      → (ds : List EventDetails) × (iter c
            (events_raw enc c default_hash metadata (encode_records enc rs ++ broken) num_events)
          ≡ done (map ok ds ++ (err e ∷ [])))
        × Restored c enc metadata 0 rs hs ds
  unfolding iter start events_raw new count_or_zero
  iter-until_error rs hs broken e num_events b left count small =
      let front = enc.compact_u32 num_events in
      let body = encode_records enc rs ++ broken in
      let evs = events_raw enc c default_hash metadata body num_events in
      let read = inv.compact_u32 num_events body small in
      let at_front : length (front ++ body) - length (c.compact_u32 (front ++ body)).1
          ≡ length front =
        rw read (omega (arith, length-append front body)) in
      let declared : count_or_zero (c.compact_u32 (front ++ body)).0 ≡ num_events = rw read refl in
      let (ds, run, all) =
        items-broken c law enc inv evs broken e b (suc (length (front ++ body))) rs hs front 0 refl
          left (omega (arith, declared))
          (omega (arith, length-append front body, length-append (encode_records enc rs) broken)) in
      (
        ds,
        ap (λ q. items c evs (suc (length (front ++ body))) (record { pos = q; index = 0 }))
              at_front
            ∙ run,
        all,
      )
