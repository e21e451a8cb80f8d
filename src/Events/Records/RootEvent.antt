-- ===== src/Events/Records/RootEvent.antt =====
-- `as_root_event` of event-listener/src/events/events_type.rs on a block that its test utilities have
-- encoded.
use event_listener.Prelude.{
  ℕ, suc, ◌+◌, ◌<◌, ◌^◌, ◌≡◌, ◌≢◌, refl, ap, List, [], ◌∷◌, ◌++◌, map, length, All,
}
use event_listener.Outcome.{ok, err, done}
use event_listener.Error.{CodecError}
use event_listener.Metadata.Store.{Metadata}
use event_listener.Events.Codec.{Decoder, Codec, IsLawful}
use event_listener.Events.Details.{EventDetails, as_root_event}
use event_listener.Events.Block.{iter}
use event_listener.Events.Records.{
  Encoders, AllEvents, EventRecord, encode_all_events, encode_record, events,
}
use event_listener.Events.Records.Decode.{IsInverse}
use event_listener.Events.Records.RoundTrip.{RecordDescribed, Restores, Restored, iter-events}

module _ {Hash E : Type 0} (c : Codec Hash) (enc : Encoders Hash E) (metadata : Metadata)
    (decode : Decoder (AllEvents E) CodecError) where
  -- The decoder of the root event gets the whole record, its phase first.
  as_root_event-Restores :
      (index : ℕ) (r : EventRecord Hash E) (h : RecordDescribed c enc metadata r) (d : EventDetails)
      → Restores c enc metadata index r.phase r.event r.topics h d
      → as_root_event decode d ≡ done (decode (encode_record enc r)).0
  unfolding as_root_event encode_record
  as_root_event-Restores index r h d s = rw (s.same_bytes) refl

  -- The phase is encoded with a first byte other than 0, which is the index of the only pallet.
  abbrev pub IsMarked : EventRecord Hash E → Type 0
  IsMarked r = (b : ℕ) × (rest : List ℕ) × (enc.phase r.phase ≡ b ∷ rest) × (b ≢ 0)

  -- The decoder of `AllEvents` fails where the first byte is not the index of its only variant.
  abbrev pub Refuses : Type 0
  Refuses = (b : ℕ) (rest : List ℕ) → b ≢ 0 → (e : CodecError) × ((decode (b ∷ rest)).0 ≡ err e)

  abbrev pub IsRefused : EventDetails → Type 0
  IsRefused d = (e : CodecError) × (as_root_event decode d ≡ done (err e))

  Restored-IsRefused :
      (index : ℕ) (rs : List (EventRecord Hash E)) (hs : All (RecordDescribed c enc metadata) rs)
      (ds : List EventDetails)
      → Refuses
      → All IsMarked rs
      → Restored c enc metadata index rs hs ds
      → (length ds ≡ length rs) × All IsRefused ds
  unfolding encode_record
  Restored-IsRefused index [] hs ds f m e = rw e (refl, tt)
  Restored-IsRefused index (r ∷ rs) hs [] f m e = absurd e
  Restored-IsRefused index (r ∷ rs) (h, hs) (d ∷ ds) f ((b, rest, p, q), m) (s, e) =
      let (same, all) = Restored-IsRefused (index + 1) rs hs ds f m e in
      let (x, fails) = f b (rest ++ (encode_all_events enc r.event ++ enc.topics r.topics)) q in
      (ap suc same, ((x, rw (as_root_event-Restores index r h d s, p) (ap done fails)), all))

module _ {Hash E : Type 0} (c : Codec Hash) (law : IsLawful c) (enc : Encoders Hash E)
    (inv : IsInverse c enc) (default_hash : Hash) (metadata : Metadata)
    (decode : Decoder (AllEvents E) CodecError) where
  -- `as_root_event` decodes from the phase on, which stands in front of the pallet's index. With
  -- decoders as for the iteration and fewer than 2 ^ 32 records whose events the metadata describes:
  -- where the phases are encoded with a first byte other than 0, and the decoder of the root event
  -- refuses a first byte that is not the index 0 of its only pallet, the iteration over the block
  -- that `events` builds yields an event for each record, and `as_root_event` fails on every one.
  pub as_root_event-IsRefused :
      (rs : List (EventRecord Hash E)) (hs : All (RecordDescribed c enc metadata) rs)
      → length rs < 2 ^ 32
      → Refuses c enc metadata decode
      → All (IsMarked c enc metadata decode) rs
      → (ds : List EventDetails) × (iter c (events enc c default_hash metadata rs)
          ≡ done (map ok ds))
        × (length ds ≡ length rs)
        × All (IsRefused c enc metadata decode) ds
  as_root_event-IsRefused rs hs small f m =
      let (ds, run, all) = iter-events c law enc inv default_hash metadata rs hs small in
      let (same, refused) = Restored-IsRefused c enc metadata decode 0 rs hs ds f m all in
      (ds, run, same, refused)
