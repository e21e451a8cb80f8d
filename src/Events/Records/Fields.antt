-- ===== src/Events/Records/Fields.antt =====
-- `field_values` of event-listener/src/events/events_type.rs on a block that its test utilities have
-- encoded. The values, with their decoder and encoder, are those of the crate `scale_value`.
use event_listener.Prelude.{
  ℕ, suc, ◌+◌, ◌<◌, ◌^◌, ◌≡◌, refl, ap, subst, sym, true, false, if◌then◌else◌, String, Option,
  List, [], ◌∷◌, ◌++◌, map, length, append_assoc, append-nil, All, arith,
}
use event_listener.Outcome.{ok, map_err, map_ok, done}
use event_listener.Error.{decode_value, DecodeError}
use event_listener.Metadata.Types.{PortableRegistry}
use event_listener.Metadata.Store.{Metadata}
use event_listener.Events.Codec.{Decoder, Codec, IsLawful}
use event_listener.Events.Details.{
  EventDetails, Composite, unnamed, named, is_named, name_or_default, decode_fields, composite_of,
  field_values,
}
use event_listener.Events.Block.{iter}
use event_listener.Events.Records.{Encoders, AllEvents, test, EventRecord, events}
use event_listener.Events.Records.Decode.{IsInverse, Splits}
use event_listener.Events.Records.RoundTrip.{
  AllEventsDescribed, RecordDescribed, fields_of, declared_of, Restores, Restored, iter-events,
}
use event_listener.Events.Records.Search.{event_metadata-Restores}

-- `Composite::into_values`
abbrev pub into_values : {V : Type 0} → Composite V → List V
into_values (unnamed vs) = vs
into_values (named nvs) = map (λ nv. nv.1) nvs

module _ {V : Type 0} (encode_as_type : PortableRegistry → ℕ → V → List ℕ) where
  -- The values of the fields, encoded one after the other; there is one for each field.
  abbrev pub encode_fields : PortableRegistry → List (Option String × ℕ) → List V → List ℕ
  encode_fields types [] vs = []
  encode_fields types (f ∷ fields) [] = []
  encode_fields types ((name, id) ∷ fields) (v ∷ vs) =
      encode_as_type types id v ++ encode_fields types fields vs

-- What is pushed for the fields.
abbrev pub wrap_all :
    {V W : Type 0} → (Option String → V → W) → List (Option String × ℕ) → List V → List W
wrap_all wrap [] vs = []
wrap_all wrap (f ∷ fields) [] = []
wrap_all wrap ((name, id) ∷ fields) (v ∷ vs) = wrap name v ∷ wrap_all wrap fields vs

module _ {V : Type 0} where
  wrap_all_self :
      (fields : List (Option String × ℕ)) (vs : List V)
      → length vs ≡ length fields
      → wrap_all (λ _ v. v) fields vs ≡ vs
  wrap_all_self [] [] e = refl
  wrap_all_self [] (v ∷ vs) e = absurd (omega (arith, e))
  wrap_all_self (f ∷ fields) [] e = absurd (omega (arith, e))
  wrap_all_self ((name, id) ∷ fields) (v ∷ vs) e =
      ap (λ t. v ∷ t) (wrap_all_self fields vs (omega arith))

  wrap_all_named :
      (fields : List (Option String × ℕ)) (vs : List V)
      → length vs ≡ length fields
      → map (λ (nv : String × V). nv.1) (wrap_all (λ n v. (name_or_default n, v)) fields vs) ≡ vs
  wrap_all_named [] [] e = refl
  wrap_all_named [] (v ∷ vs) e = absurd (omega (arith, e))
  wrap_all_named (f ∷ fields) [] e = absurd (omega (arith, e))
  wrap_all_named ((name, id) ∷ fields) (v ∷ vs) e =
      ap (λ t. v ∷ t) (wrap_all_named fields vs (omega arith))

module _ {Hash E V : Type 0} (c : Codec Hash) (enc : Encoders Hash E) (metadata : Metadata)
    (decode_as_type : PortableRegistry → ℕ → Decoder V DecodeError)
    (encode_as_type : PortableRegistry → ℕ → V → List ℕ) where
  -- Where skipping a value of the type takes some bytes off the front, the value that is decoded
  -- takes the same bytes, and is encoded as these bytes.
  abbrev pub ReadsValues : Type 0
  ReadsValues =
      (id : ℕ) (part : List ℕ)
      → ((after : List ℕ) → c.skip metadata.metadata.types id (part ++ after) ≡ (ok tt, after))
      → (v : V) × ((after : List ℕ)
          → decode_as_type metadata.metadata.types id (part ++ after) ≡ (ok v, after))
        × (encode_as_type metadata.metadata.types id v ≡ part)

  decode_fields-Splits :
      (law : ReadsValues) (fields : List (Option String × ℕ)) (bytes after : List ℕ)
      → Splits c enc metadata fields bytes
      → (vs : List V) × ((W : Type 0) (wrap : Option String → V → W)
          → decode_fields decode_as_type wrap metadata.metadata.types fields (bytes ++ after)
            ≡ (ok (wrap_all wrap fields vs), after))
        × (encode_fields encode_as_type metadata.metadata.types fields vs ≡ bytes)
        × (length vs ≡ length fields)
  unfolding decode_fields
  decode_fields-Splits law [] bytes after s = ([], λ W wrap. rw s refl, sym s, refl)
  decode_fields-Splits law ((name, id) ∷ fields) bytes after (part, rest, e, skips, s) =
      let (v, reads, writes) = law id part skips in
      let (vs, dec, en, same) = decode_fields-Splits law fields rest after s in
      (
        v ∷ vs,
        λ W wrap. rw (e, append_assoc part rest after, reads (rest ++ after), dec W wrap) refl,
        rw (writes, en, e) refl,
        ap suc same,
      )

  -- The value of the fields has a value for each field, and is encoded as the bytes of the fields.
  pub record Valued (fields : List (Option String × ℕ)) (bytes : List ℕ) (d : EventDetails)
      : Type 0 where
    pub value : Composite V
    pub decoded : field_values decode_as_type d ≡ done (ok value)
    pub one_each : length (into_values value) ≡ length fields
    pub encoded :
        encode_fields encode_as_type metadata.metadata.types fields (into_values value) ≡ bytes

  composite_of-Splits :
      (law : ReadsValues) (fields : List (Option String × ℕ)) (bytes : List ℕ)
      → Splits c enc metadata fields bytes
      → (value : Composite V) × (composite_of decode_as_type metadata.metadata.types fields bytes
          ≡ ok value)
        × (length (into_values value) ≡ length fields)
        × (encode_fields encode_as_type metadata.metadata.types fields (into_values value) ≡ bytes)
  unfolding composite_of
  composite_of-Splits law fields bytes s =
      let (vs, dec, en, same) = decode_fields-Splits law fields bytes [] s in
      let reads = λ (W : Type 0) (wrap : Option String → V → W).
        subst
          (λ (l : List ℕ).
            decode_fields decode_as_type wrap metadata.metadata.types fields l
            ≡ (ok (wrap_all wrap fields vs), []))
          (append-nil bytes) (dec W wrap) in
      let with_name : Option String → V → String × V = λ n v. (name_or_default n, v) in
      let ns = wrap_all with_name fields vs in
      let us = wrap_all (λ _ (v : V). v) fields vs in
      let names = wrap_all_named fields vs same in
      let bare = wrap_all_self fields vs same in
      elim (is_named fields)
        as (λ b.
          (value : Composite V) × ((if b
              then map_ok named (
                  map_err decode_value
                    (decode_fields decode_as_type with_name metadata.metadata.types fields bytes).0)
              else map_ok unnamed (
                  map_err decode_value
                    (decode_fields decode_as_type (λ _ v. v) metadata.metadata.types fields
                      bytes).0))
            ≡ ok value)
          × (length (into_values value) ≡ length fields)
          × (encode_fields encode_as_type metadata.metadata.types fields (into_values value)
              ≡ bytes)) [
                | true ↦
                    (named ns, rw (reads (String × V) with_name) refl, rw names same, rw names en)
                | false ↦ (unnamed us, rw (reads V (λ _ v. v)) refl, rw bare same, rw bare en)
              ]

  fields_of-Splits :
      (a : AllEvents E) (h : AllEventsDescribed c enc metadata a)
      → Splits c enc metadata (declared_of c enc metadata a h).fields (fields_of c enc metadata a h)
  fields_of-Splits (test e) h = h.splits

  field_values-Restores :
      (law : ReadsValues) (index : ℕ) (r : EventRecord Hash E)
      (h : RecordDescribed c enc metadata r) (d : EventDetails)
      → Restores c enc metadata index r.phase r.event r.topics h d
      → Valued (declared_of c enc metadata r.event h).fields (fields_of c enc metadata r.event h) d
  unfolding field_values
  field_values-Restores law index r h d s =
      let fields = (declared_of c enc metadata r.event h).fields in
      let (value, dec, same, en) =
        composite_of-Splits law fields (fields_of c enc metadata r.event h)
          (fields_of-Splits r.event h) in
      record {
        value = value;
        decoded =
            rw
              (s.same_fields, event_metadata-Restores c enc metadata index r h d s, s.same_metadata)
              (ap done dec);
        one_each = same;
        encoded = en;
      }

  -- So for each of the records and its event.
  abbrev pub AllValued :
      (rs : List (EventRecord Hash E))
      → All (RecordDescribed c enc metadata) rs
      → List EventDetails
      → Type 0
  AllValued [] hs ds = ds ≡ []
  AllValued (r ∷ rs) hs [] = ⊥
  AllValued (r ∷ rs) (h, hs) (d ∷ ds) =
      Valued (declared_of c enc metadata r.event h).fields (fields_of c enc metadata r.event h) d
      × AllValued rs hs ds

  Restored-AllValued :
      (law : ReadsValues) (index : ℕ) (rs : List (EventRecord Hash E))
      (hs : All (RecordDescribed c enc metadata) rs) (ds : List EventDetails)
      → Restored c enc metadata index rs hs ds
      → AllValued rs hs ds
  Restored-AllValued law index [] hs ds e = e
  Restored-AllValued law index (r ∷ rs) hs [] e = absurd e
  Restored-AllValued law index (r ∷ rs) (h, hs) (d ∷ ds) (s, e) =
      (field_values-Restores law index r h d s, Restored-AllValued law (index + 1) rs hs ds e)

  -- With decoders that read back what the encoders write, and take bytes off the front, and a
  -- decoder of values that takes the bytes that skipping takes and whose values are encoded as these
  -- bytes: where the metadata describes the records' events, and there are fewer than 2 ^ 32 of
  -- them, the iteration over the block that `events` builds yields an event for each record, and
  -- `field_values` does not fail on it; it gives a value for each declared field, and these values,
  -- encoded one after the other, are the bytes of the record's fields.
  pub field_values-events :
      (law : IsLawful c) (inv : IsInverse c enc) (values : ReadsValues) (default_hash : Hash)
      (rs : List (EventRecord Hash E)) (hs : All (RecordDescribed c enc metadata) rs)
      → length rs < 2 ^ 32
      → (ds : List EventDetails) × (iter c (events enc c default_hash metadata rs)
          ≡ done (map ok ds))
        × AllValued rs hs ds
  field_values-events law inv values default_hash rs hs small =
      let (ds, run, all) = iter-events c law enc inv default_hash metadata rs hs small in
      (ds, run, Restored-AllValued values 0 rs hs ds all)
