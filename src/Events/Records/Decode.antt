-- ===== src/Events/Records/Decode.antt =====
-- One event that the test utilities of events_type.rs have encoded, decoded again.
use event_listener.Prelude.{
  ℕ, ◌+◌, ◌-◌, ◌<◌, ◌^◌, String, ◌≡◌, refl, Option, List, [], ◌∷◌, ◌++◌, length, append_assoc,
  length-append, drop-append_length, arith, ltb, false,
}
use event_listener.Outcome.{ok, done}
use event_listener.Metadata.Store.{Metadata, EventMetadata, event}
use event_listener.Events.Codec.{Phase, Codec, IsLawful}
use event_listener.Events.Details.{
  EventDetails, skip_fields, decode_record, decode_from, pallet_index, variant_index, bytes,
  field_bytes,
}
use event_listener.Events.Details.Layout.{IsLaidOut}
use event_listener.Events.Details.Accessors.{
  pallet_index-IsLaidOut, variant_index-IsLaidOut, field_bytes-IsLaidOut, bytes-IsLaidOut,
}
use event_listener.Events.Records.{Encoders}

-- The decoders read back what the encoders have written, whatever follows.
pub record IsInverse {Hash E : Type 0} (c : Codec Hash) (enc : Encoders Hash E) : Type 0 where
  pub compact_u32 :
      (n : ℕ) (rest : List ℕ)
      → n < 2 ^ 32
      → c.compact_u32 (enc.compact_u32 n ++ rest) ≡ (ok n, rest)
  pub phase : (p : Phase) (rest : List ℕ) → c.phase (enc.phase p ++ rest) ≡ (ok p, rest)
  pub topics : (ts : List Hash) (rest : List ℕ) → c.topics (enc.topics ts ++ rest) ≡ (ok ts, rest)

module _ {Hash E : Type 0} (c : Codec Hash) (enc : Encoders Hash E) (metadata : Metadata) where
  -- The bytes are one value after the other, of the types of the fields.
  abbrev pub Splits : List (Option String × ℕ) → List ℕ → Type 0
  Splits [] bytes = bytes ≡ []
  Splits ((name, id) ∷ fields) bytes =
      (part : List ℕ) × (rest : List ℕ) × (bytes ≡ part ++ rest)
      × ((after : List ℕ) → c.skip metadata.metadata.types id (part ++ after) ≡ (ok tt, after))
      × Splits fields rest

  -- The metadata describes the event: its pallet is the first one, its bytes are the index of a
  -- variant that the metadata declares, and behind it values of the types of the variant's fields.
  pub record IsDescribed (e : E) : Type 0 where
    pub variant : ℕ
    pub fields : List ℕ
    pub declared : EventMetadata
    pub encoded : enc.event e ≡ variant ∷ fields
    pub is_declared : event metadata 0 variant ≡ ok declared
    pub splits : Splits declared.fields fields

  skip_fields-Splits :
      (fields : List (Option String × ℕ)) (bytes after : List ℕ)
      → Splits fields bytes
      → skip_fields c metadata.metadata.types fields (bytes ++ after) ≡ (ok tt, after)
  unfolding skip_fields
  skip_fields-Splits [] bytes after s = rw s refl
  skip_fields-Splits ((name, id) ∷ fields) bytes after (part, rest, e, skips, s) =
      rw (e, append_assoc part rest after, skips (rest ++ after))
        (skip_fields-Splits fields rest after s)

  module _ (law : IsLawful c) (inv : IsInverse c enc) (e : E) (h : IsDescribed e) (p : Phase)
      (ts : List Hash) (front back : List ℕ) (index : ℕ) where
    -- What follows the phase.
    abbrev pub behind : List ℕ
    behind = 0 ∷ (h.variant ∷ (h.fields ++ (enc.topics ts ++ back)))

    -- The bytes of the block.
    abbrev pub block_bytes : List ℕ
    block_bytes = front ++ (enc.phase p ++ behind)

    -- The event that is decoded.
    abbrev pub details : EventDetails
    details = record {
      phase = p;
      index = index;
      all_bytes = block_bytes;
      start_idx = length front;
      fields_start_idx = length block_bytes - length (h.fields ++ (enc.topics ts ++ back));
      fields_end_idx = length block_bytes - length (enc.topics ts ++ back);
      end_idx = length block_bytes - length back;
      metadata = metadata;
    }

    decode_record-behind :
        decode_record c metadata block_bytes (length front) index (enc.phase p ++ behind)
        ≡ (ok details, back)
    unfolding decode_record
    decode_record-behind = rw (inv.phase p behind) (
        rw (law.u8_byte 0 (h.variant ∷ (h.fields ++ (enc.topics ts ++ back)))) (
          rw (law.u8_byte h.variant (h.fields ++ (enc.topics ts ++ back)), h.is_declared)
            (rw (skip_fields-Splits h.declared.fields h.fields (enc.topics ts ++ back) h.splits)
              (rw (inv.topics ts back) refl))))

    starts_inside : ltb (length block_bytes) (length front) ≡ false
    starts_inside = ground (arith, length-append front (enc.phase p ++ behind))

    decode_from-block_bytes :
        decode_from c metadata block_bytes (length front) index ≡ done (ok details)
    unfolding decode_from
    decode_from-block_bytes =
        rw (starts_inside, drop-append_length front (enc.phase p ++ behind), decode_record-behind)
          refl

    length-block_bytes :
        length block_bytes
        ≡ length front + length (enc.phase p) + 2 + length (h.fields ++ (enc.topics ts ++ back))
    length-block_bytes =
        omega
          (arith, length-append front (enc.phase p ++ behind), length-append (enc.phase p) behind)

    details-IsLaidOut : IsLaidOut details
    details-IsLaidOut = record {
      front = front;
      phase_bytes = enc.phase p;
      pallet = 0;
      variant = h.variant;
      fields = h.fields;
      topics = enc.topics ts;
      back = back;
      declared = h.declared;
      cut = refl;
      start_at = refl;
      fields_at = omega (arith, length-block_bytes);
      topics_at = omega (
        arith,
        length-block_bytes,
        length-append h.fields (enc.topics ts ++ back),
        length-append (enc.topics ts) back,
      );
      end_at = omega (
        arith,
        length-block_bytes,
        length-append h.fields (enc.topics ts ++ back),
        length-append (enc.topics ts) back,
      );
      is_declared = h.is_declared;
    }

    -- What the accessors give of the event that is decoded from the block's bytes.
    pub decode_from-described :
        (d : EventDetails) × (decode_from c metadata block_bytes (length front) index ≡ done (ok d))
        × (d.phase ≡ p)
        × (d.index ≡ index)
        × (d.metadata ≡ metadata)
        × (pallet_index d ≡ done 0)
        × (variant_index d ≡ done h.variant)
        × (field_bytes d ≡ done h.fields)
        × (bytes d ≡ done (enc.phase p ++ (0 ∷ (h.variant ∷ (h.fields ++ enc.topics ts)))))
    unfolding details-IsLaidOut
    decode_from-described = (
      details,
      decode_from-block_bytes,
      refl,
      refl,
      refl,
      pallet_index-IsLaidOut details details-IsLaidOut,
      variant_index-IsLaidOut details details-IsLaidOut,
      field_bytes-IsLaidOut details details-IsLaidOut,
      bytes-IsLaidOut details details-IsLaidOut,
    )
