-- ===== src/Events/Details/Layout.antt =====
-- Where the parts of a decoded event stand in the bytes of its block (events_type.rs).
use event_listener.Prelude.{
  ℕ, ◌+◌, ◌-◌, ◌≤◌, String, ◌≡◌, refl, sym, ap, subst, ◌∙◌, Option, List, [], ◌∷◌, ◌++◌, length,
  length-append, drop, take, length-drop, take-append-drop, arith,
}
use event_listener.Outcome.{Result, ok, map_err, done}
use event_listener.Error.{Error, codec, decode_value}
use event_listener.Metadata.Types.{PortableRegistry}
use event_listener.Metadata.Store.{Metadata, EventMetadata, event}
use event_listener.Events.Codec.{
  Phase, convert, Codec, IsLawful, Reads, Reads-refl, Reads-trans, Ensures, Ensures-bind,
  Ensures-lift, Ensures-mono, Ensures-ok, map_err-eq-ok, convert-Reads, convert-eq-ok,
}
use event_listener.Events.Details.{EventDetails, skip_fields, decode_record, decode_from}

-- The bytes of the block around the event, cut into its parts.
pub record IsLaidOut (d : EventDetails) : Type 0 where
  pub front : List ℕ
  pub phase_bytes : List ℕ
  pub pallet : ℕ
  pub variant : ℕ
  pub fields : List ℕ
  pub topics : List ℕ
  pub back : List ℕ
  pub declared : EventMetadata
  pub cut :
      d.all_bytes ≡ front ++ (phase_bytes ++ (pallet ∷ variant ∷ (fields ++ (topics ++ back))))
  pub start_at : d.start_idx ≡ length front
  pub fields_at : d.fields_start_idx ≡ length front + length phase_bytes + 2
  pub topics_at : d.fields_end_idx ≡ d.fields_start_idx + length fields
  pub end_at : d.end_idx ≡ d.fields_end_idx + length topics
  pub is_declared : event d.metadata pallet variant ≡ ok declared

module _ {Hash : Type 0} (c : Codec Hash) (law : IsLawful c) where
  u8-eq-ok : (bytes : List ℕ) {b : ℕ} {rest : List ℕ} → c.u8 bytes ≡ (ok b, rest) → bytes ≡ b ∷ rest
  u8-eq-ok [] h = let (e, p) = law.u8_empty in cc
  u8-eq-ok (x ∷ bytes) h = cc (law.u8_byte x bytes)

  skip_fields-Reads :
      (types : PortableRegistry) (fields : List (Option String × ℕ)) (bytes : List ℕ)
      → Ensures (λ _ rest. Reads bytes rest) (skip_fields c types fields bytes)
  unfolding skip_fields
  skip_fields-Reads types [] bytes = Reads-refl bytes
  skip_fields-Reads types ((n, id) ∷ fields) bytes =
      Ensures-bind (λ _ rest. Reads bytes rest) (convert decode_value (c.skip types id)) _ bytes
        λ u mid e.
          Ensures-mono (λ _ rest. Reads mid rest) (λ _ rest. Reads bytes rest) _
            (λ _ rest r.
              Reads-trans
                (convert-Reads decode_value (c.skip types id) bytes (law.skip_reads types id bytes)
                  e)
                r)
            (skip_fields-Reads types fields mid)

  fields_read_by :
      (metadata : Metadata) (fields : List (Option String × ℕ)) (bytes : List ℕ) (u : Unit {0})
      (rest : List ℕ)
      → skip_fields c metadata.metadata.types fields bytes ≡ (ok u, rest)
      → Reads bytes rest
  fields_read_by metadata fields bytes u rest e =
      subst (Ensures (λ (_ : Unit {0}) rest'. Reads bytes rest')) e
        (skip_fields-Reads metadata.metadata.types fields bytes)

  phase_and_indices :
      (input : List ℕ) (phase : Phase) (r1 : List ℕ) (p : ℕ) (r2 : List ℕ) (v : ℕ) (r3 : List ℕ)
      → convert codec c.phase input ≡ (ok phase, r1)
      → convert codec c.u8 r1 ≡ (ok p, r2)
      → convert codec c.u8 r2 ≡ (ok v, r3)
      → Reads input (p ∷ v ∷ r3)
  phase_and_indices input phase r1 p r2 v r3 e1 e2 e3 =
      let u1 = u8-eq-ok r1 (convert-eq-ok codec c.u8 r1 e2) in
      let u2 = u8-eq-ok r2 (convert-eq-ok codec c.u8 r2 e3) in
      let (used, e) = convert-Reads codec c.phase input (law.phase_reads input) e1 in
      (used, e ∙ ap (λ t. used ++ t) (u1 ∙ ap (λ t. p ∷ t) u2))

  -- What a successful decoding has read.
  record Decoded (metadata : Metadata) (all_bytes : List ℕ) (start_idx index : ℕ) (input : List ℕ)
      (d : EventDetails) (rest : List ℕ) : Type 0 where
    phase : Phase
    pallet : ℕ
    variant : ℕ
    declared : EventMetadata
    at_fields : List ℕ
    at_topics : List ℕ
    phase_reads : Reads input (pallet ∷ variant ∷ at_fields)
    is_declared : event metadata pallet variant ≡ ok declared
    fields_read : Reads at_fields at_topics
    topics_read : Reads at_topics rest
    value : d ≡ record {
      phase = phase;
      index = index;
      all_bytes = all_bytes;
      start_idx = start_idx;
      fields_start_idx = length all_bytes - length at_fields;
      fields_end_idx = length all_bytes - length at_topics;
      end_idx = length all_bytes - length rest;
      metadata = metadata;
    }

  decode_record-Decoded :
      (metadata : Metadata) (all_bytes : List ℕ) (start_idx index : ℕ) (input : List ℕ)
      → Ensures
          (Decoded metadata all_bytes start_idx index input)
          (decode_record c metadata all_bytes start_idx index input)
  unfolding decode_record
  decode_record-Decoded metadata all_bytes start_idx index input =
      let P = Decoded metadata all_bytes start_idx index input in
      Ensures-bind P (convert codec c.phase) _ input λ ph r1 e1.
        Ensures-bind P (convert codec c.u8) _ r1 λ p r2 e2.
          Ensures-bind P (convert codec c.u8) _ r2 λ v r3 e3.
            Ensures-lift P (map_err Error.metadata (event metadata p v)) _ r3 λ m e4.
              Ensures-bind P (skip_fields c metadata.metadata.types m.fields) _ r3 λ u r4 e5.
                Ensures-bind P (convert codec c.topics) _ r4 λ ts r5 e6. record {
                  phase = ph;
                  pallet = p;
                  variant = v;
                  declared = m;
                  at_fields = r3;
                  at_topics = r4;
                  phase_reads = phase_and_indices input ph r1 p r2 v r3 e1 e2 e3;
                  is_declared = map_err-eq-ok Error.metadata _ e4;
                  fields_read = fields_read_by metadata m.fields r3 u r4 e5;
                  topics_read = convert-Reads codec c.topics r4 (law.topics_reads r4) e6;
                  value = refl;
                }

  Decoded-IsLaidOut :
      (metadata : Metadata) (all_bytes : List ℕ) (start_idx index : ℕ) (d : EventDetails)
      (rest : List ℕ)
      → start_idx ≤ length all_bytes
      → Decoded metadata all_bytes start_idx index (drop start_idx all_bytes) d rest
      → IsLaidOut d
        × (d.all_bytes ≡ all_bytes)
        × (d.start_idx ≡ start_idx)
        × (d.index ≡ index)
        × (d.metadata ≡ metadata)
  Decoded-IsLaidOut metadata all_bytes start_idx index d rest inside r =
      let front = take start_idx all_bytes in
      let (ph, e1) = r.phase_reads in
      let (fields, e2) = r.fields_read in
      let (topics, e3) = r.topics_read in
      let whole : all_bytes ≡ front ++ drop start_idx all_bytes =
        sym (take-append-drop start_idx all_bytes) in
      let l0 = ap length whole ∙ length-append front (drop start_idx all_bytes) in
      let l1 = ap length e1 ∙ length-append ph (r.pallet ∷ r.variant ∷ r.at_fields) in
      let l2 = ap length e2 ∙ length-append fields r.at_topics in
      let l3 = ap length e3 ∙ length-append topics rest in
      let l4 = length-drop start_idx all_bytes in
      subst
        (λ x.
          IsLaidOut x
          × (x.all_bytes ≡ all_bytes)
          × (x.start_idx ≡ start_idx)
          × (x.index ≡ index)
          × (x.metadata ≡ metadata))
        (sym r.value)
        (
          record {
            front = front;
            phase_bytes = ph;
            pallet = r.pallet;
            variant = r.variant;
            fields = fields;
            topics = topics;
            back = rest;
            declared = r.declared;
            cut =
                whole
                ∙ ap (λ t. front ++ t)
                    (e1
                      ∙ ap (λ t. ph ++ (r.pallet ∷ r.variant ∷ t)) (e2 ∙ ap (λ t. fields ++ t) e3));
            start_at = omega arith;
            fields_at = omega arith;
            topics_at = omega arith;
            end_at = omega arith;
            is_declared = r.is_declared;
          },
          refl,
          refl,
          refl,
          refl,
        )

  pub decode_from-eq-done :
      (metadata : Metadata) (all_bytes : List ℕ) (start_idx index : ℕ)
      (r : Result EventDetails Error)
      → decode_from c metadata all_bytes start_idx index ≡ done r
      → (start_idx ≤ length all_bytes)
        × ((decode_record c metadata all_bytes start_idx index (drop start_idx all_bytes)).0 ≡ r)
  unfolding decode_from
  decode_from-eq-done metadata all_bytes start_idx index r h = ground arith

  -- The event that `decode_from` returns is laid out in `all_bytes` from `start_idx` on.
  pub decode_from-IsLaidOut :
      (metadata : Metadata) (all_bytes : List ℕ) (start_idx index : ℕ) (d : EventDetails)
      → decode_from c metadata all_bytes start_idx index ≡ done (ok d)
      → IsLaidOut d
        × (d.all_bytes ≡ all_bytes)
        × (d.start_idx ≡ start_idx)
        × (d.index ≡ index)
        × (d.metadata ≡ metadata)
  decode_from-IsLaidOut metadata all_bytes start_idx index d h =
      let (inside, e) = decode_from-eq-done metadata all_bytes start_idx index (ok d) h in
      let input = drop start_idx all_bytes in
      Decoded-IsLaidOut metadata all_bytes start_idx index d
        (decode_record c metadata all_bytes start_idx index input).1 inside
        (Ensures-ok (Decoded metadata all_bytes start_idx index input) _ d
          (decode_record-Decoded metadata all_bytes start_idx index input) e)
