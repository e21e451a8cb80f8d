-- ===== src/Events/Details/Accessors.antt =====
-- What the accessors of `EventDetails` return on an event that has been decoded (events_type.rs).
use event_listener.Prelude.{
  ℕ, ◌+◌, ◌-◌, ◌≤◌, ◌≡◌, refl, sym, ap, subst, ◌∙◌, none, some, List, [], ◌∷◌, ◌++◌, length,
  length-append, drop, take, drop-append_length, take-append_length, append_assoc,
  get_elem?-append_length, arith, if◌then◌else◌,
}
use event_listener.Outcome.{ok, map_ok, done}
use event_listener.Metadata.Store.{Metadata, EventMetadata, event}
use event_listener.Events.Codec.{StaticEvent, Codec, IsLawful}
use event_listener.Events.Details.{
  EventDetails, at, slice, pallet_index, variant_index, event_metadata, bytes, field_bytes,
  as_event, is_static, decode_from,
}
use event_listener.Events.Details.Layout.{IsLaidOut, decode_from-IsLaidOut}

at-cut : (all xs ys : List ℕ) (x i : ℕ) → all ≡ xs ++ (x ∷ ys) → i ≡ length xs → at all i ≡ done x
unfolding at
at-cut all xs ys x i e h = rw (e, h, get_elem?-append_length xs ys x) refl

-- The slice of the middle of three parts.
slice-cut :
    (all xs ys zs : List ℕ) (i j : ℕ)
    → all ≡ xs ++ (ys ++ zs)
    → i ≡ length xs
    → j ≡ length xs + length ys
    → slice all i j ≡ done ys
unfolding slice
slice-cut all xs ys zs i j e h k =
    let l1 = ap length e ∙ length-append xs (ys ++ zs) in
    let l2 = length-append ys zs in
    let front : drop i all ≡ ys ++ zs = rw (e, h) (drop-append_length xs (ys ++ zs)) in
    let middle : take (j - i) (drop i all) ≡ ys =
      let m : j - i ≡ length ys = omega arith in rw (front, m) (take-append_length ys zs) in
    ground arith

module _ (d : EventDetails) (l : IsLaidOut d) where
  -- `pallet_index` does not panic, and returns the byte behind the phase.
  pub pallet_index-IsLaidOut : pallet_index d ≡ done l.pallet
  unfolding pallet_index
  pallet_index-IsLaidOut =
      let e =
        at-cut d.all_bytes (l.front ++ l.phase_bytes)
          (l.variant ∷ (l.fields ++ (l.topics ++ l.back))) l.pallet (d.fields_start_idx - 2)
          (l.cut ∙ sym (append_assoc l.front l.phase_bytes _))
          (omega (arith, l.fields_at, length-append l.front l.phase_bytes)) in
      ground (arith, l.fields_at, e)

  pub variant_index-IsLaidOut : variant_index d ≡ done l.variant
  unfolding variant_index
  variant_index-IsLaidOut =
      let e =
        at-cut d.all_bytes (l.front ++ (l.phase_bytes ++ (l.pallet ∷ [])))
          (l.fields ++ (l.topics ++ l.back)) l.variant (d.fields_start_idx - 1)
          (rw (append_assoc, append_assoc) l.cut)
          (omega (
            arith,
            l.fields_at,
            length-append l.front (l.phase_bytes ++ (l.pallet ∷ [])),
            length-append l.phase_bytes (l.pallet ∷ []),
          )) in
      ground (arith, l.fields_at, e)

  pub event_metadata-IsLaidOut : event_metadata d ≡ done l.declared
  unfolding event_metadata
  event_metadata-IsLaidOut =
      rw (pallet_index-IsLaidOut, variant_index-IsLaidOut, l.is_declared) refl

  abbrev pub bytes_of : List ℕ
  bytes_of = l.phase_bytes ++ (l.pallet ∷ l.variant ∷ (l.fields ++ l.topics))

  pub bytes-IsLaidOut : bytes d ≡ done bytes_of
  unfolding bytes
  bytes-IsLaidOut =
      slice-cut d.all_bytes l.front _ l.back d.start_idx d.end_idx
        (l.cut ∙ rw (append_assoc, append_assoc) refl) l.start_at
        (omega (
          arith,
          l.fields_at,
          l.topics_at,
          l.end_at,
          length-append l.phase_bytes (l.pallet ∷ l.variant ∷ (l.fields ++ l.topics)),
          length-append l.fields l.topics,
        ))

  pub field_bytes-IsLaidOut : field_bytes d ≡ done l.fields
  unfolding field_bytes
  field_bytes-IsLaidOut =
      slice-cut d.all_bytes (l.front ++ (l.phase_bytes ++ (l.pallet ∷ l.variant ∷ []))) l.fields
        (l.topics ++ l.back) d.fields_start_idx d.fields_end_idx
        (l.cut ∙ rw (append_assoc, append_assoc) refl)
        (omega (
          arith,
          l.fields_at,
          length-append l.front (l.phase_bytes ++ (l.pallet ∷ l.variant ∷ [])),
          length-append l.phase_bytes (l.pallet ∷ l.variant ∷ []),
        ))
        (omega (
          arith,
          l.fields_at,
          l.topics_at,
          length-append l.front (l.phase_bytes ++ (l.pallet ∷ l.variant ∷ [])),
          length-append l.phase_bytes (l.pallet ∷ l.variant ∷ []),
        ))

  pub laid_out_length : d.end_idx ≤ length d.all_bytes
  laid_out_length = omega (
    arith,
    l.fields_at,
    l.topics_at,
    l.end_at,
    ap length l.cut
        ∙ length-append l.front
            (l.phase_bytes ++ (l.pallet ∷ l.variant ∷ (l.fields ++ (l.topics ++ l.back)))),
    length-append l.phase_bytes (l.pallet ∷ l.variant ∷ (l.fields ++ (l.topics ++ l.back))),
    length-append l.fields (l.topics ++ l.back),
    length-append l.topics l.back,
  )

  -- The bytes are as many as lie between the ends.
  pub length-bytes : (b : List ℕ) → bytes d ≡ done b → d.start_idx + length b ≡ d.end_idx
  length-bytes b h =
      let same : l.phase_bytes ++ (l.pallet ∷ l.variant ∷ (l.fields ++ l.topics)) ≡ b =
        cc bytes-IsLaidOut in
      omega (
        arith,
        l.start_at,
        l.fields_at,
        l.topics_at,
        l.end_at,
        ap length same,
        length-append l.phase_bytes (l.pallet ∷ l.variant ∷ (l.fields ++ l.topics)),
        length-append l.fields l.topics,
      )

  -- `as_event` does not panic. It decodes the field bytes if the names are those of the static event,
  -- and returns `None` otherwise.
  pub as_event-IsLaidOut :
      {A : Type 0} (ev : StaticEvent A)
      → as_event ev d ≡ (
          if is_static ev l.declared
          then done (map_ok some (ev.decode l.fields).0)
          else done (ok none))
  unfolding as_event
  as_event-IsLaidOut ev = rw (event_metadata-IsLaidOut, field_bytes-IsLaidOut) refl

-- With decoders that take bytes off the front: for an event that `decode_from` has returned, the
-- two indices, the metadata, the fields' bytes and all bytes are read without a panic. The indices
-- name an event that the metadata declares, the fields lie inside the event's bytes, and these are
-- as many as lie between `start_idx` and `end_idx`, inside the block.
pub decode_from-accessors :
    {Hash : Type 0} (c : Codec Hash) (m : Metadata) (all_bytes : List ℕ) (start_idx index : ℕ)
    (d : EventDetails)
    → IsLawful c
    → decode_from c m all_bytes start_idx index ≡ done (ok d)
    → (declared : EventMetadata) × (p : ℕ) × (v : ℕ) × (pallet_index d ≡ done p)
      × (variant_index d ≡ done v)
      × (event m p v ≡ ok declared)
      × (event_metadata d ≡ done declared)
      × (before : List ℕ) × (fields : List ℕ) × (after : List ℕ) × (field_bytes d ≡ done fields)
      × (bytes d ≡ done (before ++ (fields ++ after)))
      × (d.start_idx + length (before ++ (fields ++ after)) ≡ d.end_idx)
      × (d.end_idx ≤ length all_bytes)
decode_from-accessors c m all_bytes start_idx index d law h =
    let (l, same_bytes, at_start, at_index, same_metadata) =
      decode_from-IsLaidOut c law m all_bytes start_idx index d h in
    let before = l.phase_bytes ++ (l.pallet ∷ l.variant ∷ []) in
    let l1 = ap length l.cut ∙ length-append l.front _ in
    let l2 =
      length-append l.phase_bytes (l.pallet ∷ l.variant ∷ (l.fields ++ (l.topics ++ l.back))) in
    let l3 = length-append l.fields (l.topics ++ l.back) in
    let l4 = length-append l.topics l.back in
    let l5 = length-append before (l.fields ++ l.topics) in
    let l6 = length-append l.phase_bytes (l.pallet ∷ l.variant ∷ []) in
    let l7 = length-append l.fields l.topics in
    (
      l.declared,
      l.pallet,
      l.variant,
      pallet_index-IsLaidOut d l,
      variant_index-IsLaidOut d l,
      subst (λ x. event x l.pallet l.variant ≡ ok l.declared) same_metadata l.is_declared,
      event_metadata-IsLaidOut d l,
      before,
      l.fields,
      l.topics,
      field_bytes-IsLaidOut d l,
      bytes-IsLaidOut d l ∙ ap done (rw append_assoc refl),
      omega (arith, l.fields_at, l.topics_at, l.end_at, l.start_at),
      omega (arith, l.fields_at, l.topics_at, l.end_at, ap length same_bytes),
    )
