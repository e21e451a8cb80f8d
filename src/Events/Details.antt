-- ===== src/Events/Details.antt =====
-- `EventDetails` of event-listener/src/events/events_type.rs.
pub mod Layout
pub mod Accessors
use event_listener.Prelude.{
  ℕ, ◌-◌, String, ◌==◌, ◌&&◌, str_eq, Bool, true, false, Option, none, some, List, [], ◌∷◌, ◌++◌,
  length, take, drop, get_elem?, ltb, ◌||◌, if◌then◌else◌,
}
use event_listener.Outcome.{
  Result, ok, err, map_err, map_ok, Run, done, panic, expect, and_run, map_run,
}
use event_listener.Error.{Error, codec, decode_value, CodecError, DecodeError}
use event_listener.Error
use event_listener.Metadata.Types.{PortableRegistry}
use event_listener.Metadata.Store.{Metadata, EventMetadata, event, get_event}
use event_listener.Events.Codec.{Phase, Decoder, StaticEvent, ◌>>=◌, ◌>>◌, lift, convert, Codec}

pub record EventDetails : Type 0 where
  pub phase : Phase
  pub index : ℕ
  pub all_bytes : List ℕ
  pub start_idx : ℕ
  pub fields_start_idx : ℕ
  pub fields_end_idx : ℕ
  pub end_idx : ℕ
  pub metadata : Metadata

-- `input.len()`.
abbrev pub input_len : {E : Type 0} → Decoder ℕ E
input_len bytes = (ok (length bytes), bytes)

-- `bytes[i]` and `bytes[i..j]`, which panic out of range.
unfoldable pub at : List ℕ → ℕ → Run ℕ
at bytes i = expect (get_elem? bytes i)

unfoldable pub slice : List ℕ → ℕ → ℕ → Run (List ℕ)
slice bytes i j =
    if ltb j i || ltb (length bytes) j then panic else done (take (j - i) (drop i bytes))

module _ {Hash : Type 0} (c : Codec Hash) where
  -- `for (_name, type_id) in event_metadata.fields()`
  unfoldable pub skip_fields :
      PortableRegistry → List (Option String × ℕ) → Decoder (Unit {0}) Error
  skip_fields types [] = lift (ok tt)
  skip_fields types ((name, type_id) ∷ fields) =
      convert decode_value (c.skip types type_id) >>= λ _. skip_fields types fields

  -- `decode_from` on the cursor `&all_bytes[start_idx..]`. No subtraction stops at 0: the cursor is a
  -- part of `all_bytes`.
  unfoldable pub decode_record : Metadata → List ℕ → ℕ → ℕ → Decoder EventDetails Error
  unfolding skip_fields
  decode_record metadata all_bytes start_idx index = do
    phase ← convert codec c.phase
    pallet_index ← convert codec c.u8
    variant_index ← convert codec c.u8
    at_fields ← input_len
    event_metadata ← lift (map_err Error.metadata (event metadata pallet_index variant_index))
    skip_fields metadata.metadata.types event_metadata.fields
    at_topics ← input_len
    convert codec c.topics
    at_end ← input_len
    lift (
        ok (record {
          phase = phase;
          index = index;
          all_bytes = all_bytes;
          start_idx = start_idx;
          fields_start_idx = length all_bytes - at_fields;
          fields_end_idx = length all_bytes - at_topics;
          end_idx = length all_bytes - at_end;
          metadata = metadata;
        }))

  unfoldable pub decode_from : Metadata → List ℕ → ℕ → ℕ → Run (Result EventDetails Error)
  decode_from metadata all_bytes start_idx index =
      if ltb (length all_bytes) start_idx
      then panic
      else done (decode_record metadata all_bytes start_idx index (drop start_idx all_bytes)).0

unfoldable pub pallet_index : EventDetails → Run ℕ
pallet_index d = if ltb d.fields_start_idx 2 then panic else at d.all_bytes (d.fields_start_idx - 2)

unfoldable pub variant_index : EventDetails → Run ℕ
variant_index d =
    if ltb d.fields_start_idx 1 then panic else at d.all_bytes (d.fields_start_idx - 1)

-- `Result::expect`.
abbrev pub expect_ok : {A E : Type 0} → Result A E → Run A
expect_ok (ok a) = done a
expect_ok (err e) = panic

unfoldable pub event_metadata : EventDetails → Run EventMetadata
unfolding pallet_index variant_index
event_metadata d =
    and_run (pallet_index d) λ p. and_run (variant_index d) λ v. expect_ok (event d.metadata p v)

unfoldable pub pallet_name : EventDetails → Run String
unfolding event_metadata
pallet_name d = map_run (λ m. m.pallet) (event_metadata d)

unfoldable pub variant_name : EventDetails → Run String
unfolding event_metadata
variant_name d = map_run (λ m. m.event) (event_metadata d)

unfoldable pub bytes : EventDetails → Run (List ℕ)
bytes d = slice d.all_bytes d.start_idx d.end_idx

unfoldable pub field_bytes : EventDetails → Run (List ℕ)
field_bytes d = slice d.all_bytes d.fields_start_idx d.fields_end_idx

-- `scale_value::Composite`.
pub data Composite (V : Type 0) : Type 0 where
  unnamed : List V → Composite V
  named : List (String × V) → Composite V

-- `fields().get(0).map(|(n, _)| n.is_some()).unwrap_or(false)`
unfoldable pub is_named : List (Option String × ℕ) → Bool
is_named [] = false
is_named ((none, id) ∷ fields) = false
is_named ((some n, id) ∷ fields) = true

-- `name.clone().unwrap_or_default()`
unfoldable pub name_or_default : Option String → String
name_or_default none = ""
name_or_default (some n) = n

module _ {V : Type 0} (decode_as_type : PortableRegistry → ℕ → Decoder V DecodeError) where
  -- The loop over the fields, for both branches: `wrap` is what is pushed for a value.
  unfoldable pub decode_fields :
      {W : Type 0}
      → (Option String → V → W)
      → PortableRegistry
      → List (Option String × ℕ)
      → Decoder (List W) DecodeError
  decode_fields wrap types [] = lift (ok [])
  decode_fields wrap types ((name, type_id) ∷ fields) = do
    value ← decode_as_type types type_id
    values ← decode_fields wrap types fields
    lift (ok (wrap name value ∷ values))

  unfoldable pub composite_of :
      PortableRegistry → List (Option String × ℕ) → List ℕ → Result (Composite V) Error
  unfolding decode_fields name_or_default
  composite_of types fields input =
      if is_named fields
      then map_ok named (
          map_err decode_value (decode_fields (λ n v. (name_or_default n, v)) types fields input).0)
      else map_ok unnamed (map_err decode_value (decode_fields (λ _ v. v) types fields input).0)

  unfoldable pub field_values : EventDetails → Run (Result (Composite V) Error)
  unfolding field_bytes event_metadata composite_of
  field_values d = and_run (field_bytes d) λ input.
      and_run (event_metadata d) λ m. done (composite_of d.metadata.metadata.types m.fields input)

-- `ev_metadata.pallet() == E::PALLET && ev_metadata.event() == E::EVENT`
unfoldable pub is_static : {A : Type 0} → StaticEvent A → EventMetadata → Bool
is_static ev m = str_eq m.pallet ev.pallet && str_eq m.event ev.event

unfoldable pub as_event :
    {A : Type 0} → StaticEvent A → EventDetails → Run (Result (Option A) CodecError)
unfolding event_metadata field_bytes is_static
as_event ev d = and_run (event_metadata d) λ m.
    if is_static ev m
    then map_run (λ input. map_ok some (ev.decode input).0) (field_bytes d)
    else done (ok none)

unfoldable pub as_root_event :
    {A : Type 0} → Decoder A CodecError → EventDetails → Run (Result A CodecError)
unfolding bytes
as_root_event decode d = map_run (λ input. (decode input).0) (bytes d)
