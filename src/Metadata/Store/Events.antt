-- ===== src/Metadata/Store/Events.antt =====
-- Which events the map of event-listener/src/metadata/metadata_type.rs holds after the conversion.
use event_listener.Prelude.{
  ℕ, ◌≡◌, refl, sym, ◌∙◌, ap, ◌==◌, ◌&&◌, Option, none, some, List, [], ◌∷◌, ◌++◌, ◌↔◌, arith,
  if◌then◌else◌, All,
}
use event_listener.Outcome.{ok, ok_or, >>=-eq-ok}
use event_listener.Error.{event_not_found}
use event_listener.Metadata.Types.{
  Variant, TypeDef, PortableRegistry, PalletMetadata, RuntimeMetadata, other_version,
  RuntimeMetadataPrefixed, v14, RuntimeMetadataV14,
}
use event_listener.Metadata.HashCache.{empty_cache}
use event_listener.Metadata.Store.{
  EventMetadata, EventMap, Metadata, get_event, insert_event, event, as_variants,
  get_type_def_variant, event_of, insert_variants, insert_pallet, insert_pallets, from_runtime,
  try_from,
}

-- The map law: an insertion changes the entry of its own key, and no other.
get_event-insert_event :
    (m : EventMap) (p e q f : ℕ) (v : EventMetadata)
    → get_event (insert_event m p e v) q f ≡ (if p == q && e == f then some v else get_event m q f)
unfolding get_event insert_event
get_event-insert_event [] p e q f v = refl
get_event-insert_event (((p', e'), w) ∷ m) p e q f v =
    ground (arith, get_event-insert_event m p e q f v)

-- What a pallet declares, in order: its events with their indices.
abbrev pub variant_events : PalletMetadata → List Variant → EventMap
variant_events p [] = []
variant_events p (v ∷ vs) = ((p.index, v.index), event_of p.name v) ∷ variant_events p vs

abbrev pub variants_at : Option TypeDef → List Variant
variants_at (some (TypeDef.variant variants)) = variants
variants_at _ = []

abbrev pub pallet_variants : PortableRegistry → Option ℕ → List Variant
pallet_variants types none = []
pallet_variants types (some id) = variants_at (types.resolve id)

abbrev pub declared_events : PortableRegistry → List PalletMetadata → EventMap
declared_events types [] = []
declared_events types (p ∷ ps) =
    variant_events p (pallet_variants types p.event) ++ declared_events types ps

-- The last declaration under the indices, or else `found`.
abbrev pub last_declared : EventMap → ℕ → ℕ → Option EventMetadata → Option EventMetadata
last_declared [] q f found = found
last_declared (((p, e), v) ∷ ds) q f found =
    last_declared ds q f (if p == q && e == f then some v else found)

last_declared-append :
    (ds es : EventMap) (q f : ℕ) (found : Option EventMetadata)
    → last_declared (ds ++ es) q f found ≡ last_declared es q f (last_declared ds q f found)
last_declared-append [] es q f found = refl
last_declared-append (((p, e), v) ∷ ds) es q f found =
    last_declared-append ds es q f (if p == q && e == f then some v else found)

get_event-insert_variants :
    (p : PalletMetadata) (vs : List Variant) (m : EventMap) (q f : ℕ)
    → get_event (insert_variants p vs m) q f
      ≡ last_declared (variant_events p vs) q f (get_event m q f)
unfolding insert_variants
get_event-insert_variants p [] m q f = refl
get_event-insert_variants p (v ∷ vs) m q f =
    get_event-insert_variants p vs (insert_event m p.index v.index (event_of p.name v)) q f
    ∙ ap (last_declared (variant_events p vs) q f)
        (get_event-insert_event m p.index v.index q f (event_of p.name v))

variants_at-as_variants :
    (id : ℕ) (t : Option TypeDef) (vs : List Variant)
    → as_variants id t ≡ ok vs
    → variants_at t ≡ vs
unfolding as_variants
variants_at-as_variants id none vs h = cc
variants_at-as_variants id (some (TypeDef.variant ws)) vs h = cc
variants_at-as_variants id (some _) vs h = cc

variants_at-get_type_def_variant :
    (types : PortableRegistry) (id : ℕ) (vs : List Variant)
    → get_type_def_variant types id ≡ ok vs
    → variants_at (types.resolve id) ≡ vs
unfolding get_type_def_variant
variants_at-get_type_def_variant types id vs h = variants_at-as_variants id (types.resolve id) vs h

get_event-insert_pallet :
    (types : PortableRegistry) (p : PalletMetadata) (o : Option ℕ) (m m' : EventMap) (q f : ℕ)
    → insert_pallet types p o m ≡ ok m'
    → get_event m' q f
      ≡ last_declared (variant_events p (pallet_variants types o)) q f (get_event m q f)
unfolding insert_pallet
get_event-insert_pallet types p none m m' q f h = ground arith
get_event-insert_pallet types p (some id) m m' q f h =
    let (vs, e, g) = >>=-eq-ok (get_type_def_variant types id) _ h in
    ground
      (arith, get_event-insert_variants p vs m q f, variants_at-get_type_def_variant types id vs e)

get_event-insert_pallets :
    (types : PortableRegistry) (ps : List PalletMetadata) (m m' : EventMap) (q f : ℕ)
    → insert_pallets types ps m ≡ ok m'
    → get_event m' q f ≡ last_declared (declared_events types ps) q f (get_event m q f)
unfolding insert_pallets
get_event-insert_pallets types [] m m' q f h = ground arith
get_event-insert_pallets types (p ∷ ps) m m' q f h =
    let (n, e, g) = >>=-eq-ok (insert_pallet types p p.event m) _ h in
    get_event-insert_pallets types ps n m' q f g
    ∙ ap (last_declared (declared_events types ps) q f)
        (get_event-insert_pallet types p p.event m n q f e)
    ∙ sym (
        last_declared-append (variant_events p (pallet_variants types p.event))
          (declared_events types ps) q f (get_event m q f))

-- Inversion of a conversion that succeeds.
pub from_runtime-eq-ok :
    (r : RuntimeMetadata) (m : Metadata)
    → from_runtime r ≡ ok m
    → (r ≡ v14 m.metadata)
      × (insert_pallets m.metadata.types m.metadata.pallets [] ≡ ok m.events)
      × (m.cached_storage_hashes ≡ empty_cache)
unfolding from_runtime
from_runtime-eq-ok (v14 meta) m h =
    let (events, e, g) = >>=-eq-ok (insert_pallets meta.types meta.pallets []) _ h in ground arith
from_runtime-eq-ok (other_version n) m h = cc

pub try_from-eq-ok :
    (meta_reserved : ℕ) (prefixed : RuntimeMetadataPrefixed) (m : Metadata)
    → try_from meta_reserved prefixed ≡ ok m
    → (prefixed.magic ≡ meta_reserved) × (from_runtime prefixed.metadata ≡ ok m)
unfolding try_from
try_from-eq-ok meta_reserved prefixed m h = ground arith

-- After a successful conversion, `event` answers with the last declaration that the metadata's
-- pallets make under the two indices, and with `EventNotFound` of the two indices if there is none.
pub event-try_from :
    (meta_reserved : ℕ) (prefixed : RuntimeMetadataPrefixed) (m : Metadata) (q f : ℕ)
    → try_from meta_reserved prefixed ≡ ok m
    → event m q f
      ≡ ok_or
          (last_declared (declared_events m.metadata.types m.metadata.pallets) q f none)
          (event_not_found q f)
unfolding event get_event
event-try_from meta_reserved prefixed m q f h =
    let (magic, g) = try_from-eq-ok meta_reserved prefixed m h in
    let (e, inserted, c) = from_runtime-eq-ok prefixed.metadata m g in
    ap (λ o. ok_or o (event_not_found q f))
      (get_event-insert_pallets m.metadata.types m.metadata.pallets [] m.events q f inserted)

-- The pallet has no event type, or one that resolves to a variant type.
abbrev pub HasVariants : PortableRegistry → Option ℕ → Type 0
HasVariants types none = Unit
HasVariants types (some id) = (vs : List Variant) × (types.resolve id ≡ some (TypeDef.variant vs))

as_variants-eq-ok :
    (id : ℕ) (t : Option TypeDef) (vs : List Variant)
    → as_variants id t ≡ ok vs
    → t ≡ some (TypeDef.variant vs)
unfolding as_variants
as_variants-eq-ok id none vs h = cc
as_variants-eq-ok id (some (TypeDef.variant ws)) vs h = cc
as_variants-eq-ok id (some _) vs h = cc

HasVariants-iff :
    (types : PortableRegistry) (p : PalletMetadata) (o : Option ℕ) (m : EventMap)
    → ((m' : EventMap) × (insert_pallet types p o m ≡ ok m')) ↔ HasVariants types o
unfolding insert_pallet get_type_def_variant as_variants
HasVariants-iff types p none m = (λ _. tt, λ _. (m, refl))
HasVariants-iff types p (some id) m = (
  λ (m', e).
      let (vs, v, g) = >>=-eq-ok (get_type_def_variant types id) _ e in
      (vs, as_variants-eq-ok id (types.resolve id) vs v),
  λ (vs, v). (insert_variants p vs m, rw v refl),
)

insert_pallets_iff :
    (types : PortableRegistry) (ps : List PalletMetadata) (m : EventMap)
    → ((m' : EventMap) × (insert_pallets types ps m ≡ ok m'))
      ↔ All (λ p. HasVariants types p.event) ps
unfolding insert_pallets
insert_pallets_iff types [] m = (λ _. tt, λ _. (m, refl))
insert_pallets_iff types (p ∷ ps) m = (
  λ (m', e).
      let (n, one, rest) = >>=-eq-ok (insert_pallet types p p.event m) _ e in
      (
        (HasVariants-iff types p p.event m).0 (n, one),
        (insert_pallets_iff types ps n).0 (m', rest),
      ),
  λ h.
      let (n, one) = (HasVariants-iff types p p.event m).1 h.0 in
      let (m', rest) = (insert_pallets_iff types ps n).1 h.1 in (m', rw one rest),
)

-- The conversion succeeds exactly when the magic number is right, the version is 14, and the event
-- type of each pallet that has one resolves to a variant type.
pub try_from_iff :
    (meta_reserved : ℕ) (prefixed : RuntimeMetadataPrefixed)
    → ((m : Metadata) × (try_from meta_reserved prefixed ≡ ok m)) ↔ (
        (meta : RuntimeMetadataV14) × (prefixed.magic ≡ meta_reserved)
        × (prefixed.metadata ≡ v14 meta)
        × All (λ p. HasVariants meta.types p.event) meta.pallets)
unfolding try_from from_runtime
try_from_iff meta_reserved prefixed = (
  λ (m, h).
      let (magic, g) = try_from-eq-ok meta_reserved prefixed m h in
      let (e, inserted, c) = from_runtime-eq-ok prefixed.metadata m g in
      (
        m.metadata,
        magic,
        e,
        (insert_pallets_iff m.metadata.types m.metadata.pallets []).0 (m.events, inserted),
      ),
  λ (meta, magic, e, h).
      let (events, inserted) = (insert_pallets_iff meta.types meta.pallets []).1 h in
      (
        record { metadata = meta; events = events; cached_storage_hashes = empty_cache },
        rw (e, inserted) (ground arith),
      ),
)
