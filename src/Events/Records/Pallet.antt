-- ===== src/Events/Records/Pallet.antt =====
-- The metadata of one pallet that the test utilities of event-listener/src/events/events_type.rs build.
use event_listener.Prelude.{ℕ, ◌≡◌, refl, ap, sym, subst, none, some, List, [], ◌∷◌, All}
use event_listener.Outcome.{done}
use event_listener.Metadata.Types.{Variant, TypeDef, RuntimeMetadataV14, v14}
use event_listener.Metadata.Store.{Metadata}
use event_listener.Metadata.Store.Events.{HasVariants, try_from_iff}
use event_listener.Events.Details.{expect_ok}
use event_listener.Events.Records.{MetaPallet, metadata}

-- Where the type of the pallet's event is registered as a variant type, the metadata can be built.
pub metadata-variants :
    {T : Type 0} (meta_reserved : ℕ) (new_v14 : List (MetaPallet T) → RuntimeMetadataV14) (ty : T)
    (id : ℕ) (vs : List Variant)
    → let meta = new_v14 (record { name = "Test"; event = some ty; index = 0 } ∷ []) in
      (meta.pallets ≡ record { name = "Test"; storage = none; event = some id; index = 0 } ∷ [])
      → meta.types.resolve id ≡ some (TypeDef.variant vs)
      → (m : Metadata) × (metadata meta_reserved new_v14 ty ≡ done m)
unfolding metadata
metadata-variants meta_reserved new_v14 ty id vs one variants =
    let meta = new_v14 (record { name = "Test"; event = some ty; index = 0 } ∷ []) in
    let resolved : All (λ p. HasVariants meta.types p.event) meta.pallets =
      subst (All (λ p. HasVariants meta.types p.event)) (sym one) ((vs, variants), tt) in
    let (m, e) =
      (try_from_iff meta_reserved (record { magic = meta_reserved; metadata = v14 meta })).1
        (meta, refl, refl, resolved) in
    (m, ap expect_ok e)
