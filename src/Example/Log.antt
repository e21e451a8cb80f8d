-- ===== src/Example/Log.antt =====
-- What the loops of event-listener-example/src/lib.rs log.
use event_listener.Prelude.{suc, ◌≡◌, refl, ap, List, [], ◌∷◌, length, All}
use event_listener.Outcome.{ok, err, done}
use event_listener.Error.{Error}
use event_listener.Events.Codec.{Codec, IsLawful}
use event_listener.Events.Details.{EventDetails, pallet_name, variant_name}
use event_listener.Events.Details.Layout.{IsLaidOut}
use event_listener.Events.Details.Accessors.{event_metadata-IsLaidOut}
use event_listener.Events.Block.{Events, Item, iter}
use event_listener.Events.Block.Find.{ItemIsLaidOut, iter-laid_out}
use event_listener.Example.{Line, block_line, event_line, log_event, log_items, log_block}

-- The item is an event.
abbrev pub IsEvent : Item → Type 0
IsEvent (ok d) = Unit
IsEvent (err e) = ⊥

log_event-IsLaidOut :
    {Hash : Type 0} (d : EventDetails) → IsLaidOut d → (l : Line Hash) × (log_event d ≡ done l)
unfolding log_event pallet_name variant_name
log_event-IsLaidOut d l =
    (event_line l.declared.pallet l.declared.event, rw (event_metadata-IsLaidOut d l) refl)

log_items-length :
    {Hash : Type 0} (xs : List Item)
    → All ItemIsLaidOut xs
    → All IsEvent xs
    → (ls : List (Line Hash)) × (log_items xs ≡ done ls) × (length ls ≡ length xs)
unfolding log_items
log_items-length [] h k = ([], refl, refl)
log_items-length (err e ∷ xs) h (x, k) = elim x [ ]
log_items-length {Hash = Hash} (ok d ∷ xs) (l, h) (x, k) =
    let (line, e) = log_event-IsLaidOut {Hash = Hash} d l in
    let (ls, g, n) = log_items-length {Hash = Hash} xs h k in (line ∷ ls, rw (e, g) refl, ap suc n)

-- With decoders that take bytes off the front, a block whose iteration meets no error is logged
-- without a panic: a line for the block, and behind it one for each of its events.
pub log_block-length :
    {Hash : Type 0} (c : Codec Hash) (evs : Events Hash) (xs : List Item)
    → IsLawful c
    → iter c evs ≡ done xs
    → All IsEvent xs
    → (ls : List (Line Hash)) × (log_block c evs ≡ done (block_line evs.block_hash ∷ ls))
      × (length ls ≡ length xs)
unfolding log_block
log_block-length c evs xs law e k =
    let (ls, g, n) = log_items-length {Hash = _} xs (iter-laid_out c law evs xs e) k in
    (ls, rw (e, g) refl, n)
