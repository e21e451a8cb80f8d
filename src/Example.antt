-- ===== src/Example.antt =====
-- `listen_event` of event-listener-example/src/lib.rs. What it logs is a list, and its loops run for a
-- number of polls.
pub mod Log
pub mod Received
pub mod Listening
pub mod Served
pub mod Chain
use event_listener.Prelude.{ℕ, zero, suc, String, Option, none, some, List, [], ◌∷◌, ◌++◌}
use event_listener.Outcome.{Result, ok, err, Run, done, panic, and_run, map_run}
use event_listener.Error.{Error, RpcError, CodecError}
use event_listener.Metadata.Types.{RuntimeMetadataPrefixed}
use event_listener.Rpc.Methods.{Json}
use event_listener.Client.Connect.{Transport, Client, new}
use event_listener.Events.Client.{events, client_subscribe}
use event_listener.Events.Codec.{Codec}
use event_listener.Events.Details.{EventDetails, pallet_name, variant_name}
use event_listener.Events.Block.{Events, Item, iter}
use event_listener.Events.Filter.{Poll, pending, ready, Script}
use event_listener.Events.Subscription.{EventSubscription, Polled}

pub data Line (Hash : Type 0) : Type 0 where
  block_line : Hash → Line Hash
  event_line : (pallet variant : String) → Line Hash

unfoldable pub log_event : {Hash : Type 0} → EventDetails → Run (Line Hash)
log_event d = and_run (pallet_name d) λ pallet. map_run (event_line pallet) (variant_name d)

-- `for event in events.iter()`, with the `unwrap` of each item.
unfoldable pub log_items : {Hash : Type 0} → List Item → Run (List (Line Hash))
unfolding log_event
log_items [] = done []
log_items (err e ∷ xs) = panic
log_items (ok d ∷ xs) =
    let rest = log_items xs in and_run (log_event d) λ l. map_run (λ ls. l ∷ ls) rest

unfoldable pub log_block : {Hash : Type 0} → Codec Hash → Events Hash → Run (List (Line Hash))
unfolding log_items
log_block c evs =
    and_run (iter c evs) λ items. map_run (λ ls. block_line evs.block_hash ∷ ls) (log_items items)

-- The body of the `while`, with the `unwrap` of the block.
unfoldable pub log_result :
    {Hash : Type 0} → Codec Hash → Result (Events Hash) Error → Run (List (Line Hash))
unfolding log_block
log_result c (ok evs) = log_block c evs
log_result c (err e) = panic

-- What one poll logs: nothing where the `while` ends, which the `loop` starts again, and nothing
-- while it waits.
unfoldable pub log_poll :
    {Hash : Type 0}
    → Codec Hash
    → Poll (Option (Result (Events Hash) Error))
    → Run (List (Line Hash))
unfolding log_result
log_poll c (ready none) = done []
log_poll c (ready (some r)) = log_result c r
log_poll c pending = done []

-- The two loops for a number of polls; `poll` is `poll_next` of the subscription.
module _ {Header E Hash : Type 0} (c : Codec Hash)
    (poll : EventSubscription Header E Hash → Run (Polled Header E Hash)) where
  unfoldable pub listen : ℕ → EventSubscription Header E Hash → Run (List (Line Hash))
  unfolding log_poll
  listen zero s = done []
  listen (suc polls) s =
      and_run (poll s)
        λ r. and_run (log_poll c r.0) λ ls. map_run (λ rest. ls ++ rest) (listen polls r.1)

unfoldable pub unwrap : {A : Type 0} → Result A Error → Run A
unwrap (ok a) = done a
unwrap (err e) = panic

-- `poll` is `poll_next` of a subscription that asks the client for the events at a header's block.
module _ {Uri Pipes V X N Header E Hash : Type 0} (t : Transport Uri Pipes V X N)
    (json : Json Hash V) (decode : List ℕ → Result RuntimeMetadataPrefixed CodecError)
    (meta_reserved : ℕ) (hex_encode : List ℕ → String) (twox_128 : List ℕ → List ℕ) (c : Codec Hash)
    (items : Script (Result (List ℕ) RpcError) → Script (Result Header E))
    (poll : Client t json decode meta_reserved
      → EventSubscription Header E Hash
      → Run (Polled Header E Hash)) where
  -- What is logged for a number of polls, from a connection `n` on.
  unfoldable pub listen_event : ℕ → N → Run (List (Line Hash))
  unfolding new unwrap events client_subscribe listen
  listen_event polls n = and_run (new t json decode meta_reserved n) λ r.
      and_run (unwrap r.0) λ api.
        and_run (client_subscribe json hex_encode twox_128 c items (events api) r.1)
          λ s. and_run (unwrap s.0) λ event_sub. listen c (poll api) polls event_sub
