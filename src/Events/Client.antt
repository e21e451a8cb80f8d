-- ===== src/Events/Client.antt =====
-- `EventsClient` of event-listener/src/events/events_client.rs.
pub mod At
use event_listener.Prelude.{ℕ, Option, none, some, List, [], ◌++◌, String, as_bytes}
use event_listener.Outcome.{Result, ok, done, panic}
use event_listener.Rpc.Client.{Io, await}
use event_listener.Rpc.Methods as Methods
use event_listener.Rpc.Methods.{Json}
use event_listener.Client.{OnlineClient}
use event_listener.Events.Codec.{Codec}
use event_listener.Events.Filter.{Script}
use event_listener.Events.Block as Block
use event_listener.Events.Block.{Events}
use event_listener.Events.Subscription as Subscription
use event_listener.Events.Subscription.{EventSubscription}

pub record EventsClient (V N Sub : Type 0) : Type 0 where
  pub client : OnlineClient V N Sub

unfoldable pub new : {V N Sub : Type 0} → OnlineClient V N Sub → EventsClient V N Sub
new client = record { client = client }

-- `OfflineClientT::events` for an `OnlineClient`.
unfoldable pub events : {V N Sub : Type 0} → OnlineClient V N Sub → EventsClient V N Sub
unfolding new
events client = new client

unfoldable pub system_events_key : (twox_128 : List ℕ → List ℕ) → List ℕ
unfolding as_bytes
system_events_key twox_128 = twox_128 (as_bytes "System") ++ twox_128 (as_bytes "Events")

-- `unwrap_or_else(Vec::new)`
unfoldable pub or_empty : Option (List ℕ) → List ℕ
or_empty none = []
or_empty (some e) = e

-- `expect`, between two requests.
abbrev pub expect_then : {N A B : Type 0} → (A → Io N B) → Option A → Io N B
expect_then k none n = panic
expect_then k (some a) n = k a n

module _ {Hash V N Sub : Type 0} (json : Json Hash V) (hex_encode : List ℕ → String)
    (twox_128 : List ℕ → List ℕ) (c : Codec Hash) where
  -- From the request of the storage on.
  unfoldable pub at_hash : OnlineClient V N Sub → Hash → Io N (Events Hash)
  unfolding system_events_key or_empty
  at_hash client block_hash =
      await
        (Methods.storage json client.rpc hex_encode (system_events_key twox_128) (some block_hash))
        λ event_bytes n.
          done (ok (Block.new c client.inner.metadata block_hash (or_empty event_bytes)), n)

  -- The free function `at`.
  unfoldable pub at : OnlineClient V N Sub → Option Hash → Io N (Events Hash)
  unfolding at_hash
  at client (some hash) = at_hash client hash
  at client none = await (Methods.block_hash json client.rpc none) (expect_then (at_hash client))

  -- `items` are the headers that the subscription will give.
  unfoldable pub subscribe :
      {Header E : Type 0}
      → (items : Sub → Script (Result Header E)) → OnlineClient V N Sub
      → Io N (EventSubscription Header E Hash)
  subscribe items client =
      await (Methods.subscribe_blocks json client.rpc)
        λ sub n. done (ok (Subscription.new (items sub)), n)

  -- The methods of `EventsClient`.
  unfoldable pub client_at : EventsClient V N Sub → Option Hash → Io N (Events Hash)
  unfolding at
  client_at events_client block_hash = at events_client.client block_hash

  unfoldable pub client_subscribe :
      {Header E : Type 0}
      → (items : Sub → Script (Result Header E)) → EventsClient V N Sub
      → Io N (EventSubscription Header E Hash)
  unfolding subscribe
  client_subscribe items events_client = subscribe items events_client.client
