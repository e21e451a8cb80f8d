-- ===== src/Example/Served.antt =====
-- `listen_event` of event-listener-example/src/lib.rs against a node that serves the events of each
-- block, as the test utilities of event-listener/src/events/events_type.rs encode them.
use event_listener.Prelude.{ℕ, arith, ◌^◌, ◌<◌, ◌≡◌, ◌∙◌, String, some, List, length, All}
use event_listener.Outcome.{Result, ok, done}
use event_listener.Error.{Error, RpcError, CodecError}
use event_listener.Metadata.Types.{RuntimeMetadataPrefixed}
use event_listener.Rpc.Methods.{Json, subscribe_blocks}
use event_listener.Client.{OnlineClient}
use event_listener.Client.Connect.{Transport, Client, new}
use event_listener.Events.Client as EventsClient
use event_listener.Events.Client.{at, or_empty, subscribe, events, client_subscribe}
use event_listener.Events.Client.At.{Serializes, ask_events, at-some}
use event_listener.Events.Codec.{Codec, IsLawful}
use event_listener.Events.Block as Block
use event_listener.Events.Block.{Events}
use event_listener.Events.Filter.{Script}
use event_listener.Events.Records.{Encoders, EventRecord}
use event_listener.Events.Records.Decode.{IsInverse}
use event_listener.Events.Records.RoundTrip.{RecordDescribed}
use event_listener.Events.Subscription as Subscription
use event_listener.Events.Subscription.{Future, poll_next}
use event_listener.Events.Subscription.Stream.{work}
use event_listener.Example.{unwrap, listen_event}
use event_listener.Example.Received.{listen-blocks_from}
use event_listener.Example.Listening.{stored, log_headers, log_blocks-log_headers}

module _ {Hash V N Sub E : Type 0} (json : Json Hash V) (law : Serializes json)
    (hex_encode : List ℕ → String) (twox_128 : List ℕ → List ℕ) (c : Codec Hash)
    (enc : Encoders Hash E) (client : OnlineClient V N Sub)
    (records_at : Hash → List (EventRecord Hash E)) where
  -- Whatever was asked before, the node answers with the block's events.
  abbrev pub Serves : Type 0
  Serves =
      (h : Hash) (n : N)
      → (text : List ℕ) × (m : N) × (ask_events json law hex_encode twox_128 c client h n
          ≡ (ok text, m))
        × (json.from_storage_data text
            ≡ ok (some (stored c enc client.inner.metadata (records_at h))))

  -- The future gives what `at` gives for its block on some state of the connection.
  abbrev pub IsAt : (Hash → Future (Result (Events Hash) Error)) → Type 0
  IsAt at_hash =
      (h : Hash)
      → (n : N) × (m : N) × (at json hex_encode twox_128 c client (some h) n
          ≡ done ((at_hash h).output, m))

  pub IsAt-stored :
      (at_hash : Hash → Future (Result (Events Hash) Error)) (h : Hash)
      → Serves
      → IsAt at_hash
      → (at_hash h).output
        ≡ ok (
            Block.new c client.inner.metadata h (stored c enc client.inner.metadata (records_at h)))
  unfolding or_empty
  IsAt-stored at_hash h serves is_at =
      let (n, m, run) = is_at h in
      let (text, m', asked, found) = serves h n in
      let answer = at-some json law hex_encode twox_128 c client n m' h text _ asked found in cc

module _ {Uri Pipes V Y N Header X Hash E : Type 0} (t : Transport Uri Pipes V Y N)
    (json : Json Hash V) (decode : List ℕ → Result RuntimeMetadataPrefixed CodecError)
    (meta_reserved : ℕ) (hex_encode : List ℕ → String) (twox_128 : List ℕ → List ℕ) (c : Codec Hash)
    (items : Script (Result (List ℕ) RpcError) → Script (Result Header X)) (law : Serializes json)
    (lawful : IsLawful c) (enc : Encoders Hash E) (inv : IsInverse c enc) (hash : Header → Hash)
    (into : X → Error) (at_hash : Hash → Future (Result (Events Hash) Error))
    (records_at : Hash → List (EventRecord Hash E)) where
  -- The connection, the client and the subscription work, and the parameters of the requests can
  -- be serialized; the storage of every block holds the encoded records of the block, whose events
  -- the client's metadata describes, fewer than 2 ^ 32 of them; `at` gives what the node answers;
  -- and the decoders read back what the encoders write, and take bytes off the front. Then with
  -- more polls than work is left the example logs, for each header of the subscription in order, a
  -- line for the block and behind it one for each of its records with the declared names of the
  -- event's pallet and variant, and nothing else; it panics where the headers hold an error.
  pub listen_event-log_headers :
      (n n1 n2 : N) (api : Client t json decode meta_reserved)
      (sub : Script (Result (List ℕ) RpcError)) (polls : ℕ)
      (described : (h : Hash) → All (RecordDescribed c enc api.inner.metadata) (records_at h))
      → new t json decode meta_reserved n ≡ done (ok api, n1)
      → subscribe_blocks json api.rpc n1 ≡ done (ok sub, n2)
      → ((h : Hash) → length (records_at h) < 2 ^ 32)
      → Serves json law hex_encode twox_128 c enc api records_at
      → IsAt json law hex_encode twox_128 c enc api records_at at_hash
      → work hash into at_hash (items sub) < polls
      → listen_event t json decode meta_reserved hex_encode twox_128 c items
          (λ _. poll_next hash into at_hash)
          polls
          n
        ≡ log_headers c enc api.inner.metadata hash records_at described (items sub)
  unfolding listen_event client_subscribe events EventsClient.new subscribe unwrap Subscription.new
  listen_event-log_headers n n1 n2 api sub polls described made subscribed small serves is_at fuel =
      let start = Subscription.new {Header = Header} {E = X} {Hash = Hash} (items sub) in
      rw (made, subscribed)
        (listen-blocks_from hash into at_hash c polls start (omega arith)
          ∙ log_blocks-log_headers c enc api.inner.metadata hash records_at described lawful inv
              small into at_hash
              (λ h.
                IsAt-stored json law hex_encode twox_128 c enc api records_at at_hash h serves
                  is_at)
              (items sub))
