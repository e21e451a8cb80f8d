-- ===== src/Events/Client/At.antt =====
-- The requests that `at` of event-listener/src/events/events_client.rs makes.
use event_listener.Prelude.{ℕ, ◌≡◌, refl, true, Option, none, some, List, [], ◌∷◌, String}
use event_listener.Outcome.{Result, ok, done}
use event_listener.Error.{RpcError}
use event_listener.Rpc.Params.Laws.{IsSerialized, json_array}
use event_listener.Rpc.Client.Requests.{request-rpc_params}
use event_listener.Rpc.Methods.{Json, storage, block_hash, to_hex}
use event_listener.Client.{OnlineClient}
use event_listener.Events.Codec.{Codec}
use event_listener.Events.Block.{new}
use event_listener.Events.Client.{at, at_hash, or_empty, system_events_key}

-- What serde_json does with the parameters of `chain_getBlockHash` and `state_getStorage`.
pub record Serializes {Hash V : Type 0} (json : Json Hash V) : Type 0 where
  pub string_ok : (s : String) → IsSerialized (json.string s)
  pub hash_ok : (h : Option Hash) → IsSerialized (json.hash h)
  pub no_number_ok : IsSerialized (json.block_number none)
  pub hash_array :
      (text : List ℕ)
      → json_array (json.block_number none ∷ []) ≡ some text
      → json.is_json text ≡ true
  pub storage_array :
      (s : String) (h : Option Hash) (text : List ℕ)
      → json_array (json.string s ∷ json.hash h ∷ []) ≡ some text
      → json.is_json text ≡ true

module _ {Hash V N Sub : Type 0} (json : Json Hash V) (law : Serializes json)
    (hex_encode : List ℕ → String) (twox_128 : List ℕ → List ℕ) (c : Codec Hash)
    (client : OnlineClient V N Sub) where
  -- The request for the hash of the latest block.
  abbrev pub ask_latest : N → Result (List ℕ) RpcError × N
  ask_latest =
      client.rpc.request_raw "chain_getBlockHash" (json_array (json.block_number none ∷ []))

  -- The request for the events at a block.
  abbrev pub ask_events : Hash → N → Result (List ℕ) RpcError × N
  ask_events h = client.rpc.request_raw "state_getStorage" (
      json_array
        (json.string (to_hex hex_encode (system_events_key twox_128)) ∷ json.hash (some h) ∷ []))

  -- Where the parameters can be serialized and the node answers `chain_getBlockHash` with a hash,
  -- `at` without a block makes that one request, and then does what `at` does for the block of that
  -- hash on the connection as the request has left it.
  pub at-latest :
      (n m : N) (text : List ℕ) (h : Hash)
      → ask_latest n ≡ (ok text, m)
      → json.from_hash text ≡ ok (some h)
      → at json hex_encode twox_128 c client none n
        ≡ at json hex_encode twox_128 c client (some h) m
  unfolding at block_hash
  at-latest n m text h e f =
      rw
        (request-rpc_params json.is_json client.rpc json.from_hash "chain_getBlockHash"
          (json.block_number none ∷ []) n (law.no_number_ok, tt) law.hash_array)
        (rw e (rw f refl))

  -- Where the parameters can be serialized and the node answers `state_getStorage` for the events' key
  -- and the block's hash, `at` makes that one request, does not panic, and gives the events of the
  -- bytes of the answer, or of no bytes where the storage holds none, with the client's metadata.
  pub at-some :
      (n m : N) (h : Hash) (text : List ℕ) (found : Option (List ℕ))
      → ask_events h n ≡ (ok text, m)
      → json.from_storage_data text ≡ ok found
      → at json hex_encode twox_128 c client (some h) n
        ≡ done (ok (new c client.inner.metadata h (or_empty found)), m)
  unfolding at at_hash storage
  at-some n m h text found e f =
      rw
        (request-rpc_params json.is_json client.rpc json.from_storage_data "state_getStorage"
          (json.string (to_hex hex_encode (system_events_key twox_128)) ∷ json.hash (some h) ∷ []) n
          (law.string_ok _, (law.hash_ok _, tt)) (law.storage_array _ _))
        (rw e (rw f refl))
