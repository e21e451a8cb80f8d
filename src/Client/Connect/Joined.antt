-- ===== src/Client/Connect/Joined.antt =====
-- What the constructors of event-listener/src/client/online_client.rs ask the node for.
use event_listener.Prelude.{ℕ, ◌≡◌, true, none, some, List, [], ◌∷◌, String}
use event_listener.Outcome.{Result, ok, err, map_err, ◌>>=◌, Run, done}
use event_listener.Error.{Error, rpc, serialization, RpcError, CodecError}
use event_listener.Metadata.Types.{RuntimeMetadataPrefixed}
use event_listener.Metadata.Store.{Metadata}
use event_listener.Rpc.Params.Laws.{IsSerialized, json_array}
use event_listener.Rpc.Client.{RpcClient}
use event_listener.Rpc.Methods as Methods
use event_listener.Rpc.Methods.{Json, RuntimeVersion, decode_metadata}
use event_listener.Rpc.Jsonrpsee.{rpc_client}
use event_listener.Events.Filter.{Script}
use event_listener.Client.{OnlineClient}
use event_listener.Client.Connect.{Transport}

-- What serde_json does with the parameter of `state_getRuntimeVersion`.
pub record SerializesNone {Hash V : Type 0} (json : Json Hash V) : Type 0 where
  pub hash_ok : IsSerialized (json.hash none)
  pub hash_array :
      (text : List ℕ) → json_array (json.hash none ∷ []) ≡ some text → json.is_json text ≡ true

module _ {Hash V N Sub : Type 0} (json : Json Hash V) (law : SerializesNone json)
    (decode : List ℕ → Result RuntimeMetadataPrefixed CodecError) (meta_reserved : ℕ)
    (client : RpcClient N Sub) where
  abbrev pub ask_version : N → Result (List ℕ) RpcError × N
  ask_version = client.request_raw "state_getRuntimeVersion" (json_array (json.hash none ∷ []))

  abbrev pub ask_metadata : N → Result (List ℕ) RpcError × N
  ask_metadata = client.request_raw "state_getMetadata" none

  -- What the answers say.
  abbrev pub version_of : Result (List ℕ) RpcError → Result (RuntimeVersion V) Error
  version_of r = map_err rpc r >>= λ text. map_err serialization (json.from_version text)

  abbrev pub metadata_of : Result (List ℕ) RpcError → Result Metadata Error
  metadata_of r = map_err rpc r >>= λ text.
      map_err serialization (json.from_bytes text) >>= λ bytes.
      decode_metadata json client decode meta_reserved bytes

  -- The client that two answers give.
  abbrev pub joined_client :
      Result (RuntimeVersion V) Error → Result Metadata Error → Result (OnlineClient V N Sub) Error
  joined_client (ok version) (ok meta) =
      ok (record { inner = record { runtime_version = version; metadata = meta }; rpc = client })
  joined_client (ok version) (err e) = err e
  joined_client (err e) meta = err e

  -- Both requests are made, the second on the connection as the first has left it.
  abbrev pub Joined : N → Run (Result (OnlineClient V N Sub) Error × N)
  Joined n =
      let (version, m) = ask_version n in
      let (meta, k) = ask_metadata m in
      done (joined_client (version_of version) (metadata_of meta), k)

-- A failure with the text of the transport's error.
abbrev pub connection_failed :
    {Uri Pipes V E N : Type 0} → Transport Uri Pipes V E N → String → Error
connection_failed t e = rpc (record { message = t.to_string (t.transport_error e) })

module _ {Uri Pipes V E N Hash : Type 0} (t : Transport Uri Pipes V E N) (json : Json Hash V)
    (law : SerializesNone json) (decode : List ℕ → Result RuntimeMetadataPrefixed CodecError)
    (meta_reserved : ℕ) where
  -- The client over a connection.
  abbrev pub client_over : Pipes → RpcClient N (Script (Result (List ℕ) RpcError))
  client_over pipes = rpc_client t.to_value t.show t.to_string (t.build_with_tokio 4096 pipes)
