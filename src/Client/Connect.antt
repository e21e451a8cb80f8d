-- ===== src/Client/Connect.antt =====
-- The constructors of `OnlineClient` in event-listener/src/client/online_client.rs that connect with
-- jsonrpsee. The transport and the client of that crate are parameters.
pub mod Joined
use event_listener.Prelude.{ℕ, String, List}
use event_listener.Outcome.{Result, ok, err, map_err, ◌>>=◌, Run, done}
use event_listener.Error.{Error, rpc, RpcError, CodecError}
use event_listener.Metadata.Types.{RuntimeMetadataPrefixed}
use event_listener.Rpc.Client.{Io, raw, await}
use event_listener.Rpc.Params.{Value}
use event_listener.Rpc.Jsonrpsee.{Jsonrpsee, to_rpc_error, rpc_client}
use event_listener.Rpc.Methods.{Json}
use event_listener.Events.Filter.{Script}
use event_listener.Client.{OnlineClient, from_rpc_client}

-- `jsonrpsee`, with errors `E`, on connections `N`.
pub record Transport (Uri Pipes V E N : Type 0) : Type 0 where
  pub parse : String → Result Uri String
  -- `Error::Transport`
  pub transport_error : String → E
  -- The sender and the receiver.
  pub build : Uri → N → Result Pipes String × N
  pub build_with_tokio : (max_notifs_per_subscription : ℕ) → Pipes → Jsonrpsee V E N
  pub to_string : E → String
  pub to_value : List ℕ → Value V
  pub show : List ℕ → String

module _ {Uri Pipes V E N : Type 0} (t : Transport Uri Pipes V E N) where
  -- The connection that the parsed URL asks for.
  unfoldable pub connect : Result Uri E → N → Result Pipes E × N
  connect (err e) n = (err e, n)
  connect (ok uri) n = let (r, m) = t.build uri n in (map_err t.transport_error r, m)

  unfoldable pub ws_transport : String → N → Result Pipes E × N
  unfolding connect
  ws_transport url n = connect (map_err t.transport_error (t.parse url)) n

  unfoldable pub ws_client : String → N → Result (Jsonrpsee V E N) E × N
  unfolding ws_transport
  ws_client url n =
      let (r, m) = ws_transport url n in (r >>= λ pipes. ok (t.build_with_tokio 4096 pipes), m)

  module _ {Hash : Type 0} (json : Json Hash V)
      (decode : List ℕ → Result RuntimeMetadataPrefixed CodecError) (meta_reserved : ℕ) where
    abbrev pub Client : Type 0
    Client = OnlineClient V N (Script (Result (List ℕ) RpcError))

    -- `map_err(|e| RpcError(e.to_string()))`, and the conversion of `?`.
    unfoldable pub connection_error : E → Error
    unfolding to_rpc_error
    connection_error e = rpc (to_rpc_error t.to_string e)

    unfoldable pub from_url : String → Io N Client
    unfolding ws_client connection_error from_rpc_client rpc_client
    from_url url =
        await (λ n. let (r, m) = ws_client url n in done (map_err connection_error r, m))
          λ client.
            from_rpc_client json decode meta_reserved
              (rpc_client t.to_value t.show t.to_string client)

    unfoldable pub new : Io N Client
    unfolding from_url
    new = from_url "ws://127.0.0.1:9944"
