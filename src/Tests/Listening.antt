-- ===== src/Tests/Listening.antt =====
-- The example against a node that answers every request for storage with a block of two records.
use event_listener.Prelude.{
  ℕ, suc, ◌≡◌, refl, true, arith, String, none, some, List, [], ◌∷◌, map, All,
}
use event_listener.Outcome.{Result, ok, err, done}
use event_listener.Error.{Error, RpcError, SerdeError, CodecError}
use event_listener.Metadata.Types.{RuntimeMetadataPrefixed}
use event_listener.Metadata.Store.{
  try_from, from_runtime, as_v14, insert_pallets, insert_pallet, insert_variants,
}
use event_listener.Rpc.Params as Params
use event_listener.Rpc.Params.{Serialized}
use event_listener.Rpc.Client as Rpc
use event_listener.Rpc.Methods as Methods
use event_listener.Rpc.Methods.{Json, RuntimeVersion}
use event_listener.Client.{from_rpc_client, both}
use event_listener.Rpc.Jsonrpsee.{
  rpc_client, request_raw, subscribe_raw, with_params, map_item, to_rpc_error,
}
use event_listener.Client.Connect.{Transport, Client, new}
use event_listener.Client.Connect as Connect
use event_listener.Client.Connect.Joined.{client_over}
use event_listener.Events.Client.{or_empty}
use event_listener.Events.Client.At.{Serializes, at-some}
use event_listener.Events.Block as Block
use event_listener.Events.Block.{Events}
use event_listener.Events.Filter.{pending, ready, Script}
use event_listener.Events.Records.{EventRecord}
use event_listener.Events.Records.RoundTrip.{RecordDescribed}
use event_listener.Events.Subscription.{Future, poll_next}
use event_listener.Events.Subscription.Stream.{work}
use event_listener.Example.{listen_event}
use event_listener.Example.Listening.{stored, log_headers}
use event_listener.Example.Served.{Serves, IsAt, listen_event-log_headers}
use event_listener.Tests.Data.{prefixed, metadata}
use event_listener.Tests.Records.{
  full_codec, full_codec-IsLawful, full_codec-IsInverse, encoders, records, records-described,
}

abbrev serialized : Serialized
serialized = record { written = b'7' ∷ []; outcome = ok tt }

abbrev version : RuntimeVersion ℕ
version = record { spec_version = 100; transaction_version = 1; other = [] }

abbrev json : Json ℕ ℕ
json = record {
  is_json = λ text. true;
  string = λ s. serialized;
  hash = λ h. serialized;
  block_number = λ b. serialized;
  from_storage_data = λ text. ok (some text);
  from_bytes = ok;
  from_hash = λ text. ok none;
  from_version = λ text. ok version;
}

json-Serializes : Serializes json
json-Serializes = record {
  string_ok = λ s. refl;
  hash_ok = λ h. refl;
  no_number_ok = refl;
  hash_array = λ text e. refl;
  storage_array = λ s h text e. refl;
}

abbrev bytes : List ℕ
bytes = stored full_codec encoders metadata records

-- A header is its block's hash.
abbrev headers : Script (Result (List ℕ) String)
headers =
    ready (some (ok (77 ∷ []))) ∷ (pending ∷ (ready (some (ok (78 ∷ []))) ∷ (ready none ∷ [])))

abbrev transport : Transport String ℕ ℕ String ℕ
transport = record {
  parse = λ url. ok url;
  transport_error = λ e. e;
  build = λ uri n. (ok n, suc n);
  build_with_tokio = λ max pipes. record {
    request = λ method params n. (ok bytes, suc n);
    subscribe = λ sub params unsub n. (ok headers, suc n);
  };
  to_string = λ e. e;
  to_value = λ text. Params.array [];
  show = λ text. "";
}

abbrev decode : List ℕ → Result RuntimeMetadataPrefixed CodecError
decode text = ok prefixed

abbrev api : Client transport json decode 1635018093
api = record {
  inner = record { runtime_version = version; metadata = metadata };
  rpc =
      client_over transport json (record { hash_ok = refl; hash_array = λ text e. refl }) decode
        1635018093 0;
}

api-made : new transport json decode 1635018093 0 ≡ done (ok api, 3)
unfolding Connect.new Connect.from_url Connect.ws_client Connect.ws_transport Connect.connect
    from_rpc_client rpc_client request_raw subscribe_raw with_params map_item to_rpc_error
    Params.prep_params_for_jsonrpsee Methods.runtime_version Methods.metadata
    Methods.decode_metadata Methods.subscribe_blocks Rpc.request Rpc.subscribe Params.new
    Params.push Params.build Params.rpc_params both try_from from_runtime as_v14 insert_pallets
    insert_pallet insert_variants
api-made = refl

abbrev first_byte : List ℕ → Result ℕ SerdeError
first_byte [] = err "EOF"
first_byte (b ∷ bs) = ok b

abbrev raw : Script (Result (List ℕ) RpcError)
raw = ready (some (ok (77 ∷ []))) ∷ (pending ∷ (ready (some (ok (78 ∷ []))) ∷ (ready none ∷ [])))

subscribed : Methods.subscribe_blocks json api.rpc 3 ≡ done (ok raw, 4)
unfolding Connect.new Connect.from_url Connect.ws_client Connect.ws_transport Connect.connect
    from_rpc_client rpc_client request_raw subscribe_raw with_params map_item to_rpc_error
    Params.prep_params_for_jsonrpsee Methods.runtime_version Methods.metadata
    Methods.decode_metadata Methods.subscribe_blocks Rpc.request Rpc.subscribe Params.new
    Params.push Params.build Params.rpc_params both try_from from_runtime as_v14 insert_pallets
    insert_pallet insert_variants
subscribed = refl

abbrev at_hash : ℕ → Future (Result (Events ℕ) Error)
at_hash h = record { delay = 1; output = ok (Block.new full_codec metadata h bytes) }

abbrev items : Script (Result (List ℕ) RpcError) → Script (Result ℕ Error)
items = map (Rpc.poll_next first_byte)

abbrev records_at : ℕ → List (EventRecord ℕ (ℕ × ℕ))
records_at h = records

abbrev no_hex : List ℕ → String
no_hex bs = ""

abbrev no_hash : List ℕ → List ℕ
no_hash bs = bs

serves : Serves json json-Serializes no_hex no_hash full_codec encoders api records_at
unfolding rpc_client request_raw with_params Params.prep_params_for_jsonrpsee
serves h n = (bytes, suc n, refl, refl)

at_hash-IsAt : IsAt json json-Serializes no_hex no_hash full_codec encoders api records_at at_hash
unfolding rpc_client request_raw with_params Params.prep_params_for_jsonrpsee or_empty
at_hash-IsAt h = (
  0,
  1,
  at-some json json-Serializes no_hex no_hash full_codec api 0 1 h bytes (some bytes) refl refl,
)

abbrev described : (h : ℕ) → All (RecordDescribed full_codec encoders metadata) (records_at h)
described h = records-described

listen_event-log_headers_example :
    listen_event transport json decode 1635018093 no_hex no_hash full_codec items
      (λ _. poll_next (λ h. h) (λ e. e) at_hash)
      12
      0
    ≡ log_headers full_codec encoders metadata (λ h. h) records_at described (items raw)
unfolding work Rpc.poll_next Rpc.decode_item
listen_event-log_headers_example =
    listen_event-log_headers transport json decode 1635018093 no_hex no_hash full_codec items
      json-Serializes full_codec-IsLawful encoders full_codec-IsInverse (λ h. h) (λ e. e) at_hash
      records_at 0 3 4 api raw 12 described api-made subscribed (λ h. omega arith) serves
      at_hash-IsAt (omega arith)
