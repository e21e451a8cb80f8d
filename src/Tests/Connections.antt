-- ===== src/Tests/Connections.antt =====
-- A connection to a node that does not know its version.
use event_listener.Prelude.{ℕ, suc, String, true, none, some, List, [], ◌∷◌}
use event_listener.Outcome.{Result, ok, err}
use event_listener.Metadata.Types.{RuntimeMetadataPrefixed}
use event_listener.Error.{CodecError}
use event_listener.Rpc.Params.{Serialized}
use event_listener.Rpc.Params as Params
use event_listener.Rpc.Methods.{Json}
use event_listener.Client.Connect.{Transport}
use event_listener.Client.Connect.Joined.{Joined}
use event_listener.Tests.Data.{prefixed}

abbrev serialized : Serialized
serialized = record { written = b'7' ∷ []; outcome = ok tt }

abbrev json : Json ℕ ℕ
json = record {
  is_json = λ text. true;
  string = λ s. serialized;
  hash = λ h. serialized;
  block_number = λ b. serialized;
  from_storage_data = λ text. ok (some text);
  from_bytes = ok;
  from_hash = λ text. ok none;
  from_version = λ text. err "no version";
}

abbrev transport : Transport String ℕ ℕ String ℕ
transport = record {
  parse = λ url. ok url;
  transport_error = λ e. e;
  build = λ uri n. (ok n, suc n);
  build_with_tokio = λ max pipes. record {
    request = λ method params n. (ok (b'1' ∷ []), suc n);
    subscribe = λ sub params unsub n. (ok [], suc n);
  };
  to_string = λ e. e;
  to_value = λ text. Params.array [];
  show = λ text. "";
}

abbrev decode : List ℕ → Result RuntimeMetadataPrefixed CodecError
decode text = ok prefixed
