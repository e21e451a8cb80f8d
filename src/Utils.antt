-- ===== src/Utils.antt =====
-- event-listener/src/utils.rs: bytes that are encoded already.
use event_listener.Prelude.{ℕ, Option, none, some, List, length}
use event_listener.Outcome.{Result, ok, err}
use event_listener.Error.{CodecError}

-- `Encoded(Vec<u8>)`
pub record Encoded : Type 0 where
  pub bytes : List ℕ

unfoldable pub encode : Encoded → List ℕ
encode e = e.bytes

-- The type `T` that is wrapped shows in `try_decode` only.
pub record WrapperKeepOpaque : Type 0 where
  pub data_bytes : List ℕ

-- `Result::ok`
unfoldable pub ok_value : {T : Type 0} → Result T CodecError → Option T
ok_value (ok t) = some t
ok_value (err e) = none

unfoldable pub try_decode :
    {T : Type 0} → (decode_all : List ℕ → Result T CodecError) → WrapperKeepOpaque → Option T
unfolding ok_value
try_decode decode_all w = ok_value (decode_all w.data_bytes)

unfoldable pub encoded_len : WrapperKeepOpaque → ℕ
encoded_len w = length w.data_bytes

unfoldable pub encoded : WrapperKeepOpaque → List ℕ
encoded w = w.data_bytes

unfoldable pub from_encoded : List ℕ → WrapperKeepOpaque
from_encoded bytes = record { data_bytes = bytes }
