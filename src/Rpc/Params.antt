-- ===== src/Rpc/Params.antt =====
-- `RpcParams` of event-listener/src/rpc/rpc_client.rs, and `prep_params_for_jsonrpsee` of
-- event-listener/src/rpc/jsonrpsee_impl.rs. serde_json is a parameter.
pub mod Laws
use event_listener.Prelude.{ℕ, Bool, Option, none, some, List, [], ◌∷◌, ◌++◌, if◌then◌else◌, String}
use Prim.Native.String.{◌++◌ as string_append}
use event_listener.Outcome.{Result, ok, err, map_err, Run, done, panic, and_run, map_run}
use event_listener.Error.{Error, serialization, SerdeError, RpcError}

-- What `serde_json::to_writer` does with a value: the bytes that it writes, and its result.
pub record Serialized : Type 0 where
  pub written : List ℕ
  pub outcome : Result (Unit {0}) SerdeError

-- The bytes of `RpcParams(Vec<u8>)`.
pub record RpcParams : Type 0 where
  pub bytes : List ℕ

unfoldable pub new : RpcParams
new = record { bytes = [] }

-- `[` before the first parameter, and `,` before the others.
unfoldable pub separator : List ℕ → ℕ
separator [] = b'['
separator (b ∷ bs) = b','

-- The separator and what has been written stay where the value cannot be serialized.
unfoldable pub push : RpcParams → Serialized → Result (Unit {0}) Error × RpcParams
unfolding separator
push p v =
    (map_err serialization v.outcome, record { bytes = p.bytes ++ (separator p.bytes ∷ v.written) })

-- `is_json` is the check of `RawValue::from_string`.
module _ (is_json : List ℕ → Bool) where
  unfoldable pub close : List ℕ → Run (Option (List ℕ))
  close [] = done none
  close (b ∷ bs) =
      let text = (b ∷ bs) ++ (b']' ∷ []) in if is_json text then done (some text) else panic

  unfoldable pub build : RpcParams → Run (Option (List ℕ))
  unfolding close
  build p = close p.bytes

-- The `expect` of the macro.
unfoldable pub push_expect : Result (Unit {0}) Error × RpcParams → Run RpcParams
push_expect (ok u, p) = done p
push_expect (err e, p) = panic

unfoldable pub push_all : RpcParams → List Serialized → Run RpcParams
unfolding push push_expect
push_all p [] = done p
push_all p (v ∷ vs) = and_run (push_expect (push p v)) λ q. push_all q vs

-- `rpc_params![..]`
unfoldable pub rpc_params : List Serialized → Run RpcParams
unfolding push_all new
rpc_params vs = push_all new vs

-- `serde_json::Value`, as far as it is told apart.
pub data Value (V : Type 0) : Type 0 where
  array : List V → Value V
  other : Value V

-- `to_value` parses a raw value, and `show` prints it in the message.
unfoldable pub prep_params_for_jsonrpsee :
    {V : Type 0}
    → (to_value : List ℕ → Value V) → (show : List ℕ → String) → Option (List ℕ)
    → Result (List V) RpcError
prep_params_for_jsonrpsee to_value show none = ok []
prep_params_for_jsonrpsee to_value show (some params) = elim (to_value params) [
  | array arr ↦ ok arr
  | other ↦ err (record {
    message = string_append "RPC Params are expected to be an array but got " (show params);
  })
]
