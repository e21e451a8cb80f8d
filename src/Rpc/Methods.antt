-- ===== src/Rpc/Methods.antt =====
-- `Rpc` of event-listener/src/rpc/rpc.rs. serde, hex and the SCALE decoder of the metadata are
-- parameters, with `Json` for those of serde.
use event_listener.Prelude.{ℕ, Bool, Option, List, [], ◌∷◌, String}
use Prim.Native.String.{◌++◌}
use event_listener.Outcome.{Result, map_err, ◌>>=◌, and_run}
use event_listener.Error.{Error, codec, invalid_metadata, CodecError, SerdeError}
use event_listener.Metadata.Types.{RuntimeMetadataPrefixed}
use event_listener.Metadata.Store.{Metadata, try_from}
use event_listener.Rpc.Params.{Serialized, RpcParams, rpc_params}
use event_listener.Rpc.Client.{Io, await, lift, RpcClient, request, subscribe}

-- `U256` is an unsigned number below 2^256.
pub data NumberOrHex : Type 0 where
  number hex : ℕ → NumberOrHex

pub record BlockNumber : Type 0 where
  pub value : NumberOrHex

pub data SubstrateTxStatus (Hash BlockHash : Type 0) : Type 0 where
  future ready dropped invalid : SubstrateTxStatus Hash BlockHash
  broadcast : List String → SubstrateTxStatus Hash BlockHash
  in_block retracted finality_timeout finalized : BlockHash → SubstrateTxStatus Hash BlockHash
  usurped : Hash → SubstrateTxStatus Hash BlockHash

-- `V` is `serde_json::Value`, and `other` the entries of a map.
pub record RuntimeVersion (V : Type 0) : Type 0 where
  pub spec_version : ℕ
  pub transaction_version : ℕ
  pub other : List (String × V)

-- serde_json on the types of the requests.
pub record Json (Hash V : Type 0) : Type 0 where
  pub is_json : List ℕ → Bool
  pub string : String → Serialized
  pub hash : Option Hash → Serialized
  pub block_number : Option BlockNumber → Serialized
  pub from_storage_data : List ℕ → Result (Option (List ℕ)) SerdeError
  pub from_bytes : List ℕ → Result (List ℕ) SerdeError
  pub from_hash : List ℕ → Result (Option Hash) SerdeError
  pub from_version : List ℕ → Result (RuntimeVersion V) SerdeError

-- `rpc_params!`, which can panic, before the request.
abbrev pub params_then : {N A : Type 0} → List Serialized → (RpcParams → Io N A) → Io N A
params_then vs k n = and_run (rpc_params vs) λ p. k p n

unfoldable pub to_hex : (hex_encode : List ℕ → String) → List ℕ → String
to_hex hex_encode bytes = "0x" ++ hex_encode bytes

module _ {Hash V N Sub : Type 0} (json : Json Hash V) (client : RpcClient N Sub) where
  unfoldable pub storage :
      (hex_encode : List ℕ → String) → List ℕ → Option Hash → Io N (Option (List ℕ))
  unfolding request to_hex
  storage hex_encode key hash =
      params_then (json.string (to_hex hex_encode key) ∷ json.hash hash ∷ [])
        λ params. request json.is_json client json.from_storage_data "state_getStorage" params

  -- The bytes, decoded and converted.
  unfoldable pub decode_metadata :
      (decode : List ℕ → Result RuntimeMetadataPrefixed CodecError)
      → (meta_reserved : ℕ) → List ℕ
      → Result Metadata Error
  unfolding try_from
  decode_metadata decode meta_reserved bytes = map_err codec (decode bytes) >>= λ meta.
      map_err invalid_metadata (try_from meta_reserved meta)

  unfoldable pub metadata :
      (decode : List ℕ → Result RuntimeMetadataPrefixed CodecError)
      → (meta_reserved : ℕ) → Io N Metadata
  unfolding request decode_metadata
  metadata decode meta_reserved = params_then [] λ params.
      await (request json.is_json client json.from_bytes "state_getMetadata" params)
        λ bytes. lift (decode_metadata decode meta_reserved bytes)

  unfoldable pub block_hash : Option BlockNumber → Io N (Option Hash)
  unfolding request
  block_hash block_number =
      params_then (json.block_number block_number ∷ [])
        λ params. request json.is_json client json.from_hash "chain_getBlockHash" params

  unfoldable pub runtime_version : Option Hash → Io N (RuntimeVersion V)
  unfolding request
  runtime_version at =
      params_then (json.hash at ∷ [])
        λ params. request json.is_json client json.from_version "state_getRuntimeVersion" params

  unfoldable pub subscribe_blocks : Io N Sub
  unfolding subscribe
  subscribe_blocks = params_then [] λ params.
      subscribe json.is_json client "chain_subscribeNewHeads" params "chain_unsubscribeNewHeads"
