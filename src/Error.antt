-- ===== src/Error.antt =====
-- event-listener/src/error.rs, and the error types of event-listener/src/metadata/metadata_type.rs.
-- The errors of other crates (codec, serde_json, scale_decode) are opaque to the program, which only
-- wraps and shows them: each is represented by the text that it shows.
use event_listener.Prelude.{ℕ, String}
use Prim.Native.String.{◌++◌}

abbrev pub CodecError : Type 0
CodecError = String

abbrev pub SerdeError : Type 0
SerdeError = String

abbrev pub DecodeError : Type 0
DecodeError = String

abbrev pub EncodeError : Type 0
EncodeError = String

abbrev pub TransactionValidityError : Type 0
TransactionValidityError = String

-- `MetadataError`; the numbers are the pallet index and the event index.
pub data MetadataError : Type 0 where
  pallet_not_found call_not_found storage_not_found constant_not_found : MetadataError
  event_not_found : ℕ → ℕ → MetadataError

-- `InvalidMetadataError`; the numbers are type ids.
pub data InvalidMetadataError : Type 0 where
  invalid_prefix invalid_version : InvalidMetadataError
  missing_type type_def_not_variant : ℕ → InvalidMetadataError

-- `RpcError(pub String)`.
pub record RpcError : Type 0 where
  pub message : String

pub data Error : Type 0 where
  codec : CodecError → Error
  rpc : RpcError → Error
  serialization : SerdeError → Error
  invalid : TransactionValidityError → Error
  invalid_metadata : InvalidMetadataError → Error
  metadata : MetadataError → Error
  decode_value : DecodeError → Error
  encode_value : EncodeError → Error
  other : String → Error

-- The texts of the `#[error]` attributes. `show` is the decimal print of an integer (core::fmt).
module _ (show : ℕ → String) where
  -- The attribute of `EventNotFound` names the argument `{0}` twice.
  unfoldable pub show_metadata_error : MetadataError → String
  show_metadata_error pallet_not_found = "Pallet not found"
  show_metadata_error call_not_found = "Call not found"
  show_metadata_error (event_not_found p e) =
      "Pallet " ++ (show p ++ (", Event " ++ (show p ++ " not found")))
  show_metadata_error storage_not_found = "Storage not found"
  show_metadata_error constant_not_found = "Constant not found"

  unfoldable pub show_invalid_metadata_error : InvalidMetadataError → String
  show_invalid_metadata_error invalid_prefix = "Invalid prefix"
  show_invalid_metadata_error invalid_version = "Invalid version"
  show_invalid_metadata_error (missing_type i) =
      "Type " ++ (show i ++ " missing from type registry")
  show_invalid_metadata_error (type_def_not_variant i) =
      "Type " ++ (show i ++ " was not a variant/enum type")

  unfoldable pub show_rpc_error : RpcError → String
  show_rpc_error e = "RPC error: " ++ e.message

  unfoldable pub show_error : Error → String
  unfolding show_metadata_error show_invalid_metadata_error show_rpc_error
  show_error (codec e) = "Scale codec error: " ++ e
  show_error (rpc e) = "Rpc error: " ++ show_rpc_error e
  show_error (serialization e) = "Serde json error: " ++ e
  show_error (invalid e) = "Transaction Validity Error: " ++ e
  show_error (invalid_metadata e) = "Invalid Metadata: " ++ show_invalid_metadata_error e
  show_error (metadata e) = "Metadata: " ++ show_metadata_error e
  show_error (decode_value e) = "Error decoding into dynamic value: " ++ e
  show_error (encode_value e) = "Error encoding from dynamic value: " ++ e
  show_error (other e) = "Other error: " ++ e
