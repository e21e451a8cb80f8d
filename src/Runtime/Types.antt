-- ===== src/Runtime/Types.antt =====
-- The types of the chain in runtime/src/lib.rs, as a configuration of the client. `AccountId` is the
-- account of the signer of a `MultiSignature`, which sp_runtime makes `AccountId32`; `Into<u64>` of a
-- `u32` is that of the client's.
use event_listener.Config.{Config, Crates}

unfoldable pub runtime_config : Crates → Config
runtime_config c = record {
  Index = c.U32;
  BlockNumber = c.U32;
  Hash = c.H256;
  AccountId = c.AccountId32;
  Address = c.MultiAddress c.AccountId32 (Unit {0});
  Header = c.GenericHeader c.U32 c.H256;
  Signature = c.MultiSignature;
  hashing = c.blake_two_256;
  index_into = c.u32_into;
  block_number_into = c.u32_into;
  header_number = λ h. c.number h;
  header_hash = λ h. c.hash c.blake_two_256 h;
}
