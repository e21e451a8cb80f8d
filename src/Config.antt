-- ===== src/Config.antt =====
-- event-listener/src/config.rs: the types of a chain, with what the client uses of their traits. The
-- types of the crate sp_runtime are parameters.
pub mod Polkadot
use event_listener.Prelude.{ℕ, List}

-- The trait `Config`. `Into<u64>` and the trait `Header` are the functions that the bounds demand;
-- `Hashing` is its function on bytes, whose values are hashes.
pub record Config : Type 1 where
  pub Index : Type 0
  pub BlockNumber : Type 0
  pub Hash : Type 0
  pub AccountId : Type 0
  pub Address : Type 0
  pub Header : Type 0
  pub Signature : Type 0
  pub hashing : List ℕ → Hash
  pub index_into : Index → ℕ
  pub block_number_into : BlockNumber → ℕ
  pub header_number : Header → BlockNumber
  pub header_hash : Header → Hash

-- The types of other crates, and `u32`.
pub record Crates : Type 1 where
  pub U32 : Type 0
  pub H256 : Type 0
  pub AccountId32 : Type 0
  pub MultiSignature : Type 0
  -- `MultiAddress<AccountId, AccountIndex>`, and the generic header for a number and a hash.
  pub MultiAddress : Type 0 → Type 0 → Type 0
  pub GenericHeader : Type 0 → Type 0 → Type 0
  pub u32_into : U32 → ℕ
  pub blake_two_256 : List ℕ → H256
  pub number : {N H : Type 0} → GenericHeader N H → N
  pub hash : {N H : Type 0} → (List ℕ → H) → GenericHeader N H → H

unfoldable pub substrate_config : Crates → Config
substrate_config c = record {
  Index = c.U32;
  BlockNumber = c.U32;
  Hash = c.H256;
  AccountId = c.AccountId32;
  Address = c.MultiAddress c.AccountId32 c.U32;
  Header = c.GenericHeader c.U32 c.H256;
  Signature = c.MultiSignature;
  hashing = c.blake_two_256;
  index_into = c.u32_into;
  block_number_into = c.u32_into;
  header_number = λ h. c.number h;
  header_hash = λ h. c.hash c.blake_two_256 h;
}

-- `impl<T: Config> Config for WithExtrinsicParams<T>`
unfoldable pub with_extrinsic_params : Config → Config
with_extrinsic_params t = record {
  Index = t.Index;
  BlockNumber = t.BlockNumber;
  Hash = t.Hash;
  AccountId = t.AccountId;
  Address = t.Address;
  Header = t.Header;
  Signature = t.Signature;
  hashing = t.hashing;
  index_into = t.index_into;
  block_number_into = t.block_number_into;
  header_number = t.header_number;
  header_hash = t.header_hash;
}

unfoldable pub polkadot_config : Crates → Config
unfolding with_extrinsic_params substrate_config
polkadot_config c = with_extrinsic_params (substrate_config c)
