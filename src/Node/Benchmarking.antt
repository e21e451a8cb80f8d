-- ===== src/Node/Benchmarking.antt =====
-- node/src/benchmarking.rs: the extrinsics of the benchmarks. The client, whose chain may grow
-- between two calls, the keys, the eras and the encoding are parameters.
pub mod Period
pub mod Signing
use event_listener.Prelude.{
  ℕ, zero, suc, ◌*◌, ◌/◌, leb, String, Option, none, some, List, [], if◌then◌else◌,
}
use Prim.Native.String.{◌++◌}
use event_listener.Outcome.{Result, ok, err, map_err, Run, expect, and_run, map_run}
use event_listener.Runtime.{RuntimeVersion, version, block_hash_count, existential_deposit}

-- The first of the powers `p`, `2 * p`, .. that is `n` at least.
unfoldable pub find_power : (powers p n : ℕ) → Option ℕ
find_power zero p n = none
find_power (suc k) p n = let rest = find_power k (p * 2) n in if leb n p then some p else rest

-- `u32::checked_next_power_of_two`: a `u32` holds 32 powers of two.
unfoldable pub checked_next_power_of_two : ℕ → Option ℕ
unfolding find_power
checked_next_power_of_two n = find_power 32 1 n

-- `.map(|c| c / 2).unwrap_or(2)`
abbrev pub half_or_two : Option ℕ → ℕ
half_or_two none = 2
half_or_two (some c) = c / 2

unfoldable pub era_period : (hash_count : ℕ) → ℕ
unfolding checked_next_power_of_two
era_period hash_count = half_or_two (checked_next_power_of_two hash_count)

-- `runtime::SignedExtra`; the other five extensions hold no data.
pub record SignedExtra (Era : Type 0) : Type 0 where
  pub era : Era
  pub nonce : ℕ
  pub tip : ℕ

-- What is signed and not sent. The other four are `()`.
pub record AdditionalSigned (Hash : Type 0) : Type 0 where
  pub spec_version : ℕ
  pub transaction_version : ℕ
  pub genesis_hash : Hash
  pub best_hash : Hash

-- The two calls of the runtime that the builders make.
pub data Call (AccountId : Type 0) : Type 0 where
  system_remark : (remark : List ℕ) → Call AccountId
  balances_transfer_keep_alive : (dest : AccountId) (value : ℕ) → Call AccountId

pub record SignedPayload (Hash AccountId Era : Type 0) : Type 0 where
  pub call : Call AccountId
  pub extra : SignedExtra Era
  pub additional : AdditionalSigned Hash

pub record UncheckedExtrinsic (AccountId Signature Era : Type 0) : Type 0 where
  pub call : Call AccountId
  pub address : AccountId
  pub signature : Signature
  pub extra : SignedExtra Era

pub record ChainInfo (Hash : Type 0) : Type 0 where
  pub best_hash : Hash
  pub best_number : ℕ

-- The types and functions of other crates. A `Client` is `FullClient`.
pub record Crates (World Client : Type 0) : Type 1 where
  pub Hash : Type 0
  pub Pair : Type 0
  pub AccountId : Type 0
  pub Signature : Type 0
  pub Era : Type 0
  pub Apis : Type 0
  pub InherentData : Type 0
  pub block_hash : Client → ℕ → World → Result (Option Hash) String × World
  pub chain_info : Client → World → ChainInfo Hash × World
  pub mortal : (period current : ℕ) → Era
  -- What `using_encoded` gives to its closure.
  pub encoded : SignedPayload Hash AccountId Era → List ℕ
  pub sign : Pair → List ℕ → Signature
  pub account : Pair → AccountId
  pub bob : Pair
  pub alice : Pair
  pub runtime_api_versions : Apis
  pub new_inherent_data : InherentData
  -- An error is its text under `{:?}`.
  pub provide_inherent_data : (timestamp : ℕ) → InherentData → Result InherentData String

-- `.ok().flatten()`
abbrev pub ok_flatten : {A : Type 0} → Result (Option A) String → Option A
ok_flatten (ok o) = o
ok_flatten (err e) = none

module _ {World Client : Type 0} (x : Crates World Client) where
  abbrev pub Extrinsic : Type 0
  Extrinsic = UncheckedExtrinsic x.AccountId x.Signature x.Era

  -- The payload from what the client has answered.
  unfoldable pub raw_payload :
      (genesis_hash best_hash : x.Hash) (best_block : ℕ)
      → Call x.AccountId
      → (nonce : ℕ) → SignedPayload x.Hash x.AccountId x.Era
  unfolding era_period
  raw_payload genesis_hash best_hash best_block call nonce = record {
    call = call;
    extra = record {
      era = x.mortal (era_period block_hash_count) best_block;
      nonce = nonce;
      tip = 0;
    };
    additional = record {
      spec_version = (version x.runtime_api_versions).spec_version;
      transaction_version = (version x.runtime_api_versions).transaction_version;
      genesis_hash = genesis_hash;
      best_hash = best_hash;
    };
  }

  unfoldable pub new_signed : x.Pair → SignedPayload x.Hash x.AccountId x.Era → Extrinsic
  new_signed sender payload = record {
    call = payload.call;
    address = x.account sender;
    signature = x.sign sender (x.encoded payload);
    extra = payload.extra;
  }

  -- The client is asked for the genesis, the best hash and the best number, in three calls.
  unfoldable pub create_benchmark_extrinsic :
      Client → x.Pair → Call x.AccountId → (nonce : ℕ) → World → Run (Extrinsic × World)
  unfolding raw_payload new_signed
  create_benchmark_extrinsic client sender call nonce w =
      let (genesis, w₁) = x.block_hash client 0 w in
      map_run
        (λ genesis_hash.
          let (hash_info, w₂) = x.chain_info client w₁ in
          let (block_info, w₃) = x.chain_info client w₂ in
          (
            new_signed sender
                (raw_payload genesis_hash hash_info.best_hash block_info.best_number call nonce),
            w₃,
          ))
        (expect (ok_flatten genesis))

  -- The methods of `frame_benchmarking_cli::ExtrinsicBuilder`.
  pub record ExtrinsicBuilder : Type 0 where
    pub pallet : String
    pub extrinsic : String
    pub build : (nonce : ℕ) → World → Run (Result Extrinsic String × World)

  -- `Ok(extrinsic)`
  abbrev pub built : Run (Extrinsic × World) → Run (Result Extrinsic String × World)
  built r = map_run (λ e. (ok e.0, e.1)) r

  pub record RemarkBuilder : Type 0 where
    pub client : Client

  -- `RemarkBuilder::build`
  unfoldable pub build_remark :
      RemarkBuilder → (nonce : ℕ) → World → Run (Result Extrinsic String × World)
  unfolding create_benchmark_extrinsic
  build_remark b nonce w =
      built (create_benchmark_extrinsic b.client x.bob (system_remark []) nonce w)

  unfoldable pub remark_builder : RemarkBuilder → ExtrinsicBuilder
  unfolding build_remark
  remark_builder b = record { pallet = "system"; extrinsic = "remark"; build = build_remark b }

  pub record TransferKeepAliveBuilder : Type 0 where
    pub client : Client
    pub dest : x.AccountId
    pub value : ℕ

  -- `TransferKeepAliveBuilder::build`
  unfoldable pub build_transfer :
      TransferKeepAliveBuilder → (nonce : ℕ) → World → Run (Result Extrinsic String × World)
  unfolding create_benchmark_extrinsic
  build_transfer b nonce w = built (
      create_benchmark_extrinsic b.client x.bob (balances_transfer_keep_alive b.dest b.value) nonce
        w)

  unfoldable pub transfer_builder : TransferKeepAliveBuilder → ExtrinsicBuilder
  unfolding build_transfer
  transfer_builder b = record {
    pallet = "balances";
    extrinsic = "transfer_keep_alive";
    build = build_transfer b;
  }

  unfoldable pub inherent_benchmark_data : Result x.InherentData String
  inherent_benchmark_data =
      map_err (λ e. "creating inherent data: " ++ e) (x.provide_inherent_data 0 x.new_inherent_data)
