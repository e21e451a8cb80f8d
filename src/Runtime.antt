-- ===== src/Runtime.antt =====
-- The constants of the node's runtime: runtime/src/lib.rs. The list of its APIs is made by a macro
-- and is a parameter.
pub mod Pallets
pub mod Types
pub mod Whitelist
pub mod Apis
use event_listener.Prelude.{ℕ, ◌*◌, ◌/◌, String}

-- `sp_version::RuntimeVersion`, with the versions of the APIs of a type `A`.
pub record RuntimeVersion (A : Type 0) : Type 0 where
  pub spec_name : String
  pub impl_name : String
  pub authoring_version : ℕ
  pub spec_version : ℕ
  pub impl_version : ℕ
  pub apis : A
  pub transaction_version : ℕ
  pub state_version : ℕ

abbrev pub version : {A : Type 0} → A → RuntimeVersion A
version runtime_api_versions = record {
  spec_name = "node-template";
  impl_name = "node-template";
  authoring_version = 1;
  spec_version = 100;
  impl_version = 1;
  apis = runtime_api_versions;
  transaction_version = 1;
  state_version = 1;
}

abbrev pub millisecs_per_block : ℕ
millisecs_per_block = 6000

abbrev pub slot_duration : ℕ
slot_duration = millisecs_per_block

-- Numbers of blocks.
abbrev pub minutes : ℕ
minutes = 60000 / millisecs_per_block

abbrev pub hours : ℕ
hours = minutes * 60

abbrev pub days : ℕ
days = hours * 24

abbrev pub block_hash_count : ℕ
block_hash_count = 2400

-- `MaxAuthorities` of `pallet_aura` and of `pallet_grandpa`.
abbrev pub max_authorities : ℕ
max_authorities = 32

-- `MinimumPeriod` of `pallet_timestamp`.
abbrev pub minimum_period : ℕ
minimum_period = slot_duration / 2

abbrev pub existential_deposit : ℕ
existential_deposit = 500

-- `native_version`, with the authors' set of sp_version as a parameter.
pub record NativeVersion (A B : Type 0) : Type 0 where
  pub runtime_version : RuntimeVersion A
  pub can_author_with : B

unfoldable pub native_version :
    {A B : Type 0} → (runtime_api_versions : A) → (default : B) → NativeVersion A B
native_version runtime_api_versions default = record {
  runtime_version = version runtime_api_versions;
  can_author_with = default;
}

-- `Perbill::from_percent` is sp_runtime's.
unfoldable pub normal_dispatch_ratio : {P : Type 0} → (from_percent : ℕ → P) → P
normal_dispatch_ratio from_percent = from_percent 75

-- `BlockWeights` and `BlockLength`, by the functions of frame_system's limits.
unfoldable pub block_weights :
    {P W : Type 0}
    → (from_percent : ℕ → P) → (weight_per_second : ℕ) → (with_sensible_defaults : ℕ → P → W) → W
unfolding normal_dispatch_ratio
block_weights from_percent weight_per_second with_sensible_defaults =
    with_sensible_defaults (2 * weight_per_second) (normal_dispatch_ratio from_percent)

unfoldable pub block_length :
    {P L : Type 0} → (from_percent : ℕ → P) → (max_with_normal_ratio : ℕ → P → L) → L
unfolding normal_dispatch_ratio
block_length from_percent max_with_normal_ratio =
    max_with_normal_ratio (5 * 1024 * 1024) (normal_dispatch_ratio from_percent)

abbrev pub ss58_prefix : ℕ
ss58_prefix = 42

-- `MaxConsumers` of `frame_system`.
abbrev pub max_consumers : ℕ
max_consumers = 16

-- `MaxLocks` of `pallet_balances`.
abbrev pub max_locks : ℕ
max_locks = 50

-- `OperationalFeeMultiplier` of `pallet_transaction_payment`.
abbrev pub operational_fee_multiplier : ℕ
operational_fee_multiplier = 5
