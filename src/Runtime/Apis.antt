-- ===== src/Runtime/Apis.antt =====
-- The runtime APIs of runtime/src/lib.rs: `impl_runtime_apis!`. The pallets and the executive are those
-- of other crates, with the state of the chain passed from call to call.
pub mod Slots
use event_listener.Prelude.{ℕ, Bool, Option, none, some, List, [], ◌∷◌}
use event_listener.Outcome.{Result, ok, err, Run, done, panic, map_run}
use event_listener.Runtime.Whitelist.{whitelist}
use event_listener.Runtime.{RuntimeVersion, version}

-- A call into the runtime, which can panic.
abbrev pub Api : Type 0 → Type 0 → Type 0
Api S A = S → Run (A × S)

-- The types and functions of the crates.
pub record Crates : Type 1 where
  pub State : Type 0
  pub Versions : Type 0
  pub Block : Type 0
  pub Header : Type 0
  pub Extrinsic : Type 0
  pub Hash : Type 0
  pub RuntimeMetadata : Type 0
  pub OpaqueMetadata : Type 0
  pub ApplyExtrinsicResult : Type 0
  pub InherentData : Type 0
  pub CheckInherentsResult : Type 0
  pub TransactionSource : Type 0
  pub TransactionValidity : Type 0
  pub SlotDuration : Type 0
  pub AuraId : Type 0
  pub KeyTypeId : Type 0
  pub GrandpaId : Type 0
  pub SetId : Type 0
  pub EquivocationProof : Type 0
  pub OpaqueKeyOwnershipProof : Type 0
  pub AccountId : Type 0
  pub RuntimeDispatchInfo : Type 0
  pub FeeDetails : Type 0
  pub Call : Type 0
  pub BenchmarkConfig : Type 0
  pub BenchmarkList : Type 0
  pub StorageInfo : Type 0
  pub BenchmarkBatch : Type 0
  pub RuntimeString : Type 0
  pub runtime_api_versions : Versions
  -- `Executive`
  pub execute_block : Block → Api State (Unit {0})
  pub initialize_block : Header → Api State (Unit {0})
  pub apply_extrinsic : Extrinsic → Api State ApplyExtrinsicResult
  pub finalize_block : Api State Header
  pub validate_transaction : TransactionSource → Extrinsic → Hash → Api State TransactionValidity
  pub offchain_worker : Header → Api State (Unit {0})
  pub try_runtime_upgrade : State → Result ℕ RuntimeString × State
  pub execute_block_no_check : Block → Api State ℕ
  -- `Runtime::metadata().into()`, and `OpaqueMetadata::new`
  pub runtime_metadata : RuntimeMetadata
  pub opaque_metadata : RuntimeMetadata → OpaqueMetadata
  -- The inherents of the pallets.
  pub create_extrinsics : InherentData → Api State (List Extrinsic)
  pub check_extrinsics : InherentData → Block → Api State CheckInherentsResult
  -- `Aura`, with `into_inner` of the bounded list
  pub aura_slot_duration : Api State ℕ
  pub aura_authorities : Api State (List AuraId)
  pub from_millis : ℕ → SlotDuration
  -- `opaque::SessionKeys`
  pub generate : Option (List ℕ) → Api State (List ℕ)
  pub decode_into_raw_public_keys : List ℕ → Option (List (List ℕ × KeyTypeId))
  -- `Grandpa`
  pub grandpa_authorities : Api State (List (GrandpaId × ℕ))
  pub current_set_id : Api State SetId
  -- `System` and `TransactionPayment`
  pub account_nonce : AccountId → Api State ℕ
  pub query_info : Extrinsic → ℕ → Api State RuntimeDispatchInfo
  pub query_fee_details : Extrinsic → ℕ → Api State FeeDetails
  pub query_call_info : Call → ℕ → Api State RuntimeDispatchInfo
  pub query_call_fee_details : Call → ℕ → Api State FeeDetails
  -- `list_benchmarks!`, `AllPalletsWithSystem::storage_info` and `add_benchmarks!`
  pub list_benchmarks : Bool → List BenchmarkList
  pub storage_info : List StorageInfo
  pub add_benchmarks :
      BenchmarkConfig
      → (whitelist : List (List ℕ)) → State
      → Run (Result (List BenchmarkBatch) RuntimeString × State)
  -- `BlockWeights::get().max_block`
  pub max_block : ℕ

-- `Result::unwrap`
unfoldable pub unwrap : {A E S : Type 0} → Result A E × S → Run (A × S)
unwrap (ok a, s) = done (a, s)
unwrap (err e, s) = panic

module _ (c : Crates) where
  -- `Core`
  unfoldable pub core_version : c.State → Run (RuntimeVersion c.Versions × c.State)
  core_version s = done (version c.runtime_api_versions, s)

  unfoldable pub core_execute_block : c.Block → Api c.State (Unit {0})
  core_execute_block block = c.execute_block block

  unfoldable pub core_initialize_block : c.Header → Api c.State (Unit {0})
  core_initialize_block header = c.initialize_block header

  -- `Metadata`
  unfoldable pub metadata : Api c.State c.OpaqueMetadata
  metadata s = done (c.opaque_metadata c.runtime_metadata, s)

  -- `BlockBuilder`
  unfoldable pub builder_apply_extrinsic : c.Extrinsic → Api c.State c.ApplyExtrinsicResult
  builder_apply_extrinsic extrinsic = c.apply_extrinsic extrinsic

  unfoldable pub builder_finalize_block : Api c.State c.Header
  builder_finalize_block = c.finalize_block

  unfoldable pub inherent_extrinsics : c.InherentData → Api c.State (List c.Extrinsic)
  inherent_extrinsics inherent = c.create_extrinsics inherent

  unfoldable pub check_inherents : c.Block → c.InherentData → Api c.State c.CheckInherentsResult
  check_inherents block inherent = c.check_extrinsics inherent block

  -- `TaggedTransactionQueue`
  unfoldable pub queue_validate_transaction :
      c.TransactionSource → c.Extrinsic → c.Hash → Api c.State c.TransactionValidity
  queue_validate_transaction source tx block_hash = c.validate_transaction source tx block_hash

  -- `OffchainWorkerApi`
  unfoldable pub worker_offchain_worker : c.Header → Api c.State (Unit {0})
  worker_offchain_worker header = c.offchain_worker header

  -- `AuraApi`
  unfoldable pub slot_duration : Api c.State c.SlotDuration
  slot_duration s = map_run (λ r. (c.from_millis r.0, r.1)) (c.aura_slot_duration s)

  unfoldable pub authorities : Api c.State (List c.AuraId)
  authorities = c.aura_authorities

  -- `SessionKeys`
  unfoldable pub generate_session_keys : Option (List ℕ) → Api c.State (List ℕ)
  generate_session_keys seed = c.generate seed

  unfoldable pub decode_session_keys : List ℕ → Api c.State (Option (List (List ℕ × c.KeyTypeId)))
  decode_session_keys encoded s = done (c.decode_into_raw_public_keys encoded, s)

  -- `GrandpaApi`
  unfoldable pub grandpa_authority_list : Api c.State (List (c.GrandpaId × ℕ))
  grandpa_authority_list = c.grandpa_authorities

  unfoldable pub grandpa_current_set_id : Api c.State c.SetId
  grandpa_current_set_id = c.current_set_id

  -- No proof is ever taken or given.
  unfoldable pub submit_report_equivocation_unsigned_extrinsic :
      c.EquivocationProof → c.OpaqueKeyOwnershipProof → Api c.State (Option (Unit {0}))
  submit_report_equivocation_unsigned_extrinsic equivocation_proof key_owner_proof s =
      done (none, s)

  unfoldable pub generate_key_ownership_proof :
      c.SetId → c.GrandpaId → Api c.State (Option c.OpaqueKeyOwnershipProof)
  generate_key_ownership_proof set_id authority_id s = done (none, s)

  -- `AccountNonceApi`
  unfoldable pub nonce : c.AccountId → Api c.State ℕ
  nonce account = c.account_nonce account

  -- `TransactionPaymentApi` and `TransactionPaymentCallApi`
  unfoldable pub payment_query_info : c.Extrinsic → ℕ → Api c.State c.RuntimeDispatchInfo
  payment_query_info uxt len = c.query_info uxt len

  unfoldable pub payment_query_fee_details : c.Extrinsic → ℕ → Api c.State c.FeeDetails
  payment_query_fee_details uxt len = c.query_fee_details uxt len

  unfoldable pub payment_query_call_info : c.Call → ℕ → Api c.State c.RuntimeDispatchInfo
  payment_query_call_info call len = c.query_call_info call len

  unfoldable pub payment_query_call_fee_details : c.Call → ℕ → Api c.State c.FeeDetails
  payment_query_call_fee_details call len = c.query_call_fee_details call len

  -- `Benchmark`
  unfoldable pub benchmark_metadata : Bool → Api c.State (List c.BenchmarkList × List c.StorageInfo)
  benchmark_metadata extra s = done ((c.list_benchmarks extra, c.storage_info), s)

  -- A benchmark that fails ends the function with its error.
  unfoldable pub dispatch_benchmark :
      c.BenchmarkConfig → Api c.State (Result (List c.BenchmarkBatch) c.RuntimeString)
  dispatch_benchmark config s = c.add_benchmarks config whitelist s

  -- `TryRuntime`
  unfoldable pub on_runtime_upgrade : Api c.State (ℕ × ℕ)
  unfolding unwrap
  on_runtime_upgrade s = map_run (λ r. ((r.0, c.max_block), r.1)) (unwrap (c.try_runtime_upgrade s))

  unfoldable pub try_execute_block_no_check : c.Block → Api c.State ℕ
  try_execute_block_no_check block = c.execute_block_no_check block
