-- ===== src/Node/Command.antt =====
-- `run` of node/src/command.rs, on the subcommands of node/src/cli.rs, as built without the feature
-- `try-runtime`. A runner calls its closure with the configuration that it has made, and runs the
-- future that the closure returns, if it does, to the end.
pub mod Steps
pub mod Builders
pub mod Offline
use event_listener.Prelude.{ℕ, String, Bool, true, false, not, Option, none, some, List, [], ◌∷◌}
use event_listener.Outcome.{Result, ok, err, Run, map_run}
use event_listener.Runtime.{existential_deposit}
use event_listener.Node.Tasks.{
  State, ServiceError, Act, Action, ◌>>=◌, ◌>>◌, pure, throw, call_into, converted,
}
use event_listener.Node.Substrate as Substrate
use event_listener.Node.Substrate.{Configuration}
use event_listener.Node.Service.{PartialComponents, new_partial, new_full}
use event_listener.Node.Benchmarking as Benchmarking
use event_listener.Node.Benchmarking.{
  ExtrinsicBuilder, remark_builder, transfer_builder, inherent_benchmark_data,
}

-- `sc_cli::Error`: `Service`, `Input`, and the errors of crates by the text that they show.
pub data CliError : Type 0 where
  service : ServiceError → CliError
  input external : String → CliError

-- `Cmd` is the type of what a subcommand has been given.
pub data BenchmarkCmd (Cmd : Type 0) : Type 0 where
  pallet block storage overhead extrinsic machine : Cmd → BenchmarkCmd Cmd

pub data Subcommand (Cmd : Type 0) : Type 0 where
  key build_spec check_block export_blocks export_state import_blocks purge_chain revert :
      Cmd → Subcommand Cmd
  benchmark : BenchmarkCmd Cmd → Subcommand Cmd
  try_runtime : Subcommand Cmd
  chain_info : Cmd → Subcommand Cmd

-- The benchmark's argument, whichever benchmark it is.
abbrev pub argument : {Cmd : Type 0} → BenchmarkCmd Cmd → Cmd
argument (pallet cmd) = cmd
argument (block cmd) = cmd
argument (storage cmd) = cmd
argument (overhead cmd) = cmd
argument (extrinsic cmd) = cmd
argument (machine cmd) = cmd

-- The functions of `sc_cli` and `frame_benchmarking_cli`. Those that are given builders of extrinsics
-- call them, and panic where a builder does.
pub record Crates (x : Substrate.Crates) (b : Benchmarking.Crates x.World x.Client) : Type 1 where
  pub Cmd : Type 0
  -- `cfg!(feature = "runtime-benchmarks")`
  pub runtime_benchmarks : Bool
  pub create_runner : Cmd → x.World → Result (Configuration x.Endpoint) String × x.World
  pub run_key : Cmd → x.World → Result (Unit {0}) String × x.World
  pub run_build_spec : Cmd → Configuration x.Endpoint → x.World → Result (Unit {0}) String × x.World
  pub run_check_block :
      Cmd → x.Client → x.ImportQueue → x.World → Result (Unit {0}) String × x.World
  pub run_export_blocks :
      Cmd → x.Client → Configuration x.Endpoint → x.World → Result (Unit {0}) String × x.World
  pub run_export_state :
      Cmd → x.Client → Configuration x.Endpoint → x.World → Result (Unit {0}) String × x.World
  pub run_import_blocks :
      Cmd → x.Client → x.ImportQueue → x.World → Result (Unit {0}) String × x.World
  pub run_purge_chain :
      Cmd → Configuration x.Endpoint → x.World → Result (Unit {0}) String × x.World
  pub grandpa_revert : x.Client → (blocks : ℕ) → x.World → Result (Unit {0}) String × x.World
  pub run_revert :
      Cmd
      → x.Client
      → x.Backend
      → (aux_revert : x.Client → ℕ → x.World → Result (Unit {0}) String × x.World) → x.World
      → Result (Unit {0}) String × x.World
  pub run_pallet : Cmd → Configuration x.Endpoint → x.World → Result (Unit {0}) String × x.World
  pub run_block : Cmd → x.Client → x.World → Result (Unit {0}) String × x.World
  pub run_storage :
      Cmd
      → Configuration x.Endpoint
      → x.Client
      → x.Backend
      → x.World
      → Result (Unit {0}) String × x.World
  pub run_overhead :
      Cmd
      → Configuration x.Endpoint
      → x.Client
      → b.InherentData
      → ExtrinsicBuilder b
      → x.World
      → Run (Result (Unit {0}) String × x.World)
  pub run_extrinsic :
      Cmd
      → x.Client
      → b.InherentData
      → List (ExtrinsicBuilder b)
      → x.World
      → Run (Result (Unit {0}) String × x.World)
  pub run_machine : Cmd → Configuration x.Endpoint → x.World → Result (Unit {0}) String × x.World
  pub run_chain_info : Cmd → Configuration x.Endpoint → x.World → Result (Unit {0}) String × x.World
  -- The node runs until it is told to exit.
  pub until_exit : x.World → Result (Unit {0}) String × x.World

-- `map_err(sc_cli::Error::Service)`, which `?` also does.
abbrev pub with_service :
    {World A : Type 0} → Result A ServiceError × State World → Result A CliError × State World
with_service (ok a, s) = (ok a, s)
with_service (err e, s) = (err (service e), s)

unfoldable pub in_service : {World A : Type 0} → Act World A → Action World CliError A
in_service m s = map_run with_service (m s)

module _ (x : Substrate.Crates) (b : Benchmarking.Crates x.World x.Client) (y : Crates x b) where
  abbrev pub Cli : Type 0 → Type 0
  Cli A = Action x.World CliError A

  unfoldable pub external_call : {A : Type 0} → (x.World → Result A String × x.World) → Cli A
  external_call f = call_into external f

  -- A call that may panic.
  unfoldable pub panicking_call : {A : Type 0} → (x.World → Run (Result A String × x.World)) → Cli A
  panicking_call f s = map_run (converted external s) (f s.world)

  unfoldable pub partial : Configuration x.Endpoint → Cli (PartialComponents x)
  partial config = in_service (new_partial x config)

  -- `inherent_benchmark_data()?`
  unfoldable pub inherent_or_input : Result b.InherentData String → Cli b.InherentData
  inherent_or_input (ok inherents) = pure inherents
  inherent_or_input (err text) = throw (input text)

  -- The early return where the feature is not enabled.
  unfoldable pub if_enabled : Bool → Cli (Unit {0}) → Cli (Unit {0})
  if_enabled true m = m
  if_enabled false m = throw (
      input
        "Runtime benchmarking wasn't enabled when building the node. You can enable it with `--features runtime-benchmarks`.")

  unfoldable pub run_benchmark : BenchmarkCmd y.Cmd → Configuration x.Endpoint → Cli (Unit {0})
  run_benchmark (pallet cmd) config =
      if_enabled y.runtime_benchmarks (external_call (y.run_pallet cmd config))
  run_benchmark (block cmd) config = do
    parts ← partial config
    external_call (y.run_block cmd parts.client)
  run_benchmark (storage cmd) config = do
    parts ← partial config
    external_call (y.run_storage cmd config parts.client parts.backend)
  run_benchmark (overhead cmd) config = do
    parts ← partial config
    inherents ← inherent_or_input (inherent_benchmark_data b)
    panicking_call (
        y.run_overhead cmd config parts.client inherents
          (remark_builder b (record { client = parts.client })))
  run_benchmark (extrinsic cmd) config = do
    parts ← partial config
    inherents ← inherent_or_input (inherent_benchmark_data b)
    panicking_call (
        y.run_extrinsic cmd parts.client inherents (
          remark_builder b (record { client = parts.client })
          ∷ (transfer_builder b (record {
            client = parts.client;
            dest = b.account b.alice;
            value = existential_deposit;
          })
              ∷ [])))
  run_benchmark (machine cmd) config = external_call (y.run_machine cmd config)

  unfoldable pub run_subcommand : Subcommand y.Cmd → Cli (Unit {0})
  run_subcommand (key cmd) = external_call (y.run_key cmd)
  run_subcommand (build_spec cmd) = do
    config ← external_call (y.create_runner cmd)
    external_call (y.run_build_spec cmd config)
  run_subcommand (check_block cmd) = do
    config ← external_call (y.create_runner cmd)
    parts ← partial config
    external_call (y.run_check_block cmd parts.client parts.import_queue)
  run_subcommand (export_blocks cmd) = do
    config ← external_call (y.create_runner cmd)
    parts ← partial config
    external_call (y.run_export_blocks cmd parts.client config)
  run_subcommand (export_state cmd) = do
    config ← external_call (y.create_runner cmd)
    parts ← partial config
    external_call (y.run_export_state cmd parts.client config)
  run_subcommand (import_blocks cmd) = do
    config ← external_call (y.create_runner cmd)
    parts ← partial config
    external_call (y.run_import_blocks cmd parts.client parts.import_queue)
  run_subcommand (purge_chain cmd) = do
    config ← external_call (y.create_runner cmd)
    external_call (y.run_purge_chain cmd config)
  run_subcommand (revert cmd) = do
    config ← external_call (y.create_runner cmd)
    parts ← partial config
    external_call (y.run_revert cmd parts.client parts.backend y.grandpa_revert)
  run_subcommand (benchmark cmd) = do
    config ← external_call (y.create_runner (argument cmd))
    run_benchmark cmd config
  run_subcommand try_runtime = throw (
      input
        "TryRuntime wasn't enabled when building the node. You can enable it with `--features try-runtime`.")
  run_subcommand (chain_info cmd) = do
    config ← external_call (y.create_runner cmd)
    external_call (y.run_chain_info cmd config)

  -- `run_cmd` is `cli.run`.
  unfoldable pub run : (run_cmd : y.Cmd) → Option (Subcommand y.Cmd) → Cli (Unit {0})
  run run_cmd (some sub) = run_subcommand sub
  run run_cmd none = do
    config ← external_call (y.create_runner run_cmd)
    in_service (new_full x config)
    external_call y.until_exit
