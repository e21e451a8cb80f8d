-- ===== src/Node/Command/Offline.antt =====
-- The subcommands of node/src/command.rs leave the network alone.
use event_listener.Prelude.{
  String, ◌≡◌, refl, sym, subst, ◌∙◌, Bool, true, false, Option, none, some, List, [], append-nil,
  All, All-split,
}
use event_listener.Outcome.{Result, ok, err, Run, done, panic, map_run}
use event_listener.Node.Tasks.{ServiceError, State, Action, ◌>>=◌, pure, throw, call_into}
use event_listener.Node.Tasks.Ends.{Ends, At, Stopped, Ends-mono}
use event_listener.Node.Substrate as Substrate
use event_listener.Node.Substrate.{Configuration}
use event_listener.Node.Service.{PartialComponents, non_empty, telemetry_task, new_partial}
use event_listener.Node.Service.Partial.{telemetry_part, first_tasks, new_partial-Ends}
use event_listener.Node.Benchmarking as Benchmarking
use event_listener.Node.Benchmarking.{
  Extrinsic, ok_flatten, built, ExtrinsicBuilder, RemarkBuilder, TransferKeepAliveBuilder,
  build_remark, build_transfer, remark_builder, transfer_builder, create_benchmark_extrinsic,
  inherent_benchmark_data,
}
use event_listener.Node.Command.{
  CliError, external, BenchmarkCmd, pallet, block, storage, overhead, extrinsic, machine,
  Subcommand, key, build_spec, check_block, export_blocks, export_state, import_blocks, purge_chain,
  revert, benchmark, try_runtime, chain_info, Crates, with_service, in_service, external_call,
  panicking_call, partial, inherent_or_input, if_enabled, run_benchmark, run_subcommand, run,
}
use event_listener.Node.Command.Builders.{
  Builds, KnowsGenesis, remark_builder-Builds, transfer_builder-Builds,
}
use event_listener.Node.Command.Steps.{
  IsOffline, EndsOffline, >>=-EndsOffline, converted-EndsOffline, converted-runner,
}

module _ {World : Type 0} where
  in_service-EndsOffline :
      {A : Type 0} (r : Run (Result A ServiceError × State World))
      → Ends (λ a. IsOffline) IsOffline r
      → EndsOffline (map_run with_service r)
  unfolding EndsOffline Ends
  in_service-EndsOffline (done (ok a, s)) h = h
  in_service-EndsOffline (done (err e, s)) h = h
  in_service-EndsOffline panic h = h

-- The telemetry task is the only one that stands in the first tasks.
telemetry_part-All : {A : Type 0} (o : Option A) → All (λ t. t ≡ telemetry_task) (telemetry_part o)
telemetry_part-All none = tt
telemetry_part-All (some a) = (refl, tt)

module _ (x : Substrate.Crates) (b : Benchmarking.Crates x.World x.Client) (y : Crates x b) where
  Stopped-IsOffline :
      (config : Configuration x.Endpoint) (s : State x.World)
      → Stopped (first_tasks config) s
      → IsOffline s
  Stopped-IsOffline config s (rest, e, off) =
      let all = telemetry_part-All (non_empty config.telemetry_endpoints) in
      (
        off,
        (All-split (λ t. t ≡ telemetry_task) s.spawned rest
            (subst (All (λ t. t ≡ telemetry_task)) (sym e) all)).0,
      )

  partial-EndsOffline :
      (config : Configuration x.Endpoint) (s : State x.World)
      → At [] s
      → EndsOffline (partial x b y config s)
  unfolding partial in_service
  partial-EndsOffline config s h = in_service-EndsOffline (new_partial x config s) (
      Ends-mono _ _ _ _ (new_partial x config s)
        (λ parts t i. Stopped-IsOffline config t ([], append-nil t.spawned ∙ i.0.0, i.0.1))
        (λ t i. Stopped-IsOffline config t i)
        (new_partial-Ends x (first_tasks config) config s h ([], append-nil (first_tasks config))))

  external_call-EndsOffline :
      {A : Type 0} (f : x.World → Result A String × x.World) (s : State x.World)
      → IsOffline s
      → EndsOffline (external_call x b y f s)
  unfolding external_call call_into
  external_call-EndsOffline f s h = converted-EndsOffline external s (f s.world) h

  runner-then :
      {B : Type 0} (f : x.World → Result (Configuration x.Endpoint) String × x.World)
      (k : Configuration x.Endpoint → Action x.World CliError B) (s : State x.World)
      → At [] s
      → IsOffline s
      → ((config : Configuration x.Endpoint) (t : State x.World)
          → At [] t
          → IsOffline t
          → EndsOffline (k config t))
      → EndsOffline ((external_call x b y f >>= k) s)
  unfolding external_call call_into ◌>>=◌
  runner-then f k s h o next = converted-runner external k s (f s.world) h o next

  -- The parts of a node, and what is done with them.
  partial-then :
      {B : Type 0} (config : Configuration x.Endpoint)
      (k : PartialComponents x → Action x.World CliError B) (s : State x.World)
      → At [] s
      → ((parts : PartialComponents x) (t : State x.World) → IsOffline t → EndsOffline (k parts t))
      → EndsOffline ((partial x b y config >>= k) s)
  partial-then config k s h next =
      >>=-EndsOffline (partial x b y config) k s (partial-EndsOffline config s h) next

  inherents-EndsOffline :
      (r : Result b.InherentData String) (s : State x.World)
      → IsOffline s
      → EndsOffline (inherent_or_input x b y r s)
  unfolding inherent_or_input EndsOffline pure throw
  inherents-EndsOffline (ok i) s o = o
  inherents-EndsOffline (err e) s o = o

  throw-EndsOffline :
      (e : CliError) (s : State x.World)
      → IsOffline s
      → EndsOffline (throw {World = x.World} {A = Unit {0}} e s)
  unfolding throw EndsOffline
  throw-EndsOffline e s o = o

  if_enabled-EndsOffline :
      (enabled : Bool) (m : Action x.World CliError (Unit {0})) (s : State x.World)
      → IsOffline s
      → EndsOffline (m s)
      → EndsOffline (if_enabled x b y enabled m s)
  unfolding if_enabled
  if_enabled-EndsOffline true m s o h = h
  if_enabled-EndsOffline false m s o h = throw-EndsOffline _ s o

  panicking_call-EndsOffline :
      {A : Type 0} (f : x.World → Run (Result A String × x.World)) (s : State x.World)
      → (r : Result A String × x.World) × (f s.world ≡ done r)
      → IsOffline s
      → EndsOffline (panicking_call x b y f s)
  unfolding panicking_call
  panicking_call-EndsOffline f s (r, e) h = rw e (converted-EndsOffline external s r h)

  -- What needs the configuration only, and what needs the parts of a node.
  config-EndsOffline :
      (cmd : y.Cmd) (f : Configuration x.Endpoint → x.World → Result (Unit {0}) String × x.World)
      (s : State x.World)
      → At [] s
      → IsOffline s
      → EndsOffline (
          (external_call x b y (y.create_runner cmd) >>= λ config. external_call x b y (f config))
            s)
  config-EndsOffline cmd f s h o =
      runner-then _ _ s h o λ config t i p. external_call-EndsOffline _ t p

  parts-EndsOffline :
      (cmd : y.Cmd)
      (f : Configuration x.Endpoint
        → PartialComponents x
        → x.World
        → Result (Unit {0}) String × x.World)
      (s : State x.World)
      → At [] s
      → IsOffline s
      → EndsOffline (
          (external_call x b y (y.create_runner cmd) >>= λ config.
          partial x b y config >>= λ parts. external_call x b y (f config parts))
            s)
  parts-EndsOffline cmd f s h o =
      runner-then _ _ s h o
        λ config t i p. partial-then config _ t i λ parts u q. external_call-EndsOffline _ u q

  -- The benchmarks that are given builders return where these do.
  module _ (knows : KnowsGenesis x b)
      (overhead_returns : (cmd : y.Cmd) (config : Configuration x.Endpoint) (client : x.Client)
          (inherents : b.InherentData) (e : ExtrinsicBuilder b) (w : x.World)
        → Builds x b e
        → (r : Result (Unit {0}) String × x.World) × (y.run_overhead cmd config client inherents e w
            ≡ done r))
      (extrinsic_returns : (cmd : y.Cmd) (client : x.Client) (inherents : b.InherentData)
          (es : List (ExtrinsicBuilder b)) (w : x.World)
        → All (Builds x b) es
        → (r : Result (Unit {0}) String × x.World) × (y.run_extrinsic cmd client inherents es w
            ≡ done r)) where
    run_benchmark-EndsOffline :
        (cmd : BenchmarkCmd y.Cmd) (config : Configuration x.Endpoint) (s : State x.World)
        → At [] s
        → IsOffline s
        → EndsOffline (run_benchmark x b y cmd config s)
    unfolding run_benchmark
    run_benchmark-EndsOffline (pallet cmd) config s h o =
        if_enabled-EndsOffline y.runtime_benchmarks _ s o (external_call-EndsOffline _ s o)
    run_benchmark-EndsOffline (block cmd) config s h o =
        partial-then config _ s h λ parts t p. external_call-EndsOffline _ t p
    run_benchmark-EndsOffline (storage cmd) config s h o =
        partial-then config _ s h λ parts t p. external_call-EndsOffline _ t p
    run_benchmark-EndsOffline (overhead cmd) config s h o = partial-then config _ s h λ parts t p.
        >>=-EndsOffline _ _ t (inherents-EndsOffline (inherent_benchmark_data b) t p) λ i u q.
          panicking_call-EndsOffline _ u
            (overhead_returns cmd config parts.client i _ u.world
              (remark_builder-Builds x b knows _))
            q
    run_benchmark-EndsOffline (extrinsic cmd) config s h o = partial-then config _ s h λ parts t p.
        >>=-EndsOffline _ _ t (inherents-EndsOffline (inherent_benchmark_data b) t p) λ i u q.
          panicking_call-EndsOffline _ u
            (extrinsic_returns cmd parts.client i _ u.world
              (remark_builder-Builds x b knows _, (transfer_builder-Builds x b knows _, tt)))
            q
    run_benchmark-EndsOffline (machine cmd) config s h o = external_call-EndsOffline _ s o

    subcommand-EndsOffline :
        (sub : Subcommand y.Cmd) (s : State x.World)
        → At [] s
        → IsOffline s
        → EndsOffline (run_subcommand x b y sub s)
    unfolding run_subcommand
    subcommand-EndsOffline (key cmd) s h o = external_call-EndsOffline _ s o
    subcommand-EndsOffline (build_spec cmd) s h o = config-EndsOffline cmd _ s h o
    subcommand-EndsOffline (check_block cmd) s h o = parts-EndsOffline cmd _ s h o
    subcommand-EndsOffline (export_blocks cmd) s h o = parts-EndsOffline cmd _ s h o
    subcommand-EndsOffline (export_state cmd) s h o = parts-EndsOffline cmd _ s h o
    subcommand-EndsOffline (import_blocks cmd) s h o = parts-EndsOffline cmd _ s h o
    subcommand-EndsOffline (purge_chain cmd) s h o = config-EndsOffline cmd _ s h o
    subcommand-EndsOffline (revert cmd) s h o = parts-EndsOffline cmd _ s h o
    subcommand-EndsOffline (benchmark cmd) s h o =
        runner-then _ _ s h o λ config t i p. run_benchmark-EndsOffline cmd config t i p
    subcommand-EndsOffline try_runtime s h o = throw-EndsOffline _ s o
    subcommand-EndsOffline (chain_info cmd) s h o = config-EndsOffline cmd _ s h o

    -- If every client knows its genesis block, and the benchmarks return where their builders do: from
    -- nothing, no subcommand panics, starts the network, or spawns a task other than the telemetry's,
    -- whether it ends with a result or an error.
    run-EndsOffline :
        (run_cmd : y.Cmd) (sub : Subcommand y.Cmd) (w : x.World)
        → EndsOffline (
            run x b y run_cmd
              (some sub)
              (record { world = w; spawned = []; network_started = false }))
    unfolding run
    run-EndsOffline run_cmd sub w = subcommand-EndsOffline sub _ (refl, refl) (refl, tt)
