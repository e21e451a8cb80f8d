-- ===== src/Node/Service.antt =====
-- node/src/service.rs: the set-up of a node. What it calls in other crates changes a world that is a
-- parameter, with the types of the parts that it makes. Constants and closures that are only handed
-- to a crate are part of that crate's function, as are the handles to spawn tasks.
pub mod Partial
pub mod Outcomes
use event_listener.Prelude.{
  ℕ, String, Bool, true, false, not, Option, none, some, List, [], ◌∷◌, if◌then◌else◌, ◌++◌,
}
use Prim.Native.String.{◌++◌ as string_append}
use event_listener.Outcome.{Result, ok, err}
use event_listener.Node.Substrate.{Configuration, GrandpaConfig, Crates}
use event_listener.Node.Tasks.{
  Task, State, Act, ◌>>=◌, ◌>>◌, pure, fail, call, effect, expect_some, spawn, set_started, when,
}

-- `filter(|x| !x.is_empty())`
abbrev pub non_empty : {A : Type 0} → Option (List A) → Option (List A)
non_empty none = none
non_empty (some []) = none
non_empty (some (x ∷ xs)) = some (x ∷ xs)

abbrev pub telemetry_task : Task
telemetry_task = record { name = "telemetry"; group = none; essential = false; blocking = false }

abbrev pub aura_task : Task
aura_task = record {
  name = "aura";
  group = some "block-authoring";
  essential = true;
  blocking = true;
}

abbrev pub grandpa_task : Task
grandpa_task = record { name = "grandpa-voter"; group = none; essential = true; blocking = true }

abbrev pub listener_task : Task
listener_task = record {
  name = "event-listener";
  group = some "group_name";
  essential = false;
  blocking = false;
}

unfoldable pub remote_keystore : {Keystore : Type 0} → String → Result Keystore String
remote_keystore url = err "Remote Keystore not supported."

module _ (x : Crates) where
  -- `sc_service::PartialComponents`
  pub record PartialComponents : Type 0 where
    pub client : x.Client
    pub backend : x.Backend
    pub import_queue : x.ImportQueue
    pub keystore_container : x.Keystore
    pub select_chain : x.SelectChain
    pub transaction_pool : x.Pool
    pub block_import : x.BlockImport
    pub grandpa_link : x.Link
    pub telemetry : Option x.Telemetry

  -- The telemetry and its worker; its handle is the telemetry.
  unfoldable pub start_telemetry : Option (List x.Endpoint) → Act x.World (Option x.Telemetry)
  start_telemetry none = pure none
  start_telemetry (some endpoints) = do
    worker ← call (x.new_worker 16)
    telemetry ← effect (x.new_telemetry worker endpoints)
    pure (some telemetry)

  unfoldable pub spawn_worker : Option x.Telemetry → Act x.World (Unit {0})
  spawn_worker none = pure tt
  spawn_worker (some telemetry) = spawn telemetry_task

  unfoldable pub partial_parts : Configuration x.Endpoint → Act x.World PartialComponents
  partial_parts config = do
    telemetry ← start_telemetry (non_empty config.telemetry_endpoints)
    (client, backend, keystore_container) ← call (x.new_full_parts config telemetry)
    spawn_worker telemetry
    transaction_pool ← effect (x.new_pool config client)
    (block_import, grandpa_link) ←
        call (x.block_import client (x.new_select_chain backend) telemetry)
    slots ← call (x.slot_duration client)
    import_queue ← call (x.import_queue block_import client slots telemetry)
    pure (record {
      client = client;
      backend = backend;
      import_queue = import_queue;
      keystore_container = keystore_container;
      select_chain = x.new_select_chain backend;
      transaction_pool = transaction_pool;
      block_import = block_import;
      grandpa_link = grandpa_link;
      telemetry = telemetry;
    })

  -- `config.keystore_remote.is_some()`
  unfoldable pub refuse_remote : Option String → Act x.World (Unit {0})
  refuse_remote none = pure tt
  refuse_remote (some url) = fail "Remote Keystores are not supported."

  unfoldable pub new_partial : Configuration x.Endpoint → Act x.World PartialComponents
  new_partial config = do refuse_remote config.keystore_remote; partial_parts config

  unfoldable pub hooked : String → x.Keystore → Result x.Keystore String → Act x.World x.Keystore
  hooked url container (ok k) = pure (x.set_remote_keystore container k)
  hooked url container (err e) = fail (
      string_append "Error hooking up remote keystore for "
        (string_append url (string_append ": " e)))

  -- The keystore container, with the remote keystore if there is one.
  unfoldable pub hook_up : Option String → x.Keystore → Act x.World x.Keystore
  hook_up none container = pure container
  hook_up (some url) container = hooked url container (remote_keystore url)

  unfoldable pub start_authoring :
      Configuration x.Endpoint → PartialComponents → x.Keystore → x.Network → Act x.World (Unit {0})
  start_authoring config parts keystore network = do
    slots ← call (x.slot_duration parts.client)
    call (
        x.start_aura slots parts.client parts.select_chain parts.block_import parts.transaction_pool
          config.force_authoring keystore network parts.telemetry)
    spawn aura_task

  unfoldable pub grandpa_config :
      Configuration x.Endpoint
      → Option x.Telemetry
      → x.Keystore
      → (protocol_name : String) → GrandpaConfig x.Keystore x.Telemetry
  grandpa_config config telemetry keystore protocol_name = record {
    gossip_millis = 333;
    justification_period = 512;
    name = some config.node_name;
    observer_enabled = false;
    keystore = if config.is_authority then some keystore else none;
    is_authority = config.is_authority;
    telemetry = telemetry;
    protocol_name = protocol_name;
  }

  unfoldable pub start_grandpa :
      Configuration x.Endpoint
      → PartialComponents
      → x.Keystore
      → x.Network
      → (protocol_name : String) → Act x.World (Unit {0})
  start_grandpa config parts keystore network protocol_name = do
    call (
        x.run_grandpa_voter (grandpa_config config parts.telemetry keystore protocol_name)
          parts.grandpa_link network parts.telemetry)
    spawn grandpa_task
    spawn listener_task

  -- What is left once the protocol has its name.
  unfoldable pub start_all :
      Configuration x.Endpoint
      → PartialComponents
      → x.Keystore
      → (protocol_name : String) → Act x.World (Unit {0})
  start_all config parts keystore protocol_name = do
    network ← call (
        x.build_network config parts.client parts.transaction_pool parts.import_queue parts.backend
          parts.grandpa_link)
    when config.offchain_worker (effect (x.build_offchain_workers config parts.client network))
    call (
        x.spawn_tasks config network parts.client keystore parts.transaction_pool parts.backend
          parts.telemetry)
    when config.is_authority (start_authoring config parts keystore network)
    when (not config.disable_grandpa) (start_grandpa config parts keystore network protocol_name)
    effect (x.start_network network)
    set_started

  -- The result is the task manager, which is part of the state.
  unfoldable pub new_full : Configuration x.Endpoint → Act x.World (Unit {0})
  new_full config = do
    parts ← new_partial config
    keystore ← hook_up config.keystore_remote parts.keystore_container
    found ← effect (x.genesis_hash parts.client)
    genesis ← expect_some found
    let protocol_name = x.protocol_standard_name genesis
    start_all (record config { extra_sets = config.extra_sets ++ (protocol_name ∷ []) }) parts
        keystore protocol_name
