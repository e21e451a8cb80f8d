-- ===== src/Node/Substrate.antt =====
-- What node/src/service.rs uses of Substrate: the configuration, and the functions of its crates.
use event_listener.Prelude.{ℕ, String, Bool, Option, List}
use event_listener.Outcome.{Result}

-- The fields of `sc_service::Configuration` that this file reads and changes.
pub record Configuration (Endpoint : Type 0) : Type 0 where
  pub keystore_remote : Option String
  pub telemetry_endpoints : Option (List Endpoint)
  pub is_authority : Bool
  pub offchain_worker : Bool
  pub force_authoring : Bool
  pub disable_grandpa : Bool
  pub node_name : String
  -- The protocols of the extra sets of peers.
  pub extra_sets : List String

-- `sc_finality_grandpa::Config`
pub record GrandpaConfig (Keystore Telemetry : Type 0) : Type 0 where
  pub gossip_millis : ℕ
  pub justification_period : ℕ
  pub name : Option String
  pub observer_enabled : Bool
  pub keystore : Option Keystore
  pub is_authority : Bool
  pub telemetry : Option Telemetry
  pub protocol_name : String

pub record Crates : Type 1 where
  pub World : Type 0
  pub Endpoint : Type 0
  pub Worker : Type 0
  pub Telemetry : Type 0
  pub Client : Type 0
  pub Backend : Type 0
  pub Keystore : Type 0
  pub SelectChain : Type 0
  pub Pool : Type 0
  pub BlockImport : Type 0
  pub Link : Type 0
  pub Slots : Type 0
  pub ImportQueue : Type 0
  pub Network : Type 0
  pub Hash : Type 0
  pub new_worker : (buffer : ℕ) → World → Result Worker String × World
  pub new_telemetry : Worker → List Endpoint → World → Telemetry × World
  pub new_full_parts :
      Configuration Endpoint
      → Option Telemetry
      → World
      → Result (Client × Backend × Keystore) String × World
  pub new_select_chain : Backend → SelectChain
  pub new_pool : Configuration Endpoint → Client → World → Pool × World
  pub block_import :
      Client → SelectChain → Option Telemetry → World → Result (BlockImport × Link) String × World
  pub slot_duration : Client → World → Result Slots String × World
  pub import_queue :
      BlockImport → Client → Slots → Option Telemetry → World → Result ImportQueue String × World
  pub set_remote_keystore : Keystore → Keystore → Keystore
  pub genesis_hash : Client → World → Option Hash × World
  pub protocol_standard_name : Hash → String
  pub build_network :
      Configuration Endpoint
      → Client
      → Pool
      → ImportQueue
      → Backend
      → Link
      → World
      → Result Network String × World
  pub build_offchain_workers : Configuration Endpoint → Client → Network → World → Unit {0} × World
  pub spawn_tasks :
      Configuration Endpoint
      → Network
      → Client
      → Keystore
      → Pool
      → Backend
      → Option Telemetry
      → World
      → Result (Unit {0}) String × World
  pub start_aura :
      Slots
      → Client
      → SelectChain
      → BlockImport
      → Pool
      → (force_authoring : Bool) → Keystore
      → Network
      → Option Telemetry
      → World
      → Result (Unit {0}) String × World
  pub run_grandpa_voter :
      GrandpaConfig Keystore Telemetry
      → Link
      → Network
      → Option Telemetry
      → World
      → Result (Unit {0}) String × World
  pub start_network : Network → World → Unit {0} × World
