-- ===== src/Tests/Services.antt =====
-- The set-up of an authority whose crates count their calls, and of one with a remote keystore.
use event_listener.Prelude.{ℕ, ◌+◌, String, true, false, Option, some, [], ◌∷◌}
use event_listener.Outcome.{Result, ok, err}
use event_listener.Node.Tasks.{State}
use event_listener.Node.Tasks.Ends.{Ends}
use event_listener.Node.Substrate.{Configuration, Crates}

abbrev pub works : ℕ → Result ℕ String × ℕ
works w = (ok w, w + 1)

abbrev pub works_alone : ℕ → Unit {0} × ℕ
works_alone w = (tt, w + 1)

abbrev pub works_empty : ℕ → Result (Unit {0}) String × ℕ
works_empty w = (ok tt, w + 1)

abbrev pub crates : Crates
crates = record {
  World = ℕ;
  Endpoint = String;
  Worker = ℕ;
  Telemetry = ℕ;
  Client = ℕ;
  Backend = ℕ;
  Keystore = ℕ;
  SelectChain = ℕ;
  Pool = ℕ;
  BlockImport = ℕ;
  Link = ℕ;
  Slots = ℕ;
  ImportQueue = ℕ;
  Network = ℕ;
  Hash = ℕ;
  new_worker = λ buffer. works;
  new_telemetry = λ worker endpoints w. (w, w + 1);
  new_full_parts = λ config telemetry w. (ok (w, w, w), w + 1);
  new_select_chain = λ backend. backend;
  new_pool = λ config client w. (w, w + 1);
  block_import = λ client chain telemetry w. (ok (w, w), w + 1);
  slot_duration = λ client. works;
  import_queue = λ import client slots telemetry. works;
  set_remote_keystore = λ container k. k;
  genesis_hash = λ client w. (some 100, w + 1);
  protocol_standard_name = λ h. "grandpa";
  build_network = λ config client pool queue backend link. works;
  build_offchain_workers = λ config client network. works_alone;
  spawn_tasks = λ config network client keystore pool backend telemetry. works_empty;
  start_aura = λ slots client chain import pool force keystore network telemetry. works_empty;
  run_grandpa_voter = λ config link network telemetry w. (err "no voter", w);
  start_network = λ network. works_alone;
}

abbrev pub authority : Option String → Configuration String
authority remote = record {
  keystore_remote = remote;
  telemetry_endpoints = some ("wss" ∷ []);
  is_authority = true;
  offchain_worker = true;
  force_authoring = false;
  disable_grandpa = false;
  node_name = "alice";
  extra_sets = [];
}

abbrev pub nothing : State ℕ
nothing = record { world = 0; spawned = []; network_started = false }
