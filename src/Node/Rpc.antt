-- ===== src/Node/Rpc.antt =====
-- node/src/rpc.rs. The modules of RPC methods, of jsonrpsee and of Substrate, are a parameter.
use event_listener.Prelude.{String, Bool}
use event_listener.Outcome.{Result, ◌>>=◌}

pub record FullDeps (Client Pool : Type 0) : Type 0 where
  pub client : Client
  pub pool : Pool
  -- Whether unsafe calls are denied.
  pub deny_unsafe : Bool

pub record Crates : Type 1 where
  pub Client : Type 0
  pub Pool : Type 0
  pub RpcModule : Type 0
  pub new_module : RpcModule
  pub system : Client → Pool → (deny_unsafe : Bool) → RpcModule
  pub transaction_payment : Client → RpcModule
  -- It fails where both modules have a method of the same name.
  pub merge : RpcModule → RpcModule → Result RpcModule String

unfoldable pub create_full : (x : Crates) → FullDeps x.Client x.Pool → Result x.RpcModule String
create_full x deps = do
  with_system ← x.merge x.new_module (x.system deps.client deps.pool deps.deny_unsafe)
  x.merge with_system (x.transaction_payment deps.client)
