-- ===== src/Client.antt =====
-- `OnlineClient` and `OfflineClient` of event-listener/src/client. The lock of an `OnlineClient` is
-- only ever read, so that what it holds is a field.
pub mod Connect
pub mod Offline
use event_listener.Prelude.{ℕ, none, List}
use event_listener.Outcome.{Result, ok, err, done, and_run}
use event_listener.Error.{Error, CodecError}
use event_listener.Metadata.Types.{RuntimeMetadataPrefixed}
use event_listener.Metadata.Store.{Metadata}
use event_listener.Rpc.Client.{Io, RpcClient}
use event_listener.Rpc.Methods as Methods
use event_listener.Rpc.Methods.{RuntimeVersion, Json}

-- `V` is `serde_json::Value`.
pub record OfflineClient (Hash V : Type 0) : Type 0 where
  pub genesis_hash : Hash
  pub runtime_version : RuntimeVersion V
  pub metadata : Metadata

-- `Inner`
pub record Inner (V : Type 0) : Type 0 where
  pub runtime_version : RuntimeVersion V
  pub metadata : Metadata

pub record OnlineClient (V N Sub : Type 0) : Type 0 where
  pub inner : Inner V
  pub rpc : RpcClient N Sub

unfoldable pub metadata : {V N Sub : Type 0} → OnlineClient V N Sub → Metadata
metadata client = client.inner.metadata

unfoldable pub runtime_version : {V N Sub : Type 0} → OnlineClient V N Sub → RuntimeVersion V
runtime_version client = client.inner.runtime_version

-- The two results of `future::join`, unwrapped by `?` in the order of the fields.
unfoldable pub both :
    {V A : Type 0}
    → (Inner V → A)
    → Result (RuntimeVersion V) Error
    → Result Metadata Error
    → Result A Error
both make (ok v) (ok m) = ok (make (record { runtime_version = v; metadata = m }))
both make (ok v) (err e) = err e
both make (err e) m = err e

-- `join` starts the requests in their order, and waits for both of them whether or not one fails.
unfoldable pub from_rpc_client :
    {Hash V N Sub : Type 0}
    → Json Hash V
    → (decode : List ℕ → Result RuntimeMetadataPrefixed CodecError) → (meta_reserved : ℕ)
    → RpcClient N Sub
    → Io N (OnlineClient V N Sub)
unfolding both
from_rpc_client json decode meta_reserved rpc n =
    and_run (Methods.runtime_version json rpc none n) λ v.
      and_run (Methods.metadata json rpc decode meta_reserved v.1)
        λ m. done (both (λ inner. record { inner = inner; rpc = rpc }) v.0 m.0, m.1)
