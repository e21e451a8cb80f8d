-- ===== src/Client/Offline.antt =====
-- `OfflineClient` of event-listener/src/client/offline_client.rs.
use event_listener.Metadata.Store.{Metadata}
use event_listener.Rpc.Methods.{RuntimeVersion}
use event_listener.Client.{OfflineClient}

unfoldable pub runtime_version : {Hash V : Type 0} → OfflineClient Hash V → RuntimeVersion V
runtime_version client = client.runtime_version

unfoldable pub metadata : {Hash V : Type 0} → OfflineClient Hash V → Metadata
metadata client = client.metadata
