-- ===== src/Tests/Logs.antt =====
-- What the example logs once the subscription has ended.
use event_listener.Prelude.{ℕ, true, none, []}
use event_listener.Outcome.{Result, ok}
use event_listener.Error.{Error, RpcError}
use event_listener.Events.Block.{Events}
use event_listener.Events.Subscription.{Future, EventSubscription}
use event_listener.Tests.Data as Data
use event_listener.Tests.Data.{codec-IsLawful, block, first_event, event_bytes, metadata}

abbrev at_hash : ℕ → Future (Result (Events ℕ) Error)
at_hash h = record { delay = 1; output = ok block }

abbrev finished : EventSubscription ℕ RpcError ℕ
finished = record { finished = true; block_header_subscription = []; at = none }
