-- ===== src/Events/Subscription.antt =====
-- event-listener/src/events/event_subscription.rs. The header subscription is the list of the results
-- that polling it will give, and a future is its result with the number of polls that come too early.
pub mod Stream
pub mod Filtered
use event_listener.Prelude.{
  ℕ, zero, suc, Bool, true, false, Option, none, some, List, [], ◌∷◌, if◌then◌else◌,
}
use event_listener.Outcome.{Result, ok, err, Run, done, expect, and_run}
use event_listener.Error.{Error}
use event_listener.Events.Block.{Events}
use event_listener.Events.Filter.{Poll, pending, ready, Script}

pub record Future (A : Type 0) : Type 0 where
  pub delay : ℕ
  pub output : A

-- The field `client` does not change, and is the parameter `at_hash` below.
pub record EventSubscription (Header E Hash : Type 0) : Type 0 where
  pub finished : Bool
  pub block_header_subscription : Script (Result Header E)
  pub at : Option (Future (Result (Events Hash) Error))

unfoldable pub new :
    {Header E Hash : Type 0} → Script (Result Header E) → EventSubscription Header E Hash
new sub = record { finished = false; block_header_subscription = sub; at = none }

-- What `poll_next` returns.
abbrev pub Polled : Type 0 → Type 0 → Type 0 → Type 0
Polled Header E Hash = Poll (Option (Result (Events Hash) Error)) × EventSubscription Header E Hash

-- Either the function returns, or it goes on with the state.
pub data Step (Header E Hash : Type 0) : Type 0 where
  return : Polled Header E Hash → Step Header E Hash
  go_on : EventSubscription Header E Hash → Step Header E Hash

-- `hash` is the header's, `into` the conversion of the subscription's error, and `at_hash` the future
-- that `EventsClient::at` makes for a block hash.
module _ {Header E Hash : Type 0} (hash : Header → Hash) (into : E → Error)
    (at_hash : Hash → Future (Result (Events Hash) Error)) where
  -- The body of `if self.at.is_none()`.
  unfoldable pub poll_header :
      EventSubscription Header E Hash → Script (Result Header E) → Step Header E Hash
  poll_header s [] = return (pending, s)
  poll_header s (pending ∷ sub) = return (pending, record s { block_header_subscription = sub })
  poll_header s (ready none ∷ sub) =
      return (ready none, record s { block_header_subscription = sub; finished = true })
  poll_header s (ready (some (err e)) ∷ sub) =
      return
        (ready (some (err (into e))), record s { block_header_subscription = sub; finished = true })
  poll_header s (ready (some (ok header)) ∷ sub) =
      go_on (record s { block_header_subscription = sub; at = some (at_hash (hash header)) })

  -- One poll of the future: `at` is dropped when it is ready.
  unfoldable pub poll_future :
      EventSubscription Header E Hash
      → (delay : ℕ) → Result (Events Hash) Error
      → Polled Header E Hash
  poll_future s zero output = (ready (some output), record s { at = none })
  poll_future s (suc n) output =
      (pending, record s { at = some (record { delay = n; output = output }) })

  -- From `expect` on.
  unfoldable pub poll_at : EventSubscription Header E Hash → Run (Polled Header E Hash)
  unfolding poll_future
  poll_at s = and_run (expect s.at) λ f. done (poll_future s f.delay f.output)

  unfoldable pub resume : Step Header E Hash → Run (Polled Header E Hash)
  unfolding poll_at
  resume (return r) = done r
  resume (go_on s) = poll_at s

  -- The test `self.at.is_none()`.
  unfoldable pub header_or_at :
      EventSubscription Header E Hash
      → Option (Future (Result (Events Hash) Error))
      → Step Header E Hash
  unfolding poll_header
  header_or_at s none = poll_header s s.block_header_subscription
  header_or_at s (some f) = go_on s

  unfoldable pub poll_next : EventSubscription Header E Hash → Run (Polled Header E Hash)
  unfolding resume header_or_at
  poll_next s = if s.finished then done (ready none, s) else resume (header_or_at s s.at)
