-- ===== src/Events/Filter.antt =====
-- event-listener/src/events/filter_events.rs. The subscription below is the list of the results that
-- polling it will give, and is pending behind them.
pub mod Stream
pub mod Tuples
pub mod Total
use mathlib.Core.Option
use event_listener.Prelude.{ℕ, ◌+◌, Option, none, some, List, [], ◌∷◌}
use event_listener.Outcome.{Result, ok, err, map_ok, Run, done, and_run, map_run}
use event_listener.Error.{Error, codec, CodecError}
use event_listener.Events.Codec.{Phase, StaticEvent, Codec}
use event_listener.Events.Details.{EventDetails, as_event}
use event_listener.Events.Block.{Events, Item, iter}

-- `std::task::Poll`.
pub data Poll (A : Type 0) : Type 0 where
  pending : Poll A
  ready : A → Poll A

pub record FilteredEventDetails (BlockHash Evs : Type 0) : Type 0 where
  pub phase : Phase
  pub block_hash : BlockHash
  pub event : Evs

-- The attempts that a filter makes on one event, in order, up to a match or an error.
abbrev pub Attempt : Type 0 → Type 0
Attempt R = EventDetails → Run (Result (Option R) CodecError)

-- The filter `(Ev,)`.
unfoldable pub single : {A : Type 0} → StaticEvent A → Attempt A
single ev = as_event ev

-- What the macro `impl_event_filter` makes: `default` is the initial `out`, and `somes` counts the
-- fields of a tuple that are `Some`.
pub record TupleFilter (R : Type 0) : Type 0 where
  pub default : R
  pub attempt : Attempt R
  pub somes : R → ℕ

unfoldable pub no_events : TupleFilter (Unit {0})
no_events = record { default = tt; attempt = λ d. done (ok none); somes = λ r. 0 }

abbrev pub count_some : {A : Type 0} → Option A → ℕ
count_some none = 0
count_some (some a) = 1

-- One block `$({ .. })+` of the macro, and those behind it: `rest` is made where there is no match.
abbrev pub or_else :
    {A R : Type 0}
    → R
    → Run (Result (Option R) CodecError)
    → Result (Option A) CodecError
    → Run (Result (Option (Option A × R)) CodecError)
or_else default rest (ok (some a)) = done (ok (some (some a, default)))
or_else default rest (ok none) = map_run (map_ok (Option.map (λ r. (none, r)))) rest
or_else default rest (err e) = done (err e)

unfoldable pub with_event :
    {A R : Type 0} → StaticEvent A → TupleFilter R → TupleFilter (Option A × R)
with_event ev f = record {
  default = (none, f.default);
  attempt = λ d. and_run (as_event ev d) (or_else f.default (f.attempt d));
  somes = λ r. count_some r.0 + f.somes r.1;
}

-- A tuple of static events, and the filter that the macro makes of it.
pub data EventTuple : Type 0 → Type 1 where
  nil : EventTuple (Unit {0})
  cons : {A R : Type 0} → StaticEvent A → EventTuple R → EventTuple (Option A × R)

unfoldable pub tuple : {R : Type 0} → EventTuple R → TupleFilter R
unfolding no_events with_event
tuple nil = no_events
tuple (cons ev t) = with_event ev (tuple t)

-- The types that implement `EventFilter`: one event, or a tuple of events.
pub data EventFilter : Type 0 → Type 1 where
  one : {A : Type 0} → StaticEvent A → EventFilter A
  many : {R : Type 0} → EventTuple R → EventFilter R

unfoldable pub attempt_of : {R : Type 0} → EventFilter R → Attempt R
unfolding single tuple
attempt_of (one ev) = single ev
attempt_of (many t) = (tuple t).attempt

module _ {Hash R : Type 0} (attempt : Attempt R) (block_hash : Hash) where
  abbrev pub Filtered : Type 0
  Filtered = Result (FilteredEventDetails Hash R) Error

  -- What the closure does with the outcome of the attempts: `Some` returns, `None` goes on.
  unfoldable pub filtered : EventDetails → Result (Option R) CodecError → Option Filtered
  filtered d (ok (some e)) =
      some (ok (record { phase = d.phase; block_hash = block_hash; event = e }))
  filtered d (ok none) = none
  filtered d (err e) = some (err (codec e))

  -- Either return, or go on with what `rest` does.
  abbrev pub return_or :
      Run (Option Filtered × List Item)
      → List Item
      → Option Filtered
      → Run (Option Filtered × List Item)
  return_or rest xs none = rest
  return_or rest xs (some x) = done (some x, xs)

  -- One call of the closure, over the items that `iter` has left.
  unfoldable pub filter_next : List Item → Run (Option Filtered × List Item)
  unfolding filtered
  filter_next [] = done (none, [])
  filter_next (err e ∷ xs) = done (some (err e), xs)
  filter_next (ok d ∷ xs) =
      let rest = filter_next xs in and_run (attempt d) λ r. return_or rest xs (filtered d r)

-- The results of polling a stream.
abbrev pub Script : Type 0 → Type 0
Script A = List (Poll (Option A))

pub record FilterEvents (Hash : Type 0) : Type 0 where
  pub sub : Script (Result (Events Hash) Error)
  pub events : Option (Hash × List Item)

unfoldable pub new : {Hash : Type 0} → Script (Result (Events Hash) Error) → FilterEvents Hash
new sub = record { sub = sub; events = none }

module _ {Hash R : Type 0} (c : Codec Hash) (attempt : Attempt R) where
  abbrev pub Polled : Type 0
  Polled = Poll (Option (Result (FilteredEventDetails Hash R) Error)) × FilterEvents Hash

  -- `match events_iter.next()`: return the result, or go on with what `rest` does.
  abbrev pub on_next :
      Run Polled
      → Script (Result (Events Hash) Error)
      → (block_hash : Hash) → Option (Filtered attempt block_hash) × List Item
      → Run Polled
  on_next rest sub block_hash (none, xs) = rest
  on_next rest sub block_hash (some x, xs) =
      done (ready (some x), record { sub = sub; events = some (block_hash, xs) })

  -- The loop from where no events are left: each round takes one result of the subscription.
  unfoldable pub poll_sub : Script (Result (Events Hash) Error) → Run Polled
  poll_sub [] = done (pending, new [])
  poll_sub (pending ∷ sub) = done (pending, new sub)
  poll_sub (ready none ∷ sub) = done (ready none, new sub)
  poll_sub (ready (some (err e)) ∷ sub) = done (ready (some (err e)), new sub)
  poll_sub (ready (some (ok evs)) ∷ sub) =
      let rest = poll_sub sub in
      and_run (iter c evs) λ items.
        and_run (filter_next attempt evs.block_hash items) (on_next rest sub evs.block_hash)

  -- The first round drains the events at hand.
  unfoldable pub poll_events :
      Script (Result (Events Hash) Error) → Option (Hash × List Item) → Run Polled
  unfolding poll_sub
  poll_events sub none = poll_sub sub
  poll_events sub (some (block_hash, items)) =
      and_run (filter_next attempt block_hash items) (on_next (poll_sub sub) sub block_hash)

  unfoldable pub poll_next : FilterEvents Hash → Run Polled
  poll_next s = poll_events s.sub s.events
