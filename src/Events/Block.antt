-- ===== src/Events/Block.antt =====
-- `Events` of event-listener/src/events/events_type.rs: the events of one block.
pub mod Iteration
pub mod Find
use event_listener.Prelude.{
  ℕ, zero, suc, ◌+◌, ◌-◌, ◌==◌, ◌||◌, leb, Bool, false, true, Option, none, some, List, [], ◌∷◌,
  length, if◌then◌else◌,
}
use event_listener.Outcome.{Result, ok, err, Run, done, panic, and_run, map_run}
use event_listener.Error.{Error, codec, CodecError}
use event_listener.Metadata.Store.{Metadata}
use event_listener.Events.Codec.{StaticEvent, Codec}
use event_listener.Events.Details.{EventDetails, decode_from, bytes, as_event}

pub record Events (Hash : Type 0) : Type 0 where
  pub metadata : Metadata
  pub block_hash : Hash
  pub event_bytes : List ℕ
  pub start_idx : ℕ
  pub num_events : ℕ

-- `unwrap_or(Compact(0)).0`
unfoldable pub count_or_zero : Result ℕ CodecError → ℕ
count_or_zero (ok n) = n
count_or_zero (err e) = 0

-- The cursor is a part of `event_bytes`, so the subtraction does not stop at 0.
unfoldable pub new : {Hash : Type 0} → Codec Hash → Metadata → Hash → List ℕ → Events Hash
unfolding count_or_zero
new c metadata block_hash event_bytes =
    let (count, cursor) = c.compact_u32 event_bytes in
    record {
      metadata = metadata;
      block_hash = block_hash;
      event_bytes = event_bytes;
      start_idx = length event_bytes - length cursor;
      num_events = count_or_zero count;
    }

-- The variables that the closure of `iter` captures and changes.
pub record IterState : Type 0 where
  pub pos : ℕ
  pub index : ℕ

abbrev pub Item : Type 0
Item = Result EventDetails Error

module _ {Hash : Type 0} (c : Codec Hash) (evs : Events Hash) where
  -- `index += 1` does not overflow: `index` is below the `u32` `num_events`.
  unfoldable pub after_decode : IterState → Item → Run (Option Item × IterState)
  after_decode s (ok d) =
      map_run (λ b. (some (ok d), record { pos = s.pos + length b; index = s.index + 1 })) (bytes d)
  after_decode s (err e) =
      done (some (err e), record { pos = length evs.event_bytes; index = s.index })

  -- One call of the closure.
  unfoldable pub next : IterState → Run (Option Item × IterState)
  next s =
      if leb (length evs.event_bytes) s.pos || evs.num_events == s.index
      then done (none, s)
      else and_run (decode_from c evs.metadata evs.event_bytes s.pos s.index) (after_decode s)

  unfoldable pub start : IterState
  start = record { pos = evs.start_idx; index = 0 }

  -- All that `next` yields up to its first `None`; without fuel the call panics.
  unfoldable pub items : ℕ → IterState → Run (List Item)
  items zero s = panic
  items (suc fuel) s =
      and_run (next s)
        λ r. elim r.0 [ none ↦ done [] | some x ↦ map_run (λ xs. x ∷ xs) (items fuel r.1) ]

  -- The iterator as the list of its items. Each round reads at least two bytes, or is the last.
  unfoldable pub iter : Run (List Item)
  unfolding items
  iter = items (suc (length evs.event_bytes)) start

-- The closure of `find` on the outcome of `as_event`: `transpose`.
unfoldable pub transpose_found :
    {A : Type 0} → Result (Option A) CodecError → Option (Result A Error)
transpose_found (ok none) = none
transpose_found (ok (some a)) = some (ok a)
transpose_found (err e) = some (err (codec e))

unfoldable pub found : {A : Type 0} → StaticEvent A → Item → Run (Option (Result A Error))
unfolding transpose_found
found ev (ok d) = map_run transpose_found (as_event ev d)
found ev (err e) = done (some (err e))

-- One call of `next` on the `filter_map`, over the items that are left.
unfoldable pub find_next :
    {A : Type 0} → StaticEvent A → List Item → Run (Option (Result A Error) × List Item)
find_next ev [] = done (none, [])
find_next ev (x ∷ xs) =
    and_run (found ev x) λ o. elim o [ none ↦ find_next ev xs | some r ↦ done (some r, xs) ]

abbrev pub prepend : {A : Type 0} → Option A → List A → List A
prepend none rs = rs
prepend (some r) rs = r ∷ rs

-- All that the `filter_map` yields.
unfoldable pub find_all : {A : Type 0} → StaticEvent A → List Item → Run (List (Result A Error))
find_all ev [] = done []
find_all ev (x ∷ xs) = and_run (found ev x) λ o. map_run (prepend o) (find_all ev xs)

-- `Option<Result<A, E>>::transpose`
unfoldable pub transpose : {A : Type 0} → Option (Result A Error) → Result (Option A) Error
transpose none = ok none
transpose (some (ok a)) = ok (some a)
transpose (some (err e)) = err e

-- `transpose()?.is_some()`
unfoldable pub is_found : {A : Type 0} → Result (Option A) Error → Result Bool Error
is_found (ok none) = ok false
is_found (ok (some a)) = ok true
is_found (err e) = err e

module _ {Hash A : Type 0} (c : Codec Hash) (ev : StaticEvent A) (evs : Events Hash) where
  unfoldable pub find : Run (List (Result A Error))
  find = and_run (iter c evs) (find_all ev)

  unfoldable pub find_first : Run (Result (Option A) Error)
  find_first = map_run (λ r. transpose r.0) (and_run (iter c evs) (find_next ev))

  unfoldable pub has : Run (Result Bool Error)
  has = map_run (λ r. is_found (transpose r.0)) (and_run (iter c evs) (find_next ev))
