-- ===== src/Rpc/Client.antt =====
-- `RpcClient` and `Subscription` of event-listener/src/rpc/rpc_client.rs, and `RpcClientT` of
-- event-listener/src/rpc/rpc_client_t.rs. What the node does is a parameter; the state of the
-- connection is passed from one request to the next.
pub mod Requests
use event_listener.Prelude.{ℕ, Bool, Option, none, some, List, [], ◌∷◌, String}
use event_listener.Outcome.{Result, ok, err, map_err, ◌>>=◌, Run, done, and_run}
use event_listener.Error.{Error, rpc, serialization, RpcError, SerdeError}
use event_listener.Rpc.Params.{RpcParams, build}
use event_listener.Events.Filter.{Poll, pending, ready}

-- An asynchronous function, awaited: it can panic or fail, and it changes the connection.
abbrev pub Io : Type 0 → Type 0 → Type 0
Io N A = N → Run (Result A Error × N)

-- What follows an `.await?`.
abbrev pub next : {N A B : Type 0} → (A → Io N B) → Result A Error × N → Run (Result B Error × N)
next k (ok a, n) = k a n
next k (err e, n) = done (err e, n)

abbrev pub await : {N A B : Type 0} → Io N A → (A → Io N B) → Io N B
await m k n = and_run (m n) λ r. next k r

-- A step that does no input or output: `?` on a result.
abbrev pub lift : {N A : Type 0} → Result A Error → Io N A
lift r n = done (r, n)

-- `RpcClientT`: the raw texts of the result, and of the items of a subscription.
pub record RpcClient (N Sub : Type 0) : Type 0 where
  pub request_raw : String → Option (List ℕ) → N → Result (List ℕ) RpcError × N
  pub subscribe_raw : String → Option (List ℕ) → String → N → Result Sub RpcError × N

-- An awaited call of the node, with its error converted.
abbrev pub raw : {N A : Type 0} → (N → Result A RpcError × N) → Io N A
raw call n = let (r, m) = call n in done (map_err rpc r, m)

-- `build`, which can panic, before the call.
abbrev pub build_then :
    {N A : Type 0} → (List ℕ → Bool) → RpcParams → (Option (List ℕ) → Io N A) → Io N A
build_then is_json params k n = and_run (build is_json params) λ p. k p n

-- `from_str` is `serde_json::from_str`.
module _ {N Sub : Type 0} (is_json : List ℕ → Bool) (client : RpcClient N Sub) where
  unfoldable pub request :
      {Res : Type 0} → (List ℕ → Result Res SerdeError) → String → RpcParams → Io N Res
  request from_str method params = build_then is_json params λ p.
      await (raw (client.request_raw method p)) λ res. lift (map_err serialization (from_str res))

  unfoldable pub subscribe : String → RpcParams → String → Io N Sub
  subscribe sub params unsub = build_then is_json params λ p. raw (client.subscribe_raw sub p unsub)

-- An item of the inner subscription, decoded.
unfoldable pub decode_item :
    {Res : Type 0} → (List ℕ → Result Res SerdeError) → Result (List ℕ) RpcError → Result Res Error
decode_item from_str (ok raw_val) = map_err serialization (from_str raw_val)
decode_item from_str (err e) = err (rpc e)

-- `Subscription::poll_next`, on what the inner subscription gives.
unfoldable pub poll_next :
    {Res : Type 0}
    → (List ℕ → Result Res SerdeError)
    → Poll (Option (Result (List ℕ) RpcError))
    → Poll (Option (Result Res Error))
unfolding decode_item
poll_next from_str pending = pending
poll_next from_str (ready none) = ready none
poll_next from_str (ready (some r)) = ready (some (decode_item from_str r))
