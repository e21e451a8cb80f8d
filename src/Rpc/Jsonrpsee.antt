-- ===== src/Rpc/Jsonrpsee.antt =====
-- `RpcClientT` for the jsonrpsee client: event-listener/src/rpc/jsonrpsee_impl.rs. The client of the
-- crate is a parameter, with errors `E` that `to_string` shows.
use event_listener.Prelude.{ℕ, String, Option, none, some, List, map}
use event_listener.Outcome.{Result, ok, err, map_err}
use event_listener.Error.{RpcError}
use event_listener.Rpc.Params.{Value, prep_params_for_jsonrpsee}
use event_listener.Rpc.Client.{RpcClient}
use event_listener.Events.Filter.{Poll, pending, ready, Script}

-- `ClientT::request` and `SubscriptionClientT::subscribe`, for parameters of type `V`.
pub record Jsonrpsee (V E N : Type 0) : Type 0 where
  pub request : String → Option (List V) → N → Result (List ℕ) E × N
  pub subscribe : String → Option (List V) → String → N → Result (Script (Result (List ℕ) E)) E × N

-- `RpcError(e.to_string())`
unfoldable pub to_rpc_error : {E : Type 0} → (E → String) → E → RpcError
to_rpc_error to_string e = record { message = to_string e }

-- `prep_params_for_jsonrpsee(params)?`: without parameters there is no call.
unfoldable pub with_params :
    {V A N : Type 0}
    → Result (List V) RpcError
    → (List V → N → Result A RpcError × N)
    → N
    → Result A RpcError × N
with_params (ok params) call n = call params n
with_params (err e) call n = (err e, n)

abbrev pub map_call :
    {A B E N : Type 0} → (A → B) → (E → RpcError) → Result A E × N → Result B RpcError × N
map_call f g (ok a, n) = (ok (f a), n)
map_call f g (err e, n) = (err (g e), n)

-- `.map_err(..)` on the items of a stream.
unfoldable pub map_item :
    {E : Type 0}
    → (E → RpcError)
    → Poll (Option (Result (List ℕ) E))
    → Poll (Option (Result (List ℕ) RpcError))
map_item g pending = pending
map_item g (ready none) = ready none
map_item g (ready (some r)) = ready (some (map_err g r))

module _ {V E N : Type 0} (to_value : List ℕ → Value V) (show : List ℕ → String)
    (to_string : E → String) (client : Jsonrpsee V E N) where
  unfoldable pub request_raw : String → Option (List ℕ) → N → Result (List ℕ) RpcError × N
  unfolding prep_params_for_jsonrpsee with_params to_rpc_error
  request_raw method params =
      with_params (prep_params_for_jsonrpsee to_value show params)
        λ p n. map_call (λ res. res) (to_rpc_error to_string) (client.request method (some p) n)

  unfoldable pub subscribe_raw :
      String
      → Option (List ℕ)
      → String
      → N
      → Result (Script (Result (List ℕ) RpcError)) RpcError × N
  unfolding prep_params_for_jsonrpsee with_params to_rpc_error map_item
  subscribe_raw sub params unsub =
      with_params (prep_params_for_jsonrpsee to_value show params) λ p n.
        map_call (map (map_item (to_rpc_error to_string))) (to_rpc_error to_string)
          (client.subscribe sub (some p) unsub n)

  -- The methods of the trait.
  unfoldable pub rpc_client : RpcClient N (Script (Result (List ℕ) RpcError))
  unfolding request_raw subscribe_raw
  rpc_client = record { request_raw = request_raw; subscribe_raw = subscribe_raw }
