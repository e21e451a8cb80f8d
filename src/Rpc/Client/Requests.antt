-- ===== src/Rpc/Client/Requests.antt =====
-- What the requests of event-listener/src/rpc send to the node.
use event_listener.Prelude.{ℕ, ◌≡◌, refl, ◌∙◌, Bool, true, some, List, String, All}
use event_listener.Outcome.{Result, map_err, Run, done, panic, and_run}
use event_listener.Error.{serialization, SerdeError}
use event_listener.Rpc.Params.{Serialized, build, rpc_params}
use event_listener.Rpc.Params.Laws.{IsSerialized, json_array, build-rpc_params}
use event_listener.Rpc.Client.{await, lift, raw, RpcClient, request}

pub and_run_assoc :
    {A B C : Type 0} (r : Run A) (f : A → Run B) (g : B → Run C)
    → and_run r (λ a. and_run (f a) g) ≡ and_run (and_run r f) g
and_run_assoc (done a) f g = refl
and_run_assoc panic f g = refl

module _ {N Sub Res : Type 0} (is_json : List ℕ → Bool) (client : RpcClient N Sub)
    (from_str : List ℕ → Result Res SerdeError) where
  -- Where every parameter has been serialized and their array is JSON, a request with them does not
  -- panic: it calls the node once, with the array of the parameters in their order (with no
  -- parameters, where there are none), and decodes its answer.
  pub request-rpc_params :
      (method : String) (vs : List Serialized) (n : N)
      → All IsSerialized vs
      → ((text : List ℕ) → json_array vs ≡ some text → is_json text ≡ true)
      → and_run (rpc_params vs) (λ p. request is_json client from_str method p n)
        ≡ await
            (raw (client.request_raw method (json_array vs)))
            (λ res. lift (map_err serialization (from_str res)))
            n
  unfolding request
  request-rpc_params method vs n h j =
      and_run_assoc (rpc_params vs) (build is_json) _ ∙ rw (build-rpc_params is_json vs h j) refl
