-- ===== src/Tests/Requests.antt =====
-- Parameters and requests.
use event_listener.Prelude.{ℕ, ◌≡◌, ◌==◌, ◌&&◌, not, refl, subst, Bool, true, some, List, [], ◌∷◌}
use event_listener.Outcome.{ok, err, done, panic, and_run}
use event_listener.Error.{serialization}
use event_listener.Rpc.Params.{Serialized, new, push, build, rpc_params}
use event_listener.Rpc.Params.Laws.{json_array, build-rpc_params, build-push_failed}

abbrev serialized : List ℕ → Serialized
serialized bytes = record { written = bytes; outcome = ok tt }

-- What does not start with `[,`.
abbrev is_json : List ℕ → Bool
is_json (a ∷ (b ∷ bs)) = not (a == b'[' && b == b',')
is_json _ = true

one_two-is_json :
    (text : List ℕ)
    → json_array (serialized (b'1' ∷ []) ∷ (serialized (b'2' ∷ []) ∷ [])) ≡ some text
    → is_json text ≡ true
one_two-is_json text e =
    let same : b'[' ∷ (b'1' ∷ (b',' ∷ (b'2' ∷ (b']' ∷ [])))) ≡ text = cc in
    subst (λ t. is_json t ≡ true) same refl

build-rpc_params_example :
    and_run
      (rpc_params (serialized (b'1' ∷ []) ∷ (serialized (b'2' ∷ []) ∷ [])))
      (λ p. build is_json p)
    ≡ done (json_array (serialized (b'1' ∷ []) ∷ (serialized (b'2' ∷ []) ∷ [])))
build-rpc_params_example =
    build-rpc_params is_json (serialized (b'1' ∷ []) ∷ (serialized (b'2' ∷ []) ∷ []))
      (refl, (refl, tt)) one_two-is_json

build-push_failed_example :
    ((push new (record { written = []; outcome = err "map key" })).0
      ≡ err (serialization "map key"))
    × (build is_json
          (push
            (push new (record { written = []; outcome = err "map key" })).1
            (serialized (b'1' ∷ []))).1
        ≡ panic)
build-push_failed_example =
    build-push_failed is_json (record { written = []; outcome = err "map key" })
      (serialized (b'1' ∷ [])) "map key" refl refl (λ bs. refl)
