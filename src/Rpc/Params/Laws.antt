-- ===== src/Rpc/Params/Laws.antt =====
-- The text that `RpcParams` of event-listener/src/rpc/rpc_client.rs builds.
use event_listener.Prelude.{
  ℕ, ◌≡◌, refl, sym, ap, ◌∙◌, Bool, true, false, Option, none, some, List, [], ◌∷◌, ◌++◌,
  append_assoc, append-nil, All,
}
use event_listener.Outcome.{ok, err, done, panic, and_run}
use event_listener.Error.{SerdeError, serialization}
use event_listener.Rpc.Params.{
  Serialized, new, separator, push, close, build, push_expect, push_all, rpc_params,
}

-- The value has been serialized.
abbrev pub IsSerialized : Serialized → Type 0
IsSerialized v = v.outcome ≡ ok tt

-- `,v` for each value.
abbrev pub with_commas : List Serialized → List ℕ
with_commas [] = []
with_commas (v ∷ vs) = b',' ∷ (v.written ++ with_commas vs)

-- The JSON array of the values.
abbrev pub json_array : List Serialized → Option (List ℕ)
json_array [] = none
json_array (v ∷ vs) = some (b'[' ∷ ((v.written ++ with_commas vs) ++ (b']' ∷ [])))

push_all-commas :
    (vs : List Serialized) (b : ℕ) (bs : List ℕ)
    → All IsSerialized vs
    → push_all (record { bytes = b ∷ bs }) vs ≡ done (record { bytes = (b ∷ bs) ++ with_commas vs })
unfolding push_all push push_expect separator
push_all-commas [] b bs h = ap (λ l. done (record { bytes = b ∷ l })) (sym (append-nil bs))
push_all-commas (v ∷ vs) b bs (s, h) = rw s (
    push_all-commas vs b (bs ++ (b',' ∷ v.written)) h
    ∙ ap (λ l. done (record { bytes = b ∷ l }))
        (append_assoc bs (b',' ∷ v.written) (with_commas vs)))

module _ (is_json : List ℕ → Bool) where
  -- Where every value has been serialized and the text of their array is JSON by the check of
  -- `RawValue::from_string`, `rpc_params!` and then `build` do not panic, and give that text: no
  -- parameters for no values, and else the values in their order, separated by commas, in
  -- brackets.
  pub build-rpc_params :
      (vs : List Serialized)
      → All IsSerialized vs
      → ((text : List ℕ) → json_array vs ≡ some text → is_json text ≡ true)
      → and_run (rpc_params vs) (λ p. build is_json p) ≡ done (json_array vs)
  unfolding rpc_params push_all push push_expect build close new separator
  build-rpc_params [] h j = refl
  build-rpc_params (v ∷ vs) (s, h) j =
      rw s (rw (push_all-commas vs b'[' v.written h) (rw (j _ refl) refl))

  -- A push that fails before it has written anything leaves its separator behind: where no JSON text
  -- starts with `[,`, a `build` after the failed first push and any second one panics.
  pub build-push_failed :
      (v w : Serialized) (e : SerdeError)
      → v.outcome ≡ err e
      → v.written ≡ []
      → ((bs : List ℕ) → is_json (b'[' ∷ (b',' ∷ bs)) ≡ false)
      → ((push new v).0 ≡ err (serialization e)) × (build is_json (push (push new v).1 w).1 ≡ panic)
  unfolding push new separator build close
  build-push_failed v w e h k j = rw h (rw k (rw (j (w.written ++ (b']' ∷ []))) (refl, refl)))
