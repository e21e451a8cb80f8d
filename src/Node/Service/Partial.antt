-- ===== src/Node/Service/Partial.antt =====
-- How `new_partial` of node/src/service.rs ends.
use event_listener.Prelude.{◌≡◌, refl, ◌∙◌, String, Option, none, some, List, [], ◌∷◌}
use event_listener.Node.Tasks.{Task, State}
use event_listener.Node.Tasks.Ends.{
  Ends, At, Stopped, IsPrefix, Leaving, >>=-Ends, pure-Ends, effect-then, call-then, spawn-Ends,
  fail-Ends, Ends-mono,
}
use event_listener.Node.Substrate.{Configuration, Crates}
use event_listener.Node.Service.{
  non_empty, telemetry_task, start_telemetry, spawn_worker, partial_parts, refuse_remote,
  new_partial,
}

-- The first tasks of a configuration.
abbrev pub telemetry_part : {A : Type 0} → Option A → List Task
telemetry_part none = []
telemetry_part (some a) = telemetry_task ∷ []

module _ {Endpoint : Type 0} (config : Configuration Endpoint) where
  abbrev pub first_tasks : List Task
  first_tasks = telemetry_part (non_empty config.telemetry_endpoints)

module _ (x : Crates) (all : List Task) where
  -- The telemetry is there if there are endpoints.
  abbrev pub Reporting : Option (List x.Endpoint) → Option x.Telemetry → State x.World → Type 0
  Reporting endpoints telemetry s = At [] s × (telemetry_part telemetry ≡ telemetry_part endpoints)

  start_telemetry-Ends :
      (endpoints : Option (List x.Endpoint)) (s : State x.World)
      → At [] s
      → Ends (Reporting endpoints) (Stopped all) (start_telemetry x endpoints s)
  unfolding start_telemetry
  start_telemetry-Ends none s h = pure-Ends _ _ _ _ (h, refl)
  start_telemetry-Ends (some endpoints) s h =
      call-then _ all _ _ [] s h (all, refl)
        λ worker t g. effect-then _ _ _ _ [] t g λ telemetry u i. pure-Ends _ _ _ _ (i, refl)

  spawn_worker-Ends :
      (telemetry : Option x.Telemetry) (s : State x.World)
      → At [] s
      → Ends (Leaving (telemetry_part telemetry)) (Stopped all) (spawn_worker x telemetry s)
  unfolding spawn_worker
  spawn_worker-Ends none s h = pure-Ends _ _ _ _ h
  spawn_worker-Ends (some telemetry) s h = spawn-Ends _ _ [] s h

  module _ (config : Configuration x.Endpoint) where
    abbrev pub first : List Task
    first = first_tasks config

    partial_parts-Ends :
        (s : State x.World)
        → At [] s
        → IsPrefix first all
        → Ends (Leaving first) (Stopped all) (partial_parts x config s)
    unfolding partial_parts
    partial_parts-Ends s h p =
        >>=-Ends _ _ (Reporting (non_empty config.telemetry_endpoints)) _ _ s
          (start_telemetry-Ends (non_empty config.telemetry_endpoints) s h)
          λ telemetry t (g, same).
            call-then _ all _ _ [] t g (all, refl)
              λ parts u h2.
                >>=-Ends _ _ (Leaving (telemetry_part telemetry)) _ _ u
                  (spawn_worker-Ends telemetry u h2)
                  λ end v (ts, off).
                    effect-then _ _ _ _ first v (ts ∙ same, off)
                      λ pool w h4. call-then _ all _ _ first w h4 p λ imports y h5.
                        call-then _ all _ _ first y h5 p λ slots z h6.
                          call-then _ all _ _ first z h6 p λ queue last h7. pure-Ends _ _ _ _ h7

    refuse_remote-Ends :
        (o : Option String) (s : State x.World)
        → At [] s
        → Ends (λ a t. At [] t × (o ≡ none)) (Stopped all) (refuse_remote x o s)
    unfolding refuse_remote
    refuse_remote-Ends none s h = pure-Ends _ _ _ _ (h, refl)
    refuse_remote-Ends (some url) s h = fail-Ends _ all _ [] s h (all, refl)

    pub new_partial-Ends :
        (s : State x.World)
        → At [] s
        → IsPrefix first all
        → Ends
            (λ p t. At first t × (config.keystore_remote ≡ none))
            (Stopped all)
            (new_partial x config s)
    unfolding new_partial
    new_partial-Ends s h p =
        >>=-Ends _ _ (λ a t. At [] t × (config.keystore_remote ≡ none)) _ _ s
          (refuse_remote-Ends config.keystore_remote s h)
          λ a t (g, no_remote).
            Ends-mono (Leaving first) _ _ _ _ (λ parts u i. (i, no_remote)) (λ u i. i)
              (partial_parts-Ends t g p)
