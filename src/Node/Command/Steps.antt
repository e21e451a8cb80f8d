-- ===== src/Node/Command/Steps.antt =====
-- States of the set-up in node/src/service.rs that are offline, and the code that keeps them so.
use event_listener.Prelude.{◌≡◌, false, [], All}
use event_listener.Outcome.{Result, ok, err, Run, done, panic, and_run}
use event_listener.Node.Tasks.{State, Action, and_then, ◌>>=◌, converted}
use event_listener.Node.Tasks.Ends.{At}
use event_listener.Node.Service.{telemetry_task}

-- The network is not started, and no task runs but that of the telemetry.
abbrev pub IsOffline : {World : Type 0} → State World → Type 0
IsOffline s = (s.network_started ≡ false) × All (λ t. t ≡ telemetry_task) s.spawned

module _ {World : Type 0} where
  -- It does not panic, and is offline then, with a result or an error.
  unfoldable pub EndsOffline : {A E : Type 0} → Run (Result A E × State World) → Type 0
  EndsOffline (done (r, s)) = IsOffline s
  EndsOffline panic = ⊥

  and_then-EndsOffline :
      {A B E : Type 0} (r : Run (Result A E × State World)) (k : A → Action World E B)
      → EndsOffline r
      → ((a : A) (s : State World) → IsOffline s → EndsOffline (k a s))
      → EndsOffline (and_run r (and_then k))
  unfolding EndsOffline and_then
  and_then-EndsOffline (done (ok a, s)) k h next = next a s h
  and_then-EndsOffline (done (err e, s)) k h next = h
  and_then-EndsOffline panic k h next = h

  pub >>=-EndsOffline :
      {A B E : Type 0} (m : Action World E A) (k : A → Action World E B) (s : State World)
      → EndsOffline (m s)
      → ((a : A) (t : State World) → IsOffline t → EndsOffline (k a t))
      → EndsOffline ((m >>= k) s)
  unfolding ◌>>=◌
  >>=-EndsOffline m k s h next = and_then-EndsOffline (m s) k h next

  pub converted-EndsOffline :
      {A X E : Type 0} (into : X → E) (s : State World) (r : Result A X × World)
      → IsOffline s
      → EndsOffline (done (converted into s r))
  unfolding EndsOffline converted
  converted-EndsOffline into s (ok a, w) h = h
  converted-EndsOffline into s (err e, w) h = h

  -- After the runner has made the configuration: nothing has been spawned.
  pub converted-runner :
      {A B X E : Type 0} (into : X → E) (k : A → Action World E B) (s : State World)
      (r : Result A X × World)
      → At [] s
      → IsOffline s
      → ((a : A) (t : State World) → At [] t → IsOffline t → EndsOffline (k a t))
      → EndsOffline (and_then k (converted into s r))
  unfolding EndsOffline and_then converted
  converted-runner into k s (ok a, w) h o next = next a _ h o
  converted-runner into k s (err e, w) h o next = o
