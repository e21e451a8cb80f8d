-- ===== src/Node/Tasks/Ends.antt =====
-- How an action of node/src/service.rs ends: the state it leaves with a result, and with an error.
use event_listener.Prelude.{
  ◌≡◌, refl, sym, ap, ◌∙◌, String, Bool, true, false, Option, some, List, [], ◌∷◌, ◌++◌, append-nil,
}
use event_listener.Outcome.{Result, ok, err, Run, done, panic, and_run}
use event_listener.Node.Tasks.{
  fail, set_started, Task, ServiceError, State, Act, and_then, ◌>>=◌, pure, call, converted,
  call_into, throw, from_crate, effect, expect_some, spawn, when,
}

abbrev pub IsPrefix : List Task → List Task → Type 0
IsPrefix ts all = (rest : List Task) × (ts ++ rest ≡ all)

-- The tasks of a part that is run under a condition.
abbrev pub part : Bool → List Task → List Task
part true us = us
part false us = []

module _ {World : Type 0} where
  -- It does not panic, and `Q` holds with a result, `R` with an error.
  unfoldable pub Ends :
      {A : Type 0}
      → (A → State World → Type 0)
      → (State World → Type 0)
      → Run (Result A ServiceError × State World)
      → Type 0
  Ends Q R (done (ok a, s)) = Q a s
  Ends Q R (done (err e, s)) = R s
  Ends Q R panic = ⊥

  -- The tasks so far, before the network is started.
  abbrev pub At : List Task → State World → Type 0
  At ts s = (s.spawned ≡ ts) × (s.network_started ≡ false)

  abbrev pub Leaving : {A : Type 0} → List Task → A → State World → Type 0
  Leaving ts a s = At ts s

  -- The tasks are the first ones of `all`, and the network is not started.
  abbrev pub Stopped : List Task → State World → Type 0
  Stopped all s = (rest : List Task) × (s.spawned ++ rest ≡ all) × (s.network_started ≡ false)

  and_then-Ends :
      {A B : Type 0} (P : A → State World → Type 0) (Q : B → State World → Type 0)
      (R : State World → Type 0) (r : Run (Result A ServiceError × State World))
      (k : A → Act World B)
      → Ends P R r
      → ((a : A) (s : State World) → P a s → Ends Q R (k a s))
      → Ends Q R (and_run r (and_then k))
  unfolding and_then Ends
  and_then-Ends P Q R (done (ok a, s)) k h next = next a s h
  and_then-Ends P Q R (done (err e, s)) k h next = h
  and_then-Ends P Q R panic k h next = h

  module _ {B : Type 0} (Q : B → State World → Type 0) (R : State World → Type 0) where
    -- Sequencing.
    pub >>=-Ends :
        {A : Type 0} (P : A → State World → Type 0) (m : Act World A) (k : A → Act World B)
        (s : State World)
        → Ends P R (m s)
        → ((a : A) (t : State World) → P a t → Ends Q R (k a t))
        → Ends Q R ((m >>= k) s)
    unfolding ◌>>=◌
    >>=-Ends P m k s h next = and_then-Ends P Q R (m s) k h next

    pub pure-Ends : (b : B) (s : State World) → Q b s → Ends Q R (pure b s)
    unfolding pure Ends
    pure-Ends b s h = h

    pub effect-then :
        {A : Type 0} (f : World → A × World) (k : A → Act World B) (ts : List Task)
        (s : State World)
        → At ts s
        → ((a : A) (t : State World) → At ts t → Ends Q R (k a t))
        → Ends Q R ((effect f >>= k) s)
    unfolding effect ◌>>=◌ and_then
    effect-then f k ts s h next = next (f s.world).0 _ h

    pub spawn-then :
        (t : Task) (k : Unit {0} → Act World B) (ts : List Task) (s : State World)
        → At ts s
        → ((u : State World) → At (ts ++ (t ∷ [])) u → Ends Q R (k tt u))
        → Ends Q R ((spawn t >>= k) s)
    unfolding spawn ◌>>=◌ and_then
    spawn-then t k ts s (h, g) next = next _ (ap (λ l. l ++ (t ∷ [])) h, g)

  converted-Ends :
      {A : Type 0} (ts all : List Task) (s : State World) (r : Result A String × World)
      → At ts s
      → IsPrefix ts all
      → Ends (Leaving ts) (Stopped all) (done (converted from_crate s r))
  unfolding converted Ends
  converted-Ends ts all s (ok a, w) h p = h
  converted-Ends ts all s (err e, w) (h, g) (rest, p) = (rest, ap (λ t. t ++ rest) h ∙ p, g)

  -- A call that may fail.
  pub call-then :
      {A B : Type 0} (Q : B → State World → Type 0) (all : List Task)
      (f : World → Result A String × World) (k : A → Act World B) (ts : List Task) (s : State World)
      → At ts s
      → IsPrefix ts all
      → ((a : A) (t : State World) → At ts t → Ends Q (Stopped all) (k a t))
      → Ends Q (Stopped all) ((call f >>= k) s)
  unfolding call call_into
  call-then Q all f k ts s h p next =
      >>=-Ends Q (Stopped all) (Leaving ts) (call f) k s (converted-Ends ts all s (f s.world) h p)
        next

  pub spawn-Ends :
      (R : State World → Type 0) (t : Task) (ts : List Task) (s : State World)
      → At ts s
      → Ends (Leaving (ts ++ (t ∷ []))) R (spawn t s)
  unfolding spawn Ends
  spawn-Ends R t ts s (h, g) = (ap (λ l. l ++ (t ∷ [])) h, g)

  pub when-Ends :
      (R : State World → Type 0) (b : Bool) (m : Act World (Unit {0})) (ts us : List Task)
      (s : State World)
      → At ts s
      → Ends (Leaving (ts ++ us)) R (m s)
      → Ends (Leaving (ts ++ part b us)) R (when b m s)
  unfolding when pure Ends
  when-Ends R true m ts us s h run = run
  when-Ends R false m ts us s (h, g) run = (h ∙ sym (append-nil ts), g)

  -- A failure before the network is started.
  pub fail-Ends :
      {A : Type 0} (Q : A → State World → Type 0) (all : List Task) (text : String) (ts : List Task)
      (s : State World)
      → At ts s
      → IsPrefix ts all
      → Ends Q (Stopped all) (fail text s)
  unfolding fail throw Ends
  fail-Ends Q all text ts s (h, g) (rest, p) = (rest, ap (λ t. t ++ rest) h ∙ p, g)

  pub effect-Ends :
      {A : Type 0} (R : State World → Type 0) (f : World → A × World) (ts : List Task)
      (s : State World)
      → At ts s
      → Ends (Leaving ts) R (effect f s)
  unfolding effect Ends
  effect-Ends R f ts s h = h

  abbrev pub Started : List Task → Unit {0} → State World → Type 0
  Started all a s = (s.spawned ≡ all) × (s.network_started ≡ true)

  pub set_started-Ends :
      (R : State World → Type 0) (all ts : List Task) (s : State World)
      → At ts s
      → ts ≡ all
      → Ends (Started all) R (set_started s)
  unfolding set_started Ends
  set_started-Ends R all ts s (h, g) e = (h ∙ e, refl)

  pub expect_some-then :
      {A B : Type 0} (Q : B → State World → Type 0) (R : State World → Type 0) (o : Option A)
      (a : A) (k : A → Act World B) (s : State World)
      → o ≡ some a
      → Ends Q R (k a s)
      → Ends Q R ((expect_some o >>= k) s)
  unfolding expect_some ◌>>=◌ and_then
  expect_some-then Q R o a k s e h = rw e h

  -- A part without tasks.
  pub when_only :
      (R : State World → Type 0) (b : Bool) (m : Act World (Unit {0})) (ts : List Task)
      (s : State World)
      → At ts s
      → Ends (Leaving ts) R (m s)
      → Ends (Leaving ts) R (when b m s)
  unfolding when pure Ends
  when_only R true m ts s h run = run
  when_only R false m ts s h run = h

  -- Of a call whose value always satisfies `P`.
  pub effect-gives :
      {A : Type 0} (P : A → Type 0) (R : State World → Type 0) (f : World → A × World)
      (ts : List Task) (s : State World)
      → ((w : World) → P (f w).0)
      → At ts s
      → Ends (λ a t. At ts t × P a) R (effect f s)
  unfolding effect Ends
  effect-gives P R f ts s law h = (h, law s.world)

  pub Ends-mono :
      {A : Type 0} (P Q : A → State World → Type 0) (R S : State World → Type 0)
      (r : Run (Result A ServiceError × State World))
      → ((a : A) (s : State World) → P a s → Q a s)
      → ((s : State World) → R s → S s)
      → Ends P R r
      → Ends Q S r
  unfolding Ends
  Ends-mono P Q R S (done (ok a, s)) f g h = f a s h
  Ends-mono P Q R S (done (err e, s)) f g h = g s h
  Ends-mono P Q R S panic f g h = h
