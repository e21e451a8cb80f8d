-- ===== src/Node/Tasks.antt =====
-- Code of node/src/service.rs that changes the world, spawns tasks, and may fail or panic. The task
-- manager is the list of the tasks that this code gives it; what crates spawn through its handles is
-- part of the world.
pub mod Ends
use event_listener.Prelude.{String, Bool, true, false, Option, List, [], ◌∷◌, ◌++◌}
use event_listener.Outcome.{Result, ok, err, Run, done, panic, expect, and_run, map_run}

-- A task, and how it is spawned.
pub record Task : Type 0 where
  pub name : String
  pub group : Option String
  pub essential : Bool
  pub blocking : Bool

-- `ServiceError`: `Other`, and the errors that `?` converts, by the text that they show.
pub data ServiceError : Type 0 where
  other from_crate : String → ServiceError

pub record State (World : Type 0) : Type 0 where
  pub world : World
  pub spawned : List Task
  pub network_started : Bool

-- Code with errors of a type `E`.
abbrev pub Action : Type 0 → Type 0 → Type 0 → Type 0
Action World E A = State World → Run (Result A E × State World)

abbrev pub Act : Type 0 → Type 0 → Type 0
Act World A = Action World ServiceError A

module _ {World : Type 0} where
  module _ {E : Type 0} where
    unfoldable pub and_then :
        {A B : Type 0}
        → (A → Action World E B)
        → Result A E × State World
        → Run (Result B E × State World)
    and_then k (ok a, s) = k a s
    and_then k (err e, s) = done (err e, s)

    -- The `?` operator.
    infixl 5 ◌>>=◌ ◌>>◌
    unfoldable pub ◌>>=◌ :
        {A B : Type 0} → Action World E A → (A → Action World E B) → Action World E B
    unfolding and_then
    ◌>>=◌ m k s = and_run (m s) (and_then k)

    abbrev pub ◌>>◌ : {A B : Type 0} → Action World E A → Action World E B → Action World E B
    m >> k = m >>= λ _. k

    unfoldable pub pure : {A : Type 0} → A → Action World E A
    pure a s = done (ok a, s)

    unfoldable pub throw : {A : Type 0} → E → Action World E A
    throw e s = done (err e, s)

    -- A call of a crate that may fail, with the conversion of its error.
    unfoldable pub converted :
        {A X : Type 0} → (X → E) → State World → Result A X × World → Result A E × State World
    converted into s (ok a, w) = (ok a, record s { world = w })
    converted into s (err e, w) = (err (into e), record s { world = w })

    unfoldable pub call_into :
        {A X : Type 0} → (X → E) → (World → Result A X × World) → Action World E A
    unfolding converted
    call_into into f s = done (converted into s (f s.world))

    -- A call of a crate that does not fail.
    unfoldable pub effect : {A : Type 0} → (World → A × World) → Action World E A
    effect f s = let (a, w) = f s.world in done (ok a, record s { world = w })

    unfoldable pub expect_some : {A : Type 0} → Option A → Action World E A
    expect_some o s = map_run (λ a. (ok a, s)) (expect o)

    unfoldable pub spawn : Task → Action World E (Unit {0})
    spawn t s = done (ok tt, record s { spawned = s.spawned ++ (t ∷ []) })

    unfoldable pub set_started : Action World E (Unit {0})
    set_started s = done (ok tt, record s { network_started = true })

    -- `if b { .. }`
    unfoldable pub when : Bool → Action World E (Unit {0}) → Action World E (Unit {0})
    unfolding pure
    when true m = m
    when false m = pure tt

  -- `Err(ServiceError::Other(..))`
  unfoldable pub fail : {A : Type 0} → String → Act World A
  unfolding throw
  fail text = throw (other text)

  unfoldable pub call : {A : Type 0} → (World → Result A String × World) → Act World A
  unfolding call_into
  call f = call_into from_crate f
