-- ===== src/Events/Subscription/Stream.antt =====
-- What a consumer of the stream of event_subscription.rs receives, whatever the polls that are
-- pending.
use event_listener.Prelude.{
  ℕ, zero, suc, ◌+◌, ◌≤◌, ◌<◌, ◌≡◌, refl, sym, ap, subst, ◌∙◌, ◌⊎◌, inl, inr, Bool, true, false,
  Option, none, some, List, [], ◌∷◌, arith, if◌then◌else◌,
}
use native.Mathlib.Nat.{zero-add}
use event_listener.Outcome.{Result, ok, err, Run, done, panic, and_run, map_run}
use event_listener.Error.{Error}
use event_listener.Events.Block.{Events}
use event_listener.Events.Filter.{pending, ready, Script}
use event_listener.Events.Subscription.{
  Future, EventSubscription, Polled, poll_header, poll_future, poll_at, resume, header_or_at,
  poll_next,
}

module _ {Header E Hash : Type 0} (hash : Header → Hash) (into : E → Error)
    (at_hash : Hash → Future (Result (Events Hash) Error)) where
  abbrev pub Block : Type 0
  Block = Result (Events Hash) Error

  -- The specification: what `at` gives for each header, in order, up to the end of the headers or
  -- the first error, which comes last.
  unfoldable pub blocks : Script (Result Header E) → List Block
  blocks [] = []
  blocks (pending ∷ sub) = blocks sub
  blocks (ready none ∷ sub) = []
  blocks (ready (some (err e)) ∷ sub) = err (into e) ∷ []
  blocks (ready (some (ok header)) ∷ sub) = (at_hash (hash header)).output ∷ blocks sub

  abbrev pub blocks_at : Option (Future Block) → Script (Result Header E) → List Block
  blocks_at none sub = blocks sub
  blocks_at (some f) sub = f.output ∷ blocks sub

  abbrev pub blocks_from : EventSubscription Header E Hash → List Block
  blocks_from s = if s.finished then [] else blocks_at s.at s.block_header_subscription

  -- How many polls the headers and the future still take, at most.
  unfoldable pub work : Script (Result Header E) → ℕ
  work [] = 0
  work (pending ∷ sub) = 1 + work sub
  work (ready none ∷ sub) = 1 + work sub
  work (ready (some (err e)) ∷ sub) = 1 + work sub
  work (ready (some (ok header)) ∷ sub) = 2 + (at_hash (hash header)).delay + work sub

  abbrev pub work_at : Option (Future Block) → ℕ
  work_at none = 0
  work_at (some f) = 1 + f.delay

  abbrev pub work_from : EventSubscription Header E Hash → ℕ
  work_from s = work_at s.at + work s.block_header_subscription

  -- Poll again, unless nothing more will come.
  abbrev pub on_pending :
      Run (List Block) → Option (Future Block) → Script (Result Header E) → Run (List Block)
  on_pending rest none [] = done []
  on_pending rest none (p ∷ ps) = rest
  on_pending rest (some f) sub = rest

  -- A consumer that polls until the stream ends or nothing more will come.
  unfoldable pub collect : ℕ → EventSubscription Header E Hash → Run (List Block)
  collect zero s = panic
  collect (suc fuel) s = and_run (poll_next hash into at_hash s) λ r. elim r.0 [
    | ready none ↦ done []
    | ready (some x) ↦ map_run (λ xs. x ∷ xs) (collect fuel r.1)
    | pending ↦ on_pending (collect fuel r.1) r.1.at r.1.block_header_subscription
  ]

  -- What one poll does; `out` is still to come, and `n` is the work that is left.
  pub data PollCase (n : ℕ) (out : List Block) (m : Run (Polled Header E Hash)) : Type 0 where
    ended :
        (s : EventSubscription Header E Hash)
        → m ≡ done (ready none, s)
        → s.finished ≡ true
        → out ≡ []
        → PollCase n out m
    waits :
        (s : EventSubscription Header E Hash)
        → m ≡ done (pending, s)
        → s.finished ≡ false
        → blocks_from s ≡ out
        → (work_from s < n) ⊎ ((s.at ≡ none) × (s.block_header_subscription ≡ []))
        → PollCase n out m
    yields :
        (x : Block) (xs : List Block) (s : EventSubscription Header E Hash)
        → m ≡ done (ready (some x), s)
        → out ≡ x ∷ xs
        → blocks_from s ≡ xs
        → work_from s < n
        → PollCase n out m

  poll_future-case :
      (sub : Script (Result Header E)) (delay : ℕ) (x : Block) (at : Option (Future Block)) (n : ℕ)
      → 1 + delay + work sub ≤ n
      → PollCase n (x ∷ blocks sub) (
          done (
            poll_future hash into at_hash
              (record { finished = false; block_header_subscription = sub; at = at })
              delay
              x))
  unfolding poll_future
  poll_future-case sub zero x at n h = yields x (blocks sub) _ refl refl refl (omega arith)
  poll_future-case sub (suc d) x at n h = waits _ refl refl refl (inl (omega arith))

  poll_header-case :
      (sub : Script (Result Header E))
      → PollCase (work sub) (blocks sub) (
          resume hash into at_hash (
            poll_header hash into at_hash
              (record { finished = false; block_header_subscription = sub; at = none })
              sub))
  unfolding blocks work poll_header resume
  poll_header-case [] = waits _ refl refl refl (inr (refl, refl))
  poll_header-case (pending ∷ sub) = waits _ refl refl refl (inl (omega arith))
  poll_header-case (ready none ∷ sub) = ended _ refl refl refl
  poll_header-case (ready (some (err e)) ∷ sub) =
      yields (err (into e)) [] _ refl refl refl (omega arith)
  poll_header-case (ready (some (ok header)) ∷ sub) =
      poll_future-case sub (at_hash (hash header)).delay (at_hash (hash header)).output
        (some (at_hash (hash header))) (2 + (at_hash (hash header)).delay + work sub) (omega arith)

  poll_next-case_by :
      (finished : Bool) (sub : Script (Result Header E)) (at : Option (Future Block))
      → PollCase
          (work_from (record { finished = finished; block_header_subscription = sub; at = at }))
          (blocks_from (record { finished = finished; block_header_subscription = sub; at = at }))
          (poll_next hash into at_hash
            (record { finished = finished; block_header_subscription = sub; at = at }))
  unfolding poll_next header_or_at resume poll_at
  poll_next-case_by true sub at = ended _ refl refl refl
  poll_next-case_by false sub none = rw zero-add (poll_header-case sub)
  poll_next-case_by false sub (some f) =
      poll_future-case sub f.delay f.output (some f) _ (omega arith)

  pub poll_next-case :
      (s : EventSubscription Header E Hash)
      → PollCase (work_from s) (blocks_from s) (poll_next hash into at_hash s)
  poll_next-case s = poll_next-case_by s.finished s.block_header_subscription s.at

  pending-case :
      (fuel n : ℕ) (s : EventSubscription Header E Hash) (at : Option (Future Block))
      (sub : Script (Result Header E)) (out : List Block)
      → blocks_at at sub ≡ out
      → (work_from s < n) ⊎ ((at ≡ none) × (sub ≡ []))
      → (work_from s < n → collect fuel s ≡ done out)
      → on_pending (collect fuel s) at sub ≡ done out
  unfolding blocks
  pending-case fuel n s none [] out e k ih = ap done e
  pending-case fuel n s none (p ∷ ps) out e (inl l) ih = ih l
  pending-case fuel n s none (p ∷ ps) out e (inr (z, y)) ih = cc
  pending-case fuel n s (some f) sub out e (inl l) ih = ih l
  pending-case fuel n s (some f) sub out e (inr (z, y)) ih = cc

  -- With more polls than work is left, a consumer receives exactly the blocks that the specification
  -- lists from the state on, and no poll panics.
  pub collect-blocks_from :
      (fuel : ℕ) (s : EventSubscription Header E Hash)
      → work_from s < fuel
      → collect fuel s ≡ done (blocks_from s)
  unfolding collect
  collect-blocks_from zero s h = elim h [ ]
  collect-blocks_from (suc fuel) s h = elim (poll_next-case s) [
    | ended s' m z g ↦ rw (m, g) refl
    | waits s' m live g k ↦ rw m (
        pending-case fuel (work_from s) s' s'.at s'.block_header_subscription (blocks_from s)
          (let e : blocks_from s' ≡ blocks_at s'.at s'.block_header_subscription = rw live refl in
            sym e ∙ g)
          k (λ l. collect-blocks_from fuel s' (omega arith) ∙ ap done g))
    | yields x xs s' m g k n ↦
        rw (m, collect-blocks_from fuel s' (omega arith)) (ap done (ap (λ t. x ∷ t) k ∙ sym g))
  ]

  pub poll_next-when_finished :
      (s : EventSubscription Header E Hash)
      → s.finished ≡ true
      → poll_next hash into at_hash s ≡ done (ready none, s)
  unfolding poll_next
  poll_next-when_finished s f = ground arith

  -- Once the stream has returned `None`, every further poll returns `None` at once, and changes
  -- nothing: a consumer that goes on polling never waits.
  pub poll_next_finished :
      (s t : EventSubscription Header E Hash)
      → poll_next hash into at_hash s ≡ done (ready none, t)
      → poll_next hash into at_hash t ≡ done (ready none, t)
  poll_next_finished s t h = elim (poll_next-case s) [
    | ended s' m f g ↦
        let same : s' ≡ t = cc in
        subst (λ u. poll_next hash into at_hash u ≡ done (ready none, u)) same
          (poll_next-when_finished s' f)
    | waits s' m live g k ↦ cc
    | yields x xs s' m g k n ↦ cc
  ]
