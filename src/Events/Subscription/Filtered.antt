-- ===== src/Events/Subscription/Filtered.antt =====
-- `filter_events` of event-listener/src/events/event_subscription.rs: the stream of filter_events.rs
-- over the stream of event_subscription.rs. The filter polls the subscription, whose results are
-- those of its polls, one after the other.
use event_listener.Prelude.{
  ℕ, zero, suc, ◌+◌, ◌<◌, ◌≡◌, refl, sym, ap, ◌∙◌, inl, inr, Bool, true, false, Option, none, some,
  List, [], ◌∷◌, ◌++◌, length, arith,
}
use event_listener.Outcome.{Result, ok, err, Run, done, and_run, map_run}
use event_listener.Error.{Error}
use event_listener.Events.Codec.{Codec, IsLawful}
use event_listener.Events.Block.{Events, iter}
use event_listener.Events.Filter.{
  Poll, pending, ready, Script, FilterEvents, new, Attempt, EventFilter, attempt_of,
}
use event_listener.Events.Filter.Stream.{filter_all, Filtrate, matches, collect}
use event_listener.Events.Filter.Total.{collect-matches}
use event_listener.Events.Subscription.{
  Future, EventSubscription, poll_next, header_or_at, poll_header, resume,
}
use event_listener.Events.Subscription.Stream.{
  Block, blocks, blocks_from, work_from, ended, waits, yields, poll_next-case,
}

module _ {Header E Hash : Type 0} (hash : Header → Hash) (into : E → Error)
    (at_hash : Hash → Future (Result (Events Hash) Error)) where
  -- The results of a number of polls.
  unfoldable pub polls :
      ℕ → EventSubscription Header E Hash → Run (Script (Block hash into at_hash))
  polls zero s = done []
  polls (suc n) s =
      and_run (poll_next hash into at_hash s) λ r. map_run (λ ps. r.0 ∷ ps) (polls n r.1)

  unfoldable pub filter_events : ℕ → EventSubscription Header E Hash → Run (FilterEvents Hash)
  unfolding polls new
  filter_events n s = map_run new (polls n s)

  -- What a stream yields up to its end.
  abbrev pub yielded : Script (Block hash into at_hash) → List (Block hash into at_hash)
  yielded [] = []
  yielded (pending ∷ ps) = yielded ps
  yielded (ready none ∷ ps) = []
  yielded (ready (some x) ∷ ps) = x ∷ yielded ps

  -- The polls return, and yield exactly these blocks.
  abbrev pub Yields : ℕ → EventSubscription Header E Hash → List (Block hash into at_hash) → Type 0
  Yields n s bs =
      (ps : Script (Block hash into at_hash)) × (polls n s ≡ done ps)
      × (yielded ps ≡ bs)
      × (length ps ≡ n)

  Yields-suc :
      (n : ℕ) (s t : EventSubscription Header E Hash) (p : Poll (Option (Block hash into at_hash)))
      (bs cs : List (Block hash into at_hash))
      → poll_next hash into at_hash s ≡ done (p, t)
      → Yields n t bs
      → ((ps : Script (Block hash into at_hash)) → yielded ps ≡ bs → yielded (p ∷ ps) ≡ cs)
      → Yields (suc n) s cs
  unfolding polls
  Yields-suc n s t p bs cs e (ps, run, y, len) f = (p ∷ ps, rw (e, run) refl, f ps y, ap suc len)

  -- A subscription that has nothing more to come.
  idle-Yields :
      (n : ℕ) (finished : Bool) (at : Option (Future (Block hash into at_hash)))
      (sub : Script (Result Header E))
      → finished ≡ false
      → at ≡ none
      → sub ≡ []
      → Yields n (record { finished = finished; block_header_subscription = sub; at = at }) []
  unfolding poll_next header_or_at poll_header resume
  idle-Yields zero finished at sub e g h = (unfold polls in ([], refl, refl, refl))
  idle-Yields (suc n) false none [] e g h =
      Yields-suc n _ (record { finished = false; block_header_subscription = []; at = none })
        pending [] [] refl (idle-Yields n false none [] refl refl refl) (λ ps y. y)
  idle-Yields (suc n) true at sub e g h = cc
  idle-Yields (suc n) false (some f) sub e g h = cc
  idle-Yields (suc n) false none (p ∷ ps) e g h = cc

  -- The polls return, whatever they give.
  polls-done :
      (n : ℕ) (s : EventSubscription Header E Hash)
      → (ps : Script (Block hash into at_hash)) × (polls n s ≡ done ps) × (length ps ≡ n)
  unfolding polls
  polls-done zero s = ([], refl, refl)
  polls-done (suc n) s = elim (poll_next-case hash into at_hash s) [
    | ended t m f g ↦
        let (ps, e, len) = polls-done n t in (ready none ∷ ps, rw (m, e) refl, ap suc len)
    | waits t m f g k ↦
        let (ps, e, len) = polls-done n t in (pending ∷ ps, rw (m, e) refl, ap suc len)
    | yields x xs t m g k l ↦
        let (ps, e, len) = polls-done n t in (ready (some x) ∷ ps, rw (m, e) refl, ap suc len)
  ]

  -- With more polls than work is left, the polls yield the blocks of the specification.
  polls-Yields :
      (n : ℕ) (s : EventSubscription Header E Hash)
      → work_from hash into at_hash s < n
      → Yields n s (blocks_from hash into at_hash s)
  polls-Yields zero s h = elim h [ ]
  polls-Yields (suc n) s h = elim (poll_next-case hash into at_hash s) [
    | ended t m f g ↦
        let (ps, e, len) = polls-done n t in
        (ready none ∷ ps, (unfold polls in rw (m, e) refl), sym g, ap suc len)
    | waits t m f g (inl less) ↦
        Yields-suc n s t pending (blocks_from hash into at_hash t) _ m
          (polls-Yields n t (omega arith)) (λ ps y. y ∙ g)
    | waits t m f g (inr (no_future, no_headers)) ↦
        let no_blocks : blocks_from hash into at_hash t ≡ [] =
          unfold blocks in rw (f, no_future, no_headers) refl in
        Yields-suc n s t pending [] _ m
          (idle-Yields n t.finished t.at t.block_header_subscription f no_future no_headers)
          (λ ps y. y ∙ (sym no_blocks ∙ g))
    | yields x xs t m g k l ↦
        let (ps, run, same, len) = polls-Yields n t (omega arith) in
        Yields-suc n s t (ready (some x)) xs _ m (ps, run, same ∙ k, len)
          (λ ps y. ap (λ bs. x ∷ bs) y ∙ sym g)
  ]

module _ {Hash R : Type 0} (c : Codec Hash) (attempt : Attempt R) where
  -- The specification: the matches of each block, in their order, with the errors at their places.
  unfoldable pub matches_of : List (Result (Events Hash) Error) → Run (List (Filtrate c attempt))
  matches_of [] = done []
  matches_of (err e ∷ bs) = map_run (λ xs. err e ∷ xs) (matches_of bs)
  matches_of (ok evs ∷ bs) =
      let rest = matches_of bs in
      and_run (iter c evs) λ items.
        and_run (filter_all attempt evs.block_hash items) λ xs. map_run (λ ys. xs ++ ys) rest

  module _ {Header E : Type 0} (hash : Header → Hash) (into : E → Error)
      (at_hash : Hash → Future (Result (Events Hash) Error)) where
    matches-yielded :
        (ps : Script (Result (Events Hash) Error))
        → matches c attempt ps ≡ matches_of (yielded hash into at_hash ps)
    unfolding matches matches_of
    matches-yielded [] = refl
    matches-yielded (pending ∷ ps) = matches-yielded ps
    matches-yielded (ready none ∷ ps) = refl
    matches-yielded (ready (some (err e)) ∷ ps) = rw (matches-yielded ps) refl
    matches-yielded (ready (some (ok evs)) ∷ ps) = rw (matches-yielded ps) refl

module _ {Hash R Header E : Type 0} (c : Codec Hash) (law : IsLawful c) (f : EventFilter R)
    (hash : Header → Hash) (into : E → Error)
    (at_hash : Hash → Future (Result (Events Hash) Error)) where
  -- With decoders that take bytes off the front, for one event or a tuple of events as the filter,
  -- and a number of polls above the work that the subscription has left: no poll panics, and a
  -- consumer of the filtered subscription that polls often enough receives exactly the matches in
  -- the blocks that `at` gives for the headers, block by block, up to the end of the headers or
  -- their first error, which comes last.
  pub filter_events-matches_of :
      (n : ℕ) (s : EventSubscription Header E Hash)
      → work_from hash into at_hash s < n
      → (out : List (Filtrate c (attempt_of f))) × (stream : FilterEvents Hash) × (matches_of c
            (attempt_of f)
            (blocks_from hash into at_hash s)
          ≡ done out)
        × (filter_events hash into at_hash n s ≡ done stream)
        × (collect c (attempt_of f) (suc (length out + n)) stream ≡ done out)
  unfolding filter_events
  filter_events-matches_of n s h =
      let (ps, run, same, len) = polls-Yields hash into at_hash n s h in
      let (out, all, received) = collect-matches c law f ps in
      (
        out,
        new ps,
        ap (matches_of c (attempt_of f)) (sym same)
            ∙ (sym (matches-yielded c (attempt_of f) hash into at_hash ps) ∙ all),
        rw run refl,
        ap (λ k. collect c (attempt_of f) (suc (length out + k)) (new ps)) (sym len) ∙ received,
      )
