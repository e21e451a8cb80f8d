-- ===== src/Example/Received.antt =====
-- The loops of event-listener-example/src/lib.rs on the stream of blocks of event_subscription.rs.
use event_listener.Prelude.{
  ℕ, zero, suc, ◌<◌, ◌≡◌, refl, sym, ap, ◌∙◌, inl, inr, true, false, none, List, [], ◌∷◌, ◌++◌,
  arith,
}
use event_listener.Outcome.{Result, Run, done, panic, and_run, map_run}
use event_listener.Error.{Error}
use event_listener.Events.Codec.{Codec}
use event_listener.Events.Block.{Events}
use event_listener.Events.Subscription.{
  Future, EventSubscription, poll_next, poll_header, resume, header_or_at,
}
use event_listener.Events.Subscription.Stream.{
  Block, blocks, blocks_from, work_from, ended, waits, yields, poll_next-case,
  poll_next-when_finished,
}
use event_listener.Example.{Line, log_result, log_poll, listen}

module _ {Header E Hash : Type 0} (hash : Header → Hash) (into : E → Error)
    (at_hash : Hash → Future (Result (Events Hash) Error)) (c : Codec Hash) where
  abbrev Sub : Type 0
  Sub = EventSubscription Header E Hash

  -- What is logged of blocks that come one after the other.
  unfoldable pub log_blocks : List (Block hash into at_hash) → Run (List (Line Hash))
  unfolding log_result
  log_blocks [] = done []
  log_blocks (r ∷ rs) = and_run (log_result c r) λ ls. map_run (λ rest. ls ++ rest) (log_blocks rs)

  listen-when_finished :
      (polls : ℕ) (s : Sub)
      → s.finished ≡ true
      → listen c (poll_next hash into at_hash) polls s ≡ done []
  unfolding listen log_poll
  listen-when_finished zero s f = refl
  listen-when_finished (suc polls) s f =
      rw (poll_next-when_finished hash into at_hash s f, listen-when_finished polls s f) refl

  -- No header is left, and none will come.
  abbrev idle : Sub
  idle = record { finished = false; block_header_subscription = []; at = none }

  listen-idle : (polls : ℕ) → listen c (poll_next hash into at_hash) polls idle ≡ done []
  unfolding listen log_poll poll_next poll_header header_or_at resume
  listen-idle zero = refl
  listen-idle (suc polls) = rw (listen-idle polls) refl

  idle-from :
      (s : Sub) → s.finished ≡ false → s.at ≡ none → s.block_header_subscription ≡ [] → s ≡ idle
  idle-from s f a b = λ i. record { finished = f i; block_header_subscription = b i; at = a i }

  no_blocks :
      (s s' : Sub)
      → s' ≡ idle
      → blocks_from hash into at_hash s' ≡ blocks_from hash into at_hash s
      → done [] ≡ log_blocks (blocks_from hash into at_hash s)
  unfolding log_blocks blocks
  no_blocks s s' e g = ap log_blocks (sym (ap (blocks_from hash into at_hash) e) ∙ g)

  map_run-append : (m : Run (List (Line Hash))) → map_run (λ rest. [] ++ rest) m ≡ m
  map_run-append (done ls) = refl
  map_run-append panic = refl

  -- With more polls than work is left, the loops of the example log of each block that a consumer
  -- of the subscription receives, in order, and nothing else; they panic exactly where the logging
  -- of one of these blocks panics.
  pub listen-blocks_from :
      (polls : ℕ) (s : Sub)
      → work_from hash into at_hash s < polls
      → listen c (poll_next hash into at_hash) polls s
        ≡ log_blocks (blocks_from hash into at_hash s)
  unfolding listen log_poll log_blocks
  listen-blocks_from zero s h = elim h [ ]
  listen-blocks_from (suc polls) s h = elim (poll_next-case hash into at_hash s) [
    | ended s' m z g ↦ rw (m, g, listen-when_finished polls s' z) refl
    | waits s' m live g (inl k) ↦
        rw m (map_run-append _ ∙ listen-blocks_from polls s' (omega arith) ∙ ap log_blocks g)
    | waits s' m live g (inr (a, b)) ↦
        let still = idle-from s' live a b in
        rw m (
          map_run-append _
          ∙ ap (listen c (poll_next hash into at_hash) polls) still
          ∙ listen-idle polls
          ∙ no_blocks s s' still g)
    | yields x xs s' m g k n ↦ rw (m, g, listen-blocks_from polls s' (omega arith), k) refl
  ]
