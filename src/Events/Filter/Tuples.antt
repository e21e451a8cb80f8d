-- ===== src/Events/Filter/Tuples.antt =====
-- The tuple filters of event-listener/src/events/filter_events.rs.
use mathlib.Core.Option
use event_listener.Prelude.{◌+◌, ◌≡◌, refl, subst, Option, none, some, List, [], ◌∷◌, arith}
use event_listener.Outcome.{Result, ok, err, map_ok, done, and_run-eq-done, map_run-eq-done}
use event_listener.Error.{CodecError}
use event_listener.Events.Codec.{StaticEvent}
use event_listener.Events.Details.{EventDetails, as_event}
use event_listener.Events.Block.{Item}
use event_listener.Events.Filter.{
  FilteredEventDetails, TupleFilter, count_some, or_else, with_event, EventTuple, nil, cons, tuple,
  filtered, return_or, filter_next,
}

-- A match has exactly one `Some`.
record IsOneHot {R : Type 0} (f : TupleFilter R) : Type 0 where
  zero : f.somes f.default ≡ 0
  one : (d : EventDetails) (r : R) → f.attempt d ≡ done (ok (some r)) → f.somes r ≡ 1

or_else-some :
    {A R : Type 0} (ev : StaticEvent A) (f : TupleFilter R)
    → IsOneHot f
    → (d : EventDetails) (o : Result (Option R) CodecError) (r : Option A × R)
    → f.attempt d ≡ done o
    → map_ok (Option.map (λ q. (none, q))) o ≡ ok (some r)
    → (with_event ev f).somes r ≡ 1
unfolding with_event
or_else-some {A} {R} ev f h d (ok (some q)) r e g =
    let same : ◌≡◌ {A = Option A × R} (none, q) r = cc in
    subst (λ (p : Option A × R). count_some p.0 + f.somes p.1 ≡ 1) same (omega (arith, h.one d q e))
or_else-some ev f h d (ok none) r e g = cc
or_else-some ev f h d (err x) r e g = cc

or_else-one :
    {A R : Type 0} (ev : StaticEvent A) (f : TupleFilter R)
    → IsOneHot f
    → (d : EventDetails) (o : Result (Option A) CodecError) (r : Option A × R)
    → or_else f.default (f.attempt d) o ≡ done (ok (some r))
    → (with_event ev f).somes r ≡ 1
or_else-one {A} {R} ev f h d (ok (some a)) r e =
    let same : ◌≡◌ {A = Option A × R} (some a, f.default) r = cc in
    unfold with_event in
    subst (λ (p : Option A × R). count_some p.0 + f.somes p.1 ≡ 1) same (omega (arith, h.zero))
or_else-one ev f h d (ok none) r e =
    let (o, at, g) = map_run-eq-done _ (f.attempt d) e in or_else-some ev f h d o r at g
or_else-one ev f h d (err x) r e = cc

tuple-IsOneHot : {R : Type 0} (t : EventTuple R) → IsOneHot (tuple t)
unfolding tuple
tuple-IsOneHot nil = record { zero = refl; one = λ d r e. cc }
tuple-IsOneHot (cons ev t) = record {
  zero = omega (arith, (tuple-IsOneHot t).zero);
  one = λ d r e.
      let (o, a, g) = and_run-eq-done (as_event ev d) _ e in
      or_else-one ev (tuple t) (tuple-IsOneHot t) d o r g;
}

-- Whatever the events and the tuple, each match that the filter yields has exactly one `Some`.
pub filter_next-somes :
    {Hash R : Type 0} (t : EventTuple R) (block_hash : Hash) (xs ys : List Item)
    (x : FilteredEventDetails Hash R)
    → filter_next (tuple t).attempt block_hash xs ≡ done (some (ok x), ys)
    → (tuple t).somes x.event ≡ 1
unfolding filter_next filtered
filter_next-somes t h [] ys x e = cc
filter_next-somes t h (err z ∷ xs) ys x e = cc
filter_next-somes {R} t h (ok d ∷ xs) ys x e =
    let (o, a, g) = and_run-eq-done ((tuple t).attempt d) _ e in
    after o a g (filter_next-somes t h xs ys x)
  where
    after :
        (o : Result (Option R) CodecError)
        → (tuple t).attempt d ≡ done o
        → return_or
            (tuple t).attempt
            h
            (filter_next (tuple t).attempt h xs)
            xs
            (filtered (tuple t).attempt h d o)
          ≡ done (some (ok x), ys)
        → (filter_next (tuple t).attempt h xs ≡ done (some (ok x), ys)
            → (tuple t).somes x.event ≡ 1)
        → (tuple t).somes x.event ≡ 1
    after (ok (some r)) a g ih =
        let same : r ≡ x.event = ground arith in
        subst (λ q. (tuple t).somes q ≡ 1) same ((tuple-IsOneHot t).one d r a)
    after (ok none) a g ih = ih g
    after (err z) a g ih = cc
