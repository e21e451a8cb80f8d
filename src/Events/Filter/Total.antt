-- ===== src/Events/Filter/Total.antt =====
-- The filters of event-listener/src/events/filter_events.rs do not panic, and the consumer receives
-- all matches.
use event_listener.Prelude.{
  suc, ◌+◌, ◌≡◌, refl, Option, none, some, List, [], ◌∷◌, length, All, arith, Bool, true, false,
  if◌then◌else◌,
}
use event_listener.Outcome.{Result, ok, err, Run, done, and_run, map_run, Returns-done}
use event_listener.Error.{Error, CodecError}
use event_listener.Events.Codec.{StaticEvent, Codec, IsLawful}
use event_listener.Events.Details.{EventDetails, as_event, is_static}
use event_listener.Events.Details.Layout.{IsLaidOut}
use event_listener.Events.Details.Accessors.{as_event-IsLaidOut}
use event_listener.Events.Block.{Events, Item, iter}
use event_listener.Events.Block.Iteration.{iter-Tiles}
use event_listener.Events.Block.Find.{ItemIsLaidOut, iter-laid_out}
use event_listener.Events.Filter.{
  pending, ready, no_events, or_else, with_event, EventTuple, EventFilter, one, many, attempt_of,
  single, nil, cons, tuple, Script, new,
}
use event_listener.Events.Filter.Stream.{
  filter_all, Filtrate, matches, matches_from, collect, collect-matches_from,
}

-- The run ends without a panic.
abbrev pub Ends : {A : Type 0} → Run A → Type 0
Ends {A = A} m = (a : A) × (m ≡ done a)

map_run-Ends : {A B : Type 0} (f : A → B) (m : Run A) → Ends m → Ends (map_run f m)
map_run-Ends f m (a, e) = (f a, rw e refl)

and_run-Ends :
    {A B : Type 0} (m : Run A) (f : A → Run B)
    → Ends m
    → ((a : A) → m ≡ done a → Ends (f a))
    → Ends (and_run m f)
and_run-Ends m f (a, e) k = let (b, g) = k a e in (b, rw e g)

if-Ends : {A : Type 0} (b : Bool) (m n : Run A) → Ends m → Ends n → Ends (if b then m else n)
if-Ends true m n h k = h
if-Ends false m n h k = k

as_event-Ends :
    {A : Type 0} (ev : StaticEvent A) (d : EventDetails) → IsLaidOut d → Ends (as_event ev d)
as_event-Ends ev d l =
    rw (as_event-IsLaidOut d l ev) (if-Ends (is_static ev l.declared) _ _ (_, refl) (_, refl))

or_else-Ends :
    {A R : Type 0} (default : R) (rest : Run (Result (Option R) CodecError))
    (o : Result (Option A) CodecError)
    → Ends rest
    → Ends (or_else default rest o)
or_else-Ends default rest (ok (some a)) h = (_, refl)
or_else-Ends default rest (ok none) h = map_run-Ends _ rest h
or_else-Ends default rest (err e) h = (_, refl)

tuple-Ends :
    {R : Type 0} (t : EventTuple R) (d : EventDetails) → IsLaidOut d → Ends ((tuple t).attempt d)
unfolding tuple no_events with_event
tuple-Ends nil d l = (_, refl)
tuple-Ends (cons ev t) d l =
    and_run-Ends (as_event ev d) _ (as_event-Ends ev d l)
      λ o e. or_else-Ends _ _ o (tuple-Ends t d l)

attempt_of-Ends :
    {R : Type 0} (f : EventFilter R) (d : EventDetails) → IsLaidOut d → Ends (attempt_of f d)
unfolding attempt_of single
attempt_of-Ends (one ev) d l = as_event-Ends ev d l
attempt_of-Ends (many t) d l = tuple-Ends t d l

module _ {Hash R : Type 0} (f : EventFilter R) (block_hash : Hash) where
  filter_all-Ends :
      (xs : List Item) → All ItemIsLaidOut xs → Ends (filter_all (attempt_of f) block_hash xs)
  unfolding filter_all
  filter_all-Ends [] h = (_, refl)
  filter_all-Ends (err e ∷ xs) h = map_run-Ends _ _ (filter_all-Ends xs h.1)
  filter_all-Ends (ok d ∷ xs) h =
      and_run-Ends ((attempt_of f) d) _ (attempt_of-Ends f d h.0)
        λ o e. map_run-Ends _ _ (filter_all-Ends xs h.1)

module _ {Hash R : Type 0} (c : Codec Hash) (law : IsLawful c) (f : EventFilter R) where
  iter-Ends : (evs : Events Hash) → Ends (iter c evs)
  iter-Ends evs =
      let (items, e, tiles) = Returns-done _ (iter c evs) (iter-Tiles c law evs) in (items, e)

  matches-Ends : (sub : Script (Result (Events Hash) Error)) → Ends (matches c (attempt_of f) sub)
  unfolding matches
  matches-Ends [] = (_, refl)
  matches-Ends (pending ∷ sub) = matches-Ends sub
  matches-Ends (ready none ∷ sub) = (_, refl)
  matches-Ends (ready (some (err e)) ∷ sub) = map_run-Ends _ _ (matches-Ends sub)
  matches-Ends (ready (some (ok evs)) ∷ sub) = and_run-Ends (iter c evs) _ (iter-Ends evs) λ xs g.
      and_run-Ends (filter_all (attempt_of f) evs.block_hash xs) _
        (filter_all-Ends f evs.block_hash xs (iter-laid_out c law evs xs g))
        λ ys k. map_run-Ends _ _ (matches-Ends sub)

  -- With decoders that take bytes off the front, for one event or a tuple of events as the filter,
  -- and whatever the subscription gives: the specification lists finitely many results without a
  -- panic, and a consumer that polls a new stream once more than there are results to come and
  -- results of the subscription receives exactly these, in their order.
  pub collect-matches :
      (sub : Script (Result (Events Hash) Error))
      → (out : List (Filtrate c (attempt_of f))) × (matches c (attempt_of f) sub ≡ done out)
        × (collect c (attempt_of f) (suc (length out + length sub)) (new sub) ≡ done out)
  collect-matches sub =
      let (out, e) = matches-Ends sub in
      (
        out,
        e,
        collect-matches_from c (attempt_of f) _ (new sub) out (unfold matches_from new in e)
            (unfold new in omega arith),
      )
