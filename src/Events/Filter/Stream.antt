-- ===== src/Events/Filter/Stream.antt =====
-- What a consumer of the stream of filter_events.rs receives, whatever the polls that are pending.
use event_listener.Prelude.{
  ℕ, zero, suc, ◌+◌, ◌≤◌, ◌<◌, ◌≡◌, refl, sym, ap, subst, ◌⊎◌, inl, inr, Option, none, some, List,
  [], ◌∷◌, ◌++◌, length, arith,
}
use event_listener.Outcome.{
  Result, ok, err, Run, done, panic, and_run, map_run, and_run-eq-done, map_run-eq-done,
}
use event_listener.Error.{Error}
use event_listener.Events.Codec.{Codec}
use event_listener.Events.Block.{Events, Item, iter, prepend}
use event_listener.Events.Filter.{
  pending, ready, FilteredEventDetails, Attempt, Filtered, filtered, return_or, filter_next, Script,
  FilterEvents, new, Polled, on_next, poll_sub, poll_events, poll_next,
}

module _ {Hash R : Type 0} (attempt : Attempt R) (block_hash : Hash) where
  -- All that the closure yields for one block.
  unfoldable pub filter_all : List Item → Run (List (Filtered attempt block_hash))
  filter_all [] = done []
  filter_all (err e ∷ xs) = map_run (λ ys. err e ∷ ys) (filter_all xs)
  filter_all (ok d ∷ xs) =
      let rest = filter_all xs in
      and_run (attempt d) λ r. map_run (prepend (filtered attempt block_hash d r)) rest

  -- The first call of the closure, and what is left.
  abbrev pub Next :
      List (Filtered attempt block_hash)
      → Run (Option (Filtered attempt block_hash) × List Item)
      → Type 0
  Next [] m = (ys : List Item) × (m ≡ done (none, ys))
  Next (y ∷ ys) m = (zs : List Item) × (m ≡ done (some y, zs)) × (filter_all zs ≡ done ys)

  Next-return_or :
      (o : Option (Filtered attempt block_hash)) (xs : List Item)
      (rest out : List (Filtered attempt block_hash))
      → filter_all xs ≡ done rest
      → prepend o rest ≡ out
      → Next rest (filter_next attempt block_hash xs)
      → Next out (return_or attempt block_hash (filter_next attempt block_hash xs) xs o)
  Next-return_or none xs rest out e g ih =
      subst (λ t. Next t (filter_next attempt block_hash xs)) g ih
  Next-return_or (some y) xs rest out e g ih =
      subst (λ t. Next t (done (some y, xs))) g (xs, refl, e)

  pub filter_next-filter_all :
      (xs : List Item) (out : List (Filtered attempt block_hash))
      → filter_all xs ≡ done out
      → Next out (filter_next attempt block_hash xs)
  unfolding filter_all filter_next
  filter_next-filter_all [] out e =
      let same : [] ≡ out = cc in
      subst (λ t. Next t (filter_next attempt block_hash [])) same ([], refl)
  filter_next-filter_all (err z ∷ xs) out e =
      let (rest, all, g) = map_run-eq-done _ (filter_all xs) e in
      subst (λ t. Next t (done (some (err z), xs))) g (xs, refl, all)
  filter_next-filter_all (ok d ∷ xs) out e =
      let (o, a, h) = and_run-eq-done (attempt d) _ e in
      let (rest, all, g) = map_run-eq-done _ (filter_all xs) h in
      rw a (
        Next-return_or (filtered attempt block_hash d o) xs rest out all g
          (filter_next-filter_all xs rest all))

module _ {Hash R : Type 0} (c : Codec Hash) (attempt : Attempt R) where
  abbrev pub Filtrate : Type 0
  Filtrate = Result (FilteredEventDetails Hash R) Error

  -- The specification: the matches of each block, in the blocks' order, with the subscription's
  -- errors at their places, up to its end.
  unfoldable pub matches : Script (Result (Events Hash) Error) → Run (List Filtrate)
  matches [] = done []
  matches (pending ∷ sub) = matches sub
  matches (ready none ∷ sub) = done []
  matches (ready (some (err e)) ∷ sub) = map_run (λ xs. err e ∷ xs) (matches sub)
  matches (ready (some (ok evs)) ∷ sub) =
      let rest = matches sub in
      and_run (iter c evs) λ items.
        and_run (filter_all attempt evs.block_hash items) λ xs. map_run (λ ys. xs ++ ys) rest

  -- The same from a state that holds some items of a block.
  unfoldable pub matches_from :
      Script (Result (Events Hash) Error) → Option (Hash × List Item) → Run (List Filtrate)
  matches_from sub none = matches sub
  matches_from sub (some (block_hash, items)) =
      and_run (filter_all attempt block_hash items) λ xs. map_run (λ ys. xs ++ ys) (matches sub)

  -- Poll again, unless nothing more will come.
  abbrev pub on_pending :
      Run (List Filtrate) → Script (Result (Events Hash) Error) → Run (List Filtrate)
  on_pending rest [] = done []
  on_pending rest (p ∷ ps) = rest

  -- A consumer that polls until the stream ends or nothing more will come.
  unfoldable pub collect : ℕ → FilterEvents Hash → Run (List Filtrate)
  collect zero s = panic
  collect (suc fuel) s = and_run (poll_next c attempt s) λ r. elim r.0 [
    | ready none ↦ done []
    | ready (some x) ↦ map_run (λ xs. x ∷ xs) (collect fuel r.1)
    | pending ↦ on_pending (collect fuel r.1) r.1.sub
  ]

  -- What one poll does, where `out` is still to come.
  data PollCase (n : ℕ) (out : List Filtrate) (m : Run (Polled c attempt)) : Type 0 where
    ended : (s : FilterEvents Hash) → m ≡ done (ready none, s) → out ≡ [] → PollCase n out m
    waits :
        (sub : Script (Result (Events Hash) Error))
        → m ≡ done (pending, new sub)
        → matches sub ≡ done out
        → (length sub < n) ⊎ (sub ≡ [])
        → PollCase n out m
    yields :
        (x : Filtrate) (xs : List Filtrate) (s : FilterEvents Hash)
        → m ≡ done (ready (some x), s)
        → out ≡ x ∷ xs
        → matches_from s.sub s.events ≡ done xs
        → length s.sub ≤ n
        → PollCase n out m

  PollCase-suc :
      (n : ℕ) (out : List Filtrate) (m : Run (Polled c attempt))
      → PollCase n out m
      → PollCase (suc n) out m
  PollCase-suc n out m (ended s e g) = ended s e g
  PollCase-suc n out m (waits sub e g (inl h)) = waits sub e g (inl (omega arith))
  PollCase-suc n out m (waits sub e g (inr h)) = waits sub e g (inr h)
  PollCase-suc n out m (yields x xs s e g k h) = yields x xs s e g k (omega arith)

  -- From the items of a block: the next match, or what the rest of the subscription gives.
  PollCase-items :
      (sub : Script (Result (Events Hash) Error)) (block_hash : Hash) (items : List Item)
      (xs rest : List Filtrate)
      → filter_all attempt block_hash items ≡ done xs
      → matches sub ≡ done rest
      → PollCase (length sub) rest (poll_sub c attempt sub)
      → PollCase (length sub) (xs ++ rest) (
          and_run
            (filter_next attempt block_hash items)
            (on_next c attempt (poll_sub c attempt sub) sub block_hash))
  PollCase-items sub block_hash items [] rest f m ih =
      let (ys, e) = filter_next-filter_all attempt block_hash items [] f in rw e ih
  PollCase-items sub block_hash items (x ∷ xs) rest f m ih =
      let (zs, e, more) = filter_next-filter_all attempt block_hash items (x ∷ xs) f in
      rw e (
        yields x (xs ++ rest) (record { sub = sub; events = some (block_hash, zs) }) refl refl
          (unfold matches_from in rw (more, m) refl) (omega arith))

  poll_sub-case :
      (sub : Script (Result (Events Hash) Error)) (out : List Filtrate)
      → matches sub ≡ done out
      → PollCase (length sub) out (poll_sub c attempt sub)
  unfolding matches poll_sub
  poll_sub-case [] out e = waits [] refl e (inr refl)
  poll_sub-case (pending ∷ sub) out e = waits sub refl e (inl (omega arith))
  poll_sub-case (ready none ∷ sub) out e = ended (new sub) refl (cc)
  poll_sub-case (ready (some (err x)) ∷ sub) out e =
      let (rest, m, g) = map_run-eq-done _ (matches sub) e in
      yields (err x) rest (new sub) refl (sym g) (unfold matches_from new in m)
        (unfold new in omega arith)
  poll_sub-case (ready (some (ok evs)) ∷ sub) out e =
      let (items, i, e1) = and_run-eq-done (iter c evs) _ e in
      let (xs, f, e2) = and_run-eq-done (filter_all attempt evs.block_hash items) _ e1 in
      let (rest, m, g) = map_run-eq-done _ (matches sub) e2 in
      rw i (
        PollCase-suc (length sub) out _ (
          subst
            (λ t. PollCase (length sub) t (
              and_run (filter_next attempt evs.block_hash items)
                (on_next c attempt (poll_sub c attempt sub) sub evs.block_hash)))
            g (PollCase-items sub evs.block_hash items xs rest f m (poll_sub-case sub rest m))))

  poll_events-case :
      (sub : Script (Result (Events Hash) Error)) (events : Option (Hash × List Item))
      (out : List Filtrate)
      → matches_from sub events ≡ done out
      → PollCase (length sub) out (poll_events c attempt sub events)
  unfolding matches_from poll_events
  poll_events-case sub none out e = poll_sub-case sub out e
  poll_events-case sub (some (block_hash, items)) out e =
      let (xs, f, e2) = and_run-eq-done (filter_all attempt block_hash items) _ e in
      let (rest, m, g) = map_run-eq-done _ (matches sub) e2 in
      subst
        (λ t. PollCase (length sub) t (
          and_run (filter_next attempt block_hash items)
            (on_next c attempt (poll_sub c attempt sub) sub block_hash)))
        g (PollCase-items sub block_hash items xs rest f m (poll_sub-case sub rest m))

  pending-case :
      (fuel n : ℕ) (sub : Script (Result (Events Hash) Error)) (out : List Filtrate)
      → matches sub ≡ done out
      → (length sub < n) ⊎ (sub ≡ [])
      → (length sub < n → collect fuel (new sub) ≡ done out)
      → on_pending (collect fuel (new sub)) (new sub).sub ≡ done out
  unfolding new matches
  pending-case fuel n [] out e k ih = e
  pending-case fuel n (p ∷ ps) out e (inl l) ih = ih l
  pending-case fuel n (p ∷ ps) out e (inr z) ih = cc

  -- With more polls than results to come and results of the subscription, a consumer receives
  -- exactly the results that the specification lists from the state on.
  pub collect-matches_from :
      (fuel : ℕ) (s : FilterEvents Hash) (out : List Filtrate)
      → matches_from s.sub s.events ≡ done out
      → length out + length s.sub < fuel
      → collect fuel s ≡ done out
  unfolding collect poll_next
  collect-matches_from zero s out e h = elim h [ ]
  collect-matches_from (suc fuel) s out e h = elim (poll_events-case s.sub s.events out e) [
    | ended s' m g ↦ rw (m, g) refl
    | waits sub m g k ↦ rw m (
        pending-case fuel (length s.sub) sub out g k (λ l.
          collect-matches_from fuel (new sub) out (unfold matches_from new in g)
            (unfold new in omega arith)))
    | yields x xs s' m g k n ↦
        rw (m, collect-matches_from fuel s' xs k (omega (arith, ap length g))) (ap done (sym g))
  ]
