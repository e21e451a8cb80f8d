-- ===== src/Events/Block/Find.antt =====
-- `find`, `find_first` and `has` of event-listener/src/events/events_type.rs.
use event_listener.Prelude.{
  ℕ, ◌+◌, ◌≤◌, ◌≡◌, refl, sym, ap, subst, ◌∙◌, Option, none, some, List, [], ◌∷◌, ◌++◌, length,
  Bool-cases, inl, inr, All, arith, Bool, true, false,
}
use event_listener.Outcome.{
  Returns, Result, ok, err, map_ok, done, map_run, Returns-done, and_run-eq-done, map_run-eq-done,
  map_run-map_run,
}
use event_listener.Error.{Error}
use event_listener.Events.Codec.{StaticEvent, Codec, IsLawful}
use event_listener.Events.Details.{is_static}
use event_listener.Events.Details.Layout.{IsLaidOut}
use event_listener.Events.Details.Accessors.{as_event-IsLaidOut}
use event_listener.Events.Block.{
  Events, Item, iter, transpose_found, found, find_next, find_all, prepend, transpose, is_found,
  find, find_first, has,
}
use event_listener.Events.Block.Iteration.{Tiles, iter-Tiles}

abbrev pub head? : {A : Type 0} → List A → Option A
head? [] = none
head? (x ∷ xs) = some x

-- Every event among the items is laid out in its block.
abbrev pub ItemIsLaidOut : Item → Type 0
ItemIsLaidOut (ok d) = IsLaidOut d
ItemIsLaidOut (err e) = Unit

module _ {A : Type 0} (ev : StaticEvent A) where
  found-done : (x : Item) → ItemIsLaidOut x → (o : Option (Result A Error)) × (found ev x ≡ done o)
  unfolding found
  found-done (ok d) l = elim (Bool-cases (is_static ev l.declared)) [
    | inl same ↦ (
      transpose_found (map_ok some (ev.decode l.fields).0),
      rw (as_event-IsLaidOut d l ev, same) refl,
    )
    | inr other ↦ (none, rw (as_event-IsLaidOut d l ev, other) refl)
  ]
  found-done (err e) l = (some (err e), refl)

  -- What the `filter_map` yields, and its first item.
  find_all-find_next :
      (xs : List Item)
      → All ItemIsLaidOut xs
      → (rs : List (Result A Error)) × (find_all ev xs ≡ done rs)
        × (map_run (λ r. r.0) (find_next ev xs) ≡ done (head? rs))
        × (length rs ≤ length xs)
  unfolding find_all find_next
  find_all-find_next [] h = ([], refl, refl, omega arith)
  find_all-find_next (x ∷ xs) h =
      let (o, e) = found-done x h.0 in
      let (rs, all, first, len) = find_all-find_next xs h.1 in extend o x xs e rs all first len
    where
      extend :
          (o : Option (Result A Error)) (x : Item) (xs : List Item)
          → found ev x ≡ done o
          → (rs : List (Result A Error)) → find_all ev xs ≡ done rs
          → map_run (λ r. r.0) (find_next ev xs) ≡ done (head? rs)
          → length rs ≤ length xs
          → (rs' : List (Result A Error)) × (find_all ev (x ∷ xs) ≡ done rs')
            × (map_run (λ r. r.0) (find_next ev (x ∷ xs)) ≡ done (head? rs'))
            × (length rs' ≤ length (x ∷ xs))
      extend none x xs e rs all first len = (rs, rw (e, all) refl, rw e first, omega arith)
      extend (some r) x xs e rs all first len = (r ∷ rs, rw (e, all) refl, rw e refl, omega arith)

  prepend-append :
      (o : Option (Result A Error)) (rs ts : List (Result A Error))
      → prepend o (rs ++ ts) ≡ prepend o rs ++ ts
  prepend-append none rs ts = refl
  prepend-append (some r) rs ts = refl

  -- The items of `find` over two runs of items are those over the first, then those over the second:
  -- an error among the first does not end it.
  pub find_all-append :
      (xs ys : List Item) (rs ts : List (Result A Error))
      → find_all ev xs ≡ done rs
      → find_all ev ys ≡ done ts
      → find_all ev (xs ++ ys) ≡ done (rs ++ ts)
  unfolding find_all
  find_all-append [] ys rs ts h k =
      let same : [] ≡ rs = cc in subst (λ r. find_all ev ys ≡ done (r ++ ts)) same k
  find_all-append (x ∷ xs) ys rs ts h k =
      let (o, e, g) = and_run-eq-done (found ev x) _ h in
      let (rs', all, same) = map_run-eq-done (prepend o) (find_all ev xs) g in
      rw (e, find_all-append xs ys rs' ts all k)
        (ap done (prepend-append o rs' ts ∙ ap (λ r. r ++ ts) same))

module _ {Hash : Type 0} (c : Codec Hash) (law : IsLawful c) (evs : Events Hash) where
  pub Tiles-laid_out :
      (xs : List Item) (pos index : ℕ) → Tiles c law evs pos index xs → All ItemIsLaidOut xs
  Tiles-laid_out [] pos index t = tt
  Tiles-laid_out (ok d ∷ xs) pos index (more, at, t) =
      (at.layout, Tiles-laid_out xs d.end_idx (index + 1) t)
  Tiles-laid_out (err e ∷ xs) pos index (inside, more, g, z) =
      (tt, subst (All ItemIsLaidOut) (sym z) tt)

  pub iter-laid_out : (xs : List Item) → iter c evs ≡ done xs → All ItemIsLaidOut xs
  iter-laid_out xs e =
      let P : List Item → Type 0 =
        λ xs. Tiles c law evs evs.start_idx 0 xs × (length xs ≤ evs.num_events) in
      let tiles : P xs = subst (Returns P) e (iter-Tiles c law evs) in
      Tiles-laid_out xs evs.start_idx 0 tiles.0

module _ {A : Type 0} where
  -- The outcomes of two searches, from what `find` yields: its first item, and whether there is an
  -- event at its start.
  abbrev pub first_of : List (Result A Error) → Result (Option A) Error
  first_of [] = ok none
  first_of (ok a ∷ rs) = ok (some a)
  first_of (err e ∷ rs) = err e

  abbrev pub has_any : List (Result A Error) → Result Bool Error
  has_any [] = ok false
  has_any (ok a ∷ rs) = ok true
  has_any (err e ∷ rs) = err e

  head-first_of : (rs : List (Result A Error)) → transpose (head? rs) ≡ first_of rs
  unfolding transpose
  head-first_of [] = refl
  head-first_of (ok a ∷ rs) = refl
  head-first_of (err e ∷ rs) = refl

  head-has_any : (rs : List (Result A Error)) → is_found (transpose (head? rs)) ≡ has_any rs
  unfolding transpose is_found
  head-has_any [] = refl
  head-has_any (ok a ∷ rs) = refl
  head-has_any (err e ∷ rs) = refl

module _ {Hash A : Type 0} (c : Codec Hash) (law : IsLawful c) (ev : StaticEvent A)
    (evs : Events Hash) where
  first_by :
      {B : Type 0} (xs : List Item) (rs : List (Result A Error))
      → map_run (λ r. r.0) (find_next ev xs) ≡ done (head? rs)
      → (f : Option (Result A Error) → B)
      → map_run (λ r. f r.0) (find_next ev xs) ≡ done (f (head? rs))
  first_by xs rs h f = sym (map_run-map_run f (λ r. r.0) (find_next ev xs)) ∙ ap (map_run f) h

  -- With decoders that take bytes off the front, `find` ends without a panic and yields at most
  -- `num_events` items. If it yields none, `find_first` gives `None` and `has` gives false; if the
  -- first is an event, `find_first` gives it and `has` gives true; if the first is an error, both
  -- fail with it.
  pub find-first-has :
      (rs : List (Result A Error)) × (find c ev evs ≡ done rs)
      × (find_first c ev evs ≡ done (first_of rs))
      × (has c ev evs ≡ done (has_any rs))
      × (length rs ≤ evs.num_events)
  unfolding find find_first has
  find-first-has =
      let (xs, e, (t, n)) = Returns-done _ (iter c evs) (iter-Tiles c law evs) in
      let (rs, all, first, len) =
        find_all-find_next ev xs (Tiles-laid_out c law evs xs evs.start_idx 0 t) in
      (
        rs,
        rw e all,
        rw e (first_by xs rs first transpose ∙ ap done (head-first_of rs)),
        rw e (first_by xs rs first (λ o. is_found (transpose o)) ∙ ap done (head-has_any rs)),
        omega arith,
      )
