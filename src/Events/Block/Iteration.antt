-- ===== src/Events/Block/Iteration.antt =====
-- The iteration over the events of a block (`Events::iter` of events_type.rs).
use event_listener.Prelude.{
  ℕ, zero, suc, ◌+◌, ◌-◌, ◌≤◌, ◌<◌, ◌≡◌, ◌≢◌, refl, ap, subst, ◌⊎◌, inl, inr, Option, none, some,
  List, [], ◌∷◌, length, leb, ◌==◌, ◌||◌, false, Bool-cases, arith, drop,
}
use event_listener.Outcome.{ok, err, done, Returns, Returns-map_run, Returns-mono}
use event_listener.Error.{Error}
use event_listener.Events.Codec.{Codec, IsLawful}
use event_listener.Events.Details.{EventDetails, decode_record, decode_from}
use event_listener.Events.Details.Layout.{IsLaidOut, decode_from-IsLaidOut}
use event_listener.Events.Details.Accessors.{
  bytes_of, bytes-IsLaidOut, laid_out_length, length-bytes,
}
use event_listener.Events.Block.{Events, IterState, Item, after_decode, next, start, items, iter}

module _ {Hash : Type 0} (c : Codec Hash) (law : IsLawful c) (evs : Events Hash) where
  -- The event stands at `pos` in the block's bytes, and takes at least one of them.
  pub record StandsAt (pos index : ℕ) (d : EventDetails) : Type 0 where
    pub layout : IsLaidOut d
    pub same_bytes : d.all_bytes ≡ evs.event_bytes
    pub same_metadata : d.metadata ≡ evs.metadata
    pub at_pos : d.start_idx ≡ pos
    pub at_index : d.index ≡ index
    pub grows : pos < d.end_idx
    pub inside : d.end_idx ≤ length evs.event_bytes

  -- What one call of the closure does: it ends, decodes an event, or fails.
  data NextCase (s : IterState) : Type 0 where
    at_end :
        (length evs.event_bytes ≤ s.pos) ⊎ (evs.num_events ≡ s.index)
        → next c evs s ≡ done (none, s)
        → NextCase s
    decoded :
        (d : EventDetails)
        → s.index ≢ evs.num_events
        → StandsAt s.pos s.index d
        → next c evs s ≡ done (some (ok d), record { pos = d.end_idx; index = s.index + 1 })
        → NextCase s
    failed :
        (e : Error)
        → s.pos < length evs.event_bytes
        → s.index ≢ evs.num_events
        → decode_from c evs.metadata evs.event_bytes s.pos s.index ≡ done (err e)
        → next c evs s
          ≡ done (some (err e), record { pos = length evs.event_bytes; index = s.index })
        → NextCase s

  decode_from-done :
      (s : IterState)
      → s.pos < length evs.event_bytes
      → (r : Item) × (decode_from c evs.metadata evs.event_bytes s.pos s.index ≡ done r)
  unfolding decode_from
  decode_from-done s h = (
    (decode_record c evs.metadata evs.event_bytes s.pos s.index (drop s.pos evs.event_bytes)).0,
    ground arith,
  )

  StandsAt-decode_from :
      (pos index : ℕ) (d : EventDetails)
      → decode_from c evs.metadata evs.event_bytes pos index ≡ done (ok d)
      → StandsAt pos index d
  StandsAt-decode_from pos index d e =
      let (l, same_bytes, at_pos, at_index, same_metadata) =
        decode_from-IsLaidOut c law evs.metadata evs.event_bytes pos index d e in
      record {
        layout = l;
        same_bytes = same_bytes;
        same_metadata = same_metadata;
        at_pos = at_pos;
        at_index = at_index;
        grows = omega (arith, l.start_at, l.fields_at, l.topics_at, l.end_at);
        inside = omega (arith, laid_out_length d l, ap length same_bytes);
      }

  next-ok :
      (s : IterState) (d : EventDetails)
      → (leb (length evs.event_bytes) s.pos || evs.num_events == s.index) ≡ false
      → decode_from c evs.metadata evs.event_bytes s.pos s.index ≡ done (ok d)
      → next c evs s ≡ done (some (ok d), record { pos = d.end_idx; index = s.index + 1 })
  unfolding next after_decode
  next-ok s d go e =
      let at = StandsAt-decode_from s.pos s.index d e in
      let same : s.pos + length (bytes_of d at.layout) ≡ d.end_idx =
        omega (arith, at.at_pos, length-bytes d at.layout _ (bytes-IsLaidOut d at.layout)) in
      rw (go, e, bytes-IsLaidOut d at.layout, same) refl

  next-err :
      (s : IterState) (e : Error)
      → (leb (length evs.event_bytes) s.pos || evs.num_events == s.index) ≡ false
      → decode_from c evs.metadata evs.event_bytes s.pos s.index ≡ done (err e)
      → next c evs s ≡ done (some (err e), record { pos = length evs.event_bytes; index = s.index })
  unfolding next after_decode
  next-err s e go h = rw (go, h) refl

  next-cases_go :
      (s : IterState)
      → (leb (length evs.event_bytes) s.pos || evs.num_events == s.index) ≡ false
      → s.pos < length evs.event_bytes
      → s.index ≢ evs.num_events
      → (r : Item) → decode_from c evs.metadata evs.event_bytes s.pos s.index ≡ done r
      → NextCase s
  next-cases_go s go inside more (ok d) h =
      decoded d more (StandsAt-decode_from s.pos s.index d h) (next-ok s d go h)
  next-cases_go s go inside more (err e) h = failed e inside more h (next-err s e go h)

  next-cases : (s : IterState) → NextCase s
  unfolding next
  next-cases s =
      elim (Bool-cases (leb (length evs.event_bytes) s.pos || evs.num_events == s.index)) [
        | inl stop ↦ at_end (ground arith) (rw stop refl)
        | inr go ↦
            let inside : s.pos < length evs.event_bytes = ground arith in
            let (r, h) = decode_from-done s inside in next-cases_go s go inside (ground arith) r h
      ]

  next_at_end :
      (index : ℕ)
      → next c evs (record { pos = length evs.event_bytes; index = index })
        ≡ done (none, record { pos = length evs.event_bytes; index = index })
  unfolding next
  next_at_end index = ground arith

  -- The items tile the bytes from `pos` on: each event begins where the one before ends, and counts
  -- one on; the list ends at an error, at the end of the bytes or at the declared number.
  abbrev pub Tiles : ℕ → ℕ → List Item → Type 0
  Tiles pos index [] = (length evs.event_bytes ≤ pos) ⊎ (evs.num_events ≡ index)
  Tiles pos index (ok d ∷ xs) =
      (index ≢ evs.num_events) × StandsAt pos index d × Tiles d.end_idx (index + 1) xs
  Tiles pos index (err e ∷ xs) =
      (pos < length evs.event_bytes)
      × (index ≢ evs.num_events)
      × (decode_from c evs.metadata evs.event_bytes pos index ≡ done (err e))
      × (xs ≡ [])

  items_at_end :
      (fuel : ℕ) (s : IterState)
      → 0 < fuel
      → length evs.event_bytes ≤ s.pos
      → items c evs fuel s ≡ done []
  unfolding items next
  items_at_end zero s h k = elim h [ ]
  items_at_end (suc fuel) s h k = ground arith

  -- With more fuel than bytes are left, the iteration ends.
  items-Tiles :
      (fuel : ℕ) (s : IterState)
      → length evs.event_bytes - s.pos < fuel
      → Returns (Tiles s.pos s.index) (items c evs fuel s)
  unfolding items
  items-Tiles zero s h = elim h [ ]
  items-Tiles (suc fuel) s h = elim (next-cases s) [
    | at_end stop e ↦ rw e stop
    | decoded d more at e ↦ rw e (
        Returns-map_run (Tiles d.end_idx (s.index + 1)) (Tiles s.pos s.index) _ _
          (items-Tiles fuel (record { pos = d.end_idx; index = s.index + 1 })
            (omega (arith, at.grows, at.inside)))
          λ xs t. (more, at, t))
    | failed x inside more g e ↦
        rw
          (
            e,
            items_at_end fuel (record { pos = length evs.event_bytes; index = s.index })
                (omega arith) (omega arith),
          )
          (inside, more, g, refl)
  ]

  length-Tiles :
      (xs : List Item) (pos index : ℕ)
      → Tiles pos index xs
      → index ≤ evs.num_events
      → length xs + index ≤ evs.num_events
  length-Tiles [] pos index t h = omega arith
  length-Tiles (ok d ∷ xs) pos index (more, at, t) h =
      omega (arith, length-Tiles xs d.end_idx (index + 1) t (omega arith))
  length-Tiles (err e ∷ xs) pos index (inside, more, g, z) h = omega (arith, ap length z)

  -- With decoders that take bytes off the front, the iteration over a block ends without a panic. Its
  -- items tile the bytes from `start_idx` on, and there are at most `num_events` of them.
  pub iter-Tiles :
      Returns (λ xs. Tiles evs.start_idx 0 xs × (length xs ≤ evs.num_events)) (iter c evs)
  unfolding iter start
  iter-Tiles =
      Returns-mono (Tiles evs.start_idx 0) _ _
        (λ xs t. (t, omega (arith, length-Tiles xs evs.start_idx 0 t (omega arith))))
        (items-Tiles (suc (length evs.event_bytes)) (start c evs) (omega arith))

  -- With decoders that take bytes off the front: after an error, and after the end, every further call yields `None` and changes nothing.
  pub next_after_last :
      (s t : IterState) (o : Option Item)
      → next c evs s ≡ done (o, t)
      → ((d : EventDetails) → o ≢ some (ok d))
      → next c evs t ≡ done (none, t)
  next_after_last s t o h last = elim (next-cases s) [
    | at_end stop e ↦ let same : s ≡ t = cc in subst (λ u. next c evs u ≡ done (none, u)) same e
    | decoded d more at e ↦ absurd (last d (cc))
    | failed x inside more g e ↦
        let same : record { pos = length evs.event_bytes; index = s.index } ≡ t = cc in
        subst (λ u. next c evs u ≡ done (none, u)) same (next_at_end s.index)
  ]
