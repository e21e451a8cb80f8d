-- ===== src/Example/Chain.antt =====
-- What event-listener-example/src/lib.rs logs of the events of pallets/template/src/lib.rs, on a chain
-- whose only events are the pallet's. That frame_system records an event is a parameter.
use event_listener.Prelude.{
  suc, ◌<◌, ◌^◌, ◌≡◌, refl, sym, ap, subst, ◌∙◌, true, eq_iff, arith, List, [], ◌∷◌, ◌++◌, map,
  foldl, length, All, append_assoc, append-nil,
}
use event_listener.Outcome.{Result, ok, done}
use event_listener.Metadata.Store.{Metadata}
use event_listener.Events.Codec.{Phase, StaticEvent, Codec, IsLawful}
use event_listener.Events.Block as Block
use event_listener.Events.Block.{find}
use event_listener.Events.Records.{Encoders, EventRecord, event_record, events, events_raw}
use event_listener.Events.Records.Decode.{IsInverse, IsDescribed}
use event_listener.Events.Records.RoundTrip.{RecordDescribed}
use event_listener.Events.Records.Search.{matching, has_names, find-matching}
use event_listener.Pallet.{Event, DispatchError, State, Call, dispatch_all}
use event_listener.Pallet.Runs.{stored_events, dispatch_all-events}
use event_listener.Example.{block_line, event_line, log_block, log_result}
use event_listener.Example.Listening.{lines, log_result-stored}

module _ {Hash A S : Type 0} (deposit : S → Event A → S)
    (records : S → List (EventRecord Hash (Event A))) (phase : S → Phase)
    (deposits : (s : S) (e : Event A)
      → records (deposit s e) ≡ records s ++ (event_record (phase s) e ∷ [])) where
  -- The records that depositing the events adds.
  abbrev added : S → List (Event A) → List (EventRecord Hash (Event A))
  added s [] = []
  added s (e ∷ es) = event_record (phase s) e ∷ added (deposit s e) es

  records-foldl :
      (es : List (Event A)) (s : S) → records (foldl deposit s es) ≡ records s ++ added s es
  records-foldl [] s = sym (append-nil (records s))
  records-foldl (e ∷ es) s =
      records-foldl es (deposit s e)
      ∙ ap (λ rs. rs ++ added (deposit s e) es) (deposits s e)
      ∙ append_assoc (records s) (event_record (phase s) e ∷ []) (added (deposit s e) es)

  length-added : (es : List (Event A)) (s : S) → length (added s es) ≡ length es
  length-added [] s = refl
  length-added (e ∷ es) s = ap suc (length-added es (deposit s e))

  module _ (c : Codec Hash) (enc : Encoders Hash (Event A)) (metadata : Metadata)
      (ev : StaticEvent (Event A)) (described : (e : Event A) → IsDescribed c enc metadata e)
      (named : (e : Event A)
        → ((described e).declared.pallet ≡ ev.pallet) × ((described e).declared.event ≡ ev.event))
      (reads : (e : Event A) → (ev.decode (described e).fields).0 ≡ ok e) where
    added-described :
        (es : List (Event A)) (s : S) → All (RecordDescribed c enc metadata) (added s es)
    unfolding event_record
    added-described [] s = tt
    added-described (e ∷ es) s = (described e, added-described es (deposit s e))

    lines-added :
        (es : List (Event A)) (s : S)
        → lines c enc metadata (added s es) (added-described es s)
          ≡ map (λ e. event_line ev.pallet ev.event) es
    unfolding event_record added-described
    lines-added [] s = refl
    lines-added (e ∷ es) s = let (p, v) = named e in rw (p, v, lines-added es (deposit s e)) refl

    has_names-described : (e : Event A) → has_names c enc metadata ev (described e).declared ≡ true
    has_names-described e =
        let (p, v) = named e in
        ground (
          arith,
          eq_iff (described e).declared.pallet ev.pallet,
          eq_iff (described e).declared.event ev.event,
          p,
          v,
        )

    matching-added :
        (es : List (Event A)) (s : S)
        → matching c enc metadata ev (added s es) (added-described es s) ≡ map (λ e. ok e) es
    unfolding event_record added-described matching
    matching-added [] s = refl
    matching-added (e ∷ es) s =
        rw (has_names-described e, reads e, matching-added es (deposit s e)) refl

    module _ {Origin X : Type 0} (law : IsLawful c) (inv : IsInverse c enc)
        (ensure_signed : Origin → Result A (DispatchError X)) (h : Hash) where
      -- The block that holds what the calls have deposited.
      abbrev pub block_of : List (Origin × Call) → State S → Block.Events Hash
      block_of calls s =
          events enc c h metadata (records (dispatch_all ensure_signed deposit calls s).system)

      -- What is seen of a block.
      abbrev pub Sees : Block.Events Hash → List (Event A) → Type 0
      Sees block es =
          (log_block c block ≡ done (block_line h ∷ map (λ e. event_line ev.pallet ev.event) es))
          × (find c ev block ≡ done (map (λ e. ok e) es))

      added-Sees :
          (es : List (Event A)) (s : S)
          → length es < 2 ^ 32
          → Sees (events enc c h metadata (added s es)) es
      unfolding log_result events events_raw Block.new
      added-Sees es s small =
          let fewer : length (added s es) < 2 ^ 32 = omega (arith, length-added es s) in
          let ds = added-described es s in
          (
            log_result-stored c enc metadata law inv h (added s es) ds fewer
                ∙ ap (λ ls. done (block_line h ∷ ls)) (lines-added es s),
            find-matching c law enc inv h metadata ev (added s es) ds fewer
                ∙ ap done (matching-added es s),
          )

      -- From the pallet to the log: on a chain whose events are the pallet's, described by the
      -- metadata under the names of a static event that decodes them, where the system appends a
      -- record for each event, and where the codec reads back what it writes. Whatever calls a
      -- block without earlier records runs, with fewer than 2 ^ 32 events, the example logs the
      -- block and one line with these names for each signed `do_something`, and `find` gives exactly
      -- the events of these calls, with their values and signers, in the order of the calls.
      pub dispatch_all-Sees :
          (calls : List (Origin × Call)) (s : State S)
          → records s.system ≡ []
          → length (stored_events ensure_signed deposit calls) < 2 ^ 32
          → Sees (block_of calls s) (stored_events ensure_signed deposit calls)
      dispatch_all-Sees calls s none_before small =
          let es = stored_events ensure_signed deposit calls in
          let left : records (dispatch_all ensure_signed deposit calls s).system
              ≡ added s.system es =
            ap records (dispatch_all-events ensure_signed deposit calls s)
            ∙ records-foldl es s.system
            ∙ ap (λ rs. rs ++ added s.system es) none_before in
          subst (λ rs. Sees (events enc c h metadata rs) es) (sym left)
            (added-Sees es s.system small)
