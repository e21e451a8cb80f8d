-- ===== src/Pallet/Runs.antt =====
-- What runs of the calls of pallets/template/src/lib.rs leave in the storage and in the event log.
use event_listener.Prelude.{
  ℕ, ◌≡◌, refl, sym, ap, ◌∙◌, Option, none, some, List, [], ◌∷◌, ◌++◌, foldl, arith,
}
use event_listener.Outcome.{Result, ok, err, ok_or}
use event_listener.Pallet.{
  Event, something_stored, storage_overflow, DispatchError, pallet_error, State, Call,
  do_something_call, cause_error_call, checked_add, put, Dispatch, and_then, deposit_event,
  do_something, increment, cause_error, dispatch, dispatch_all,
}

-- A call that fails keeps the state.
abbrev pub Keeps : {E S : Type 0} → State S → Dispatch E S → Type 0
Keeps {E = E} s d = (e : DispatchError E) → d.0 ≡ err e → d.1 ≡ s

and_then-Keeps :
    {A E S : Type 0} (r : Result A (DispatchError E)) (s : State S) (k : A → Dispatch E S)
    → ((a : A) → Keeps s (k a))
    → Keeps s (and_then r s k)
unfolding and_then
and_then-Keeps (ok a) s k h = h a
and_then-Keeps (err e) s k h = λ e h. refl

ok-Keeps : {E S : Type 0} (s t : State S) → Keeps {E = E} s (ok tt, t)
ok-Keeps s t = λ e h. ground arith

increment-Keeps : {E S : Type 0} (v : Option ℕ) (s : State S) → Keeps {E = E} s (increment v s)
unfolding increment
increment-Keeps none s = λ e h. refl
increment-Keeps (some n) s = and_then-Keeps _ s _ λ new. ok-Keeps s _

module _ {Origin AccountId E S : Type 0}
    (ensure_signed : Origin → Result AccountId (DispatchError E))
    (deposit : S → Event AccountId → S) where
  -- A call that fails leaves the state as it was: nothing is stored and no event is deposited.
  pub dispatch-err :
      (o : Origin) (c : Call) (s : State S) (e : DispatchError E)
      → (dispatch ensure_signed deposit o c s).0 ≡ err e
      → (dispatch ensure_signed deposit o c s).1 ≡ s
  unfolding dispatch do_something cause_error
  dispatch-err o (do_something_call n) s e h =
      and_then-Keeps (ensure_signed o) s _ (λ who. ok-Keeps s _) e h
  dispatch-err o cause_error_call s e h =
      and_then-Keeps (ensure_signed o) s _ (λ who. increment-Keeps s.something s) e h

  -- The event of a call, if it is signed and stores a value.
  abbrev pub call_events : Origin × Call → List (Event AccountId)
  call_events (o, do_something_call n) = elim (ensure_signed o) [
    | ok who ↦ something_stored n who ∷ []
    | err e ↦ []
  ]
  call_events (o, cause_error_call) = []

  -- The events of the calls, in their order.
  abbrev pub stored_events : List (Origin × Call) → List (Event AccountId)
  stored_events [] = []
  stored_events (c ∷ calls) = call_events c ++ stored_events calls

  do_something-events :
      (r : Result AccountId (DispatchError E)) (n : ℕ) (s : State S)
      → (and_then r s
          λ who. (ok tt, deposit_event deposit (something_stored n who) (put n s))).1.system
        ≡ foldl deposit s.system (elim r [ ok who ↦ something_stored n who ∷ [] | err e ↦ [] ])
  unfolding and_then deposit_event
  do_something-events (ok who) n s = refl
  do_something-events (err e) n s = refl

  cause_error-system :
      (r : Result AccountId (DispatchError E)) (v : Option ℕ) (s : State S)
      → (and_then r s λ who. increment v s).1.system ≡ s.system
  unfolding and_then increment
  cause_error-system (err e) v s = refl
  cause_error-system (ok who) none s = refl
  cause_error-system (ok who) (some n) s =
      go (ok_or (checked_add n 1) (pallet_error storage_overflow))
    where
      go :
          (r : Result ℕ (DispatchError E))
          → (and_then r s λ new. (ok tt, put new s)).1.system ≡ s.system
      go (ok new) = refl
      go (err e) = refl

  dispatch-events :
      (o : Origin) (c : Call) (s : State S)
      → (dispatch ensure_signed deposit o c s).1.system
        ≡ foldl deposit s.system (call_events (o, c))
  unfolding dispatch do_something cause_error
  dispatch-events o (do_something_call n) s = do_something-events (ensure_signed o) n s
  dispatch-events o cause_error_call s = cause_error-system (ensure_signed o) s.something s

  foldl-append :
      (xs ys : List (Event AccountId)) (t : S)
      → foldl deposit t (xs ++ ys) ≡ foldl deposit (foldl deposit t xs) ys
  foldl-append [] ys t = refl
  foldl-append (x ∷ xs) ys t = foldl-append xs ys (deposit t x)

  -- Whatever calls a chain runs, the events that have been deposited are those of the signed
  -- `do_something` calls, one for each, in their order, with the value and the signer of the call.
  pub dispatch_all-events :
      (calls : List (Origin × Call)) (s : State S)
      → (dispatch_all ensure_signed deposit calls s).system
        ≡ foldl deposit s.system (stored_events calls)
  unfolding dispatch_all
  dispatch_all-events [] s = refl
  dispatch_all-events ((o, c) ∷ calls) s =
      dispatch_all-events calls _
      ∙ ap (λ t. foldl deposit t (stored_events calls)) (dispatch-events o c s)
      ∙ sym (foldl-append (call_events (o, c)) (stored_events calls) s.system)
