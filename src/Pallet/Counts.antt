-- ===== src/Pallet/Counts.antt =====
-- What runs of `cause_error` of pallets/template/src/lib.rs count up to, and which of them fail.
use event_listener.Prelude.{
  ℕ, ◌+◌, ◌^◌, ◌<◌, ◌≡◌, refl, sym, ap, ap₂, ◌∙◌, ◌⊎◌, inl, inr, Option, none, some, List, [], ◌∷◌,
  ◌++◌, if◌then◌else◌, ltb, length, ◌-◌, All, Bool-cases, arith, replicate, ◌≤◌, suc,
}
use event_listener.Outcome.{Result, ok, err}
use event_listener.Pallet.{
  Event, storage_overflow, DispatchError, pallet_error, State, Call, do_something_call,
  cause_error_call, checked_add, and_then, increment, cause_error, dispatch, dispatch_all,
}

module _ {Origin AccountId E S : Type 0}
    (ensure_signed : Origin → Result AccountId (DispatchError E))
    (deposit : S → Event AccountId → S) where
  -- The largest `u32` in place of a number that is none.
  abbrev pub saturate : ℕ → ℕ
  saturate n = if ltb n (2 ^ 32) then n else 2 ^ 32 - 1

  -- Each of the calls is a signed `cause_error`.
  abbrev pub IsIncrement : Origin × Call → Type 0
  IsIncrement (o, do_something_call n) = ⊥
  IsIncrement (o, cause_error_call) = (who : AccountId) × (ensure_signed o ≡ ok who)

  step :
      (n : ℕ)
      → n < 2 ^ 32
      → ((checked_add n 1 ≡ some (n + 1)) × (saturate (n + 1) ≡ n + 1))
        ⊎ ((checked_add n 1 ≡ none) × (saturate (n + 1) ≡ n))
  unfolding checked_add
  step n lt = elim (Bool-cases (ltb (n + 1) (2 ^ 32))) [
    | inl l ↦ inl (ground arith, ground arith)
    | inr l ↦ inr (ground arith, ground arith)
  ]

  cause_error-something :
      (r : Result AccountId (DispatchError E)) (who : AccountId) (v : Option ℕ) (n : ℕ)
      (s : State S)
      → r ≡ ok who
      → v ≡ some n
      → s.something ≡ v
      → n < 2 ^ 32
      → (and_then r s λ who. increment v s).1.something ≡ some (saturate (n + 1))
  unfolding and_then increment
  cause_error-something r who v n s w h k lt = rw w (
      rw h (elim (step n lt) [
        | inl (c, t) ↦ rw c (ap some (sym t))
        | inr (c, t) ↦ rw c (k ∙ h ∙ ap some (sym t))
      ]))

  -- What each call of a run returns.
  abbrev pub results : List (Origin × Call) → State S → List (Result (Unit {0}) (DispatchError E))
  results [] s = []
  results ((o, c) ∷ calls) s =
      (dispatch ensure_signed deposit o c s).0
      ∷ results calls (dispatch ensure_signed deposit o c s).1

  abbrev pub overflows : Result (Unit {0}) (DispatchError E)
  overflows = err (pallet_error storage_overflow)

  cause_error-result :
      (r : Result AccountId (DispatchError E)) (who : AccountId) (v : Option ℕ) (n : ℕ)
      (s : State S)
      → r ≡ ok who
      → v ≡ some n
      → (checked_add n 1 ≡ some (n + 1) → (and_then r s λ who. increment v s).0 ≡ ok tt)
        × (checked_add n 1 ≡ none → (and_then r s λ who. increment v s).0 ≡ overflows)
  unfolding and_then increment
  cause_error-result r who v n s w h =
      (λ fits. rw w (rw h (rw fits refl)), λ over. rw w (rw h (rw over refl)))

  something-saturate :
      (n : ℕ) (calls : List (Origin × Call)) (s : State S)
      → All IsIncrement calls
      → n < 2 ^ 32
      → s.something ≡ some n
      → (dispatch_all ensure_signed deposit calls s).something ≡ some (saturate (n + length calls))
  unfolding dispatch_all dispatch cause_error increment and_then checked_add
  something-saturate n [] s a lt h = h ∙ ap some (ground arith)
  something-saturate n ((o, do_something_call m) ∷ calls) s (x, a) lt h = elim x [ ]
  something-saturate n ((o, cause_error_call) ∷ calls) s ((who, w), a) lt h =
      something-saturate (saturate (n + 1)) calls _ a (ground arith)
        (cause_error-something (ensure_signed o) who s.something n s w h refl lt)
      ∙ ap some (ground arith)

  -- The results of `k` calls of which the last `over` fail.
  abbrev pub fails_last : (k over : ℕ) → List (Result (Unit {0}) (DispatchError E))
  fails_last k over = replicate (k - over) (ok tt) ++ replicate over overflows

  fails_last-suc :
      (k over over' : ℕ)
      → over ≤ k
      → over ≡ over'
      → ok tt ∷ fails_last k over ≡ fails_last (suc k) over'
  fails_last-suc k over over' le same =
      let more : suc (k - over) ≡ suc k - over' = omega arith in
      ap₂ (λ i j. replicate i (ok tt) ++ replicate j overflows) more same

  fails_last-all :
      (k over over' : ℕ)
      → over ≡ k
      → over' ≡ suc k
      → overflows ∷ fails_last k over ≡ fails_last (suc k) over'
  fails_last-all k over over' e f =
      let none_left : k - over ≡ 0 = omega arith in
      let none_left' : suc k - over' ≡ 0 = omega arith in
      let more : suc over ≡ over' = omega arith in
      ap (λ i. overflows ∷ (replicate i (ok tt) ++ replicate over overflows)) none_left
      ∙ ap₂ (λ i j. replicate i (ok tt) ++ replicate j overflows) (sym none_left') more

  results-saturate :
      (n : ℕ) (calls : List (Origin × Call)) (s : State S)
      → All IsIncrement calls
      → n < 2 ^ 32
      → s.something ≡ some n
      → results calls s ≡ fails_last (length calls) (length calls - (2 ^ 32 - 1 - n))
  unfolding dispatch cause_error
  results-saturate n [] s a lt h =
      let none_over : 0 - (2 ^ 32 - 1 - n) ≡ 0 = omega arith in ap (fails_last 0) (sym none_over)
  results-saturate n ((o, do_something_call m) ∷ calls) s (x, a) lt h = elim x [ ]
  results-saturate n ((o, cause_error_call) ∷ calls) s ((who, w), a) lt h =
      let (fits, over) = cause_error-result (ensure_signed o) who s.something n s w h in
      let rest =
        results-saturate (saturate (n + 1)) calls _ a (ground arith)
          (cause_error-something (ensure_signed o) who s.something n s w h refl lt) in
      elim (step n lt) [
        | inl (c, t) ↦
            ap₂ (λ r rs. r ∷ rs) (fits c) rest
            ∙ fails_last-suc (length calls) _ _ (omega arith) (ground arith)
        | inr (c, t) ↦
            ap₂ (λ r rs. r ∷ rs) (over c) rest
            ∙ fails_last-all (length calls) _ _ (ground arith) (ground arith)
      ]

  -- From a stored `u32`, a run of signed `cause_error` calls counts up by one for each call and stops
  -- at the largest `u32`. The calls succeed until the stored value is the largest `u32`, and those
  -- after that, one for each number by which the sum exceeds it, fail with `StorageOverflow`.
  pub dispatch_all-saturate :
      (n : ℕ) (calls : List (Origin × Call)) (s : State S)
      → All IsIncrement calls
      → n < 2 ^ 32
      → s.something ≡ some n
      → ((dispatch_all ensure_signed deposit calls s).something
          ≡ some (saturate (n + length calls)))
        × (results calls s ≡ fails_last (length calls) (length calls - (2 ^ 32 - 1 - n)))
  dispatch_all-saturate n calls s a lt h =
      (something-saturate n calls s a lt h, results-saturate n calls s a lt h)
