-- ===== src/Tests/Calls.antt =====
-- Runs of the pallet's calls.
use event_listener.Prelude.{ℕ, ◌≡◌, refl, Option, none, some, List, [], ◌∷◌, ◌++◌, arith}
use event_listener.Outcome.{Result, ok, err}
use event_listener.Pallet.{
  State, pallet_error, storage_overflow, Event, DispatchError, system_error, Call,
  do_something_call, cause_error_call, dispatch_all,
}
use event_listener.Pallet.Counts.{results, dispatch_all-saturate}

-- An origin is the signer, if there is one; the system's state is the log of the events.
abbrev pub ensure_signed : Option ℕ → Result ℕ (DispatchError ℕ)
ensure_signed none = err (system_error 0)
ensure_signed (some who) = ok who

abbrev deposit : List (Event ℕ) → Event ℕ → List (Event ℕ)
deposit log e = log ++ (e ∷ [])

abbrev pub calls : List (Option ℕ × Call)
calls =
    (some 8, do_something_call 7)
    ∷ ((none, do_something_call 9) ∷ ((some 8, cause_error_call) ∷ []))

abbrev increments : List (Option ℕ × Call)
increments = (some 8, cause_error_call) ∷ ((some 9, cause_error_call) ∷ [])

abbrev nearly_full : State (List (Event ℕ))
nearly_full = record { something = some 4294967294; system = [] }

dispatch_all-saturate_example :
    ((dispatch_all ensure_signed deposit increments nearly_full).something ≡ some 4294967295)
    × (results ensure_signed deposit increments nearly_full
        ≡ ok tt ∷ (err (pallet_error storage_overflow) ∷ []))
dispatch_all-saturate_example =
    dispatch_all-saturate ensure_signed deposit 4294967294 increments nearly_full
      ((8, refl), ((9, refl), tt)) (omega arith) refl
