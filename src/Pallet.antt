-- ===== src/Pallet.antt =====
-- pallets/template/src/lib.rs: the pallet whose events the listener is tried on. `ensure_signed` and
-- the deposit of an event into the system's state are frame_system's, and are parameters.
pub mod Runs
pub mod Counts
use event_listener.Prelude.{ℕ, List, [], ◌∷◌, ◌+◌, ◌^◌, Option, none, some, if◌then◌else◌, ltb}
use event_listener.Outcome.{Result, ok, err, ok_or}

pub data Event (AccountId : Type 0) : Type 0 where
  something_stored : ℕ → AccountId → Event AccountId

pub data Error : Type 0 where
  none_value storage_overflow : Error

-- `DispatchError`: the pallet's errors (`.into()`), and those of frame_system.
pub data DispatchError (E : Type 0) : Type 0 where
  pallet_error : Error → DispatchError E
  system_error : E → DispatchError E

-- The storage item `Something`, a `u32`, and the rest of the chain's state.
pub record State (S : Type 0) : Type 0 where
  pub something : Option ℕ
  pub system : S

-- The calls that an extrinsic can name.
pub data Call : Type 0 where
  do_something_call : ℕ → Call
  cause_error_call : Call

-- `u32::checked_add`
unfoldable pub checked_add : ℕ → ℕ → Option ℕ
checked_add a b = if ltb (a + b) (2 ^ 32) then some (a + b) else none

abbrev pub put : {S : Type 0} → ℕ → State S → State S
put n s = record { something = some n; system = s.system }

-- The result of a call, and the state after it.
abbrev pub Dispatch : Type 0 → Type 0 → Type 0
Dispatch E S = Result (Unit {0}) (DispatchError E) × State S

-- `?`: the state stays as it is where a step of the call fails.
unfoldable pub and_then :
    {A E S : Type 0} → Result A (DispatchError E) → State S → (A → Dispatch E S) → Dispatch E S
and_then (ok a) s k = k a
and_then (err e) s k = (err e, s)

-- The match of `cause_error` on the stored value.
unfoldable pub increment : {E S : Type 0} → Option ℕ → State S → Dispatch E S
unfolding and_then checked_add
increment none s = (err (pallet_error none_value), s)
increment (some old) s =
    and_then (ok_or (checked_add old 1) (pallet_error storage_overflow)) s λ new. (ok tt, put new s)

unfoldable pub deposit_event :
    {AccountId S : Type 0} → (S → Event AccountId → S) → Event AccountId → State S → State S
deposit_event deposit e s = record { something = s.something; system = deposit s.system e }

module _ {Origin AccountId E S : Type 0}
    (ensure_signed : Origin → Result AccountId (DispatchError E))
    (deposit : S → Event AccountId → S) where
  unfoldable pub do_something : Origin → ℕ → State S → Dispatch E S
  unfolding and_then deposit_event
  do_something origin something s =
      and_then (ensure_signed origin) s
        λ who. (ok tt, deposit_event deposit (something_stored something who) (put something s))

  unfoldable pub cause_error : Origin → State S → Dispatch E S
  unfolding and_then increment
  cause_error origin s = and_then (ensure_signed origin) s λ who. increment s.something s

  unfoldable pub dispatch : Origin → Call → State S → Dispatch E S
  unfolding do_something cause_error
  dispatch origin (do_something_call something) s = do_something origin something s
  dispatch origin cause_error_call s = cause_error origin s

  -- The extrinsics of a chain in their order.
  unfoldable pub dispatch_all : List (Origin × Call) → State S → State S
  unfolding dispatch
  dispatch_all [] s = s
  dispatch_all ((o, c) ∷ calls) s = dispatch_all calls (dispatch o c s).1
