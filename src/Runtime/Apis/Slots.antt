-- ===== src/Runtime/Apis/Slots.antt =====
-- The duration of a slot in runtime/src/lib.rs.
use event_listener.Prelude.{◌*◌, ◌≡◌, refl}
use event_listener.Outcome.{done}
use event_listener.Runtime.{minimum_period}
use event_listener.Runtime as Runtime
use event_listener.Runtime.Apis.{Crates, slot_duration}

-- The slot of `Aura` is twice the minimum period of the timestamps, as its documentation says; then
-- `slot_duration` gives the constant `SLOT_DURATION`, and leaves the state as it is.
pub slot_duration-minimum_period :
    (c : Crates)
    → ((s : c.State) → c.aura_slot_duration s ≡ done (minimum_period * 2, s))
    → (s : c.State) → slot_duration c s ≡ done (c.from_millis Runtime.slot_duration, s)
unfolding slot_duration
slot_duration-minimum_period c twice s = rw (twice s) refl
