-- ===== src/Tests/Threads.antt =====
-- Two threads that ask for the same entry, and both miss it.
use event_listener.Prelude.{ℕ, String, ◌≡◌, refl, List, [], ◌∷◌}
use event_listener.Outcome.{Result, ok, Run, done}
use event_listener.Metadata.HashCache.{PalletItemKey, key_eq, empty_cache, get, insert}
use event_listener.Metadata.HashCache.Threads.Maps.{as_map, in_turn}
use event_listener.Metadata.HashCache.Threads.Serial.{get_or_insert-in_turn}
use event_listener.Metadata.HashCache.Calls.{empty_cache-IsValid}
use event_listener.Metadata.HashCache.Threads.{
  reading, computing, writing, ended, Caller, Shared, after_read, after_closure, turn, moves,
  Reaches, at_start, one_more, waiting,
}
use event_listener.Metadata.HashCache.Threads.Answers.{IsSound, get_or_insert-interleaved}

abbrev pub value : PalletItemKey → Run (Result (List ℕ) String)
value k = done (ok (7 ∷ []))

abbrev pub account : PalletItemKey
account = record { pallet = "System"; item = "Account" }

abbrev pub keys : List PalletItemKey
keys = account ∷ (account ∷ [])

abbrev pub missed : Caller String
missed = record { key = account; stage = computing }

abbrev pub both_missed : Shared String
both_missed = record { cache = empty_cache; callers = missed ∷ (missed ∷ []) }

both_missed-Reaches : Reaches value (waiting value empty_cache keys) both_missed
unfolding turn after_read get
both_missed-Reaches =
    one_more
      (one_more at_start (
        moves [] (record { key = account; stage = reading })
          (record { key = account; stage = reading } ∷ []) refl))
      (moves (missed ∷ []) (record { key = account; stage = reading }) [] refl)

get_or_insert-interleaved_example : IsSound value both_missed
get_or_insert-interleaved_example =
    get_or_insert-interleaved value empty_cache keys both_missed (empty_cache-IsValid value)
      both_missed-Reaches

-- Both compute, and both write.
abbrev answered : Caller String
answered = record { key = account; stage = ended (done (ok (7 ∷ []))) }

abbrev wrote : List ℕ → Caller String
wrote hash = record { key = account; stage = writing hash }

abbrev both_answered : Shared String
both_answered = record {
  cache = record { inner = (account, 7 ∷ []) ∷ [] };
  callers = answered ∷ (answered ∷ []);
}

both_answered-Reaches : Reaches value (waiting value empty_cache keys) both_answered
unfolding turn after_closure insert key_eq
both_answered-Reaches =
    one_more
      (one_more
        (one_more (one_more both_missed-Reaches (moves [] missed (missed ∷ []) refl))
          (moves (wrote (7 ∷ []) ∷ []) missed [] refl))
        (moves [] (wrote (7 ∷ [])) (wrote (7 ∷ []) ∷ []) refl))
      (moves (answered ∷ []) (wrote (7 ∷ [])) [] refl)

get_or_insert-in_turn_example : as_map both_answered.cache ≡ as_map (in_turn value empty_cache keys)
get_or_insert-in_turn_example =
    get_or_insert-in_turn value empty_cache keys both_answered (empty_cache-IsValid value)
      both_answered-Reaches ((_, refl), ((_, refl), tt))
