-- ===== src/Tests/Locks.antt =====
-- Two threads that ask for the same entry, under a lock that lets no reader in before a waiting writer.
use event_listener.Prelude.{
  String, ◌*◌, ◌≤◌, ◌≡◌, refl, ◌⊎◌, Option, none, some, List, [], ◌∷◌, All, All-mono, map, length,
}
use event_listener.Metadata.HashCache.{empty_cache, get}
use event_listener.Metadata.HashCache.Calls.{empty_cache-IsValid}
use event_listener.Metadata.HashCache.Locks.{
  Guard, shared, exclusive, at_read, reading, computing, ended, Caller, Shared, guard_of,
  request_of, after_lookup, proceed, RwLock, Step, moves, Reaches, at_start, one_more, calling,
}
use event_listener.Metadata.HashCache.Locks.Progress.{granted}
use event_listener.Metadata.HashCache.Locks.Ends.{get_or_insert-ends}
use event_listener.Tests.Threads.{value, account, keys}

abbrev IsGranted : Guard → (held waiting : List (Option Guard)) → Type 0
IsGranted exclusive held waiting = All (λ g. g ≡ none) held
IsGranted shared held waiting =
    All (λ g. ¬ (g ≡ some exclusive)) held × All (λ g. ¬ (g ≡ some exclusive)) waiting

abbrev lock : RwLock
lock = record {
  Grants = IsGranted;
  grants_exclusive = λ held waiting h. h;
  grants_shared = λ held waiting h w. (All-mono (λ g e k. cc) held h, w);
}

abbrev waits : Caller String
waits = record { key = account; point = at_read }

abbrev holds : Caller String
holds = record { key = account; point = reading }

-- The first thread holds the read lock, and then has found nothing.
abbrev one_reads : Shared String
one_reads = record { cache = empty_cache; callers = holds ∷ (waits ∷ []) }

abbrev one_computes : Shared String
one_computes = record {
  cache = empty_cache;
  callers = record { key = account; point = computing } ∷ (waits ∷ []);
}

one_computes-Reaches : Reaches lock value (calling lock value empty_cache keys) 2 one_computes
unfolding proceed after_lookup get request_of guard_of
one_computes-Reaches =
    one_more
      (one_more at_start (
        moves [] waits (waits ∷ []) refl (
          granted lock value (calling lock value empty_cache keys) at_read shared refl
            (((λ e. cc), ((λ e. cc), tt)), ((λ e. cc), ((λ e. cc), tt))))))
      (moves [] holds (waits ∷ []) refl (λ h. cc, λ g h. cc))

get_or_insert-ends_example :
    (2 ≤ 5 * length keys)
    × (map (λ t. t.key) one_computes.callers ≡ keys)
    × (All (λ t. t.point ≡ ended (value t.key)) one_computes.callers
        ⊎ ((u : Shared String) × Step lock value one_computes u))
get_or_insert-ends_example =
    get_or_insert-ends lock value empty_cache keys 2 one_computes (empty_cache-IsValid value)
      one_computes-Reaches
