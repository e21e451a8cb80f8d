-- ===== src/Tests/Blocks.antt =====
-- The events of a block.
use event_listener.Prelude.{ℕ, ◌+◌, ◌≤◌, ◌≡◌, refl, none, List, ◌++◌, length}
use event_listener.Outcome.{Result, ok, done, Returns}
use event_listener.Error.{Error}
use event_listener.Metadata.Store.{EventMetadata, event, get_event}
use event_listener.Events.Details.{
  decode_from, decode_record, skip_fields, pallet_index, variant_index, event_metadata, field_bytes,
  bytes, at, slice,
}
use event_listener.Events.Block.{iter, next, find, find_first, has}
use event_listener.Events.Block.Iteration.{Tiles, iter-Tiles, next_after_last}
use event_listener.Events.Block.Find.{first_of, has_any, find-first-has}
use event_listener.Events.Details.Accessors.{decode_from-accessors}
use event_listener.Tests.Data as Data
use event_listener.Tests.Data.{codec-IsLawful, block, first_event, metadata, event_bytes, stored}

iter-Tiles_example :
    Returns
      (λ xs. Tiles Data.codec codec-IsLawful block 1 0 xs × (length xs ≤ 2))
      (iter Data.codec block)
iter-Tiles_example = iter-Tiles Data.codec codec-IsLawful block

-- Behind the first count of the two.
next_after_last_example :
    next Data.codec block (record { pos = 13; index = 2 })
    ≡ done (none, record { pos = 13; index = 2 })
unfolding next
next_after_last_example =
    next_after_last Data.codec codec-IsLawful block (record { pos = 13; index = 2 }) _ none refl
      (λ d e. cc)

find-first-has_example :
    (rs : List (Result ℕ Error)) × (find Data.codec stored block ≡ done rs)
    × (find_first Data.codec stored block ≡ done (first_of rs))
    × (has Data.codec stored block ≡ done (has_any rs))
    × (length rs ≤ 2)
find-first-has_example = find-first-has Data.codec codec-IsLawful stored block

decode_from-accessors_example :
    (declared : EventMetadata) × (p : ℕ) × (v : ℕ) × (pallet_index first_event ≡ done p)
    × (variant_index first_event ≡ done v)
    × (event metadata p v ≡ ok declared)
    × (event_metadata first_event ≡ done declared)
    × (before : List ℕ) × (fields : List ℕ) × (after : List ℕ) × (field_bytes first_event
        ≡ done fields)
    × (bytes first_event ≡ done (before ++ (fields ++ after)))
    × (1 + length (before ++ (fields ++ after)) ≡ 7)
    × (7 ≤ length event_bytes)
unfolding decode_from decode_record skip_fields event get_event slice at
decode_from-accessors_example =
    decode_from-accessors Data.codec metadata event_bytes 1 0 first_event codec-IsLawful refl
