-- ===== src/Tests/Collisions.antt =====
-- A registry of a primitive type, its sequences, and the sequences of those.
use event_listener.Prelude.{
  ℕ, ◌==◌, refl, List, [], ◌∷◌, ◌≡◌, Option, none, some, if◌then◌else◌, length,
}
use event_listener.Outcome.{done, map_run}
use event_listener.Metadata.Types.{TypeDef, PortableRegistry, plain}
use event_listener.Metadata.TypeHash.{repeat_32, get_storage_entry_hash}
use event_listener.Metadata.TypeHash.Cancel.{get_storage_entry_hash-nested}

-- 32 times the first byte.
abbrev first_byte : List ℕ → List ℕ
first_byte [] = repeat_32 0
first_byte (b ∷ bytes) = repeat_32 b

abbrev type_def : ℕ → Option TypeDef
type_def id =
    if id == 0
    then some (TypeDef.primitive 3)
    else if id == 1
    then some (TypeDef.sequence 0)
    else if id == 2
    then some (TypeDef.sequence 1)
    else none

abbrev types : PortableRegistry
types = record { len = 3; resolve = type_def }

length-first_byte : (bytes : List ℕ) → length (first_byte bytes) ≡ 32
length-first_byte [] = refl
length-first_byte (b ∷ bytes) = refl

get_storage_entry_hash-nested_example :
    (h : List ℕ) × (map_run
        (λ r. r.0)
        (get_storage_entry_hash first_byte types 4
          (record { name = "Names"; modifier = 1; ty = plain 2; default = 0 ∷ [] })
          [])
      ≡ done h)
    × (map_run
          (λ r. r.0)
          (get_storage_entry_hash first_byte types 4
            (record { name = "Names"; modifier = 1; ty = plain 0; default = 0 ∷ [] })
            [])
        ≡ done h)
get_storage_entry_hash-nested_example =
    get_storage_entry_hash-nested first_byte length-first_byte types 2 1 0 3 refl refl refl refl
      refl refl 1 "Names" 1 (0 ∷ [])
