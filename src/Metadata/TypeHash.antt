-- ===== src/Metadata/TypeHash.antt =====
-- event-listener/src/metadata/metadata_utils.rs. A `[u8; 32]` is a list of 32 bytes. The hash
-- function `twox_256` is sp_core's, a parameter. `&mut HashSet<u32>` is passed and returned.
pub mod Lookup
pub mod Visited
pub mod Total
pub mod Cancel
use event_listener.Prelude.{
  ℕ, zero, suc, String, ◌==◌, ◌||◌, Bool, false, Option, none, some, List, [], ◌∷◌, ◌++◌, as_bytes,
  bit_xor, if◌then◌else◌, str_eq,
}
use Prim.Native.Nat.{◌/◌, ◌%◌}
use event_listener.Outcome.{
  Result, ok, err, ok_or, Run, done, panic, expect, and_run, map_run, ◌>>=◌,
}
use event_listener.Metadata.Types.{
  Field, Variant, TypeDef, PortableRegistry, StorageEntryType, plain, map, StorageEntryMetadata,
  PalletMetadata, RuntimeMetadataV14,
}

pub data TypeBeingHashed : Type 0 where
  composite variant sequence array tuple primitive compact bit_sequence : TypeBeingHashed

-- `as u8`.
unfoldable pub discriminant : TypeBeingHashed → ℕ
discriminant composite = 0
discriminant variant = 1
discriminant sequence = 2
discriminant array = 3
discriminant tuple = 4
discriminant primitive = 5
discriminant compact = 6
discriminant bit_sequence = 7

unfoldable pub xor : List ℕ → List ℕ → List ℕ
xor [] ys = []
xor (x ∷ xs) [] = []
xor (x ∷ xs) (y ∷ ys) = bit_xor x y ∷ xor xs ys

-- `u32::to_be_bytes`.
unfoldable pub to_be_bytes : ℕ → List ℕ
to_be_bytes n = (n / 16777216 % 256) ∷ (n / 65536 % 256) ∷ (n / 256 % 256) ∷ (n % 256) ∷ []

-- `[byte; 32]`.
abbrev pub repeat_32 : ℕ → List ℕ
repeat_32 b =
    b ∷ b ∷ b ∷ b ∷ b ∷ b ∷ b ∷ b ∷ b ∷ b ∷ b ∷ b ∷ b ∷ b ∷ b ∷ b ∷ b ∷ b ∷ b ∷ b ∷ b ∷ b ∷ b ∷ b
    ∷ b ∷ b ∷ b ∷ b ∷ b ∷ b ∷ b ∷ b ∷ []

unfoldable pub contains : List ℕ → ℕ → Bool
contains [] n = false
contains (i ∷ v) n = i == n || contains v n

-- What hashing yields: the hash and the visited ids, or a panic.
abbrev pub Hashing : Type 0
Hashing = Run (List ℕ × List ℕ)

module _ (twox_256 : List ℕ → List ℕ) where
  unfoldable pub hash : List ℕ → List ℕ
  hash bytes = twox_256 bytes

  unfoldable pub hash_hashes : List ℕ → List ℕ → List ℕ
  unfolding hash
  hash_hashes a b = hash (a ++ b)

  -- `for x in xs { bytes = hash_hashes(bytes, f(x, visited_ids)) }`
  unfoldable pub fold_hashes :
      {A : Type 0} → (A → List ℕ → Hashing) → List A → List ℕ → List ℕ → Hashing
  fold_hashes f [] bytes visited = done (bytes, visited)
  fold_hashes f (x ∷ xs) bytes visited =
      and_run (f x visited) λ r. fold_hashes f xs (hash_hashes bytes r.0) r.1

  -- `xor(bytes, get_type_hash(..))`
  unfoldable pub xor_hash : List ℕ → Hashing → Hashing
  xor_hash bytes m = map_run (λ r. (xor bytes r.0, r.1)) m

  -- The XOR with the hash of a name, if there is one.
  unfoldable pub name_hash : List ℕ → Option String → List ℕ
  unfolding hash
  name_hash bytes none = bytes
  name_hash bytes (some name) = xor bytes (hash (as_bytes name))

  -- The functions below `get_type_hash` take it as the argument `type_hash`.
  module _ (type_hash : ℕ → List ℕ → Hashing) where
    unfoldable pub get_field_hash : Field → List ℕ → Hashing
    unfolding name_hash
    get_field_hash field visited =
        map_run (λ r. (name_hash r.0 field.name, r.1)) (type_hash field.ty visited)

    unfoldable pub get_variant_hash : Variant → List ℕ → Hashing
    unfolding hash fold_hashes
    get_variant_hash var visited =
        fold_hashes get_field_hash var.fields (hash (as_bytes var.name)) visited

    unfoldable pub get_type_def_hash : TypeDef → List ℕ → Hashing
    unfolding hash fold_hashes xor_hash discriminant
    get_type_def_hash (TypeDef.composite fields) visited =
        fold_hashes get_field_hash fields (hash (discriminant composite ∷ [])) visited
    get_type_def_hash (TypeDef.variant variants) visited =
        fold_hashes get_variant_hash variants (hash (discriminant variant ∷ [])) visited
    get_type_def_hash (TypeDef.sequence type_param) visited =
        xor_hash (hash (discriminant sequence ∷ [])) (type_hash type_param visited)
    get_type_def_hash (TypeDef.array len type_param) visited =
        xor_hash (hash (discriminant array ∷ to_be_bytes len)) (type_hash type_param visited)
    get_type_def_hash (TypeDef.tuple fields) visited =
        fold_hashes type_hash fields (hash (discriminant tuple ∷ [])) visited
    get_type_def_hash (TypeDef.primitive p) visited =
        done (hash (discriminant primitive ∷ p ∷ []), visited)
    get_type_def_hash (TypeDef.compact type_param) visited =
        xor_hash (hash (discriminant compact ∷ [])) (type_hash type_param visited)
    get_type_def_hash (TypeDef.bit_sequence order store) visited =
        and_run (xor_hash (hash (discriminant bit_sequence ∷ [])) (type_hash order visited))
          λ r. xor_hash r.0 (type_hash store r.1)

  -- The depth of the recursion is the fuel; without fuel the call panics.
  unfoldable pub get_type_hash : PortableRegistry → ℕ → ℕ → List ℕ → Hashing
  unfolding hash get_type_def_hash
  get_type_hash registry zero id visited = panic
  get_type_hash registry (suc fuel) id visited =
      if contains visited id
      then done (hash (123 ∷ []), visited)
      else and_run (expect (registry.resolve id))
          λ ty_def. get_type_def_hash (get_type_hash registry fuel) ty_def (id ∷ visited)

  -- `for hasher in hashers { bytes = hash_hashes(bytes, [hasher as u8; 32]) }`
  unfoldable pub hash_hashers : List ℕ → List ℕ → List ℕ
  unfolding hash_hashes
  hash_hashers [] bytes = bytes
  hash_hashers (h ∷ hs) bytes = hash_hashers hs (hash_hashes bytes (repeat_32 h))

  -- The `match &entry.ty`: a map hashes its hashers, then its key, then its value.
  unfoldable pub hash_entry_type :
      PortableRegistry → ℕ → StorageEntryType → List ℕ → List ℕ → Hashing
  unfolding xor_hash hash_hashers
  hash_entry_type registry fuel (plain ty) bytes visited =
      xor_hash bytes (get_type_hash registry fuel ty visited)
  hash_entry_type registry fuel (map hashers key value) bytes visited =
      and_run (xor_hash (hash_hashers hashers bytes) (get_type_hash registry fuel key visited))
        λ r. xor_hash r.0 (get_type_hash registry fuel value r.1)

  unfoldable pub get_storage_entry_hash :
      PortableRegistry → ℕ → StorageEntryMetadata → List ℕ → Hashing
  unfolding hash hash_entry_type
  get_storage_entry_hash registry fuel entry visited =
      let bytes = xor (hash (as_bytes entry.name)) (hash (entry.modifier ∷ [])) in
      hash_entry_type registry fuel entry.ty (xor bytes (hash entry.default)) visited

pub data NotFound : Type 0 where
  pallet item : NotFound

-- `iter().find(|p| p.name == pallet_name)`
unfoldable pub find_pallet : String → List PalletMetadata → Option PalletMetadata
find_pallet name [] = none
find_pallet name (p ∷ ps) = if str_eq p.name name then some p else find_pallet name ps

unfoldable pub find_entry : String → List StorageEntryMetadata → Option StorageEntryMetadata
find_entry name [] = none
find_entry name (s ∷ ss) = if str_eq s.name name then some s else find_entry name ss

-- The entry that `get_storage_hash` hashes.
unfoldable pub lookup_entry :
    RuntimeMetadataV14 → String → String → Result StorageEntryMetadata NotFound
unfolding find_pallet find_entry
lookup_entry metadata pallet_name storage_name = do
  p ← ok_or (find_pallet pallet_name metadata.pallets) pallet
  storage ← ok_or p.storage item
  ok_or (find_entry storage_name storage.entries) item

module _ (twox_256 : List ℕ → List ℕ) where
  unfoldable pub entry_hash_result :
      PortableRegistry → Result StorageEntryMetadata NotFound → Run (Result (List ℕ) NotFound)
  entry_hash_result registry (ok entry) =
      map_run (λ r. ok r.0) (get_storage_entry_hash twox_256 registry (suc registry.len) entry [])
  entry_hash_result registry (err e) = done (err e)

  unfoldable pub get_storage_hash :
      RuntimeMetadataV14 → String → String → Run (Result (List ℕ) NotFound)
  unfolding lookup_entry entry_hash_result
  get_storage_hash metadata pallet_name storage_name =
      entry_hash_result metadata.types (lookup_entry metadata pallet_name storage_name)
