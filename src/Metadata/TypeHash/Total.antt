-- ===== src/Metadata/TypeHash/Total.antt =====
-- The recursion over types in event-listener/src/metadata/metadata_utils.rs ends without a panic on
-- a registry that is closed, and yields 32 bytes.
use event_listener.Prelude.{
  ℕ, zero, suc, ◌<◌, String, ◌≡◌, refl, Option, none, some, List, [], ◌∷◌, length, All, inl, inr,
  Bool-cases, arith,
}
use event_listener.Outcome.{Returns, Returns-and_run, Returns-map_run, Returns-mono}
use event_listener.Metadata.Types.{
  Field, Variant, TypeDef, PortableRegistry, plain, map, StorageEntryType, StorageEntryMetadata,
}
use event_listener.Metadata.TypeHash.{
  xor, repeat_32, hash_entry_type, contains, Hashing, hash, hash_hashes, fold_hashes, xor_hash,
  name_hash, get_field_hash, get_variant_hash, get_type_def_hash, get_type_hash, hash_hashers,
  get_storage_entry_hash,
}
use event_listener.Metadata.TypeHash.Visited.{unvisited, unvisited-cons_lt}

-- Every type id that a definition names is below `n`.
abbrev pub FieldBelow : ℕ → Field → Type 0
FieldBelow n field = field.ty < n

abbrev pub VariantBelow : ℕ → Variant → Type 0
VariantBelow n var = All (FieldBelow n) var.fields

abbrev pub Below : ℕ → TypeDef → Type 0
Below n (TypeDef.composite fields) = All (FieldBelow n) fields
Below n (TypeDef.variant variants) = All (VariantBelow n) variants
Below n (TypeDef.sequence t) = t < n
Below n (TypeDef.array len t) = t < n
Below n (TypeDef.tuple fields) = All (λ t. t < n) fields
Below n (TypeDef.primitive p) = Unit
Below n (TypeDef.compact t) = t < n
Below n (TypeDef.bit_sequence o s) = (o < n) × (s < n)

-- Every id below the registry's length resolves, to a definition that names such ids only.
pub record IsClosed (registry : PortableRegistry) : Type 0 where
  pub resolves :
      (id : ℕ)
      → id < registry.len
      → (def : TypeDef) × (registry.resolve id ≡ some def) × Below registry.len def

abbrev pub EntryBelow : ℕ → StorageEntryType → Type 0
EntryBelow n (plain ty) = ty < n
EntryBelow n (map hashers key value) = (key < n) × (value < n)

-- A hash of 32 bytes, with fewer than `k` ids of the registry left to visit.
abbrev pub Hashed : ℕ → ℕ → List ℕ × List ℕ → Type 0
Hashed n k r = (length r.0 ≡ 32) × (unvisited n r.1 < k)

length-xor : (xs ys : List ℕ) → length xs ≡ length ys → length (xor xs ys) ≡ length xs
unfolding xor
length-xor [] ys h = refl
length-xor (x ∷ xs) [] h = absurd (omega arith)
length-xor (x ∷ xs) (y ∷ ys) h = omega (arith, length-xor xs ys)

xor_32 : (xs ys : List ℕ) → length xs ≡ 32 → length ys ≡ 32 → length (xor xs ys) ≡ 32
xor_32 xs ys p q = omega (arith, length-xor xs ys)

module _ (twox_256 : List ℕ → List ℕ) (wide : (bytes : List ℕ) → length (twox_256 bytes) ≡ 32) where
  length-hash : (bytes : List ℕ) → length (hash twox_256 bytes) ≡ 32
  unfolding hash
  length-hash bytes = wide bytes

  length-hash_hashes : (a b : List ℕ) → length (hash_hashes twox_256 a b) ≡ 32
  unfolding hash_hashes
  length-hash_hashes a b = wide _

  length-name_hash :
      (bytes : List ℕ) (name : Option String)
      → length bytes ≡ 32
      → length (name_hash twox_256 bytes name) ≡ 32
  unfolding name_hash
  length-name_hash bytes none h = h
  length-name_hash bytes (some name) h = xor_32 bytes _ h (length-hash _)

  length-hash_hashers :
      (hs bytes : List ℕ) → length bytes ≡ 32 → length (hash_hashers twox_256 hs bytes) ≡ 32
  unfolding hash_hashers
  length-hash_hashers [] bytes h = h
  length-hash_hashers (x ∷ hs) bytes h =
      length-hash_hashers hs _ (length-hash_hashes bytes (repeat_32 x))

  module _ (n k : ℕ) where
    -- `f` hashes each `x` that satisfies `P`.
    abbrev Hashes : {A : Type 0} → (A → Type 0) → (A → List ℕ → Hashing) → Type 0
    Hashes {A} P f =
        (x : A) (visited : List ℕ)
        → P x
        → unvisited n visited < k
        → Returns (Hashed n k) (f x visited)

    fold_hashes-Hashed :
        {A : Type 0} (P : A → Type 0) (f : A → List ℕ → Hashing)
        → Hashes P f
        → (xs : List A) (bytes visited : List ℕ) → All P xs
        → length bytes ≡ 32
        → unvisited n visited < k
        → Returns (Hashed n k) (fold_hashes twox_256 f xs bytes visited)
    unfolding fold_hashes
    fold_hashes-Hashed P f good [] bytes visited h w lt = (w, lt)
    fold_hashes-Hashed P f good (x ∷ xs) bytes visited h w lt =
        Returns-and_run (Hashed n k) (Hashed n k) (f x visited) _ (good x visited h.0 lt)
          λ r hr. fold_hashes-Hashed P f good xs _ r.1 h.1 (length-hash_hashes _ _) hr.1

    xor_hash-Hashed :
        (bytes : List ℕ) (m : Hashing)
        → length bytes ≡ 32
        → Returns (Hashed n k) m
        → Returns (Hashed n k) (xor_hash twox_256 bytes m)
    unfolding xor_hash
    xor_hash-Hashed bytes m w h =
        Returns-map_run (Hashed n k) (Hashed n k) _ m h λ r hr. (xor_32 bytes r.0 w hr.0, hr.1)

    module _ (type_hash : ℕ → List ℕ → Hashing) (good : Hashes (λ t. t < n) type_hash) where
      get_field_hash-Hashed : Hashes (FieldBelow n) (get_field_hash twox_256 type_hash)
      unfolding get_field_hash
      get_field_hash-Hashed field visited h lt =
          Returns-map_run (Hashed n k) (Hashed n k) _ (type_hash field.ty visited)
            (good field.ty visited h lt) λ r hr. (length-name_hash r.0 field.name hr.0, hr.1)

      get_variant_hash-Hashed : Hashes (VariantBelow n) (get_variant_hash twox_256 type_hash)
      unfolding get_variant_hash
      get_variant_hash-Hashed var visited h lt =
          fold_hashes-Hashed (FieldBelow n) _ get_field_hash-Hashed var.fields _ visited h
            (length-hash _) lt

      get_type_def_hash-Hashed : Hashes (Below n) (get_type_def_hash twox_256 type_hash)
      unfolding get_type_def_hash
      get_type_def_hash-Hashed (TypeDef.composite fields) v h lt =
          fold_hashes-Hashed (FieldBelow n) _ get_field_hash-Hashed fields _ v h (length-hash _) lt
      get_type_def_hash-Hashed (TypeDef.variant vs) v h lt =
          fold_hashes-Hashed (VariantBelow n) _ get_variant_hash-Hashed vs _ v h (length-hash _) lt
      get_type_def_hash-Hashed (TypeDef.sequence t) v h lt =
          xor_hash-Hashed _ _ (length-hash _) (good t v h lt)
      get_type_def_hash-Hashed (TypeDef.array len t) v h lt =
          xor_hash-Hashed _ _ (length-hash _) (good t v h lt)
      get_type_def_hash-Hashed (TypeDef.tuple ts) v h lt =
          fold_hashes-Hashed (λ t. t < n) type_hash good ts _ v h (length-hash _) lt
      get_type_def_hash-Hashed (TypeDef.primitive p) v h lt = (length-hash _, lt)
      get_type_def_hash-Hashed (TypeDef.compact t) v h lt =
          xor_hash-Hashed _ _ (length-hash _) (good t v h lt)
      get_type_def_hash-Hashed (TypeDef.bit_sequence o s) v h lt =
          Returns-and_run (Hashed n k) (Hashed n k) _ _
            (xor_hash-Hashed _ _ (length-hash _) (good o v h.0 lt))
            λ r hr. xor_hash-Hashed r.0 _ hr.0 (good s r.1 h.1 hr.1)

  module _ (registry : PortableRegistry) (closed : IsClosed registry) where
    -- With more fuel than there are ids left to visit, the hash of a type is computed.
    get_type_hash-Hashed :
        (fuel : ℕ)
        → Hashes registry.len fuel (λ t. t < registry.len) (get_type_hash twox_256 registry fuel)
    unfolding get_type_hash
    get_type_hash-Hashed zero id visited h lt = elim lt [ ]
    get_type_hash-Hashed (suc fuel) id visited h lt = elim (Bool-cases (contains visited id)) [
      | inl seen ↦ rw seen (length-hash _, lt)
      | inr new ↦
          let (def, e, below) = closed.resolves id h in
          rw (new, e)
            (Returns-mono (Hashed registry.len fuel) (Hashed registry.len (suc fuel)) _
              (λ r hr. (hr.0, omega arith))
              (get_type_def_hash-Hashed registry.len fuel _ (get_type_hash-Hashed fuel) def
                (id ∷ visited) below
                (omega (arith, unvisited-cons_lt registry.len id visited h new))))
    ]

    hash_entry_type-Hashed :
        (fuel : ℕ) (ty : StorageEntryType) (bytes visited : List ℕ)
        → EntryBelow registry.len ty
        → length bytes ≡ 32
        → unvisited registry.len visited < fuel
        → Returns
            (Hashed registry.len fuel)
            (hash_entry_type twox_256 registry fuel ty bytes visited)
    unfolding hash_entry_type
    hash_entry_type-Hashed fuel (plain ty) bytes visited h w lt =
        xor_hash-Hashed registry.len fuel bytes _ w (get_type_hash-Hashed fuel ty visited h lt)
    hash_entry_type-Hashed fuel (map hs key value) bytes visited h w lt =
        Returns-and_run (Hashed registry.len fuel) (Hashed registry.len fuel) _ _
          (xor_hash-Hashed registry.len fuel _ _ (length-hash_hashers hs bytes w)
            (get_type_hash-Hashed fuel key visited h.0 lt))
          λ r hr.
            xor_hash-Hashed registry.len fuel r.0 _ hr.0
              (get_type_hash-Hashed fuel value r.1 h.1 hr.1)

    -- If `twox_256` yields 32 bytes: the hash of a storage entry whose types are in a closed registry is computed, and has 32
    -- bytes, when the fuel is above the number of ids that are left to visit.
    pub get_storage_entry_hash-Hashed :
        (fuel : ℕ) (entry : StorageEntryMetadata) (visited : List ℕ)
        → EntryBelow registry.len entry.ty
        → unvisited registry.len visited < fuel
        → Returns
            (Hashed registry.len fuel)
            (get_storage_entry_hash twox_256 registry fuel entry visited)
    unfolding get_storage_entry_hash
    get_storage_entry_hash-Hashed fuel entry visited h lt =
        hash_entry_type-Hashed fuel entry.ty _ visited h
          (xor_32 _ _ (xor_32 _ _ (length-hash _) (length-hash _)) (length-hash _)) lt
