-- ===== src/Metadata/TypeHash/Cancel.antt =====
-- The exclusive or in event-listener/src/metadata/metadata_utils.rs cancels itself.
use event_listener.Prelude.{
  ℕ, zero, suc, ◌+◌, ◌*◌, ◌/◌, ◌%◌, ◌≤◌, ◌<◌, ◌≡◌, refl, sym, String, as_bytes, ap, ap₂, ◌∙◌,
  bit_xor, ◌==◌, false, some, List, [], ◌∷◌, length, arith,
}
use Prim.Native.Nat.{differ, digits, bit_xor-bitwise}
use event_listener.Outcome.{done, map_run}
use event_listener.Metadata.Types.{TypeDef, PortableRegistry, plain}
use event_listener.Metadata.TypeHash.{
  xor, hash, xor_hash, discriminant, hash_entry_type, contains, get_type_def_hash, get_type_hash,
  get_storage_entry_hash,
}

-- The fuel does not matter, once it is as large as the number.
digits-differ_fuel :
    (m k x y : ℕ)
    → x ≤ m
    → x ≤ k
    → digits (λ rest. rest) differ m x y ≡ digits (λ rest. rest) differ k x y
digits-differ_fuel zero k (suc x) y s t = absurd (omega arith)
digits-differ_fuel (suc m) zero (suc x) y s t = absurd (omega arith)
digits-differ_fuel zero zero zero y s t = refl
digits-differ_fuel zero (suc k) zero y s t = refl
digits-differ_fuel (suc m) zero zero y s t = refl
digits-differ_fuel (suc m) (suc k) zero y s t = refl
digits-differ_fuel (suc m) (suc k) (suc x) y s t =
    let halves = digits-differ_fuel m k (suc x / 2) (y / 2) (omega arith) (omega arith) in
    omega (arith, halves)

nothing-bit_xor : (y : ℕ) → bit_xor 0 y ≡ y
nothing-bit_xor y = bit_xor-bitwise 0 y

-- The lowest digit, and the others.
bit_xor-halves : (x y : ℕ) → bit_xor x y ≡ bit_xor (x / 2) (y / 2) * 2 + differ (x % 2) (y % 2)
bit_xor-halves zero y = omega (arith, nothing-bit_xor y, nothing-bit_xor (y / 2))
bit_xor-halves (suc x) y =
    let whole = bit_xor-bitwise (suc x) y in
    let half = bit_xor-bitwise (suc x / 2) (y / 2) in
    let same = digits-differ_fuel x (suc x / 2) (suc x / 2) (y / 2) (omega arith) (omega arith) in
    omega (arith, whole, half, same)

differ_lt : (p q : ℕ) → p < 2 → q < 2 → differ p q < 2
differ_lt zero q s t = t
differ_lt (suc p) zero s t = s
differ_lt (suc zero) (suc q) s t = omega arith
differ_lt (suc (suc p)) (suc q) s t = absurd (omega arith)

differ-differ : (p q : ℕ) → p < 2 → q < 2 → differ p (differ p q) ≡ q
differ-differ zero q s t = refl
differ-differ (suc zero) zero s t = refl
differ-differ (suc zero) (suc zero) s t = refl
differ-differ (suc zero) (suc (suc q)) s t = absurd (omega arith)
differ-differ (suc (suc p)) q s t = absurd (omega arith)

bit_xor-bit_xor_within : (n x y : ℕ) → x ≤ n → bit_xor x (bit_xor x y) ≡ y
bit_xor-bit_xor_within n zero y h = omega (arith, nothing-bit_xor y, nothing-bit_xor (bit_xor 0 y))
bit_xor-bit_xor_within zero (suc x) y h = absurd (omega arith)
bit_xor-bit_xor_within (suc n) (suc x) y h =
    let a = suc x in
    let z = bit_xor a y in
    let cut : z ≡ bit_xor (a / 2) (y / 2) * 2 + differ (a % 2) (y % 2) = bit_xor-halves a y in
    let low = differ_lt (a % 2) (y % 2) (omega arith) (omega arith) in
    let halves : z / 2 ≡ bit_xor (a / 2) (y / 2) = omega (arith, cut, low) in
    let digit : z % 2 ≡ differ (a % 2) (y % 2) = omega (arith, cut, low) in
    let upper : bit_xor (a / 2) (z / 2) ≡ y / 2 =
      ap (bit_xor (a / 2)) halves ∙ bit_xor-bit_xor_within n (a / 2) (y / 2) (omega arith) in
    let lower : differ (a % 2) (z % 2) ≡ y % 2 =
      ap (differ (a % 2)) digit ∙ differ-differ (a % 2) (y % 2) (omega arith) (omega arith) in
    omega (arith, bit_xor-halves a z, upper, lower)

xor-xor : (xs ys : List ℕ) → length xs ≡ length ys → xor xs (xor xs ys) ≡ ys
unfolding xor
xor-xor [] [] h = refl
xor-xor [] (y ∷ ys) h = absurd (omega arith)
xor-xor (x ∷ xs) [] h = absurd (omega arith)
xor-xor (x ∷ xs) (y ∷ ys) h =
    ap₂ (λ z zs. z ∷ zs) (bit_xor-bit_xor_within x x y (omega arith)) (xor-xor xs ys (omega arith))

-- The hash of a sequence whose id has not been visited.
get_type_hash-sequence :
    (twox_256 : List ℕ → List ℕ) (registry : PortableRegistry) (id elem fuel : ℕ)
    (visited h rest : List ℕ)
    → registry.resolve id ≡ some (TypeDef.sequence elem)
    → contains visited id ≡ false
    → get_type_hash twox_256 registry fuel elem (id ∷ visited) ≡ done (h, rest)
    → get_type_hash twox_256 registry (suc fuel) id visited ≡ done (xor (twox_256 (2 ∷ [])) h, rest)
unfolding get_type_hash get_type_def_hash xor_hash hash discriminant
get_type_hash-sequence twox_256 registry id elem fuel visited h rest def new run =
    rw (new, def) (rw run refl)

module _ (twox_256 : List ℕ → List ℕ) (wide : (bytes : List ℕ) → length (twox_256 bytes) ≡ 32)
    (registry : PortableRegistry) (outer inner item p : ℕ)
    (outer_def : registry.resolve outer ≡ some (TypeDef.sequence inner))
    (inner_def : registry.resolve inner ≡ some (TypeDef.sequence item))
    (item_def : registry.resolve item ≡ some (TypeDef.primitive p))
    (outer_inner : (outer == inner) ≡ false) (outer_item : (outer == item) ≡ false)
    (inner_item : (inner == item) ≡ false) where
  -- The hash of the primitive type.
  abbrev pub item_hash : List ℕ
  item_hash = twox_256 (5 ∷ (p ∷ []))

  get_type_hash-item :
      (fuel : ℕ) (visited : List ℕ)
      → contains visited item ≡ false
      → get_type_hash twox_256 registry (suc fuel) item visited ≡ done (item_hash, item ∷ visited)
  unfolding get_type_hash get_type_def_hash hash
  get_type_hash-item fuel visited new = rw (new, item_def) refl

  get_type_hash-outer :
      (fuel : ℕ)
      → get_type_hash twox_256 registry (suc (suc (suc fuel))) outer []
        ≡ done (item_hash, item ∷ (inner ∷ (outer ∷ [])))
  unfolding contains
  get_type_hash-outer fuel =
      get_type_hash-sequence twox_256 registry outer inner (suc (suc fuel)) [] _ _ outer_def refl (
        get_type_hash-sequence twox_256 registry inner item (suc fuel) (outer ∷ []) _ _ inner_def
          (rw outer_inner refl)
          (get_type_hash-item fuel (inner ∷ (outer ∷ [])) (rw (inner_item, outer_item) refl)))
      ∙ ap (λ h. done (h, item ∷ (inner ∷ (outer ∷ []))))
          (xor-xor (twox_256 (2 ∷ [])) item_hash (wide _ ∙ sym (wide _)))

  -- If `twox_256` yields 32 bytes, the hash of a storage item does not tell sequences of sequences of
  -- a primitive type from the primitive type itself: an item of the one type and an item of the
  -- other that are alike in all else have the same hash, since the two equal hashes of the
  -- sequences cancel. The three types have different ids, and there is fuel for all of them.
  pub get_storage_entry_hash-nested :
      (fuel : ℕ) (name : String) (modifier : ℕ) (default : List ℕ)
      → (h : List ℕ) × (map_run
            (λ r. r.0)
            (get_storage_entry_hash twox_256 registry
              (suc (suc (suc fuel)))
              (record { name = name; modifier = modifier; ty = plain outer; default = default })
              [])
          ≡ done h)
        × (map_run
              (λ r. r.0)
              (get_storage_entry_hash twox_256 registry
                (suc (suc (suc fuel)))
                (record { name = name; modifier = modifier; ty = plain item; default = default })
                [])
            ≡ done h)
  unfolding get_storage_entry_hash hash_entry_type xor_hash contains hash
  get_storage_entry_hash-nested fuel name modifier default = (
    xor (xor (xor (twox_256 (as_bytes name)) (twox_256 (modifier ∷ []))) (twox_256 default))
        item_hash,
    rw (get_type_hash-outer fuel) refl,
    rw (get_type_hash-item (suc (suc fuel)) [] refl) refl,
  )
