-- ===== src/Metadata/TypeHash/Lookup.antt =====
-- What the searches at the start of `get_storage_hash` find (metadata_hash.rs of
-- event-listener/src/metadata), told from the names in the metadata alone.
use event_listener.Prelude.{
  String, str_eq, eq_iff, ◌≡◌, refl, ◌⊎◌, inl, inr, Bool-cases, Option, none, some, List, [], ◌∷◌,
  All, arith,
}
use event_listener.Outcome.{Result, ok, err}
use event_listener.Metadata.Types.{
  PalletMetadata, PalletStorageMetadata, RuntimeMetadataV14, StorageEntryMetadata,
}
use event_listener.Metadata.TypeHash.{NotFound, find_pallet, find_entry, lookup_entry}

-- No element of the list has the name.
abbrev pub NoneNamed : {A : Type 0} → (A → String) → String → List A → Type 0
NoneNamed name n xs = All (λ x. ¬ (name x ≡ n)) xs

-- The element has the name, and those before it do not.
abbrev pub IsFirst : {A : Type 0} → (A → String) → String → List A → A → Type 0
IsFirst name n [] a = ⊥
IsFirst name n (x ∷ xs) a = ((name x ≡ n) × (x ≡ a)) ⊎ ((¬ (name x ≡ n)) × IsFirst name n xs a)

abbrev pub pallet_name : PalletMetadata → String
pallet_name p = p.name

abbrev pub entry_name : StorageEntryMetadata → String
entry_name s = s.name

-- The entries of a pallet, none if it has no storage.
abbrev pub entries_of : PalletMetadata → List StorageEntryMetadata
entries_of p = elim p.storage [ none ↦ [] | some s ↦ s.entries ]

-- The entry of the first pallet with the name that has the entry's name first.
abbrev pub Declares : RuntimeMetadataV14 → String → String → StorageEntryMetadata → Type 0
Declares meta pallet item entry =
    (p : PalletMetadata) × IsFirst pallet_name pallet meta.pallets p
    × IsFirst entry_name item (entries_of p) entry

-- The name is missing, or the search gives the first element that has it.
abbrev Search : {A : Type 0} → (A → String) → String → List A → Option A → Type 0
Search {A = A} name n xs o =
    (NoneNamed name n xs × (o ≡ none)) ⊎ ((a : A) × IsFirst name n xs a × (o ≡ some a))

Search-cons :
    {A : Type 0} (name : A → String) (n : String) (x : A) (xs : List A) (o : Option A)
    → ¬ (name x ≡ n)
    → Search name n xs o
    → Search name n (x ∷ xs) o
Search-cons name n x xs o other (inl (h, e)) = inl ((other, h), e)
Search-cons name n x xs o other (inr (a, h, e)) = inr (a, inr (other, h), e)

find_pallet-Search :
    (n : String) (ps : List PalletMetadata) → Search pallet_name n ps (find_pallet n ps)
unfolding find_pallet
find_pallet-Search n [] = inl (tt, refl)
find_pallet-Search n (p ∷ ps) = elim (Bool-cases (str_eq p.name n)) [
  | inl same ↦ inr (p, inl ((eq_iff p.name n).0 same, refl), rw same refl)
  | inr other ↦ rw other (
      Search-cons pallet_name n p ps (find_pallet n ps) (λ e. ground (arith, eq_iff p.name n))
        (find_pallet-Search n ps))
]

find_entry-Search :
    (n : String) (ss : List StorageEntryMetadata) → Search entry_name n ss (find_entry n ss)
unfolding find_entry
find_entry-Search n [] = inl (tt, refl)
find_entry-Search n (s ∷ ss) = elim (Bool-cases (str_eq s.name n)) [
  | inl same ↦ inr (s, inl ((eq_iff s.name n).0 same, refl), rw same refl)
  | inr other ↦ rw other (
      Search-cons entry_name n s ss (find_entry n ss) (λ e. ground (arith, eq_iff s.name n))
        (find_entry-Search n ss))
]

-- What the metadata has of the two names, and the result that follows.
pub data Found (meta : RuntimeMetadataV14) (pallet item : String)
    (r : Result StorageEntryMetadata NotFound) : Type 0 where
  no_pallet :
      NoneNamed pallet_name pallet meta.pallets → r ≡ err NotFound.pallet → Found meta pallet item r
  no_item :
      (p : PalletMetadata)
      → IsFirst pallet_name pallet meta.pallets p
      → NoneNamed entry_name item (entries_of p)
      → r ≡ err NotFound.item
      → Found meta pallet item r
  declared :
      (entry : StorageEntryMetadata)
      → Declares meta pallet item entry
      → r ≡ ok entry
      → Found meta pallet item r

pub lookup_entry-Found :
    (meta : RuntimeMetadataV14) (pallet item : String)
    → Found meta pallet item (lookup_entry meta pallet item)
unfolding lookup_entry
lookup_entry-Found meta pallet item = elim (find_pallet-Search pallet meta.pallets) [
  | inl (h, e) ↦ no_pallet h (rw e refl)
  | inr (p, h, e) ↦ in_pallet p h e p.storage refl
]
  where
    in_pallet :
        (p : PalletMetadata)
        → IsFirst pallet_name pallet meta.pallets p
        → find_pallet pallet meta.pallets ≡ some p
        → (o : Option PalletStorageMetadata) → p.storage ≡ o
        → Found meta pallet item (lookup_entry meta pallet item)
    in_pallet p h e none s = no_item p h (rw s tt) (rw (e, s) refl)
    in_pallet p h e (some storage) s = elim (find_entry-Search item storage.entries) [
      | inl (missing, g) ↦ no_item p h (rw s missing) (rw (e, s, g) refl)
      | inr (entry, first, g) ↦ declared entry (p, h, rw s first) (rw (e, s, g) refl)
    ]
