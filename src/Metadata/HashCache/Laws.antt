-- ===== src/Metadata/HashCache/Laws.antt =====
-- The cache of event-listener/src/metadata/hash_cache.rs as a map, and one call of `get_or_insert`.
use event_listener.Prelude.{
  ℕ, ◌≡◌, refl, true, some, List, [], ◌∷◌, if◌then◌else◌, arith, eq_iff, ◌↔◌,
}
use event_listener.Metadata.HashCache.{PalletItemKey, key_eq, get, insert}

pub key_eq_iff : (j k : PalletItemKey) → (key_eq j k ≡ true) ↔ (j ≡ k)
unfolding key_eq
key_eq_iff j k = ground (arith, eq_iff j.pallet k.pallet, eq_iff j.item k.item)

-- The map law: an insertion changes the entry of its own key, and no other.
pub get-insert :
    (m : List (PalletItemKey × List ℕ)) (k j : PalletItemKey) (v : List ℕ)
    → get (insert m k v) j ≡ (if key_eq k j then some v else get m j)
unfolding get insert
get-insert [] k j v = refl
get-insert ((i, w) ∷ m) k j v =
    ground (arith, key_eq_iff i k, key_eq_iff i j, key_eq_iff k j, get-insert m k j v)
