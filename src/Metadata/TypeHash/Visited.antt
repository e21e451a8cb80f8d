-- ===== src/Metadata/TypeHash/Visited.antt =====
-- The set of visited type ids of event-listener/src/metadata/metadata_utils.rs, measured by the ids
-- of the registry that it does not hold yet.
use event_listener.Prelude.{
  ℕ, zero, suc, ◌+◌, ◌≤◌, ◌<◌, ◌≡◌, false, List, ◌∷◌, if◌then◌else◌, arith,
}
use event_listener.Metadata.TypeHash.{contains}

-- How many of the ids below `n` are not in the set.
unfoldable pub unvisited : ℕ → List ℕ → ℕ
unvisited zero visited = 0
unvisited (suc n) visited = (if contains visited n then 0 else 1) + unvisited n visited

pub unvisited-cons_le :
    (n id : ℕ) (visited : List ℕ) → unvisited n (id ∷ visited) ≤ unvisited n visited
unfolding unvisited contains
unvisited-cons_le zero id visited = omega arith
unvisited-cons_le (suc n) id visited = ground (arith, unvisited-cons_le n id visited)

-- A new id lowers the measure.
pub unvisited-cons_lt :
    (n id : ℕ) (visited : List ℕ)
    → id < n
    → contains visited id ≡ false
    → unvisited n (id ∷ visited) < unvisited n visited
unfolding unvisited contains
unvisited-cons_lt zero id visited h new = elim h [ ]
unvisited-cons_lt (suc n) id visited h new =
    ground (arith, unvisited-cons_le n id visited, unvisited-cons_lt n id visited)

pub unvisited-le : (n : ℕ) (visited : List ℕ) → unvisited n visited ≤ n
unfolding unvisited
unvisited-le zero visited = omega arith
unvisited-le (suc n) visited = ground (arith, unvisited-le n visited)
