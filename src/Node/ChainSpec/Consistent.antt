-- ===== src/Node/ChainSpec/Consistent.antt =====
-- What the genesis of node/src/chain_spec.rs promises to the pallets that it configures, with the
-- limits of runtime/src/lib.rs.
use event_listener.Prelude.{
  ℕ, ◌+◌, ◌*◌, ◌^◌, ◌≤◌, ◌<◌, ◌≡◌, refl, sym, ◌∙◌, ◌⊎◌, inl, some, List, [], ◌∷◌, map, length,
  length-map, All, arith,
}
use event_listener.Runtime.{existential_deposit, max_authorities}
use event_listener.Node.ChainSpec.{GenesisConfig, testnet_genesis}

abbrev pub total : {A : Type 0} → List (A × ℕ) → ℕ
total [] = 0
total ((a, n) ∷ xs) = n + total xs

-- The account has an entry.
abbrev pub Endowed : {A : Type 0} → A → List (A × ℕ) → Type 0
Endowed k [] = ⊥
Endowed k ((j, n) ∷ xs) = (k ≡ j) ⊎ Endowed k xs

abbrev pub HasDeposit : {A : Type 0} → A × ℕ → Type 0
HasDeposit b = existential_deposit ≤ b.1

abbrev pub HasOneVote : {A : Type 0} → A × ℕ → Type 0
HasOneVote v = v.1 ≡ 1

module _ {A : Type 0} where
  map-HasDeposit : (accounts : List A) → All HasDeposit (map (λ k. (k, 2 ^ 60)) accounts)
  map-HasDeposit [] = tt
  map-HasDeposit (k ∷ ks) = (omega arith, map-HasDeposit ks)

  total-map :
      (accounts : List A) → total (map (λ k. (k, 2 ^ 60)) accounts) ≡ length accounts * 2 ^ 60
  total-map [] = refl
  total-map (k ∷ ks) = omega (arith, total-map ks)

  map-HasOneVote :
      {B : Type 0} (keys : List (A × B)) → All HasOneVote (map (λ (x : A × B). (x.1, 1)) keys)
  map-HasOneVote [] = tt
  map-HasOneVote (k ∷ ks) = (refl, map-HasOneVote ks)

module _ {AuraId GrandpaId AccountId Payment : Type 0} where
  -- No account is below the existential deposit, and the issuance fits in a balance. Both pallets
  -- have the same number of authorities, within the limit, each with one vote. The admin has funds.
  pub record IsConsistent (g : GenesisConfig AuraId GrandpaId AccountId Payment) : Type 0 where
    pub funded : All HasDeposit g.balances
    pub issuance : total g.balances < 2 ^ 128
    pub same_authorities : length g.aura ≡ length g.grandpa
    pub some_authority : 0 < length g.aura
    pub few_authorities : length g.aura ≤ max_authorities
    pub one_vote : All HasOneVote g.grandpa
    pub admin : (k : AccountId) × (g.sudo_key ≡ some k) × Endowed k g.balances

  pub testnet_genesis-IsConsistent :
      (payment : Payment) (code : List ℕ) (keys : List (AuraId × GrandpaId)) (root : AccountId)
      (others : List AccountId)
      → 0 < length keys
      → length keys ≤ max_authorities
      → length others < 2 ^ 64
      → IsConsistent (testnet_genesis payment code keys root (root ∷ others))
  unfolding testnet_genesis
  testnet_genesis-IsConsistent payment code keys root others pos few bound = record {
    funded = map-HasDeposit (root ∷ others);
    issuance = omega (arith, total-map others);
    same_authorities =
        length-map (λ (x : AuraId × GrandpaId). x.0) keys
        ∙ sym (length-map (λ (x : AuraId × GrandpaId). (x.1, 1)) keys);
    some_authority = omega (arith, length-map (λ (x : AuraId × GrandpaId). x.0) keys);
    few_authorities = omega (arith, length-map (λ (x : AuraId × GrandpaId). x.0) keys);
    one_vote = map-HasOneVote keys;
    admin = (root, refl, inl refl);
  }
