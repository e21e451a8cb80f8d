-- ===== src/Node/ChainSpec.antt =====
-- node/src/chain_spec.rs, and `load_spec` of node/src/command.rs. The key schemes, `ChainSpec` of
-- `sc_service` and the runtime's Wasm are parameters.
pub mod Consistent
pub mod Genesis
use event_listener.Prelude.{
  ℕ, ◌^◌, String, Option, none, some, List, [], ◌∷◌, map, str_eq, ◌||◌, if◌then◌else◌,
}
use event_listener.Outcome.{Result, ok, err, ◌>>=◌, ok_or, Run, done, panic, and_run, map_run}
use Prim.Native.String.{◌++◌}

-- `sp_core::Pair` and its public keys.
pub record Scheme (Pair Public : Type 0) : Type 0 where
  pub from_string : String → (password_override : Option String) → Result Pair String
  pub public : Pair → Public

abbrev pub expect_ok : {A : Type 0} → Result A String → Run A
expect_ok (ok a) = done a
expect_ok (err e) = panic

unfoldable pub get_from_seed : {Pair Public : Type 0} → Scheme Pair Public → String → Run Public
get_from_seed scheme seed =
    map_run scheme.public (expect_ok (scheme.from_string ("//" ++ seed) none))

pub data ChainType : Type 0 where
  development local live : ChainType

-- The parts of the `GenesisConfig` that the runtime's macro makes.
pub record GenesisConfig (AuraId GrandpaId AccountId Payment : Type 0) : Type 0 where
  pub code : List ℕ
  pub balances : List (AccountId × ℕ)
  pub aura : List AuraId
  pub grandpa : List (GrandpaId × ℕ)
  pub sudo_key : Option AccountId
  pub transaction_payment : Payment

unfoldable pub testnet_genesis :
    {AuraId GrandpaId AccountId Payment : Type 0}
    → (default_payment : Payment) (wasm_binary : List ℕ)
      (initial_authorities : List (AuraId × GrandpaId))
    → (root_key : AccountId) (endowed_accounts : List AccountId)
    → GenesisConfig AuraId GrandpaId AccountId Payment
testnet_genesis default_payment wasm_binary initial_authorities root_key endowed_accounts = record {
  code = wasm_binary;
  balances = map (λ k. (k, 2 ^ 60)) endowed_accounts;
  aura = map (λ x. x.0) initial_authorities;
  grandpa = map (λ x. (x.1, 1)) initial_authorities;
  sudo_key = some root_key;
  transaction_payment = default_payment;
}

-- `vec![f(x), ..]`
unfoldable pub each : {A B : Type 0} → (A → Run B) → List A → Run (List B)
each f [] = done []
each f (x ∷ xs) = and_run (f x) λ y. map_run (λ ys. y ∷ ys) (each f xs)

-- The types and functions of other crates.
pub record Crates : Type 1 where
  pub AuraPair : Type 0
  pub AuraId : Type 0
  pub GrandpaPair : Type 0
  pub GrandpaId : Type 0
  pub Sr25519Pair : Type 0
  pub Sr25519Public : Type 0
  pub AccountId : Type 0
  pub Payment : Type 0
  pub ChainSpec : Type 0
  pub aura : Scheme AuraPair AuraId
  pub grandpa : Scheme GrandpaPair GrandpaId
  pub sr25519 : Scheme Sr25519Pair Sr25519Public
  -- `AccountPublic::from(key).into_account()`
  pub into_account : Sr25519Public → AccountId
  pub default_payment : Payment
  pub wasm_binary : Option (List ℕ)
  -- The boot nodes are empty, and the optional arguments are `None`.
  pub from_genesis :
      String
      → String
      → ChainType
      → Run (GenesisConfig AuraId GrandpaId AccountId Payment)
      → ChainSpec
  pub from_json_file : String → Result ChainSpec String

module _ (x : Crates) where
  unfoldable pub get_account_id_from_seed : String → Run x.AccountId
  unfolding get_from_seed
  get_account_id_from_seed seed = map_run x.into_account (get_from_seed x.sr25519 seed)

  unfoldable pub authority_keys_from_seed : String → Run (x.AuraId × x.GrandpaId)
  unfolding get_from_seed
  authority_keys_from_seed s =
      and_run (get_from_seed x.aura s) λ a. map_run (λ g. (a, g)) (get_from_seed x.grandpa s)

  -- The closure of a configuration, with the seeds of its lists.
  unfoldable pub genesis :
      (wasm_binary : List ℕ) (authorities : List String) (root : String) (endowed : List String)
      → Run (GenesisConfig x.AuraId x.GrandpaId x.AccountId x.Payment)
  unfolding each get_account_id_from_seed authority_keys_from_seed testnet_genesis
  genesis wasm_binary authorities root endowed =
      and_run (each authority_keys_from_seed authorities) λ keys.
        and_run (get_account_id_from_seed root) λ key.
          map_run (testnet_genesis x.default_payment wasm_binary keys key)
            (each get_account_id_from_seed endowed)

  abbrev pub development_accounts : List String
  development_accounts = "Alice" ∷ ("Bob" ∷ ("Alice//stash" ∷ ("Bob//stash" ∷ [])))

  unfoldable pub development_config : Result x.ChainSpec String
  unfolding genesis
  development_config = ok_or x.wasm_binary "Development wasm not available" >>= λ wasm_binary. ok (
      x.from_genesis "Development" "dev" development
        (genesis wasm_binary ("Alice" ∷ []) "Alice" development_accounts))

  abbrev pub local_accounts : List String
  local_accounts =
      "Alice" ∷ "Bob" ∷ "Charlie" ∷ "Dave" ∷ "Eve" ∷ "Ferdie" ∷ "Alice//stash" ∷ "Bob//stash"
      ∷ "Charlie//stash" ∷ "Dave//stash" ∷ "Eve//stash" ∷ "Ferdie//stash" ∷ []

  unfoldable pub local_testnet_config : Result x.ChainSpec String
  unfolding genesis
  local_testnet_config = ok_or x.wasm_binary "Development wasm not available" >>= λ wasm_binary.
      ok (
        x.from_genesis "Local Testnet" "local_testnet" local
          (genesis wasm_binary ("Alice" ∷ ("Bob" ∷ [])) "Alice" local_accounts))

  -- `Cli::load_spec`
  unfoldable pub load_spec : String → Result x.ChainSpec String
  unfolding development_config local_testnet_config
  load_spec id =
      if str_eq id "dev"
      then development_config
      else if str_eq id "" || str_eq id "local"
      then local_testnet_config
      else x.from_json_file id
