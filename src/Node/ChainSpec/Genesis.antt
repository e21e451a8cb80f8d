-- ===== src/Node/ChainSpec/Genesis.antt =====
-- The genesis of the built-in chain specifications of node/src/chain_spec.rs.
use event_listener.Prelude.{
  ℕ, ◌^◌, ◌≤◌, ◌<◌, String, ◌≡◌, refl, ap, ◌∙◌, ◌⊎◌, inl, inr, none, some, List, [], ◌∷◌, drop,
  length, suc, All, All-mono, arith,
}
use Prim.Native.String.{◌++◌}
use event_listener.Outcome.{Result, ok, ok_or, ◌>>=◌, Run, done}
use event_listener.Runtime.{max_authorities}
use event_listener.Node.ChainSpec.{
  Scheme, get_from_seed, ChainType, development, local, GenesisConfig, testnet_genesis, each,
  Crates, get_account_id_from_seed, authority_keys_from_seed, genesis, development_accounts,
  development_config, local_accounts, local_testnet_config, load_spec,
}
use event_listener.Node.ChainSpec.Consistent.{IsConsistent, testnet_genesis-IsConsistent}

-- Every element has a result, and so the list has one for each.
each-done :
    {A B : Type 0} (f : A → Run B) (xs : List A)
    → All (λ x. (y : B) × (f x ≡ done y)) xs
    → (ys : List B) × (each f xs ≡ done ys) × (length ys ≡ length xs)
unfolding each
each-done f [] h = ([], refl, refl)
each-done f (x ∷ xs) ((y, e), h) =
    let (ys, es, len) = each-done f xs h in (y ∷ ys, rw (e, es) refl, ap suc len)

-- The seed has a key.
abbrev pub Derives : {Pair Public : Type 0} → Scheme Pair Public → String → Type 0
Derives {Pair} scheme seed = (p : Pair) × (scheme.from_string ("//" ++ seed) none ≡ ok p)

abbrev pub IsBuiltIn : String → Type 0
IsBuiltIn id = (id ≡ "dev") ⊎ ((id ≡ "") ⊎ (id ≡ "local"))

module _ (x : Crates) where
  get_from_seed-done :
      {Pair Public : Type 0} (scheme : Scheme Pair Public) (seed : String)
      → Derives scheme seed
      → (k : Public) × (get_from_seed scheme seed ≡ done k)
  unfolding get_from_seed
  get_from_seed-done scheme seed (p, e) = (scheme.public p, rw e refl)

  abbrev pub HasKeys : String → Type 0
  HasKeys seed = Derives x.aura seed × Derives x.grandpa seed

  authority_keys_from_seed-done :
      (seed : String)
      → HasKeys seed
      → (k : x.AuraId × x.GrandpaId) × (authority_keys_from_seed x seed ≡ done k)
  unfolding authority_keys_from_seed
  authority_keys_from_seed-done seed (a, g) =
      let (k, e) = get_from_seed-done x.aura seed a in
      let (l, f) = get_from_seed-done x.grandpa seed g in ((k, l), rw (e, f) refl)

  get_account_id_from_seed-done :
      (seed : String)
      → Derives x.sr25519 seed
      → (k : x.AccountId) × (get_account_id_from_seed x seed ≡ done k)
  unfolding get_account_id_from_seed
  get_account_id_from_seed-done seed d =
      let (k, e) = get_from_seed-done x.sr25519 seed d in (x.into_account k, rw e refl)

  genesis-IsConsistent :
      (code : List ℕ) (authorities : List String) (root : String) (others : List String)
      → All HasKeys authorities
      → Derives x.sr25519 root
      → All (Derives x.sr25519) others
      → 0 < length authorities
      → length authorities ≤ max_authorities
      → length others < 2 ^ 64
      → (g : GenesisConfig x.AuraId x.GrandpaId x.AccountId x.Payment) × (genesis x code authorities
            root
            (root ∷ others)
          ≡ done g)
        × (g.code ≡ code)
        × IsConsistent g
  unfolding genesis testnet_genesis each
  genesis-IsConsistent code authorities root others hk hr ho pos few bound =
      let (keys, ek, lk) =
        each-done (authority_keys_from_seed x) authorities
          (All-mono (λ s. authority_keys_from_seed-done s) authorities hk) in
      let (key, er) = get_account_id_from_seed-done root hr in
      let (accounts, ea, la) =
        each-done (get_account_id_from_seed x) others
          (All-mono (λ s. get_account_id_from_seed-done s) others ho) in
      (
        testnet_genesis x.default_payment code keys key (key ∷ accounts),
        rw (ek, er, ea) refl,
        refl,
        testnet_genesis-IsConsistent x.default_payment code keys key accounts (omega (arith, lk))
            (omega (arith, lk)) (omega (arith, la)),
      )

  -- A specification whose genesis is built from the Wasm.
  abbrev pub Loads : List ℕ → Result x.ChainSpec String → Type 0
  Loads code r =
      (name : String) × (spec_id : String) × (kind : ChainType) × (g : GenesisConfig x.AuraId
        x.GrandpaId x.AccountId x.Payment)
      × (r ≡ ok (x.from_genesis name spec_id kind (done g)))
      × (g.code ≡ code)
      × IsConsistent g

  -- A configuration that needs the Wasm and builds its genesis from seeds.
  from_genesis-Loads :
      (name spec_id : String) (kind : ChainType) (code : List ℕ) (authorities : List String)
      (root : String) (others : List String)
      → x.wasm_binary ≡ some code
      → All HasKeys authorities
      → All (Derives x.sr25519) (root ∷ others)
      → 0 < length authorities
      → length authorities ≤ max_authorities
      → length others < 2 ^ 64
      → Loads code (
          ok_or x.wasm_binary "Development wasm not available" >>= λ wasm_binary. ok (
            x.from_genesis name spec_id kind
              (genesis x wasm_binary authorities root (root ∷ others))))
  from_genesis-Loads name spec_id kind code authorities root others wasm h (hr, ho) pos few bound =
      let (g, eg, ec, c) =
        genesis-IsConsistent code authorities root others h hr ho pos few bound in
      (
        name,
        spec_id,
        kind,
        g,
        ap
              (λ w. ok_or w "Development wasm not available" >>= λ wasm_binary. ok (
                x.from_genesis name spec_id kind
                  (genesis x wasm_binary authorities root (root ∷ others))))
              wasm
            ∙ ap (λ run. ok (x.from_genesis name spec_id kind run)) eg,
        ec,
        c,
      )

  development_config-Loads :
      (code : List ℕ)
      → x.wasm_binary ≡ some code
      → HasKeys "Alice"
      → All (Derives x.sr25519) (development_accounts x)
      → Loads code (development_config x)
  unfolding development_config
  development_config-Loads code wasm h ds =
      from_genesis-Loads "Development" "dev" development code ("Alice" ∷ []) "Alice"
        ("Bob" ∷ ("Alice//stash" ∷ ("Bob//stash" ∷ []))) wasm (h, tt) ds (omega arith) (omega arith)
        (omega arith)

  local_testnet_config-Loads :
      (code : List ℕ)
      → x.wasm_binary ≡ some code
      → All HasKeys ("Alice" ∷ ("Bob" ∷ []))
      → All (Derives x.sr25519) (local_accounts x)
      → Loads code (local_testnet_config x)
  unfolding local_testnet_config
  local_testnet_config-Loads code wasm h ds =
      from_genesis-Loads "Local Testnet" "local_testnet" local code ("Alice" ∷ ("Bob" ∷ [])) "Alice"
        (drop 1 (local_accounts x)) wasm h ds (omega arith) (omega arith) (omega arith)

  -- The node is built with the runtime's Wasm, and the seeds of the built-in specifications have
  -- keys. Then `dev`, the empty id and `local` load a specification, and not a file. Its genesis is
  -- built without a panic from the runtime's Wasm: each account has the existential deposit at
  -- least, the issuance fits into a balance, both pallets have the same number of authorities, at
  -- least one and no more than they allow, each with one vote, and the admin's account is endowed.
  pub load_spec-IsConsistent :
      (id : String) (code : List ℕ)
      → IsBuiltIn id
      → x.wasm_binary ≡ some code
      → All HasKeys ("Alice" ∷ ("Bob" ∷ []))
      → All (Derives x.sr25519) (local_accounts x)
      → Loads code (load_spec x id)
  unfolding load_spec
  load_spec-IsConsistent id code (inl e) wasm h ds =
      let (da, (db, (dc, (dd, (de, (df, (dsa, (dsb, more)))))))) = ds in
      rw e (development_config-Loads code wasm h.0 (da, (db, (dsa, (dsb, tt)))))
  load_spec-IsConsistent id code (inr (inl e)) wasm h ds =
      rw e (local_testnet_config-Loads code wasm h ds)
  load_spec-IsConsistent id code (inr (inr e)) wasm h ds =
      rw e (local_testnet_config-Loads code wasm h ds)
