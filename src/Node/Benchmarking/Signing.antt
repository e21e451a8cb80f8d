-- ===== src/Node/Benchmarking/Signing.antt =====
-- What the benchmark extrinsics of node/src/benchmarking.rs are signed over.
use event_listener.Prelude.{
  ℕ, ◌*◌, ◌<◌, ◌≤◌, ◌^◌, Bool, true, Option, none, some, List, ◌≡◌, refl, ap, arith,
}
use event_listener.Outcome.{done, panic}
use event_listener.Runtime.{version, block_hash_count}
use event_listener.Node.Benchmarking.{
  Call, ChainInfo, Crates, ok_flatten, Extrinsic, raw_payload, new_signed,
  create_benchmark_extrinsic,
}
use event_listener.Node.Benchmarking.Period.{era_period-power}

module _ {World Client : Type 0} (x : Crates World Client)
    (verify : x.Signature → List ℕ → x.AccountId → Bool)
    (verify-sign : (p : x.Pair) (bytes : List ℕ)
      → verify (x.sign p bytes) bytes (x.account p) ≡ true) where
  -- The extrinsic holds the call, the nonce and no tip, and is valid for a power of two of blocks
  -- from the given block on, fewer than the runtime keeps the hashes of and at least half as many.
  -- The signature is the sender's, over the call and the extensions that are sent, the runtime's
  -- versions, and the given hashes.
  pub record IsSigned (sender : x.Pair) (call : Call x.AccountId) (nonce : ℕ)
      (genesis_hash best_hash : x.Hash) (best_block : ℕ) (e : Extrinsic x) : Type 0 where
    pub same_call : e.call ≡ call
    pub from_sender : e.address ≡ x.account sender
    pub same_nonce : e.extra.nonce ≡ nonce
    pub no_tip : e.extra.tip ≡ 0
    pub lives :
        (k : ℕ) × (e.extra.era ≡ x.mortal (2 ^ k) best_block)
        × (2 ^ k < block_hash_count)
        × (block_hash_count ≤ 2 * 2 ^ k)
    pub verifies :
        verify e.signature
          (x.encoded (record {
            call = e.call;
            extra = e.extra;
            additional = record {
              spec_version = (version x.runtime_api_versions).spec_version;
              transaction_version = (version x.runtime_api_versions).transaction_version;
              genesis_hash = genesis_hash;
              best_hash = best_hash;
            };
          }))
          e.address
        ≡ true

  new_signed-IsSigned :
      (sender : x.Pair) (call : Call x.AccountId) (nonce : ℕ) (genesis_hash best_hash : x.Hash)
      (best_block : ℕ)
      → IsSigned sender call nonce genesis_hash best_hash best_block
          (new_signed x sender (raw_payload x genesis_hash best_hash best_block call nonce))
  unfolding new_signed raw_payload
  new_signed-IsSigned sender call nonce genesis_hash best_hash best_block =
      let (small, large) = era_period-power block_hash_count (omega arith) in
      let (k, e, below, above) = small (omega arith) in
      record {
        same_call = refl;
        from_sender = refl;
        same_nonce = refl;
        no_tip = refl;
        lives = (
          k,
          ap (λ p. x.mortal p best_block) e,
          omega (arith, e, below),
          omega (arith, e, above),
        );
        verifies = verify-sign sender _;
      }

  -- What the client answers to the three calls, one after the other.
  abbrev pub genesis_answer : Client → World → Option x.Hash
  genesis_answer client w = ok_flatten (x.block_hash client 0 w).0

  abbrev pub first_info : Client → World → ChainInfo x.Hash × World
  first_info client w = x.chain_info client (x.block_hash client 0 w).1

  abbrev pub second_info : Client → World → ChainInfo x.Hash × World
  second_info client w = x.chain_info client (first_info client w).1

  -- Verification accepts what a key pair has signed. Then the creation of an extrinsic panics where
  -- the client has no genesis hash. Where it has one, it makes an extrinsic that is signed by the
  -- sender over what is sent, the runtime's versions, the genesis hash, and the best hash of the
  -- client's first answer; its era is a power of two of blocks from the best number of the client's
  -- second answer on, fewer than the runtime keeps the hashes of and at least half as many.
  pub create_benchmark_extrinsic-IsSigned :
      (client : Client) (sender : x.Pair) (call : Call x.AccountId) (nonce : ℕ) (w : World)
      → (genesis_answer client w ≡ none
          → create_benchmark_extrinsic x client sender call nonce w ≡ panic)
        × ((genesis_hash : x.Hash)
            → genesis_answer client w ≡ some genesis_hash
            → (e : Extrinsic x) × (create_benchmark_extrinsic x client sender call nonce w
                ≡ done (e, (second_info client w).1))
              × IsSigned sender call nonce genesis_hash
                  (first_info client w).0.best_hash
                  (second_info client w).0.best_number
                  e)
  unfolding create_benchmark_extrinsic
  create_benchmark_extrinsic-IsSigned client sender call nonce w = (
    λ e. rw e refl,
    λ genesis_hash e. (
      _,
      rw e refl,
      new_signed-IsSigned sender call nonce genesis_hash (first_info client w).0.best_hash
          (second_info client w).0.best_number,
    ),
  )
