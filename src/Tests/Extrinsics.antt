-- ===== src/Tests/Extrinsics.antt =====
-- The benchmark extrinsics of a client whose chain has one more block at each question. A client is
-- the number at which the hashes of its chain start.
use event_listener.Prelude.{
  ℕ, ◌+◌, ◌*◌, ◌<◌, ◌≤◌, ◌^◌, ◌==◌, ◌&&◌, Bool, true, false, none, some, List, [], ◌∷◌, ◌≡◌, refl,
  arith,
}
use event_listener.Outcome.{ok, done, panic}
use event_listener.Node.Benchmarking.{
  system_remark, Crates, Extrinsic, era_period, checked_next_power_of_two, find_power,
  create_benchmark_extrinsic,
}
use event_listener.Node.Benchmarking.Period.{era_period-power}
use event_listener.Node.Benchmarking.Signing.{
  IsSigned, genesis_answer, first_info, second_info, create_benchmark_extrinsic-IsSigned,
}

abbrev pub same : List ℕ → List ℕ → Bool
same [] [] = true
same [] (y ∷ ys) = false
same (x ∷ xs) [] = false
same (x ∷ xs) (y ∷ ys) = (x == y) && same xs ys

same_refl : (xs : List ℕ) → same xs xs ≡ true
same_refl [] = refl
same_refl (x ∷ xs) = ground (arith, same_refl xs)

abbrev pub crates : Crates ℕ ℕ
crates = record {
  Hash = ℕ;
  Pair = ℕ;
  AccountId = ℕ;
  Signature = ℕ × List ℕ;
  Era = ℕ × ℕ;
  Apis = Unit;
  InherentData = ℕ;
  block_hash = λ client n w. (ok (some (n + client)), w);
  chain_info = λ client w. (record { best_hash = w + client; best_number = w }, w + 1);
  mortal = λ period current. (period, current);
  encoded = λ p. p.additional.best_hash ∷ (p.additional.spec_version ∷ (p.extra.nonce ∷ []));
  sign = λ p bytes. (p, bytes);
  account = λ p. p;
  bob = 2;
  alice = 1;
  runtime_api_versions = tt;
  new_inherent_data = 0;
  provide_inherent_data = λ timestamp d. ok d;
}

abbrev pub verify : ℕ × List ℕ → List ℕ → ℕ → Bool
verify s bytes account = (s.0 == account) && same s.1 bytes

verify-sign : (p : ℕ) (bytes : List ℕ) → verify (p, bytes) bytes p ≡ true
verify-sign p bytes = ground (arith, same_refl bytes)

create_benchmark_extrinsic-IsSigned_example :
    (genesis_answer crates verify verify-sign 100 7 ≡ none
      → create_benchmark_extrinsic crates 100 2 (system_remark []) 0 7 ≡ panic)
    × ((genesis_hash : ℕ)
        → genesis_answer crates verify verify-sign 100 7 ≡ some genesis_hash
        → (e : Extrinsic crates) × (create_benchmark_extrinsic crates 100 2 (system_remark []) 0 7
            ≡ done (e, (second_info crates verify verify-sign 100 7).1))
          × IsSigned crates verify verify-sign 2
              (system_remark [])
              0
              genesis_hash
              (first_info crates verify verify-sign 100 7).0.best_hash
              (second_info crates verify verify-sign 100 7).0.best_number
              e)
create_benchmark_extrinsic-IsSigned_example =
    create_benchmark_extrinsic-IsSigned crates verify verify-sign 100 2 (system_remark []) 0 7

era_period-power_example :
    (2400 ≤ 2 ^ 31
      → (e : ℕ) × (era_period 2400 ≡ 2 ^ e)
        × (era_period 2400 < 2400)
        × (2400 ≤ 2 * era_period 2400))
    × (2 ^ 31 < 2400 → era_period 2400 ≡ 2)
era_period-power_example = era_period-power 2400 (omega arith)

era_period_2400 : era_period 2400 ≡ 2048
unfolding era_period checked_next_power_of_two find_power
era_period_2400 = refl
