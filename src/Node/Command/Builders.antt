-- ===== src/Node/Command/Builders.antt =====
-- The builders of extrinsics of node/src/benchmarking.rs, as `run` of node/src/command.rs hands them
-- to the benchmarks.
use event_listener.Prelude.{◌≡◌, refl, Option, some, ℕ}
use event_listener.Outcome.{ok, done, map_run, expect}
use event_listener.Node.Substrate as Substrate
use event_listener.Node.Substrate.{Configuration}
use event_listener.Node.Benchmarking as Benchmarking
use event_listener.Node.Benchmarking.{
  Extrinsic, ok_flatten, built, ExtrinsicBuilder, RemarkBuilder, TransferKeepAliveBuilder,
  build_remark, build_transfer, remark_builder, transfer_builder, create_benchmark_extrinsic,
  inherent_benchmark_data,
}

module _ (x : Substrate.Crates) (b : Benchmarking.Crates x.World x.Client) where
  -- The builder makes an extrinsic for every nonce.
  abbrev pub Builds : ExtrinsicBuilder b → Type 0
  Builds e =
      (nonce : ℕ) (w : x.World)
      → (r : Extrinsic b × x.World) × (e.build nonce w ≡ done (ok r.0, r.1))

  -- Every client knows the hash of its genesis block.
  abbrev pub KnowsGenesis : Type 0
  KnowsGenesis =
      (client : x.Client) (w : x.World)
      → (h : b.Hash) × (ok_flatten (b.block_hash client 0 w).0 ≡ some h)

  built-some :
      (f : b.Hash → Extrinsic b × x.World) (o : Option b.Hash) (h : b.Hash)
      → o ≡ some h
      → (r : Extrinsic b × x.World) × (built b (map_run f (expect o)) ≡ done (ok r.0, r.1))
  built-some f o h e = (f h, rw e refl)

  pub remark_builder-Builds : KnowsGenesis → (r : RemarkBuilder b) → Builds (remark_builder b r)
  unfolding remark_builder build_remark create_benchmark_extrinsic
  remark_builder-Builds knows r nonce w = let (h, e) = knows r.client w in built-some _ _ h e

  pub transfer_builder-Builds :
      KnowsGenesis → (t : TransferKeepAliveBuilder b) → Builds (transfer_builder b t)
  unfolding transfer_builder build_transfer create_benchmark_extrinsic
  transfer_builder-Builds knows t nonce w = let (h, e) = knows t.client w in built-some _ _ h e
