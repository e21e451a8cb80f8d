-- ===== src/Runtime/Pallets.antt =====
-- The pallets of the runtime in runtime/src/lib.rs, in the order of `construct_runtime!`.
use event_listener.Prelude.{String, List, [], ◌∷◌}

-- The name in the runtime, and the crate.
abbrev pub pallets : List (String × String)
pallets =
    ("System", "frame_system")
    ∷ (("RandomnessCollectiveFlip", "pallet_randomness_collective_flip")
        ∷ (("Timestamp", "pallet_timestamp")
            ∷ (("Aura", "pallet_aura")
                ∷ (("Grandpa", "pallet_grandpa")
                    ∷ (("Balances", "pallet_balances")
                        ∷ (("TransactionPayment", "pallet_transaction_payment")
                            ∷ (("Sudo", "pallet_sudo")
                                ∷ (("TemplateModule", "pallet_template") ∷ []))))))))

-- The signed extensions, in the order of the tuple `SignedExtra`.
abbrev pub signed_extra : List String
signed_extra =
    "CheckNonZeroSender"
    ∷ ("CheckSpecVersion"
        ∷ ("CheckTxVersion"
            ∷ ("CheckGenesis"
                ∷ ("CheckEra"
                    ∷ ("CheckNonce" ∷ ("CheckWeight" ∷ ("ChargeTransactionPayment" ∷ [])))))))

-- `define_benchmarks!`: the pallets, and what is benchmarked of them.
abbrev pub benchmarks : List (String × String)
benchmarks =
    ("frame_benchmarking", "BaselineBench")
    ∷ (("frame_system", "SystemBench")
        ∷ (("pallet_balances", "Balances")
            ∷ (("pallet_timestamp", "Timestamp") ∷ (("pallet_template", "TemplateModule") ∷ []))))
