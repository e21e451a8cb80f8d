-- ===== src/Config/Polkadot.antt =====
-- The types of `PolkadotConfig` in event-listener/src/config.rs, and those of runtime/src/lib.rs.
use event_listener.Prelude.{◌≡◌, refl}
use event_listener.Config.{Config, Crates, substrate_config, with_extrinsic_params, polkadot_config}
use event_listener.Runtime.Types.{runtime_config}

-- The chain's types are those that the listener decodes with: the types of the runtime, and what their
-- traits do, are those of `PolkadotConfig`, except for the address, whose account index is `()` in
-- place of `u32`. And `WithExtrinsicParams` leaves every type of a configuration as it is, so that
-- `PolkadotConfig` is `SubstrateConfig` in every type.
pub runtime_config-polkadot_config :
    (c : Crates)
    → (runtime_config c
        ≡ record (polkadot_config c) { Address = c.MultiAddress c.AccountId32 (Unit {0}) })
      × (polkadot_config c ≡ substrate_config c)
      × ((t : Config) → with_extrinsic_params t ≡ t)
unfolding with_extrinsic_params polkadot_config substrate_config runtime_config
runtime_config-polkadot_config c = (refl, refl, λ t. refl)
