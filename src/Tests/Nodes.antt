-- ===== src/Tests/Nodes.antt =====
-- A node whose keys are the texts that they are made from.
use event_listener.Prelude.{ℕ, String, refl, inr, inl, some, [], ◌∷◌}
use event_listener.Outcome.{ok, err, Run}
use event_listener.Node.ChainSpec.{Scheme, ChainType, GenesisConfig, Crates, load_spec}
use event_listener.Node.ChainSpec.Genesis.{Derives, Loads, load_spec-IsConsistent}

abbrev pub scheme : Scheme String String
scheme = record { from_string = λ s password. ok s; public = λ s. s }

abbrev pub Spec : Type 0
Spec = String × (String × (ChainType × Run (GenesisConfig String String String ℕ)))

abbrev pub crates : Crates
crates = record {
  AuraPair = String;
  AuraId = String;
  GrandpaPair = String;
  GrandpaId = String;
  Sr25519Pair = String;
  Sr25519Public = String;
  AccountId = String;
  Payment = ℕ;
  ChainSpec = Spec;
  aura = scheme;
  grandpa = scheme;
  sr25519 = scheme;
  into_account = λ s. s;
  default_payment = 0;
  wasm_binary = some (0 ∷ (97 ∷ []));
  from_genesis = λ name id kind genesis. (name, (id, (kind, genesis)));
  from_json_file = λ path. err "no such file";
}

scheme-Derives : (seed : String) → Derives scheme seed
scheme-Derives seed = (_, refl)

load_spec-IsConsistent_example : Loads crates (0 ∷ (97 ∷ [])) (load_spec crates "")
load_spec-IsConsistent_example =
    load_spec-IsConsistent crates "" (0 ∷ (97 ∷ [])) (inr (inl refl)) refl
      (
        (scheme-Derives "Alice", scheme-Derives "Alice"),
        ((scheme-Derives "Bob", scheme-Derives "Bob"), tt),
      )
      (
        scheme-Derives "Alice",
        (
          scheme-Derives "Bob",
          (
            scheme-Derives "Charlie",
            (
              scheme-Derives "Dave",
              (
                scheme-Derives "Eve",
                (
                  scheme-Derives "Ferdie",
                  (
                    scheme-Derives "Alice//stash",
                    (
                      scheme-Derives "Bob//stash",
                      (
                        scheme-Derives "Charlie//stash",
                        (
                          scheme-Derives "Dave//stash",
                          (scheme-Derives "Eve//stash", (scheme-Derives "Ferdie//stash", tt)),
                        ),
                      ),
                    ),
                  ),
                ),
              ),
            ),
          ),
        ),
      )
