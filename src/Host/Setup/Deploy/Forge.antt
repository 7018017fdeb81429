-- ===== src/Host/Setup/Deploy/Forge.antt =====
-- host/bin/setup.rs: the run of forge that deploys the contracts.
use text.Mathlib.Text.{starts_with}
use sp1_tee.Prelude.{◌≡◌, ◌⊎◌, String, true, false, [], ◌∷◌, Option, none, some}
use sp1_tee.Result.{ok}
use sp1_tee.Host.Launch.{Command}
use sp1_tee.Host.Setup.{SetupArgs}
use sp1_tee.Host.Setup.Deploy.{Machine, text_of}

module _ (m : Machine) where
  -- A value that was given, or else that of the environment.
  abbrev pub Given : Option String → String → String → Type 0
  Given value env_var x = (value ≡ some x) ⊎ ((value ≡ none) × (m.var env_var ≡ ok x))

  -- The run of forge on a chain that is not reached by https, and on one that is.
  abbrev pub local_command : SetupArgs → (pk : String) → m.Signer → Command
  local_command args pk signer = record {
    directory = "contracts";
    program = "forge";
    arguments =
        "script"
        ∷ "script/Deploy.s.sol"
        ∷ "--rpc-url"
        ∷ args.rpc_url
        ∷ "--broadcast"
        ∷ "--sender"
        ∷ m.address_text (m.default_signer_address signer)
        ∷ "--private-key"
        ∷ pk
        ∷ [];
    environment = [];
  }

  abbrev pub remote_command :
      SetupArgs → (pk : String) → m.Signer → (api_key gateway : String) → Command
  remote_command args pk signer api_key gateway = record {
    directory = "contracts";
    program = "forge";
    arguments =
        "script"
        ∷ "script/Deploy.s.sol"
        ∷ "--rpc-url"
        ∷ args.rpc_url
        ∷ "--verify"
        ∷ "--etherscan-api-key"
        ∷ api_key
        ∷ "--broadcast"
        ∷ "--sender"
        ∷ m.address_text (m.default_signer_address signer)
        ∷ "--private-key"
        ∷ pk
        ∷ [];
    environment = ("SP1_VERIFIER_GATEWAY", gateway) ∷ [];
  }

  pub data Deploys (args : SetupArgs) (pk : String) (signer : m.Signer) : Command → Type 0 where
    local :
        starts_with args.rpc_url "https://" ≡ false
        → Deploys args pk signer (local_command args pk signer)
    remote :
        (api_key gateway : String)
        → starts_with args.rpc_url "https://" ≡ true
        → Given args.etherscan_api_key "ETHERSCAN_API_KEY" api_key
        → Given (text_of m args.verifier_gateway) "SP1_VERIFIER_GATEWAY" gateway
        → Deploys args pk signer (remote_command args pk signer api_key gateway)
