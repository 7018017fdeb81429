-- ===== src/Host/Setup/Deploy.antt =====
-- host/bin/setup.rs: the key, the deployment of the contracts by forge, and the address of the
-- verifier, which is what `main` does before it adds the signers.
pub mod Forge
use text.Mathlib.Text.{starts_with}
use sp1_tee.Prelude.{
  ℕ, String, Bool, not, List, [], ◌∷◌, ◌++◌, Option, none, some, concat, drop_last, if◌then◌else◌,
}
use sp1_tee.Result.{Result, ok, err, panic, ErrorText, expect, expect_some, ◌>>=◌}
use sp1_tee.Io
use sp1_tee.Io.{Io, pure, lift, unwrapping}
use sp1_tee.Host.Platform.{Address}
use sp1_tee.Host.Launch.{Command}
use sp1_tee.Host.Setup.{SetupArgs}

-- What the program calls: its environment, keys, texts, processes, the chain and files.
pub record Machine : Type 1 where
  pub World : Type 0
  pub Signer : Type 0
  pub var : String → Result ErrorText String
  pub parse_signer : String → Result ErrorText Signer
  pub default_signer_address : Signer → Address
  pub parse_url : String → Result ErrorText (Unit {0})
  pub address_text : Address → String
  pub number_text : ℕ → String
  -- whether the process ended with success
  pub output : Command → Io World ErrorText Bool
  pub get_chain_id : (rpc_url : String) → Io World ErrorText ℕ
  -- a file, by the components of its path
  pub open_file : List String → Io World ErrorText (List ℕ)
  -- `Deployment`, the address under `SP1TeeVerifier`
  pub from_reader : List ℕ → Result ErrorText Address

-- `Path::parent`
unfoldable pub parent : List String → Option (List String)
parent [] = none
parent (c ∷ cs) = some (drop_last (c ∷ cs))

module _ (m : Machine) where
  unfoldable pub unwrap_or_env : Option String → String → Result ⊥ String
  unwrap_or_env (some value) env_var = ok value
  unwrap_or_env none env_var =
      expect (concat (env_var ∷ " env var is not set, and was not provided in the Args." ∷ []))
        (m.var env_var)

  unfoldable pub text_of : Option Address → Option String
  text_of none = none
  text_of (some a) = some (m.address_text a)

  unfoldable pub deploy_args : Command → SetupArgs → m.Signer → Result ⊥ Command
  unfolding unwrap_or_env text_of
  deploy_args cmd args provider = do
    etherscan_api_key ← unwrap_or_env args.etherscan_api_key "ETHERSCAN_API_KEY"
    verifier_gateway ← unwrap_or_env (text_of args.verifier_gateway) "SP1_VERIFIER_GATEWAY"
    private_key ← expect_some "Private key is not set" args.private_key
    ok (record cmd {
      environment = cmd.environment ++ (("SP1_VERIFIER_GATEWAY", verifier_gateway) ∷ []);
      arguments =
          cmd.arguments
          ++ ("script"
              ∷ "script/Deploy.s.sol"
              ∷ "--rpc-url"
              ∷ args.rpc_url
              ∷ "--verify"
              ∷ "--etherscan-api-key"
              ∷ etherscan_api_key
              ∷ "--broadcast"
              ∷ "--sender"
              ∷ m.address_text (m.default_signer_address provider)
              ∷ "--private-key"
              ∷ private_key
              ∷ []);
    })

  unfoldable pub anvil_deploy_args : Command → SetupArgs → m.Signer → Result ⊥ Command
  anvil_deploy_args cmd args provider = do
    private_key ← expect_some "Private key is not set" args.private_key
    ok (record cmd {
      arguments =
          cmd.arguments
          ++ ("script"
              ∷ "script/Deploy.s.sol"
              ∷ "--rpc-url"
              ∷ args.rpc_url
              ∷ "--broadcast"
              ∷ "--sender"
              ∷ m.address_text (m.default_signer_address provider)
              ∷ "--private-key"
              ∷ private_key
              ∷ []);
    })

  unfoldable pub deploy_command : SetupArgs → m.Signer → Result ⊥ Command
  unfolding deploy_args anvil_deploy_args
  deploy_command args provider =
      let command : Command = record {
        directory = "contracts";
        program = "forge";
        arguments = [];
        environment = [];
      } in
      if not (starts_with args.rpc_url "https://")
      then anvil_deploy_args command args provider
      else deploy_args command args provider

  unfoldable pub run_forge : Command → Io m.World ⊥ (Unit {0})
  run_forge command =
      Io.◌>>=◌ (unwrapping "Failed to run forge script" (m.output command))
        (λ success. if not success then lift (panic "Failed to deploy contracts") else pure tt)

  -- What is done if `--deploy` is given.
  unfoldable pub deploy_contracts : SetupArgs → m.Signer → Io m.World ⊥ (Unit {0})
  unfolding deploy_command run_forge
  deploy_contracts args provider =
      if args.deploy then Io.◌>>=◌ (lift (deploy_command args provider)) run_forge else pure tt

  -- The key in the arguments, which is the one of the environment where there was none.
  unfoldable pub with_key : SetupArgs → String → SetupArgs
  with_key args pk = record args {
    private_key = some (elim args.private_key [ none ↦ pk | some k ↦ k ]);
  }

  module _ (manifest_dir : List String) where
    unfoldable pub contracts_path : ℕ → Result ⊥ (List String)
    unfolding parent
    contracts_path chain_id = do
      path ← expect_some "Failed to get parent of manifest dir" (parent manifest_dir)
      ok (
          path
          ++ ("contracts" ∷ "deployments" ∷ concat (m.number_text chain_id ∷ ".json" ∷ []) ∷ []))

    unfoldable pub load_deployment : SetupArgs → Io m.World ⊥ Address
    unfolding contracts_path
    load_deployment args =
        Io.◌>>=◌ (unwrapping "Failed to get chain id" (m.get_chain_id args.rpc_url)) (λ chain_id.
          Io.◌>>=◌ (lift (contracts_path chain_id)) (λ path.
            Io.◌>>=◌ (unwrapping "Failed to open deployment.json" (m.open_file path))
              (λ file. lift (expect "Failed to parse deployment.json" (m.from_reader file)))))

    -- The signer of the transactions and the verifier's address.
    unfoldable pub prepare : SetupArgs → Io m.World ⊥ (m.Signer × Address)
    unfolding unwrap_or_env with_key deploy_contracts load_deployment
    prepare args = Io.◌>>=◌ (lift (unwrap_or_env args.private_key "PRIVATE_KEY")) (λ pk.
        Io.◌>>=◌ (lift (expect "Invalid private key provided" (m.parse_signer pk))) (λ signer.
          Io.◌>>=◌ (lift (expect "Failed to parse RPC url" (m.parse_url args.rpc_url))) (λ _.
            Io.◌>>=◌ (deploy_contracts (with_key args pk) signer)
              (λ _. Io.◌>>=◌ (load_deployment args) (λ verifier. pure (signer, verifier))))))
