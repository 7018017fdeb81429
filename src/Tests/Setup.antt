-- ===== src/Tests/Setup.antt =====
-- The whole setup with the small store, on a chain whose contract is a list of signers.
use mathlib.Core.List.{Memᴰ}
use sp1_tee.Prelude.{◌≡◌, ◌↔◌, ◌⊎◌, refl, true, String, List, [], ◌∷◌, bytes_eq}
use sp1_tee.Result.{ok}
use sp1_tee.Common.Bytes.{to_le_bytes}
use sp1_tee.Host.Platform.{Address}
use sp1_tee.Host.Address.{ethereum_address_from_sec1_bytes}
use sp1_tee.Host.Attestations.{RawAttestation, get_raw_attestations, verify_attestation}
use sp1_tee.Host.Setup.{add_signers, setup_signers}
use sp1_tee.Host.Setup.Genuine.{Genuine}
use sp1_tee.Host.Setup.Deploy.{
  Machine, parent, unwrap_or_env, text_of, deploy_args, anvil_deploy_args, deploy_command,
  run_forge, deploy_contracts, with_key, contracts_path, load_deployment, prepare,
}
use sp1_tee.Host.Setup.Main.{Provider, verifier_at, main, main_iff}
use sp1_tee.Tests.World.{small, host, store}
use sp1_tee.Tests.Registration.{args, contract, contract_laws, current, nine}

abbrev chain : Machine
chain = record {
  World = List Address;
  Signer = String;
  var = λ name. ok name;
  parse_signer = λ text. ok text;
  default_signer_address = λ signer. nine;
  parse_url = λ url. ok tt;
  address_text = λ address. "0x09";
  number_text = λ n. "1";
  output = λ command w. (ok true, w);
  get_chain_id = λ url w. (ok 1, w);
  open_file = λ path w. (ok (7 ∷ []), w);
  from_reader = λ bytes. ok bytes;
}

abbrev provider : Provider chain
provider = record {
  Pending = Address;
  is_signer = λ signer at a w. contract.is_signer a w;
  add_signer = λ signer at a w. contract.add_signer a w;
  watch = λ signer a w. contract.watch a w;
  hex_decode = contract.hex_decode;
}

abbrev manifest_dir : List String
manifest_dir = "repo" ∷ "host" ∷ []

main_iff_example :
    (signer : String) × (at : Address) × (raws : List RawAttestation) × ((prepare chain manifest_dir
        args []).0
      ≡ ok (signer, at))
    × (get_raw_attestations store current ≡ ok raws)
    × (Memᴰ nine (main chain provider store small host manifest_dir args current []).1 ↔ (
        Memᴰ nine (prepare chain manifest_dir args []).1
        ⊎ ((raw : RawAttestation) × Memᴰ raw raws
            × Genuine store small host (verifier_at chain provider signer at) args raw
            × (nine ≡ raw.address))))
main_iff_example =
    main_iff chain provider store small host manifest_dir args (λ signer at. contract_laws) current
      [] nine refl
      (unfold main setup_signers get_raw_attestations add_signers verify_attestation bytes_eq
          to_le_bytes ethereum_address_from_sec1_bytes parent unwrap_or_env text_of deploy_args
          anvil_deploy_args deploy_command run_forge deploy_contracts with_key contracts_path
          load_deployment prepare in
        refl)
      (λ signer at never. never)
