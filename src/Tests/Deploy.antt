-- ===== src/Tests/Deploy.antt =====
-- The setup with a key of the environment, on a chain that is reached by https.
use sp1_tee.Prelude.{String, true, List, [], ◌∷◌}
use sp1_tee.Result.{ok}
use sp1_tee.Host.Launch.{Command}
use sp1_tee.Host.Setup.Deploy.{Machine}

abbrev machine : Machine
machine = record {
  World = List Command;
  Signer = String;
  var = λ name. ok name;
  parse_signer = λ text. ok text;
  default_signer_address = λ signer. 9 ∷ [];
  parse_url = λ url. ok tt;
  address_text = λ address. "0x09";
  number_text = λ n. "1";
  output = λ command ran. (ok true, command ∷ ran);
  get_chain_id = λ url ran. (ok 1, ran);
  open_file = λ path ran. (ok (7 ∷ []), ran);
  from_reader = λ bytes. ok bytes;
}
