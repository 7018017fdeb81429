-- ===== src/Host/Launch.antt =====
-- host/src/server.rs: the start of the server and of its enclave, and the measurement of the
-- enclave that runs. Running a script or nitro-cli, and reading JSON, are parameters.
pub mod Start
pub mod Refresh
use sp1_tee.Prelude.{
  ℕ, String, Bool, true, false, not, ◌&&◌, List, [], ◌∷◌, ◌++◌, Option, none, some, if◌then◌else◌,
}
use sp1_tee.Result.{Result, ok, err, panic, ErrorText, map_err, ok_or, ◌>>=◌}
use sp1_tee.Io
use sp1_tee.Io.{Io, pure, raise, lift, unwrapping}
use sp1_tee.Common.Request.{enclave_cid, enclave_port}
use sp1_tee.Host.Launch.Refresh.{attestation_interval}
use sp1_tee.Host.Errors.{
  ServerError, io_error, failed_to_parse_enclave_measurement, failed_to_connect_to_enclave,
}

pub record ServerArgs : Type 0 where
  pub port : ℕ
  pub address : String
  pub enclave_cid : ℕ
  pub enclave_cores : ℕ
  pub enclave_memory : ℕ
  pub debug : Bool
  pub prover_network_url : String

-- What is parsed from an empty command line.
abbrev pub default_args : ServerArgs
default_args = record {
  port = 8080;
  address = "0.0.0.0";
  enclave_cid = enclave_cid;
  enclave_cores = 12;
  enclave_memory = 9000;
  debug = false;
  prover_network_url = "https://rpc.production.succinct.xyz/";
}

-- A process: its directory in the repository, its program, its arguments and what is added to its
-- environment.
pub record Command : Type 0 where
  pub directory : String
  pub program : String
  pub arguments : List String
  pub environment : List (String × String)

-- `std::process::exit`
pub data Exit : Type 0 where
  exit : ℕ → Exit

-- The host's side of a running server.
pub record HostServer : Type 0 where
  pub cid : ℕ
  pub auth_url : Option String

module _ (display : ℕ → String) where
  pub start_command : ServerArgs → Command
  start_command args = record {
    directory = ".";
    program = "sh";
    arguments = "scripts/enclave.sh" ∷ "run" ∷ (if args.debug then "--debug" ∷ [] else []);
    environment =
        ("ENCLAVE_CID", display args.enclave_cid)
        ∷ ("ENCLAVE_CPU_COUNT", display args.enclave_cores)
        ∷ ("ENCLAVE_MEMORY", display args.enclave_memory)
        ∷ [];
  }

  pub terminate_command : Command
  terminate_command = record {
    directory = ".";
    program = "sh";
    arguments = "scripts/enclave.sh" ∷ "terminate" ∷ [];
    environment = [];
  }

  -- `output` waits for a process and tells whether its status is success; `spawn` starts the task
  -- that saves attestations.
  module _ {W : Type 0} (output : Command → Io W ErrorText Bool) where
    unfoldable pub run_script : Command → Io W Exit (Unit {0})
    run_script command =
        Io.◌>>=◌ (unwrapping "Failed to run enclave.sh" (output command))
          (λ success. if success then pure tt else raise (exit 1))

    unfoldable pub start_enclave : ServerArgs → Io W Exit (Unit {0})
    unfolding run_script start_command
    start_enclave args = run_script (start_command args)

    pub terminate_enclaves : Io W Exit (Unit {0})
    unfolding run_script terminate_command
    terminate_enclaves = run_script terminate_command

    module _ (spawn : (cid port interval : ℕ) → Io W Exit (Unit {0})) (production : Bool) where
      unfoldable pub new : ServerArgs → Io W Exit HostServer
      unfolding start_enclave
      new args =
          if production && args.debug
          then lift (panic "Debug mode is not allowed when the program is built for production.")
          else (Io.◌>>=◌ (start_enclave args) (λ _.
              Io.◌>>=◌ (spawn args.enclave_cid enclave_port attestation_interval) (λ _.
                pure (record {
                  cid = args.enclave_cid;
                  auth_url = if production then some args.prover_network_url else none;
                }))))

-- How serving ends: by itself, or by an interrupt.
pub data Ending : Type 0 where
  served : Result ErrorText (Unit {0}) → Ending
  ctrl_c : Ending

module _ (display : ℕ → String) {W : Type 0} (output : Command → Io W ErrorText Bool)
    (spawn : (cid port interval : ℕ) → Io W Exit (Unit {0})) (production : Bool)
    (bind : String → ℕ → Io W ErrorText (Unit {0})) (select : HostServer → Io W Exit Ending) where
  pub ended : Ending → Io W Exit (Unit {0})
  unfolding terminate_enclaves
  ended (served result) = pure tt
  ended ctrl_c = Io.◌>>=◌ (terminate_enclaves display output) (λ _. raise (exit 0))

  pub main : ServerArgs → Io W Exit (Unit {0})
  unfolding terminate_enclaves new ended
  main args = Io.◌>>=◌ (terminate_enclaves display output) (λ _.
      Io.◌>>=◌ (new display output spawn production args) (λ server.
        Io.◌>>=◌ (unwrapping "Failed to bind to address" (bind args.address args.port))
          (λ _. Io.◌>>=◌ (select server) ended)))

pub record EnclaveMeasurement : Type 0 where
  pub pcr0 : String
  pub pcr1 : String
  pub pcr2 : String

first : List EnclaveMeasurement → Option EnclaveMeasurement
first [] = none
first (m ∷ _) = some m

-- `stdout` is what `nitro-cli describe-enclaves` prints, and each entry of its JSON has a measurement.
pub get_enclave_measurement :
    (from_utf8 : List ℕ → Result ErrorText String)
    (from_str : String → Result ErrorText (List EnclaveMeasurement))
    (stdout : Result ErrorText (List ℕ))
    → Result ServerError EnclaveMeasurement
unfolding first
get_enclave_measurement from_utf8 from_str stdout = do
  output ← map_err io_error stdout
  raw ← map_err io_error (from_utf8 output)
  all ← map_err failed_to_parse_enclave_measurement (from_str raw)
  ok_or failed_to_connect_to_enclave (first all)
