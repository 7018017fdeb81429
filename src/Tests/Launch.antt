-- ===== src/Tests/Launch.antt =====
-- The start of a server, and a task that saves attestations, where the script and the interval are
-- small functions.
use sp1_tee.Prelude.{
  ℕ, ◌+◌, ◌≡◌, refl, String, Bool, true, false, List, [], ◌∷◌, some, ltb, if◌then◌else◌, arith,
}
use sp1_tee.Result.{ok, ErrorText}
use sp1_tee.Io.{Io, pure}
use sp1_tee.Host.Launch.{
  Command, Exit, HostServer, default_args, start_command, run_script, start_enclave, new,
}
use sp1_tee.Host.Launch.Start.{new_production}
use sp1_tee.Host.Launch.Refresh.{Ticker, TickerLaws, Save, attestation_interval, attestation_task}
use sp1_tee.Host.Launch.Refresh.Timing.{Fresh, expiry, attestation_task-Fresh}

-- Commands that have been run.
abbrev Log : Type 0
Log = List Command

abbrev display : ℕ → String
display n = if ltb n 100 then "few" else "many"

abbrev output : Command → Io Log ErrorText Bool
output command log = (ok true, command ∷ log)

abbrev spawn : (cid port interval : ℕ) → Io Log Exit (Unit {0})
spawn cid port interval = pure tt

abbrev started : HostServer
started = record { cid = 10; auth_url = some "https://rpc.production.succinct.xyz/" }

new_production_example :
    ((output
        (record {
          directory = ".";
          program = "sh";
          arguments = "scripts/enclave.sh" ∷ "run" ∷ [];
          environment = (start_command display default_args).environment;
        })
        []).0
      ≡ ok true)
    × (started.cid ≡ default_args.enclave_cid)
    × (started.auth_url ≡ some default_args.prover_network_url)
unfolding new start_enclave run_script
new_production_example = new_production display output spawn default_args started [] refl

record Clock : Type 0 where
  period : ℕ
  deadline : ℕ

abbrev ticker : Ticker
ticker = record {
  Interval = Clock;
  interval = λ p now. record { period = p; deadline = now };
  tick = λ i now. (
    if ltb now i.deadline then i.deadline else now,
    record { period = i.period; deadline = i.deadline + i.period },
  );
}

ticker_laws : TickerLaws ticker
ticker_laws = record {
  period = λ i. i.period;
  deadline = λ i. i.deadline;
  made_period = λ p now. refl;
  made_deadline = λ p now. refl;
  tick_late = λ i now late. ground arith;
  tick_early = λ i now early. ground arith;
  ticked_period = λ i now. refl;
  ticked_deadline = λ i now. refl;
}

-- the second fails
abbrev three_saves : List Save
three_saves =
    (record { succeeded = true; duration = 900 })
    ∷ (record { succeeded = false; duration = 20 })
    ∷ (record { succeeded = true; duration = 3600 })
    ∷ []

attestation_task-Fresh_example :
    Fresh expiry 5000 (attestation_task ticker attestation_interval 0 three_saves)
attestation_task-Fresh_example =
    attestation_task-Fresh ticker ticker_laws 0 60000 4000 three_saves (omega arith) (omega arith)
