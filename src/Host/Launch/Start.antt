-- ===== src/Host/Launch/Start.antt =====
-- host/src/server.rs: when the server starts, and when a measurement is found.
use sp1_tee.Prelude.{
  ℕ, ◌≡◌, ◌↔◌, refl, sym, ap, ◌∙◌, inl, inr, String, Bool, Bool-cases, true, false, List, [], ◌∷◌,
  some, arith, if◌then◌else◌,
}
use sp1_tee.Result.{
  Result, ok, panic, ErrorText, map_err, ok_or, >>=-iff, map_err_iff, expect-eq-ok,
}
use sp1_tee.Host.Errors.{
  io_error, failed_to_parse_enclave_measurement, failed_to_connect_to_enclave,
}
use sp1_tee.Common.Request.{enclave_port}
use sp1_tee.Host.Launch.Refresh.{attestation_interval}
use sp1_tee.Io.{Io, pure, raise, lift, unwrapping, >>=-eq-ok, >>=-parts}
use sp1_tee.Host.Launch.{
  EnclaveMeasurement, first, get_enclave_measurement, ServerArgs, Command, Exit, exit, HostServer,
  start_command, run_script, start_enclave, new, terminate_command, terminate_enclaves, Ending,
  main,
}

module _ (from_utf8 : List ℕ → Result ErrorText String)
    (from_str : String → Result ErrorText (List EnclaveMeasurement)) where
  first_iff :
      (all : List EnclaveMeasurement) (m : EnclaveMeasurement)
      → (ok_or failed_to_connect_to_enclave (first all) ≡ ok m)
        ↔ ((others : List EnclaveMeasurement) × (all ≡ m ∷ others))
  unfolding first
  first_iff [] m = (λ e. absurd (ground arith), λ e. absurd (cc (e.1)))
  first_iff (x ∷ xs) m = (λ e. (xs, ground arith), λ e. ground arith)

  -- `get_enclave_measurement` returns a measurement exactly if `nitro-cli` printed bytes that are
  -- UTF-8 and whose text is the JSON of a list of enclaves that starts with this measurement.
  pub get_enclave_measurement_iff :
      (stdout : Result ErrorText (List ℕ)) (m : EnclaveMeasurement)
      → (get_enclave_measurement from_utf8 from_str stdout ≡ ok m) ↔ (
          (output : List ℕ) × (raw : String) × (others : List EnclaveMeasurement) × (stdout
            ≡ ok output)
          × (from_utf8 output ≡ ok raw)
          × (from_str raw ≡ ok (m ∷ others)))
  unfolding get_enclave_measurement
  get_enclave_measurement_iff stdout m = (
    λ e.
        let (output, printed, e₁) = (>>=-iff (map_err io_error stdout) _ m).0 e in
        let (raw, text, e₂) = (>>=-iff (map_err io_error (from_utf8 output)) _ m).0 e₁ in
        let (all, parsed, e₃) =
          (>>=-iff (map_err failed_to_parse_enclave_measurement (from_str raw)) _ m).0 e₂ in
        let (others, cut) = (first_iff all m).0 e₃ in
        (
          output,
          raw,
          others,
          (map_err_iff io_error stdout output).0 printed,
          (map_err_iff io_error (from_utf8 output) raw).0 text,
          (map_err_iff failed_to_parse_enclave_measurement (from_str raw) all).0 parsed ∙ ap ok cut,
        ),
    λ q.
        let (output, raw, others, printed, text, parsed) = q in
        rw (printed, text, parsed) ((first_iff (m ∷ others) m).1 (others, refl)),
  )

module _ (display : ℕ → String) {W : Type 0} (output : Command → Io W ErrorText Bool)
    (spawn : (cid port interval : ℕ) → Io W Exit (Unit {0})) where
  run_script_ok :
      (command : Command) (w : W)
      → (run_script display output command w).0 ≡ ok tt
      → (output command w).0 ≡ ok true
  unfolding run_script
  run_script_ok command w e =
      let (success, ran, step) =
        >>=-eq-ok (unwrapping "Failed to run enclave.sh" (output command))
          (λ success. if success then pure tt else raise (exit 1)) w e in
      let ran' = expect-eq-ok "Failed to run enclave.sh" (output command w).0 ran in
      elim (Bool-cases success) [
        | inl good ↦ ran' ∙ ap ok good
        | inr bad ↦ absurd (cc (rw bad at rw step at e))
      ]

  start_enclave_ok :
      (args : ServerArgs) (w : W)
      → (start_enclave display output args w).0 ≡ ok tt
      → (output (start_command display args) w).0 ≡ ok true
  unfolding start_enclave
  start_enclave_ok args w e = run_script_ok (start_command display args) w e

  not_panicked :
      {A : Type 0} (b : Bool) (text : ErrorText) (m : Io W Exit A) (a : A) (w : W)
      → ((if b then lift (panic text) else m) w).0 ≡ ok a
      → (b ≡ false) × ((m w).0 ≡ ok a)
  not_panicked true text m a w e = absurd (cc e)
  not_panicked false text m a w e = (refl, e)

  -- Built for production: if `Server::new` returns a server, the enclave's script was run without
  -- `--debug` and ended with success, the server has the context identifier of the arguments, and
  -- its client authenticates with the prover network of the arguments.
  pub new_production :
      (args : ServerArgs) (server : HostServer) (w : W)
      → (new display output spawn true args w).0 ≡ ok server
      → ((output
            (record {
              directory = ".";
              program = "sh";
              arguments = "scripts/enclave.sh" ∷ "run" ∷ [];
              environment = (start_command display args).environment;
            })
            w).0
          ≡ ok true)
        × (server.cid ≡ args.enclave_cid)
        × (server.auth_url ≡ some args.prover_network_url)
  unfolding new start_command
  new_production args server w e =
      let (release, e₁) = not_panicked args.debug _ _ server w e in
      let (_, started, e₂) = >>=-parts (start_enclave display output args) _ w e₁ in
      let (_, spawned, made) =
        >>=-parts (spawn args.enclave_cid enclave_port attestation_interval) _
          (start_enclave display output args w).1 e₂ in
      let same : record { cid = args.enclave_cid; auth_url = some args.prover_network_url }
          ≡ server =
        cc made in
      let ran : (output (start_command display args) w).0 ≡ ok true =
        start_enclave_ok args w started in
      (
        rw release at ran,
        sym (ap (λ (x : HostServer). x.cid) same),
        sym (ap (λ (x : HostServer). x.auth_url) same),
      )

  -- What a run that ends by itself has done: it has terminated the enclaves of earlier runs, and
  -- then started its own.
  pub main_ok :
      (production : Bool) (bind : String → ℕ → Io W ErrorText (Unit {0}))
      (select : HostServer → Io W Exit Ending) (args : ServerArgs) (w : W)
      → (main display output spawn production bind select args w).0 ≡ ok tt
      → ((output (terminate_command display) w).0 ≡ ok true)
        × ((server : HostServer) × ((new display output spawn production args
                (terminate_enclaves display output w).1).0
              ≡ ok server))
  unfolding main terminate_enclaves
  main_ok production bind select args w e =
      let (_, cleared, e₁) = >>=-parts (terminate_enclaves display output) _ w e in
      let w₁ = (terminate_enclaves display output w).1 in
      let (server, made, _) = >>=-parts (new display output spawn production args) _ w₁ e₁ in
      (run_script_ok (terminate_command display) w cleared, (server, made))
