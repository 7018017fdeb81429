-- ===== src/Host/Setup/Main.antt =====
-- host/bin/setup.rs: `main`, from the key to the signers of all attestations. The provider of the
-- chain, with the wallet of a signer, is a parameter.
use mathlib.Core.List.{Memᴰ}
use sp1_tee.Prelude.{◌≡◌, ◌↔◌, ◌⊎◌, inl, inr, ◌∙◌, true, ℕ, String, Bool, List}
use sp1_tee.Result.{Result, ok, ErrorText, expect, expect-eq-ok}
use sp1_tee.Io.{Io, lift, ◌>>=◌, >>=-eq-ok}
use sp1_tee.Enclave.Platform.{Platform}
use sp1_tee.Host.Platform.{Address, HostPlatform}
use sp1_tee.Host.Storage.{Storage}
use sp1_tee.Host.Attestations.{RawAttestation, get_raw_attestations}
use sp1_tee.Host.Setup.{Verifier, SetupArgs, add_signers, setup_signers}
use sp1_tee.Host.Setup.Genuine.{Genuine}
use sp1_tee.Host.Setup.Registration.{VerifierLaws, add_signers-Genuine}
use sp1_tee.Host.Setup.Completion.{add_signers_ok, add_signers-keep}
use sp1_tee.Host.Setup.Deploy.{Machine, prepare}

-- The calls of a contract at an address, by a wallet, over the machine's network.
pub record Provider (m : Machine) : Type 1 where
  pub Pending : Type 0
  pub is_signer : m.Signer → (contract : Address) → Address → m.World → Result ErrorText Bool
  pub add_signer : m.Signer → (contract : Address) → Address → Io m.World ErrorText Pending
  pub watch : m.Signer → Pending → Io m.World ErrorText (Unit {0})
  pub hex_decode : String → Result ErrorText (List ℕ)

module _ (m : Machine) (p : Provider m) where
  -- `TEEVerifier::new(deployment.sp1_tee_verifier, provider)`
  abbrev pub verifier_at : m.Signer → Address → Verifier
  verifier_at signer contract = record {
    Chain = m.World;
    Pending = p.Pending;
    is_signer = p.is_signer signer contract;
    add_signer = p.add_signer signer contract;
    watch = p.watch signer;
    hex_decode = p.hex_decode;
  }

  module _ (st : Storage) (pl : Platform) (h : HostPlatform pl) (manifest_dir : List String)
      (args : SetupArgs) where
    unfoldable pub main : st.Objects → Io m.World ⊥ (Unit {0})
    main objects = prepare m manifest_dir args >>= λ (signer, contract).
        setup_signers st pl h (verifier_at signer contract) args objects

    -- A setup that ends has prepared, and then added the signers of the attestations.
    main_parts :
        (objects : st.Objects) (w : m.World)
        → (main objects w).0 ≡ ok tt
        → (signer : m.Signer) × (contract : Address) × (raws : List RawAttestation) × ((prepare m
              manifest_dir args w).0
            ≡ ok (signer, contract))
          × (get_raw_attestations st objects ≡ ok raws)
          × (main objects w
              ≡ add_signers st pl h
                  (verifier_at signer contract)
                  args
                  raws
                  (prepare m manifest_dir args w).1)
    unfolding main setup_signers
    main_parts objects w done =
        let ((signer, contract), prepared, step) =
          >>=-eq-ok (prepare m manifest_dir args)
            (λ (signer, contract). setup_signers st pl h (verifier_at signer contract) args objects)
            w done in
        let w' = (prepare m manifest_dir args w).1 in
        let message : String = "Failed to get attestations" in
        let (raws, got, step') =
          >>=-eq-ok (lift (expect message (get_raw_attestations st objects)))
            (add_signers st pl h (verifier_at signer contract) args) w' (rw step at done) in
        (
          signer,
          contract,
          raws,
          prepared,
          expect-eq-ok message (get_raw_attestations st objects) got,
          step ∙ step',
        )

    -- For contracts whose signers stay signers, which only `addSigner` changes, by the signer that
    -- it adds, where a confirmed `addSigner` has made one or was reverted (`VerifierLaws`), and
    -- with registration asked for: if the setup's `main` has come to its end without a panic, and
    -- no `addSigner` of an address was reverted by then, then the first part of `main` came to the
    -- signer of the transactions and the verifier's address, all attestations were fetched, and the
    -- address is a signer of the verifier afterwards exactly if it was one after the first part, or
    -- is the address of a fetched attestation whose document validates, has the PCR0 asked for if
    -- one is, and has a public key with that address.
    pub main_iff :
        (laws : (signer : m.Signer) (contract : Address)
          → VerifierLaws (verifier_at signer contract))
        (objects : st.Objects) (w : m.World) (x : Address)
        → args.register_signers ≡ true
        → (main objects w).0 ≡ ok tt
        → ((signer : m.Signer) (contract : Address)
            → (laws signer contract).Reverted (main objects w).1 x
            → ⊥)
        → (signer : m.Signer) × (contract : Address) × (raws : List RawAttestation) × ((prepare m
              manifest_dir args w).0
            ≡ ok (signer, contract))
          × (get_raw_attestations st objects ≡ ok raws)
          × ((laws signer contract).Signs (main objects w).1 x ↔ (
              (laws signer contract).Signs (prepare m manifest_dir args w).1 x
              ⊎ ((raw : RawAttestation) × Memᴰ raw raws
                  × Genuine st pl h (verifier_at signer contract) args raw
                  × (x ≡ raw.address))))
    main_iff laws objects w x asked done none_reverted =
        let (signer, contract, raws, prepared, got, step) = main_parts objects w done in
        let v = verifier_at signer contract in
        let law = laws signer contract in
        let w' = (prepare m manifest_dir args w).1 in
        (
          signer,
          contract,
          raws,
          prepared,
          got,
          rw step (
            add_signers-Genuine st pl h v args law raws x w',
            λ either. elim either [
              | inl before ↦ add_signers-keep st pl h v args law raws x w' before
              | inr (raw, there, genuine, same) ↦
                  elim (add_signers_ok st pl h v args law asked raws raw genuine.doc w' there
                    genuine.valid (rw step at done)) [
                      | inl signs ↦ rw same signs
                      | inr reverted ↦
                          absurd (none_reverted signer contract (rw (step, same) reverted))
                    ]
            ],
          ),
        )
