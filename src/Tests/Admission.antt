-- ===== src/Tests/Admission.antt =====
-- A request to a server built for production, from the one sender on its whitelist.
use text.Mathlib.Text.{starts_with}
use sp1_tee.Prelude.{
  ◌&&◌, ℕ, List, ◌≡◌, ◌↔◌, inr, refl, Bool, arith, true, false, [], ◌∷◌, bytes_eq,
}
use sp1_tee.Result.{ok, map_err}
use sp1_tee.Host.Platform.{Address}
use sp1_tee.Host.Handlers.{TeeResponse, execute_inner}
use sp1_tee.Host.Execute.{SignedRequest, success, Whitelist, Event, execute}
use sp1_tee.Host.Execute.Admission.{Answered, execute_success_iff}
use sp1_tee.Host.Execute.Events.{Reads}
use sp1_tee.Tests.Events.{events, event_laws}
use sp1_tee.Tests.World.{small, host}
use sp1_tee.Tests.Encoding.{requests, responses}
use sp1_tee.Host.AuthClient.{
  Tonic, AuthClient, with_timeouts, configure_endpoint, get_prover_client, is_whitelisted,
  to_string,
}
use sp1_tee.Host.AuthClient.Secure.{TonicLaws}
use sp1_tee.Deployment.Authentication.{in_production, execute_success_secure}
use sp1_tee.Tests.Sockets.{served}
use sp1_tee.Tests.Deployed.{returned}

abbrev pub whitelist : Whitelist small
whitelist = record {
  production = true;
  recover_address_from_msg = λ signature id. ok signature;
  is_whitelisted = λ signer. ok (bytes_eq signer (1 ∷ 2 ∷ []));
  deserialize = λ bytes. ok (record {
    request = record { program = 7 ∷ []; stdin = 5; cycle_limit = 100 };
    id = 3 ∷ [];
    signature = bytes;
  });
}

abbrev response : TeeResponse small
response = record {
  vkey = 7 ∷ 7 ∷ [];
  public_values = 5 ∷ 100 ∷ [];
  signature = 9;
  recovery_id = 28;
}

-- what is serialized of the response
abbrev written : List ℕ
written = 9 ∷ 28 ∷ 2 ∷ 7 ∷ 7 ∷ 5 ∷ 100 ∷ []

execute_success_iff_example :
    ((event : Event) × (execute small whitelist events
          (λ _. "a number")
          host
          served
          requests
          responses
          10
          (1 ∷ 2 ∷ [])
        ≡ ok (ok event))
      × Reads small events event_laws event (success response))
    ↔ Answered small whitelist events event_laws
        (λ _. "a number")
        host
        served
        requests
        responses
        10
        (1 ∷ 2 ∷ [])
        response
execute_success_iff_example =
    execute_success_iff small whitelist events event_laws (λ _. "a number") host served requests
      responses 10 (1 ∷ 2 ∷ []) response written refl

-- A network whose whitelist is the same, with endpoints that know whether their address is under
-- https and whether TLS is configured, and channels that know whether they run over it.
abbrev tonic : Tonic
tonic = record {
  Endpoint = Bool × Bool;
  Channel = Bool;
  Network = Unit {0};
  endpoint = λ url. ok (starts_with url "https://", false);
  timeout = λ n e. e;
  connect_timeout = λ n e. e;
  keep_alive_while_idle = λ b e. e;
  http2_keep_alive_interval = λ n e. e;
  keep_alive_timeout = λ n e. e;
  tcp_keepalive = λ n e. e;
  tcp_nodelay = λ b e. e;
  tls_config = λ e. ok (e.0, true);
  connect = λ e w. (ok (e.0 && e.1), w);
  get_tee_whitelist_status = λ c signer w. (whitelist.is_whitelisted signer, w);
}

tonic_laws : TonicLaws tonic
tonic_laws = record {
  is_https = λ e. e.0;
  has_tls = λ e. e.1;
  over_tls = λ c. c;
  https = λ addr e made under.
      let same : (starts_with addr "https://", false) ≡ e = ground arith in rw (← same) under;
  timeout_keeps = λ n e. refl;
  connect_timeout_keeps = λ n e. refl;
  while_idle_keeps = λ b e. refl;
  interval_keeps = λ n e. refl;
  alive_timeout_keeps = λ n e. refl;
  keepalive_keeps = λ o e. refl;
  nodelay_keeps = λ b e. refl;
  configured = λ e e' made. let same : (e.0, true) ≡ e' = ground arith in rw (← same) (refl, refl);
  connected = λ e c w made. let same : (e.0 && e.1) ≡ c = ground arith in rw (← same) refl;
}

abbrev client : AuthClient
client = record { url = "https://rpc.production.succinct.xyz/" }

listed : map_err to_string (is_whitelisted tonic client (1 ∷ 2 ∷ []) tt).0 ≡ ok true
unfolding is_whitelisted get_prover_client configure_endpoint with_timeouts bytes_eq
listed = refl

succeeds :
    (event : Event) × (execute small
        (in_production small tonic tt client whitelist)
        events
        (λ _. "a number")
        host
        served
        requests
        responses
        10
        (1 ∷ 2 ∷ [])
      ≡ ok (ok event))
    × Reads small events event_laws event (success response)
succeeds =
    (execute_success_iff small (in_production small tonic tt client whitelist) events event_laws
        (λ _. "a number") host served requests responses 10 (1 ∷ 2 ∷ []) response written refl).1
      (
        record {
          request = record { program = 7 ∷ []; stdin = 5; cycle_limit = 100 };
          id = 3 ∷ [];
          signature = 1 ∷ 2 ∷ [];
        },
        refl,
        inr (refl, 1 ∷ 2 ∷ [], refl, listed),
        returned,
      )

execute_success_secure_example :
    (request : SignedRequest small) × (whitelist.deserialize (1 ∷ 2 ∷ []) ≡ ok request)
    × (signer : Address) × (whitelist.recover_address_from_msg request.signature request.id
        ≡ ok signer)
    × (channel : Bool) × (tonic_laws.over_tls channel ≡ true)
    × (network : Unit {0}) × ((tonic.get_tee_whitelist_status channel signer network).0 ≡ ok true)
    × ((execute_inner small host served requests responses 10 request.request).0 ≡ ok response)
execute_success_secure_example =
    execute_success_secure small tonic tt client tonic_laws whitelist events event_laws
      (λ _. "a number") host served requests responses 10 (1 ∷ 2 ∷ []) response succeeds.0 refl
      succeeds.1 succeeds.2
