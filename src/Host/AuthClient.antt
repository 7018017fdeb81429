-- ===== src/Host/AuthClient.antt =====
-- host/src/server/auth.rs: the client of the prover network's whitelist. tonic's endpoints and the
-- call over gRPC are parameters; times are in seconds.
pub mod Secure
use text.Mathlib.Text.{starts_with}
use sp1_tee.Prelude.{ℕ, String, Bool, true, List, [], ◌∷◌, concat, Option, some, if◌then◌else◌}
use sp1_tee.Result.{Result, ok, err, panic, ErrorText, map_err, ◌>>=◌}
use sp1_tee.Io
use sp1_tee.Io.{Io, pure, lift, mapping_err}
use sp1_tee.Host.Platform.{Address}

pub record AuthClient : Type 0 where
  pub url : String

pub data AuthClientError : Type 0 where
  failed_to_connect_to_prover_network failed_to_get_tee_whitelist_status :
      ErrorText → AuthClientError

pub to_string : AuthClientError → String
to_string (failed_to_connect_to_prover_network e) =
    concat ("Failed to connect to the prover network: " ∷ e ∷ [])
to_string (failed_to_get_tee_whitelist_status e) =
    concat ("Failed to get tee whitelist status: " ∷ e ∷ [])

pub record Tonic : Type 1 where
  pub Endpoint : Type 0
  pub Channel : Type 0
  pub Network : Type 0
  pub endpoint : String → Result ErrorText Endpoint
  pub timeout : ℕ → Endpoint → Endpoint
  pub connect_timeout : ℕ → Endpoint → Endpoint
  pub keep_alive_while_idle : Bool → Endpoint → Endpoint
  pub http2_keep_alive_interval : ℕ → Endpoint → Endpoint
  pub keep_alive_timeout : ℕ → Endpoint → Endpoint
  pub tcp_keepalive : Option ℕ → Endpoint → Endpoint
  pub tcp_nodelay : Bool → Endpoint → Endpoint
  -- with the roots that are enabled
  pub tls_config : Endpoint → Result ErrorText Endpoint
  pub connect : Endpoint → Io Network ErrorText Channel
  -- `is_whitelisted` of the response to the request for this address
  pub get_tee_whitelist_status : Channel → (address : List ℕ) → Io Network ErrorText Bool

module _ (k : Tonic) where
  -- The endpoint with its timeouts and what keeps it alive.
  unfoldable pub with_timeouts : k.Endpoint → k.Endpoint
  with_timeouts e =
      let e = k.timeout 60 e in
      let e = k.connect_timeout 15 e in
      let e = k.keep_alive_while_idle true e in
      let e = k.http2_keep_alive_interval 15 e in
      let e = k.keep_alive_timeout 15 e in
      let e = k.tcp_keepalive (some 60) e in k.tcp_nodelay true e

  unfoldable pub configure_endpoint : String → Result ErrorText k.Endpoint
  unfolding with_timeouts
  configure_endpoint addr = do
    endpoint ← k.endpoint addr
    if starts_with addr "https://"
        then k.tls_config (with_timeouts endpoint)
        else ok (with_timeouts endpoint)

  pub new : String → AuthClient
  new addr = record { url = addr }

  unfoldable pub get_prover_client : AuthClient → Io k.Network AuthClientError k.Channel
  unfolding configure_endpoint
  get_prover_client self =
      Io.◌>>=◌ (lift (map_err failed_to_connect_to_prover_network (configure_endpoint self.url)))
        (λ endpoint. mapping_err failed_to_connect_to_prover_network (k.connect endpoint))

  unfoldable pub is_whitelisted : AuthClient → Address → Io k.Network AuthClientError Bool
  unfolding get_prover_client
  is_whitelisted self address = Io.◌>>=◌ (get_prover_client self) (λ client.
      mapping_err failed_to_get_tee_whitelist_status (k.get_tee_whitelist_status client address))
