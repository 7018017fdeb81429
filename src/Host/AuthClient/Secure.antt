-- ===== src/Host/AuthClient/Secure.antt =====
-- host/src/server/auth.rs: how an answer about the whitelist was come by.
use text.Mathlib.Text.{starts_with}
use sp1_tee.Prelude.{ℕ, String, ◌≡◌, refl, ◌∙◌, Bool, true, ◌&&◌, Option, some}
use sp1_tee.Result.{ok, map_err, >>=-iff, map_err-eq-ok}
use sp1_tee.Io.{lift, >>=-parts}
use sp1_tee.Host.Platform.{Address}
use sp1_tee.Host.AuthClient.{
  Tonic, AuthClient, failed_to_connect_to_prover_network, with_timeouts, configure_endpoint,
  get_prover_client, is_whitelisted,
}

-- What tonic documents of endpoints: that an address with https makes one whose URI has that scheme,
-- which the other settings leave, that `tls_config` gives it a configuration of TLS, and that its
-- channel runs over TLS exactly if it has both.
pub record TonicLaws (k : Tonic) : Type 0 where
  pub is_https : k.Endpoint → Bool
  pub has_tls : k.Endpoint → Bool
  pub over_tls : k.Channel → Bool
  pub https :
      (addr : String) (e : k.Endpoint)
      → k.endpoint addr ≡ ok e
      → starts_with addr "https://" ≡ true
      → is_https e ≡ true
  pub timeout_keeps : (n : ℕ) (e : k.Endpoint) → is_https (k.timeout n e) ≡ is_https e
  pub connect_timeout_keeps :
      (n : ℕ) (e : k.Endpoint) → is_https (k.connect_timeout n e) ≡ is_https e
  pub while_idle_keeps :
      (b : Bool) (e : k.Endpoint) → is_https (k.keep_alive_while_idle b e) ≡ is_https e
  pub interval_keeps :
      (n : ℕ) (e : k.Endpoint) → is_https (k.http2_keep_alive_interval n e) ≡ is_https e
  pub alive_timeout_keeps :
      (n : ℕ) (e : k.Endpoint) → is_https (k.keep_alive_timeout n e) ≡ is_https e
  pub keepalive_keeps :
      (o : Option ℕ) (e : k.Endpoint) → is_https (k.tcp_keepalive o e) ≡ is_https e
  pub nodelay_keeps : (b : Bool) (e : k.Endpoint) → is_https (k.tcp_nodelay b e) ≡ is_https e
  pub configured :
      (e e' : k.Endpoint)
      → k.tls_config e ≡ ok e'
      → (has_tls e' ≡ true) × (is_https e' ≡ is_https e)
  pub connected :
      (e : k.Endpoint) (c : k.Channel) (w : k.Network)
      → (k.connect e w).0 ≡ ok c
      → over_tls c ≡ (is_https e && has_tls e)

module _ (k : Tonic) (laws : TonicLaws k) where
  open laws use {is_https, has_tls, over_tls}

  is_https-with_timeouts : (e : k.Endpoint) → is_https (with_timeouts k e) ≡ is_https e
  unfolding with_timeouts
  is_https-with_timeouts e =
      laws.nodelay_keeps true _
      ∙ laws.keepalive_keeps (some 60) _
      ∙ laws.alive_timeout_keeps 15 _
      ∙ laws.interval_keeps 15 _
      ∙ laws.while_idle_keeps true _
      ∙ laws.connect_timeout_keeps 15 _
      ∙ laws.timeout_keeps 60 e

  -- An address under https makes an endpoint with that scheme and a configuration of TLS.
  configure_endpoint_https :
      (addr : String) (e : k.Endpoint)
      → starts_with addr "https://" ≡ true
      → configure_endpoint k addr ≡ ok e
      → (is_https e && has_tls e) ≡ true
  unfolding configure_endpoint
  configure_endpoint_https addr e https done =
      let (made, at, done') = (>>=-iff (k.endpoint addr) _ e).0 done in
      let (tls, scheme) = laws.configured (with_timeouts k made) e (rw https at done') in
      let kept = is_https-with_timeouts made in
      let under_https = laws.https addr made at https in rw (scheme, kept, under_https, tls) refl

  -- An answer about the whitelist of a network under https came over TLS.
  pub is_whitelisted_secure :
      (self : AuthClient) (address : Address) (listed : Bool) (w : k.Network)
      → starts_with self.url "https://" ≡ true
      → (is_whitelisted k self address w).0 ≡ ok listed
      → (client : k.Channel) × (w' : k.Network) × (over_tls client ≡ true)
        × ((k.get_tee_whitelist_status client address w').0 ≡ ok listed)
  unfolding is_whitelisted get_prover_client
  is_whitelisted_secure self address listed w https e =
      let (client, got, e₁) = >>=-parts (get_prover_client k self) _ w e in
      let (endpoint, configured, connected) =
        >>=-parts
          (lift (map_err failed_to_connect_to_prover_network (configure_endpoint k self.url))) _ w
          got in
      let secure = configure_endpoint_https self.url endpoint https (
        map_err-eq-ok failed_to_connect_to_prover_network (configure_endpoint k self.url)
          configured) in
      (
        client,
        (get_prover_client k self w).1,
        laws.connected endpoint client w
              (map_err-eq-ok failed_to_connect_to_prover_network (k.connect endpoint w).0 connected)
            ∙ secure,
        map_err-eq-ok _ (k.get_tee_whitelist_status client address (get_prover_client k self w).1).0
            e₁,
      )
