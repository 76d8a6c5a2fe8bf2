-- ===== src/Controller/Connect.antt =====
-- Building the Dataplane client: NewClient and NewClientWithTransport of
-- internal/haproxy/dataplane_client.go, and getOrCreateClient and DataplaneReady of
-- internal/controller/secret_controller.go.
pub mod Verified
pub mod Cached
use haproxy_operator.Base.{
  [], String, Text, not, Bool, true, false, ◌&&◌, ◌||◌, Option, none, some, ◌===◌, ◌<>◌,
  if◌then◌else◌, ◌⊎◌, inl, inr,
}
use haproxy_operator.Haproxy.Errors.{Cause, Error, url, wrap, fail, Result, ok, err}
use haproxy_operator.Haproxy.Client.{failure, ping}
use haproxy_operator.Haproxy.Verify.{load_ca_pool}
use haproxy_operator.Spire
use haproxy_operator.Platform.{
  ApiConfig, Url, Transport, default_transport, tls_transport, supplied_transport, Client, Platform,
}
use haproxy_operator.Act.{
  Act, pure, gets, ◌>>=◌, ◌>>◌, on_error, or_error, caused, modify, close_source,
}

abbrev pub is_set : String → Bool
is_set s = not (s === "")

unfoldable pub parsed_url : (Text × Cause) ⊎ Url → Result Url
parsed_url (inl (t, c)) = err (url t c)
parsed_url (inr u) = ok u

-- The checks that need no file: the scheme, and the three paths that https wants.
unfoldable pub check_config : ApiConfig → Url → Option Error
check_config cfg u =
    if not (u.scheme === "http") && not (u.scheme === "https")
    then some (fail ("dataplane url must use http or https scheme, got \"" <> (u.scheme <> "\"")))
    else if (u.scheme === "https" && not cfg.insecure)
        && (cfg.ca_cert_path === "" || (cfg.client_cert_path === "" || cfg.client_key_path === ""))
    then some
        (fail "mTLS is required for https dataplane url; set CA, client cert, and client key paths")
    else none

-- `useTLS`
abbrev pub uses_tls : ApiConfig → Url → Bool
uses_tls cfg u =
    u.scheme === "https"
    || (is_set cfg.ca_cert_path
        || (is_set cfg.client_cert_path || (is_set cfg.client_key_path || cfg.insecure)))

-- The TLS transport: Go's own verification is off if the operator was told so, or if it verifies
-- the chain itself.
unfoldable pub build_transport : ApiConfig → Url → Transport
build_transport cfg u =
    if uses_tls cfg u
    then tls_transport (cfg.insecure || is_set cfg.ca_cert_path)
        (is_set cfg.ca_cert_path && not cfg.insecure)
        (is_set cfg.client_cert_path || is_set cfg.client_key_path)
    else default_transport

-- `newClient`
abbrev pub client_of : ApiConfig → Url → Transport → Client
client_of cfg u transport = record { config = cfg; base = u; transport = transport }

module _ {p : Platform} where
  -- The client pair is loaded once, to fail early.
  unfoldable pub check_key_pair : ApiConfig → Act p (Option Error)
  check_key_pair cfg =
      if is_set cfg.client_cert_path || is_set cfg.client_key_path
      then (do
        unloaded ← gets (λ s. p.load_key_pair cfg.client_cert_path cfg.client_key_path s.world)
        on_error (caused unloaded) (λ e. pure (some (wrap "load dataplane client cert/key: " e [])))
            (pure none))
      else pure none

  -- The files that a TLS transport needs.
  unfoldable pub check_files : ApiConfig → Act p (Option Error)
  check_files cfg = do
    bad ← gets (λ s.
        if is_set cfg.ca_cert_path then failure (load_ca_pool p cfg.ca_cert_path s.world) else none)
    on_error bad (λ e. pure (some e)) (check_key_pair cfg)

  -- `NewClient`
  unfoldable pub new_client : ApiConfig → Act p (Result Client)
  new_client cfg =
      or_error (parsed_url (p.parse_url cfg.base_url)) (λ e. pure (err e))
        λ u.
          on_error (check_config cfg u) (λ e. pure (err e))
            (do
              bad ← (if uses_tls cfg u then check_files cfg else pure none)
              on_error bad (λ e. pure (err e))
                  (pure (ok (client_of cfg u (build_transport cfg u)))))

  -- `NewClientWithTransport`
  unfoldable pub new_client_with_transport : ApiConfig → Act p (Result Client)
  new_client_with_transport cfg =
      or_error (parsed_url (p.parse_url cfg.base_url)) (λ e. pure (err e))
        λ u. pure (ok (client_of cfg u supplied_transport))

  -- The end of `getOrCreateClient`: a client that was built is kept.
  unfoldable pub keep_client : Bool → Client → Act p (Result Client)
  keep_client spire c = do
    modify (λ r. record r { spire_source = spire || r.spire_source; haproxy_client = some c })
    pure (ok c)

  -- The body of `getOrCreateClient`, on the client that is there and the configuration.
  unfoldable pub connect : Option Client → String → ApiConfig → Act p (Result Client)
  connect (some c) spire_socket_path cfg = pure (ok c)
  connect none spire_socket_path cfg =
      if is_set spire_socket_path
      then (do
        unopened ← Spire.tls_transport spire_socket_path
        on_error unopened (λ e. pure (err (wrap "SPIRE transport: " e [])))
            (do
              made ← new_client_with_transport cfg
              or_error made (λ e. do _ ← close_source; pure (err e)) (keep_client true)))
      else (do made ← new_client cfg; or_error made (λ e. pure (err e)) (keep_client false))

  -- `getOrCreateClient`; the caller holds `clientMu` throughout
  unfoldable pub get_or_create_client : Act p (Result Client)
  get_or_create_client = do
    r ← gets (λ s. s.reconciler)
    connect r.haproxy_client r.spire_socket_path r.api_config

  -- `DataplaneReady`
  unfoldable pub dataplane_ready : Act p (Option Error)
  dataplane_ready = do
    made ← get_or_create_client
    or_error made (λ e. pure (some (wrap "dataplane client init: " e [])))
        λ c. do
          unanswered ← ping c
          on_error unanswered (λ e. pure (some (wrap "dataplane probe: " e []))) (pure none)
