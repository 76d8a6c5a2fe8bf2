-- ===== src/Haproxy/Client.antt =====
-- internal/haproxy/dataplane_client.go from waitForReady on: the requests of the client and the
-- HTTP plumbing under them. Building a client is in Controller/Connect.
use haproxy_operator.Base.{
  ℕ, zero, suc, ◌+◌, String, Text, codes, decimal, length, take, ◌||◌, Option, none, some, [], ◌++◌,
  inl, inr, ◌/◌, ◌===◌, ◌==◌, ltb, leb, if◌then◌else◌, ◌⊎◌,
}
use haproxy_operator.Base.Map
use haproxy_operator.Base.Map.{Map}
use haproxy_operator.Haproxy.Errors.{
  Cause, Error, version_check, api, url, wrap, foreign, fail, message, Result, ok, err,
}
use haproxy_operator.Haproxy.Target.{resolve_url}
use haproxy_operator.Platform.{
  Client, Method, get, post, Endpoint, HttpRequest, Response, unreachable, answered,
  dataplane_server_cert_expiry, gauged, Platform,
}
use haproxy_operator.Act.{
  Act, pure, gets, ◌>>=◌, ◌>>◌, on_error, or_error, lifted, perform, exchange, pause,
}

-- Durations in milliseconds.
abbrev pub dataplane_ready_timeout : ℕ
dataplane_ready_timeout = 10000

abbrev pub ready_poll_interval : ℕ
ready_poll_interval = 250

abbrev pub max_api_error_body : ℕ
max_api_error_body = 4096

-- `io.ReadAll(io.LimitReader(resp.Body, maxAPIErrorBody))` reads no error past the limit.
unfoldable pub new_api_error : Response → Error
new_api_error resp = api resp.status (elim resp.broken [
  | none ↦ b
  | some c ↦
      if ltb (length resp.body) max_api_error_body
      then b ++ (codes " (error reading response body: " ++ (message (foreign c) ++ codes ")"))
      else b
])
  where
    b : Text
    b = take max_api_error_body resp.body

-- The end of `do`: the status check, then the decoding of the body unless there is none.
unfoldable pub conclude {ℓ} : {A : Type ℓ} → A → (Response → Cause ⊎ A) → Response → Result A
unfolding new_api_error
conclude empty decode resp =
    if ltb resp.status 200 || leb 300 resp.status
    then err (new_api_error resp)
    else if resp.status == 204
    then ok empty
    else lifted (decode resp)

-- A `*string` result asks for the whole body.
unfoldable pub raw_body : Response → Cause ⊎ Text
raw_body resp = elim resp.broken [ none ↦ inr resp.body | some c ↦ inl c ]

-- A nil result reads nothing.
abbrev pub no_body : Response → Cause ⊎ Unit {0}
no_body _ = inr tt

-- `addOrReplaceQuery`: `Set` drops the other values of the key, and `Encode` orders the query.
unfoldable pub add_or_replace_query : Endpoint → String → Text → Endpoint
add_or_replace_query e key value = record e { query = Map.insert key value e.query }

abbrev pub bare : String → Endpoint
bare path = record { path = path; query = [] }

abbrev pub raw_configuration : String
raw_configuration = "/services/haproxy/configuration/raw"

abbrev pub ssl_certificates : String
ssl_certificates = "/services/haproxy/storage/ssl_certificates"

-- The request that `do` builds: basic auth only if a user is configured.
unfoldable pub build : Client → Method → Endpoint → Text → String → HttpRequest
unfolding resolve_url
build c method e body content_type = record {
  method = method;
  endpoint = e;
  target = resolve_url c e;
  content_type = content_type;
  body = body;
  basic_auth =
      if c.config.username === "" then none else some (c.config.username, c.config.password);
}

-- `err` of a call whose value is not used.
abbrev pub failure : {A : Type 0} → Result A → Option Error
failure (ok a) = none
failure (err e) = some e

-- `lastErr`, or the default error where no round was made.
abbrev pub not_ready : Option Error → Error
not_ready none = fail "dataplane api not ready"
not_ready (some e) = e

abbrev version_or_empty : Option Text → Text
version_or_empty none = []
version_or_empty (some v) = v

-- One round for each poll interval that the timeout begins, and one that sees the deadline.
abbrev pub ready_rounds : ℕ → ℕ
ready_rounds timeout = suc (suc (timeout / ready_poll_interval))

-- `?version=N`, on a fresh version
abbrev pub versioned : ℕ → Endpoint
versioned n = add_or_replace_query (bare raw_configuration) "version" (decimal n)

module _ {p : Platform} where
  -- `ServerCertObserver`, as main wires it: the expiry gauge of the gateway.
  unfoldable pub observe : Client → Option ℕ → Act p (Unit {0})
  observe c none = pure tt
  observe c (some not_after) =
      perform (gauged (dataplane_server_cert_expiry c.base.hostname) not_after)

  -- `do`; a request that cannot be built is an `unreachable` of the transport, with the same kind of
  -- error
  unfoldable pub request :
      {A : Type 0}
      → Client
      → Method
      → Endpoint
      → Text
      → String
      → A
      → (Response → Cause ⊎ A)
      → Act p (Result A)
  request c method e body content_type empty decode = do
    answer ← exchange c (build c method e body content_type)
    elim answer [
      | unreachable t cause ↦ pure (err (url t cause))
      | answered resp ↦ do observe c resp.peer_not_after; pure (conclude empty decode resp)
    ]

  -- `doRequest` with a nil body, as in each of its calls
  abbrev pub do_request :
      {A : Type 0} → Client → Method → Endpoint → A → (Response → Cause ⊎ A) → Act p (Result A)
  do_request c method e empty decode = request c method e [] "application/json" empty decode

  -- `doRequestPlain` with a nil result
  unfoldable pub post_plain : Client → Method → Endpoint → Text → Act p (Option Error)
  unfolding request
  post_plain c method e body = do
    r ← request c method e body "text/plain" tt no_body
    pure (failure r)

  -- `getConfigVersion`
  unfoldable pub get_config_version : Client → Act p (Result ℕ)
  get_config_version c = do
    r ← do_request c get (bare "/services/haproxy/configuration/version") 0 p.decode_version
    or_error r (λ e. pure (err (version_check e))) (λ n. pure (ok n))

  -- The loop of `waitForReady`; `rounds` bounds its iterations.
  unfoldable pub poll_ready : ℕ → Client → ℕ → Option Error → Act p (Option Error)
  poll_ready zero c deadline last = pure (some (not_ready last))
  poll_ready (suc rounds) c deadline last = do
    now ← gets (λ s. p.now s.world)
    if ltb now deadline
        then (do
          r ← get_config_version c
          or_error r
              (λ e. do
                ended ← pause ready_poll_interval
                on_error ended (λ done. pure (some done)) (poll_ready rounds c deadline (some e)))
              (λ _. pure none))
        else pure (some (not_ready last))

  -- `waitForReady`
  unfoldable pub wait_for_ready : Client → ℕ → Act p (Option Error)
  wait_for_ready c timeout = do
    start ← gets (λ s. p.now s.world)
    poll_ready (ready_rounds timeout) c (start + timeout) none

  -- `applyRaw`
  unfoldable pub apply_raw : Client → Text → Act p (Option Error)
  apply_raw c raw = do
    r ← get_config_version c
    or_error r (λ e. pure (some e)) (λ n. post_plain c post (versioned n) raw)

  -- `ValidateRawConfiguration`
  unfoldable pub validate_raw_configuration : Client → Text → Act p (Option Error)
  validate_raw_configuration c raw = do
    r ← get_config_version c
    or_error r (λ e. pure (some e))
        (λ n.
          post_plain c post (add_or_replace_query (versioned n) "only_validate" (codes "true")) raw)

  -- `ApplyRawConfigurationValidated`
  unfoldable pub apply_raw_configuration_validated : Client → Text → Act p (Option Error)
  apply_raw_configuration_validated c raw = do
    ready ← wait_for_ready c dataplane_ready_timeout
    on_error ready (λ e. pure (some (wrap "dataplane api not ready: " e []))) (apply_raw c raw)

  -- `ApplyRawConfiguration`
  unfoldable pub apply_raw_configuration : Client → Text → Act p (Option Error)
  apply_raw_configuration c raw = do
    ready ← wait_for_ready c dataplane_ready_timeout
    on_error ready (λ e. pure (some (wrap "dataplane api not ready: " e [])))
        (do
          invalid ← validate_raw_configuration c raw
          on_error invalid (λ e. pure (some (wrap "validation failed: " e []))) (apply_raw c raw))

  -- `GetRawConfiguration`
  unfoldable pub get_raw_configuration : Client → Act p (Result Text)
  get_raw_configuration c = request c get (bare raw_configuration) [] "text/plain" [] raw_body

  -- `Ping`
  unfoldable pub ping : Client → Act p (Option Error)
  ping c = do r ← get_config_version c; pure (failure r)

  -- `Info`; the version is empty where the answer has none that is a string.
  unfoldable pub info : Client → Act p (Result Text)
  info c = do
    r ← do_request c get (bare "/services/haproxy/info") none p.decode_info
    or_error r (λ e. pure (err e)) (λ version. pure (ok (version_or_empty version)))
