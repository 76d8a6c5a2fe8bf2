-- ===== src/Metrics.antt =====
-- internal/metrics/cert_expiry.go: the expiry of the operator's client certificate, as a gauge.
pub mod Expiry
pub mod Current
pub mod Ends
use haproxy_operator.Base.{
  ℕ, zero, suc, String, Text, [], length, not, Option, none, some, ◌===◌, ◌<>◌, if◌then◌else◌, inl,
  inr, ◌⊎◌,
}
use haproxy_operator.Haproxy.Errors.{Cause, Error, foreign, fail, wrap, Result, ok, err}
use haproxy_operator.Haproxy.Results.{and_then, settled}
use haproxy_operator.Platform.{
  PemBlock, Certificate, dataplane_server_cert_expiry, dataplane_client_cert_expiry, gauged,
  Platform,
}
use haproxy_operator.Act.{Act, pure, gets, ◌>>=◌, ◌>>◌, on_error, or_error, lifted, perform, pause}

abbrev pub parsed_expiry : String → Cause ⊎ Certificate → Result ℕ
parsed_expiry path (inl c) = err (wrap ("parse certificate in " <> (path <> ": ")) (foreign c) [])
parsed_expiry path (inr cert) = ok cert.not_after

module _ (p : Platform) where
  -- A round of the loop of `certFileNotAfter`, on the next PEM block and on what the later rounds do.
  unfoldable pub expiry_round :
      String → Option (PemBlock × Text) → (Text → Option (Result ℕ)) → Option (Result ℕ)
  expiry_round path none later = some (err (fail ("no CERTIFICATE block found in " <> path)))
  expiry_round path (some (block, next)) later =
      if not (block.kind === "CERTIFICATE")
      then later next
      else some (parsed_expiry path (p.parse_certificate block.bytes))

  -- The loop, one PEM block a round; none is that it has not ended in that many rounds.
  unfoldable pub expiry_from : ℕ → String → Text → Option (Result ℕ)
  unfolding expiry_round
  expiry_from zero path rest = none
  expiry_from (suc rounds) path rest =
      expiry_round path (p.pem_decode rest) (λ next. expiry_from rounds path next)

  -- `certFileNotAfter`; every block takes a byte of the file at least.
  unfoldable pub cert_file_not_after : String → p.World → Result ℕ
  unfolding expiry_from settled
  cert_file_not_after path w =
      and_then (lifted (p.read_file path w))
        λ pem. settled (expiry_from (suc (length pem)) path pem)

module _ {p : Platform} where
  -- `ObserveDataplaneServerCert`
  unfoldable pub observe_dataplane_server_cert : String → ℕ → Act p (Unit {0})
  observe_dataplane_server_cert gateway not_after =
      perform (gauged (dataplane_server_cert_expiry gateway) not_after)

  -- `ObserveDataplaneClientCert`
  unfoldable pub observe_dataplane_client_cert : ℕ → Act p (Unit {0})
  observe_dataplane_client_cert not_after = perform (gauged dataplane_client_cert_expiry not_after)

  -- `ObserveClientCertFile`
  unfoldable pub observe_client_cert_file : String → Act p (Option Error)
  observe_client_cert_file path = do
    r ← gets (λ s. cert_file_not_after p path s.world)
    or_error r (λ e. pure (some e))
        (λ not_after. do observe_dataplane_client_cert not_after; pure none)

  -- The function `observe` of `StartClientCertWatcher`
  unfoldable pub observe : String → Act p (Unit {0})
  observe path = do
    failure ← observe_client_cert_file path
    on_error failure (λ e. perform (gauged dataplane_client_cert_expiry 0)) (pure tt)

  -- The first rounds of the loop of `StartClientCertWatcher`, with the error of the context if it
  -- ended in one of them; the wait for a tick is in milliseconds.
  unfoldable pub watch : ℕ → ℕ → String → Act p (Option Error)
  watch zero interval path = pure none
  watch (suc rounds) interval path = do
    ended ← pause interval
    on_error ended (λ e. pure (some e)) (do observe path; watch rounds interval path)

  -- `StartClientCertWatcher`
  unfoldable pub start_client_cert_watcher : ℕ → ℕ → String → Act p (Option Error)
  start_client_cert_watcher rounds interval path = do observe path; watch rounds interval path
