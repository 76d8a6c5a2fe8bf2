-- ===== src/Haproxy/Certificates.antt =====
-- The certificate storage of internal/haproxy/dataplane_client.go: SyncSSLCertificate,
-- createSSLCertificate and leafSerial.
use haproxy_operator.Base.{
  ℕ, zero, suc, String, Text, length, text_eq, not, Bool, true, false, ◌&&◌, ◌||◌, Option, none,
  some, [], ◌===◌, ◌<>◌, ◌==◌, if◌then◌else◌, inl, inr, ◌⊎◌,
}
use haproxy_operator.Haproxy.Errors.{
  Cause, Error, wrap, foreign, fail, Result, ok, err, is_not_found,
}
use haproxy_operator.Haproxy.Results.{settled}
use haproxy_operator.Haproxy.Client.{
  request, do_request, post_plain, no_body, failure, bare, ssl_certificates, wait_for_ready,
  dataplane_ready_timeout,
}
use haproxy_operator.Platform.{
  PemBlock, Client, get, post, put, Endpoint, Certificate, StorageSslCertificate, Platform,
}
use haproxy_operator.Act.{Act, pure, ◌>>=◌, on_error, or_error}

abbrev pub parsed_serial : Cause ⊎ Certificate → Result Text
parsed_serial (inl c) = err (wrap "parse leaf certificate: " (foreign c) [])
parsed_serial (inr cert) = ok cert.serial

module _ (p : Platform) where
  -- A round of the loop of `leafSerial`, on the next PEM block and on what the later rounds do.
  unfoldable pub leaf_round :
      Option (PemBlock × Text) → (Text → Option (Result Text)) → Option (Result Text)
  leaf_round none later = some (err (fail "no CERTIFICATE block found in PEM bundle"))
  leaf_round (some (block, rest)) later =
      if not (block.kind === "CERTIFICATE")
      then later rest
      else some (parsed_serial (p.parse_certificate block.bytes))

  -- The loop, one PEM block a round; none is that it has not ended in that many rounds.
  unfoldable pub leaf_serial_from : ℕ → Text → Option (Result Text)
  unfolding leaf_round
  leaf_serial_from zero rest = none
  leaf_serial_from (suc rounds) rest =
      leaf_round (p.pem_decode rest) (λ next. leaf_serial_from rounds next)

  -- `leafSerial`; every block takes a byte of the bundle at least.
  unfoldable pub leaf_serial : Text → Result Text
  unfolding leaf_serial_from settled
  leaf_serial pem = settled (leaf_serial_from (suc (length pem)) pem)

  abbrev pub certificate_endpoint : String → Endpoint
  certificate_endpoint name = bare (ssl_certificates <> ("/" <> p.path_escape name))

-- The third case of the switch of `SyncSSLCertificate`: the remote copy is the local one.
unfoldable pub is_current : StorageSslCertificate → Text → Text → Bool → Bool
is_current remote local_serial pem previously_synced =
    not (text_eq remote.serial [])
    && (text_eq remote.serial local_serial
        && ((remote.size == 0 || remote.size == length pem) && previously_synced))

module _ {p : Platform} where
  -- The upload of a form, unless it could not be built.
  unfoldable pub upload : Client → Cause ⊎ (String × Text) → Act p (Option Error)
  upload c (inl cause) = pure (some (wrap "build multipart upload: " (foreign cause) []))
  upload c (inr (content_type, body)) = do
    r ← request c post (bare ssl_certificates) body content_type tt no_body
    pure (failure r)

  -- `createSSLCertificate`
  unfoldable pub create_ssl_certificate : Client → String → Text → Act p (Option Error)
  unfolding upload
  create_ssl_certificate c name pem = upload c (p.multipart "file_upload" name pem)

  -- `SyncSSLCertificate`: whether the remote object was written, and the error.
  unfoldable pub sync_ssl_certificate : Client → String → Text → Bool → Act p (Bool × Option Error)
  sync_ssl_certificate c name pem previously_synced =
      or_error (leaf_serial p pem) (λ e. pure (false, some e))
        λ local_serial. do
          ready ← wait_for_ready c dataplane_ready_timeout
          on_error ready (λ e. pure (false, some (wrap "dataplane api not ready: " e [])))
              (do
                r ←
                    do_request c get (certificate_endpoint p name)
                      (record { serial = []; size = 0 }) p.decode_certificate
                or_error r
                    (λ e.
                      if is_not_found e
                      then (do e' ← create_ssl_certificate c name pem; pure (true, e'))
                      else pure (false, some e))
                    (λ remote.
                      if is_current remote local_serial pem previously_synced
                      then pure (false, none)
                      else (do
                        e ← post_plain c put (certificate_endpoint p name) pem
                        pure (true, e))))
