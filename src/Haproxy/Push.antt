-- ===== src/Haproxy/Push.antt =====
-- What SyncSSLCertificate of internal/haproxy/dataplane_client.go reports.
use haproxy_operator.Base.{String, Text, Bool, false, ◌≡◌, ◌≢◌, Option, none, arith}
use haproxy_operator.Haproxy.Errors.{Error, is_not_found}
use haproxy_operator.Haproxy.Certificates.{leaf_serial, is_current, sync_ssl_certificate}
use haproxy_operator.Platform.{Client, StorageSslCertificate, Platform}
use haproxy_operator.Act.{State}
use haproxy_operator.Act.Keeps.{
  Yields-any, Ensures, Ensures-bind, Ensures-on_error, Ensures-or_error, Ensures-if, Ensures-pure,
}

-- The bundle was written, or there is an error.
abbrev Acted : Bool × Option Error → Type 0
Acted r = r ≢ (false, none)

is_current-new :
    (remote : StorageSslCertificate) (serial pem : Text)
    → is_current remote serial pem false ≡ false
unfolding is_current
is_current-new remote serial pem = ground arith

Acted-sync_ssl_certificate :
    {p : Platform} (c : Client) (name : String) (pem : Text)
    → Ensures {p = p} (λ _. Unit {0}) (sync_ssl_certificate c name pem false) (λ r _. Acted r)
unfolding sync_ssl_certificate
Acted-sync_ssl_certificate {p} c name pem =
    Ensures-or_error (leaf_serial p pem) _ _ (λ e _. Ensures-pure _ (λ s _. λ h. cc))
      (λ serial _. Ensures-bind _ _ (Yields-any _) λ ready.
        Ensures-on_error ready _ _ (λ e _. Ensures-pure _ (λ s _. λ h. cc))
          (λ _. Ensures-bind _ _ (Yields-any _) λ r.
            Ensures-or_error r _ _
              (λ e _.
                Ensures-if (is_not_found e) _ _
                  (λ _. Ensures-bind _ _ (Yields-any _) (λ e'. Ensures-pure _ (λ s _. λ h. cc)))
                  (λ _. Ensures-pure _ (λ s _. λ h. cc)))
              (λ remote _.
                Ensures-if (is_current remote serial pem false) _ _
                  (λ same. absurd (cc (same, is_current-new remote serial pem)))
                  (λ _. Ensures-bind _ _ (Yields-any _) (λ e'. Ensures-pure _ (λ s _. λ h. cc))))))

-- From every state, for every name and bundle: if nothing records that the bundle was pushed,
-- `SyncSSLCertificate` never reports an unchanged certificate without an error; a remote copy with
-- the same serial and size is written all the same, since its key or chain may differ.
pub sync_ssl_certificate-acts :
    {p : Platform} (c : Client) (name : String) (pem : Text) (s : State p)
    → (sync_ssl_certificate c name pem false s).0 ≢ (false, none)
sync_ssl_certificate-acts c name pem s = (Acted-sync_ssl_certificate c name pem).at s tt
