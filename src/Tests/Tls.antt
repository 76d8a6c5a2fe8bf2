-- ===== src/Tests/Tls.antt =====
-- The theorems on certificate chains and certificate files at concrete inputs.
use haproxy_operator.Base.{codes, Text, List, [], ◌∷◌, ◌≡◌, ◌↔◌, refl, inr}
use haproxy_operator.Haproxy.Errors.{ok}
use haproxy_operator.Haproxy.Verify.{verify_peer_certificate}
use haproxy_operator.Haproxy.Verify.Trust.{IsPool, Trusted, verify_peer_certificate-eq_ok_iff}
use haproxy_operator.Haproxy.Certificates.{leaf_serial, leaf_serial_from, leaf_round}
use haproxy_operator.Platform.{Certificate, Platform}
use haproxy_operator.Act.{pause, ◌>>=◌, on_error, pure}
use haproxy_operator.Spire.{verify_server_cert}
use haproxy_operator.Spire.Trust.{TrustedBySpire, verify_server_cert-eq_ok_iff}
use haproxy_operator.Metrics.{expiry_from, cert_file_not_after, start_client_cert_watcher, watch}
use haproxy_operator.Base.{some, arith}
use haproxy_operator.Metrics.Ends.{cert_file_not_after-enough}
use haproxy_operator.Metrics.Expiry.{First, cert_file_not_after-eq_ok_iff, leaf_serial-same_leaf}
use haproxy_operator.Metrics.Current.{IsCurrent, start_client_cert_watcher-IsCurrent}
use haproxy_operator.Tests.Gateway.{gateway, fresh, gateway-Consumes}

abbrev chain : List Text
chain = codes "leaf" ∷ codes "issuer" ∷ []

verify_peer_certificate-eq_ok_iff_example :
    (verify_peer_certificate (gateway []) "/certs/ca.crt" "lb" chain 1000 ≡ ok tt) ↔ (
      (roots : List Certificate) × IsPool (gateway []) "/certs/ca.crt" 1000 roots
      × Trusted (gateway []) 1000 roots "lb" chain)
verify_peer_certificate-eq_ok_iff_example =
    verify_peer_certificate-eq_ok_iff (gateway []) "/certs/ca.crt" "lb" chain 1000

verify_server_cert-eq_ok_iff_example :
    (verify_server_cert (gateway []) chain 1000 ≡ ok tt) ↔ TrustedBySpire (gateway []) 1000 chain
verify_server_cert-eq_ok_iff_example = verify_server_cert-eq_ok_iff (gateway []) chain 1000

-- Every file holds a certificate.
abbrev mounted : Platform
mounted = record (gateway []) { read_file = λ path w. inr (codes "PEM") }

cert_file_not_after-eq_ok_iff_example :
    (cert_file_not_after mounted "/certs/tls.crt" 1000 ≡ ok 0) ↔ (
      (pem : Text) × (mounted.read_file "/certs/tls.crt" 1000 ≡ inr pem)
      × ((c : Certificate) × First mounted pem c × (c.not_after ≡ 0)))
cert_file_not_after-eq_ok_iff_example =
    cert_file_not_after-eq_ok_iff mounted (gateway-Consumes []) "/certs/tls.crt" 1000 0

cert_file_not_after-enough_example :
    expiry_from mounted 9 "/certs/tls.crt" (codes "PEM")
    ≡ some (cert_file_not_after mounted "/certs/tls.crt" 1000)
cert_file_not_after-enough_example =
    cert_file_not_after-enough mounted (gateway-Consumes []) "/certs/tls.crt" 1000 (codes "PEM") 9
      refl (omega arith)

leaf_serial-same_leaf_example :
    (c : Certificate) × First mounted (codes "PEM") c
    × (c.serial ≡ codes "P")
    × (cert_file_not_after mounted "/certs/tls.crt" 1000 ≡ ok c.not_after)
unfolding leaf_serial leaf_serial_from leaf_round
leaf_serial-same_leaf_example =
    leaf_serial-same_leaf mounted (gateway-Consumes []) "/certs/tls.crt" 1000 (codes "PEM")
      (codes "P") refl refl

start_client_cert_watcher-IsCurrent_example :
    IsCurrent
      (gateway [])
      "/certs/tls.crt"
      (start_client_cert_watcher {p = gateway []} 3 300000 "/certs/tls.crt" (fresh [])).1
unfolding start_client_cert_watcher watch pause ◌>>=◌ on_error pure
start_client_cert_watcher-IsCurrent_example =
    start_client_cert_watcher-IsCurrent {p = gateway []} 3 300000 "/certs/tls.crt" (fresh []) refl
