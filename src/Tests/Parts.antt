-- ===== src/Tests/Parts.antt =====
-- The theorems on the client, the error classes, the messages and the backoff at concrete inputs.
use haproxy_operator.Base.{codes, length, false, ◌≡◌, refl, ◌↔◌, [], arith, ◌≤◌}
use haproxy_operator.Haproxy.Errors.{api, wrap, classify, config_rejected}
use haproxy_operator.Haproxy.Errors.Laws.{IsDefinite, classify-eq_iff}
use haproxy_operator.Haproxy.Client.{wait_for_ready, poll_ready}
use haproxy_operator.Status.{sanitize_message, clean, rewritten, rune_rest}
use haproxy_operator.Status.Sanitize.{AllPrintable, sanitize_message-safe}
use haproxy_operator.Controller.Backoff.{pos, backoff_for_failure, backoff_for_failure-eq}
use haproxy_operator.Haproxy.Certificates.{leaf_serial, leaf_serial_from, sync_ssl_certificate}
use haproxy_operator.Haproxy.Leaf.{leaf_serial-enough}
use haproxy_operator.Controller.Pushed.{IsPushed, sync_ssl_certificate-IsPushed}
use haproxy_operator.Act.{◌>>=◌, or_error, on_error, gets, exchange}
use haproxy_operator.Haproxy.Client.{
  get_config_version, request, build, observe, conclude, post_plain,
}
use haproxy_operator.Haproxy.Certificates.{leaf_round, is_current}
use haproxy_operator.Base.{text_eq, true, some}
use haproxy_operator.Tests.Gateway.{gateway, fresh, secure_client, gateway-Consumes}

cut_line : sanitize_message (codes "a\nb") ≡ codes "a | b"
unfolding sanitize_message clean rewritten rune_rest
cut_line = refl

classify-eq_iff_example :
    (classify (wrap "validation failed: " (api 422 []) []) ≡ config_rejected)
    ↔ IsDefinite (wrap "validation failed: " (api 422 []) [])
classify-eq_iff_example = classify-eq_iff (wrap "validation failed: " (api 422 []) [])

sanitize_message-safe_example :
    AllPrintable (sanitize_message (codes "a\nb"))
    × (length (sanitize_message (codes "a\nb")) ≤ 515)
sanitize_message-safe_example = sanitize_message-safe (codes "a\nb")

backoff_for_failure-eq_example : backoff_for_failure (pos 3) ≡ 240000000000
backoff_for_failure-eq_example = backoff_for_failure-eq 3

leaf_serial-enough_example :
    leaf_serial_from (gateway []) 9 (codes "PEM") ≡ some (leaf_serial (gateway []) (codes "PEM"))
leaf_serial-enough_example =
    leaf_serial-enough (gateway []) (gateway-Consumes []) (codes "PEM") 9 (omega arith)

sync_ssl_certificate-IsPushed_example :
    IsPushed {p = gateway []} "site.pem"
      (codes "PEM")
      false
      true
      (sync_ssl_certificate {p = gateway []} secure_client "site.pem"
        (codes "PEM")
        false
        (fresh [])).1
unfolding sync_ssl_certificate leaf_serial leaf_serial_from leaf_round wait_for_ready poll_ready
    ◌>>=◌ or_error on_error gets get_config_version request exchange build observe conclude text_eq
    is_current post_plain
sync_ssl_certificate-IsPushed_example =
    sync_ssl_certificate-IsPushed {p = gateway []} secure_client "site.pem" (codes "PEM") false
      (fresh []) refl
