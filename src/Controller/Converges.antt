-- ===== src/Controller/Converges.antt =====
-- Reconciliations of internal/controller/secret_controller.go on a gateway and a cluster that
-- answer everything, and on a gateway that refuses the configuration.
pub mod Way
pub mod Apply
pub mod Refused
pub mod Pushes
use haproxy_operator.Base.{String, Text, text_eq, true, false, ◌≡◌, ◌≢◌, sym, subst, []}
use haproxy_operator.Haproxy.Healthy.{IsHealthy, IsHealthy-IsOpen}
use haproxy_operator.Base.Map
use haproxy_operator.Platform.{Client, Secret, Platform}
use haproxy_operator.Act.{State}
use haproxy_operator.Controller.Annotations.{annotation, last_failed_hash_annotation}
use haproxy_operator.Controller.Reconcile.{reconcile, compare_live}
use haproxy_operator.Controller.Front.{IsFound}
use haproxy_operator.Controller.Stable.{no_request, Stable, Stable-settings}
use haproxy_operator.Controller.Converges.Apply.{Converged, Converges-validate_and_apply}
use haproxy_operator.Controller.Converges.Refused.{
  IsRefusing, Suppressed, Suppressed-validate_and_apply,
}
use haproxy_operator.Controller.Converges.Pushes.{
  AllPushable, ReadsCertificates, Ensures-sync_then_apply,
}
use haproxy_operator.Controller.Converges.Way.{
  HasClient, IsNews, IsDrift, Ensures-compare_live, Ensures-reconcile,
}

Stable-AllPushable :
    {p : Platform} (namespace : String)
    → Stable {p = p} no_request (λ s. AllPushable p namespace s.reconciler.certs_secret_names)
Stable-AllPushable {p} namespace =
    Stable-settings no_request (λ r. AllPushable p namespace r.certs_secret_names)
      (λ r r' same h. subst (AllPushable p namespace) (sym same.certs) h)

-- On a healthy gateway and cluster, whose answers on certificates can be read, from every state with
-- a client, where the Secrets of the managed certificates are there and make bundles with a leaf
-- certificate, for a Secret that the cluster has under the configured name, which is no managed
-- certificate and whose bytes are not empty and neither recorded as applied nor as rejected: the
-- reconciliation asks to be repeated after the regular interval, the log shows a POST of these bytes
-- for good with a 2xx answer, and it ends with a patch that was taken and records their hash as the
-- last applied one.
pub reconcile-Converged :
    {p : Platform} (healthy : IsHealthy p) (reads : ReadsCertificates p) (c : Client)
    (namespace : String) (secret : Secret) (raw : Text) (s : State p)
    → raw ≢ []
    → IsNews p secret raw
    → HasClient c s
    → AllPushable p secret.namespace s.reconciler.certs_secret_names
    → IsFound namespace secret raw s
    → Converged raw (reconcile namespace secret.name s).0 (reconcile namespace secret.name s).1
reconcile-Converged {p} healthy reads c namespace secret raw s filled news client certs found =
    (Ensures-reconcile secret raw (Stable-AllPushable secret.namespace)
        (Ensures-sync_then_apply (IsHealthy-IsOpen healthy) reads secret raw (p.sha256_hex raw)
          (λ c' secret'. Converges-validate_and_apply healthy c' secret' raw filled))
        news c namespace).at
      s (found, (client, certs))

-- On such a gateway and cluster, from every state with a client and drift remediation on, where the
-- Secrets of the managed certificates are there and make bundles with a leaf certificate, for bytes
-- that are not empty and not recorded as rejected: where the live configuration is not the baseline,
-- the comparison ends with the bytes applied again, the log showing a POST of them with a 2xx answer,
-- and with a patch that records them.
pub compare_live-repairs :
    {p : Platform} (healthy : IsHealthy p) (reads : ReadsCertificates p) (c : Client)
    (secret : Secret) (raw live : Text) (s : State p)
    → raw ≢ []
    → text_eq (p.sha256_hex raw) (annotation last_failed_hash_annotation secret) ≡ false
    → IsDrift secret live
    → HasClient c s
    → AllPushable p secret.namespace s.reconciler.certs_secret_names
    → s.reconciler.drift_remediate ≡ true
    → Converged raw
        (compare_live secret raw (p.sha256_hex raw) live s).0
        (compare_live secret raw (p.sha256_hex raw) live s).1
compare_live-repairs {p} healthy reads c secret raw live s filled allowed drift client certs on =
    (Ensures-compare_live secret raw (Stable-AllPushable secret.namespace)
        (Ensures-sync_then_apply (IsHealthy-IsOpen healthy) reads secret raw (p.sha256_hex raw)
          (λ c' secret'. Converges-validate_and_apply healthy c' secret' raw filled))
        allowed c live drift).at
      s ((client, certs), on)

-- On a gateway that answers GETs and PUTs and refuses every raw configuration with 400 or 422, and a
-- cluster that takes every patch, from every state with a client, where the Secrets of the managed
-- certificates are there and make bundles with a leaf certificate, for a Secret that the cluster has
-- under the configured name, which is no managed certificate and whose bytes are recorded neither as
-- applied nor as rejected: the reconciliation asks to be repeated after the regular interval and not
-- after a backoff, the log shows a refusal of these bytes (or they are empty), and it ends with a
-- patch that was taken and records their hash as the last failed one.
pub reconcile-Suppressed :
    {p : Platform} (refusing : IsRefusing p) (reads : ReadsCertificates p) (c : Client)
    (namespace : String) (secret : Secret) (raw : Text) (s : State p)
    → IsNews p secret raw
    → HasClient c s
    → AllPushable p secret.namespace s.reconciler.certs_secret_names
    → IsFound namespace secret raw s
    → Suppressed raw (reconcile namespace secret.name s).0 (reconcile namespace secret.name s).1
reconcile-Suppressed {p} refusing reads c namespace secret raw s news client certs found =
    (Ensures-reconcile secret raw (Stable-AllPushable secret.namespace)
        (Ensures-sync_then_apply refusing.is_open reads secret raw (p.sha256_hex raw)
          (λ c' secret'. Suppressed-validate_and_apply refusing secret' raw c'))
        news c namespace).at
      s (found, (client, certs))
