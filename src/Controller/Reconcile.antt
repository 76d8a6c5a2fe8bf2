-- ===== src/Controller/Reconcile.antt =====
-- `Reconcile` of internal/controller/secret_controller.go: its body in phases, each a definition of
-- its own. Log lines are left out.
pub mod Ends
pub mod Apply
pub mod Drift
unfoldable pub use Ends.*
unfoldable pub use Apply.*
unfoldable pub use Drift.*
use haproxy_operator.Status.Reasons
use haproxy_operator.Base.{
  ◌+◌, String, Text, codes, text_eq, has_prefix, any, not, Bool, true, ◌&&◌, Option, none, some,
  ◌++◌, ◌===◌, ◌<>◌, if◌then◌else◌,
}
use haproxy_operator.Base.Map
use haproxy_operator.Base.Map.{Map, writes}
use haproxy_operator.Haproxy.Errors.{
  Error, fail, message, class_text, status_value, classify, is_missing,
}
use haproxy_operator.Platform.{Secret, transient_errors, increased, Platform}
use haproxy_operator.Act.{
  Reconciler, Act, pure, gets, ◌>>=◌, ◌>>◌, on_error, or_error, perform, get_secret,
}
use haproxy_operator.Status.{emit_event}
use haproxy_operator.Config.{hash_bytes}
use haproxy_operator.Controller.Backoff.{requeue_interval, base_retry_interval}
use haproxy_operator.Controller.Annotations.{
  annotation, forget, applied_status, patch_annotations, last_applied_hash_annotation,
  last_failed_hash_annotation, status_annotation,
}
use haproxy_operator.Controller.Certs.{sync_cert_secret}

-- `shouldReconcile`
abbrev pub should_reconcile : Reconciler → Secret → Bool
should_reconcile r secret =
    if not (r.secret_name === "") then secret.name === r.secret_name else true

abbrev pub is_managed_cert : Reconciler → String → Bool
is_managed_cert r name = any (λ n. n === name) r.certs_secret_names

abbrev key_missing : String → Error
key_missing key = fail ("key " <> (key <> " not found in Secret"))

module _ {p : Platform} where
  -- What is done about the configuration that the Secret holds under its key.
  unfoldable pub reconcile_contents : Secret → String → Option Text → Act p Outcome
  reconcile_contents secret key none =
      with_status secret (codes "Error") (key_missing key) unchanged
        (pure (requeue base_retry_interval))
  reconcile_contents secret key (some raw) =
      if text_eq (hash_bytes p raw) (annotation last_applied_hash_annotation secret)
      then check_drift secret raw (hash_bytes p raw)
      else apply_desired secret raw (hash_bytes p raw)

  -- The configuration Secret, from `shouldReconcile` on.
  unfoldable pub reconcile_config : Secret → Act p Outcome
  reconcile_config secret = do
    r ← gets (λ s. s.reconciler)
    if not (should_reconcile r secret)
        then pure finished
        else reconcile_contents secret r.secret_key
            (Map.lookup r.secret_key (writes secret.contents))

  -- The status of a failed push, if the config Secret is there.
  unfoldable pub report_failure : Option Secret → Error → Act p Outcome
  report_failure none e = back_off
  report_failure (some cfg) e =
      with_status cfg (codes "CertSync" ++ status_value (classify e)) e unchanged back_off

  -- A certificate could not be pushed.
  unfoldable pub cert_sync_failed : Secret → Option Secret → Error → Act p Outcome
  cert_sync_failed secret config e = do
    perform (increased (transient_errors (class_text (classify e))))
    emit_event secret.name Reasons.cert_sync_failed (message e)
    report_failure config e

  -- A recovered certificate sync clears its own status, and no other.
  unfoldable pub clear_cert_status : Secret → Act p Secret
  clear_cert_status secret =
      if has_prefix (annotation status_annotation secret) (codes "CertSync")
      then (do (_, secret') ← patch_annotations secret applied_status; pure secret')
      else pure secret

  -- The config Secret is reconciled with the suppression of its bytes lifted in memory.
  unfoldable pub reconcile_after : Option Secret → Act p Outcome
  reconcile_after none = pure (requeue requeue_interval)
  reconcile_after (some cfg) = do
    cfg' ← clear_cert_status cfg
    reconcile_config (forget last_failed_hash_annotation cfg')

  -- After the push, unless there is no config Secret by name.
  unfoldable pub after_cert_sync : Option Secret → Act p Outcome
  after_cert_sync config = do
    r ← gets (λ s. s.reconciler)
    if r.secret_name === "" then pure (requeue requeue_interval) else reconcile_after config

  -- The event of a TLS Secret, with the config Secret that goes with it.
  unfoldable pub sync_event : Secret → Option Secret → Act p Outcome
  sync_event secret config = do
    (e, config') ← sync_cert_secret secret config
    on_error e (cert_sync_failed secret config') (after_cert_sync config')

  -- An event of a managed TLS Secret. A TLS Secret that is the config Secret too is pushed, and
  -- annotated, as one object.
  unfoldable pub reconcile_cert : String → Secret → Act p Outcome
  reconcile_cert namespace secret = do
    r ← gets (λ s. s.reconciler)
    if not (r.secret_name === "") && not (secret.name === r.secret_name)
        then (do
          got ← get_secret namespace r.secret_name
          or_error got (λ e. if not (is_missing e) then pure (failed e) else sync_event secret none)
              (λ cfg. sync_event secret (some cfg)))
        else sync_event secret (some secret)

  -- `Reconcile`, of the request for a name in a namespace
  unfoldable pub reconcile : String → String → Act p Outcome
  reconcile namespace name = do
    r ← gets (λ s. s.reconciler)
    if not (r.secret_name === "") && (not (name === r.secret_name) && not (is_managed_cert r name))
        then pure finished
        else (do
          got ← get_secret namespace name
          or_error got (λ e. if is_missing e then pure finished else pure (failed e))
              (λ secret.
                if is_managed_cert r name
                then reconcile_cert namespace secret
                else reconcile_config secret))
