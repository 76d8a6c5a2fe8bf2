-- ===== src/Controller/Reconcile/Drift.antt =====
-- The drift check of `Reconcile` in internal/controller/secret_controller.go.
use haproxy_operator.Status.Reasons
use haproxy_operator.Base.{
  String, Text, codes, text_eq, has_prefix, not, true, false, [], if◌then◌else◌,
}
use haproxy_operator.Base.Map
use haproxy_operator.Base.Map.{Map}
use haproxy_operator.Haproxy.Client.{get_raw_configuration}
use haproxy_operator.Platform.{Secret, config_drift, config_in_sync, increased, gauged, Platform}
use haproxy_operator.Act.{Act, pure, gets, ◌>>=◌, ◌>>◌, or_error, perform, modify}
use haproxy_operator.Status.{emit_event}
use haproxy_operator.Config.{hash_bytes}
use haproxy_operator.Controller.Backoff.{requeue_interval}
use haproxy_operator.Controller.Annotations.{
  annotation, applied_status, patch_annotations, last_applied_hash_annotation,
  last_observed_hash_annotation, last_failed_hash_annotation, status_annotation,
  observed_hash_pending,
}
use haproxy_operator.Controller.Connect.{get_or_create_client}
use haproxy_operator.Controller.Reconcile.Ends.{Outcome, requeue, transient_failure}
use haproxy_operator.Controller.Reconcile.Apply.{apply_desired}

abbrev drift_suppressed : String
drift_suppressed =
    "live configuration drifted from the applied config, but the desired config is suppressed (its last apply was rejected); not re-applying"

abbrev drift_disabled : String
drift_disabled =
    "live configuration drifted from the applied config; re-apply disabled (drift-remediate=false)"

abbrev drift_remedied : String
drift_remedied =
    "live configuration drifted from the applied config; re-applying the desired config"

module _ {p : Platform} where
  -- What is done about a drift, by the three cases of its switch.
  unfoldable pub handle_drift : Secret → Text → Text → Act p Outcome
  handle_drift secret raw hash = do
    perform (increased (config_drift secret.name))
    perform (gauged (config_in_sync secret.name) 0)
    r ← gets (λ s. s.reconciler)
    if text_eq hash (annotation last_failed_hash_annotation secret)
        then (do
          emit_event secret.name Reasons.config_drift (codes drift_suppressed)
          pure (requeue requeue_interval))
        else if not r.drift_remediate
        then (do
          emit_event secret.name Reasons.config_drift (codes drift_disabled)
          pure (requeue requeue_interval))
        else (do
          emit_event secret.name Reasons.config_drift (codes drift_remedied)
          apply_desired secret raw hash)

  -- The first verified read after an application becomes the baseline; a failed patch is only
  -- logged.
  unfoldable pub adopt_baseline : Secret → Text → Act p Outcome
  adopt_baseline secret live_hash = do
    (_, secret') ←
        patch_annotations secret
          (λ ann. applied_status (Map.insert last_observed_hash_annotation live_hash ann))
    perform (gauged (config_in_sync secret'.name) 1)
    pure (requeue requeue_interval)

  -- The live configuration is the expected one: a stale DriftCheck status is cleared.
  unfoldable pub in_sync : Secret → Act p Outcome
  in_sync secret = do
    perform (gauged (config_in_sync secret.name) 1)
    if has_prefix (annotation status_annotation secret) (codes "DriftCheck")
        then (do (_, _) ← patch_annotations secret applied_status; pure (requeue requeue_interval))
        else pure (requeue requeue_interval)

  -- The comparison with the baseline, after a successful live read.
  unfoldable pub compare_live : Secret → Text → Text → Text → Act p Outcome
  compare_live secret raw hash live_hash = do
    modify (λ r. record r { transient_failures = 0 })
    let recorded = annotation last_observed_hash_annotation secret
    if text_eq recorded observed_hash_pending
        then adopt_baseline secret live_hash
        else if text_eq live_hash (
            if text_eq recorded []
            then annotation last_applied_hash_annotation secret
            else recorded)
        then in_sync secret
        else handle_drift secret raw hash

  -- The desired bytes are those last applied: the live configuration is checked for drift.
  unfoldable pub check_drift : Secret → Text → Text → Act p Outcome
  check_drift secret raw hash = do
    made ← get_or_create_client
    or_error made (transient_failure secret "" false) λ c. do
      live ← get_raw_configuration c
      or_error live (transient_failure secret "DriftCheck" true)
          (λ live_raw. compare_live secret raw hash (hash_bytes p live_raw))
