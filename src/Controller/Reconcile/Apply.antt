-- ===== src/Controller/Reconcile/Apply.antt =====
-- The validate and apply path of `Reconcile` in internal/controller/secret_controller.go.
use haproxy_operator.Status.Reasons
use haproxy_operator.Base.{
  String, Text, text_eq, not, Bool, true, false, List, [], ◌∷◌, if◌then◌else◌,
}
use haproxy_operator.Haproxy.Errors.{is_conflict, Result, ok, err}
use haproxy_operator.Haproxy.Client.{get_raw_configuration, apply_raw_configuration_validated}
use haproxy_operator.Platform.{
  Secret, Client, reconcile_attempts, reconcile_results, last_successful_apply, config_in_sync,
  increased, gauged, Platform,
}
use haproxy_operator.Act.{Act, pure, gets, ◌>>=◌, ◌>>◌, on_error, or_error, perform, when, modify}
use haproxy_operator.Status.{emit_event}
use haproxy_operator.Config.{hash_bytes, validate}
use haproxy_operator.Controller.Backoff.{pos, requeue_interval, backoff_for_failure}
use haproxy_operator.Controller.Annotations.{
  annotation, applied_record, patch_annotations, last_failed_hash_annotation, observed_hash_pending,
}
use haproxy_operator.Controller.Connect.{get_or_create_client}
use haproxy_operator.Controller.Certs.{ensure_cert_secrets_synced}
use haproxy_operator.Controller.Reconcile.Ends.{
  Outcome, requeue, failed, export_config_hash, transient_failure, refused,
}

abbrev pub no_certs : List String → Bool
no_certs [] = true
no_certs (n ∷ ns) = false

-- The observed hash of a read-back: pending if it failed.
abbrev pub observed : Platform → Result Text → Text
observed p (ok raw) = hash_bytes p raw
observed p (err e) = observed_hash_pending

module _ {p : Platform} where
  -- The bookkeeping of a successful application: phases 2.5 and 3.
  unfoldable pub record_applied : Client → Secret → Text → Act p Outcome
  record_applied c secret hash = do
    emit_event secret.name Reasons.apply_succeeded []
    perform (increased (reconcile_results "applied"))
    export_config_hash hash "applied"
    seconds ← gets (λ s. p.unix_now s.world)
    perform (gauged last_successful_apply seconds)
    perform (gauged (config_in_sync secret.name) 1)
    modify (λ r. record r { transient_failures = 0 })
    live ← get_raw_configuration c
    now ← gets (λ s. p.timestamp s.world)
    (e, _) ← patch_annotations secret (applied_record hash (observed p live) now)
    on_error e
        (λ u.
          if is_conflict u then pure (requeue (backoff_for_failure (pos 0))) else pure (failed u))
        (pure (requeue requeue_interval))

  -- Phases 1 and 2: validation, then the application of the same bytes.
  unfoldable pub validate_and_apply : Client → Secret → Text → Text → Act p Outcome
  validate_and_apply c secret raw hash = do
    perform (increased (reconcile_attempts "validate"))
    invalid ← validate c raw
    on_error invalid (refused secret hash "") (do
      emit_event secret.name Reasons.validation_passed []
      perform (increased (reconcile_attempts "apply"))
      unapplied ← apply_raw_configuration_validated c raw
      on_error unapplied (refused secret hash "Apply") (record_applied c secret hash))

  -- The push of the managed certificates, before the validation.
  unfoldable pub sync_then_apply : Client → Secret → Text → Text → Act p Outcome
  sync_then_apply c secret raw hash = do
    r ← gets (λ s. s.reconciler)
    if no_certs r.certs_secret_names then validate_and_apply c secret raw hash else (do
      perform (increased (reconcile_attempts "cert-sync"))
      (e, secret') ← ensure_cert_secrets_synced r.certs_secret_names secret.namespace secret c
      on_error e (transient_failure secret' "CertSync" true)
          (validate_and_apply c secret' raw hash))

  -- From the reset of the failure streak on.
  unfoldable pub apply_desired : Secret → Text → Text → Act p Outcome
  apply_desired secret raw hash = do
    r ← gets (λ s. s.reconciler)
    when (not (text_eq r.last_desired_hash hash))
        (modify (λ r. record r { transient_failures = 0; last_desired_hash = hash }))
    if text_eq hash (annotation last_failed_hash_annotation secret)
        then pure (requeue requeue_interval)
        else (do
          made ← get_or_create_client
          or_error made (transient_failure secret "" false)
              (λ c. sync_then_apply c secret raw hash))
