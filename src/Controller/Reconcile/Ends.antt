-- ===== src/Controller/Reconcile/Ends.antt =====
-- How a reconciliation ends in internal/controller/secret_controller.go: the exported hash, the
-- backoff, and the two kinds of failures.
use haproxy_operator.Status.Reasons
use haproxy_operator.Base.{
  ℕ, ◌+◌, String, Text, codes, text_eq, not, Bool, true, ◌&&◌, ◌||◌, [], ◌++◌, ◌===◌, if◌then◌else◌,
}
use haproxy_operator.Base.Map
use haproxy_operator.Base.Map.{Map}
use haproxy_operator.Haproxy.Errors.{
  Error, message, ErrorClass, auth, tls, connection, conflict, class_text, is_config_rejected,
  status_value, classify,
}
use haproxy_operator.Platform.{
  Secret, reconcile_results, transient_errors, config_hash, increased, gauged, dropped, Platform,
}
use haproxy_operator.Act.{Act, pure, gets, ◌>>=◌, ◌>>◌, on_error, perform, when, modify}
use haproxy_operator.Status.{emit_event}
use haproxy_operator.Controller.Backoff.{pos, requeue_interval, backoff_for_failure}
use haproxy_operator.Controller.Annotations.{fail_with_status, last_failed_hash_annotation}

-- What `Reconcile` returns: an empty result, one with RequeueAfter in nanoseconds, or an error.
pub data Outcome : Type 0 where
  finished : Outcome
  requeue : ℕ → Outcome
  failed : Error → Outcome

-- `eventReasonForClass`
unfoldable pub event_reason_for_class : ErrorClass → String
event_reason_for_class auth = Reasons.auth_error
event_reason_for_class tls = Reasons.tls_connection_err
event_reason_for_class connection = Reasons.connection_error
event_reason_for_class conflict = Reasons.conflict_error
event_reason_for_class _ = Reasons.transient_error

abbrev pub unchanged : Map Text → Map Text
unchanged ann = ann

module _ {p : Platform} where
  -- `exportConfigHash`
  unfoldable pub export_config_hash : Text → String → Act p (Unit {0})
  export_config_hash hash state = do
    r ← gets (λ s. s.reconciler)
    when
        (not (text_eq r.last_metric_hash [])
          && (not (text_eq r.last_metric_hash hash) || not (r.last_metric_state === state)))
        (perform (dropped (config_hash r.last_metric_hash r.last_metric_state)))
    perform (gauged (config_hash hash state) 1)
    modify (λ r. record r { last_metric_hash = hash; last_metric_state = state })

  -- `r.transientFailures++`, and the requeue after the backoff
  unfoldable pub back_off : Act p Outcome
  back_off = do
    modify (λ r. record r { transient_failures = r.transient_failures + 1 })
    n ← gets (λ s. s.reconciler.transient_failures)
    pure (requeue (backoff_for_failure (pos n)))

  -- `failWithStatus`, then the rest unless the status could not be written
  unfoldable pub with_status :
      Secret → Text → Error → (Map Text → Map Text) → Act p Outcome → Act p Outcome
  with_status secret status e extra rest = do
    uerr ← fail_with_status secret status (message e) extra
    on_error uerr (λ u. pure (failed u)) rest

  -- How every transient failure ends: the counter, an Event unless the client could not be built,
  -- the stage and the class as status, and the backoff.
  unfoldable pub transient_failure : Secret → String → Bool → Error → Act p Outcome
  transient_failure secret stage event e = do
    let class = classify e
    perform (increased (transient_errors (class_text class)))
    when event (emit_event secret.name (event_reason_for_class class) (message e))
    with_status secret (codes stage ++ status_value class) e unchanged back_off

  -- How a deterministic rejection ends: the hash is recorded, so that the bytes are not retried.
  unfoldable pub rejection : Secret → Text → Error → Act p Outcome
  rejection secret hash e = do
    emit_event secret.name Reasons.config_rejected (message e)
    export_config_hash hash "rejected"
    with_status secret (codes "ConfigRejected") e (Map.insert last_failed_hash_annotation hash)
        (pure (requeue requeue_interval))

  -- A failed validation or application: the two blocks differ in the stage of the status.
  unfoldable pub refused : Secret → Text → String → Error → Act p Outcome
  refused secret hash stage e = do
    perform (increased (reconcile_results (class_text (classify e))))
    if is_config_rejected (classify e)
        then rejection secret hash e
        else transient_failure secret stage true e
