-- ===== src/Controller/Alert.antt =====
-- The alert-only mode of the drift check in internal/controller/secret_controller.go.
use haproxy_operator.Base.{Text, Bool-cases, true, false, ◌≡◌, refl, text_eq, inl, inr, ◌∷◌}
use haproxy_operator.Platform.{
  Secret, emitted, gauged, increased, warning, config_drift, config_in_sync, Platform,
}
use haproxy_operator.Act.{State, pure, gets, ◌>>=◌, perform}
use haproxy_operator.Status.{emit_event, event_type, is_warning}
use haproxy_operator.Status.Reasons
use haproxy_operator.Controller.Annotations.{annotation, last_failed_hash_annotation}
use haproxy_operator.Controller.Reconcile.{requeue, handle_drift}
use haproxy_operator.Controller.Backoff.{requeue_interval}

-- Where drift is not to be remedied and Events can be recorded: whatever the Secret, the bytes and the
-- state, the effects of a detected drift are that it is counted, that the gauge for being in sync
-- falls to 0, and that a warning with the reason ConfigDrift is emitted, and no others: nothing is
-- asked of the gateway or the cluster; and the next check comes after the regular interval.
pub handle_drift-only_alerts :
    {p : Platform} (secret : Secret) (raw hash : Text) (s : State p)
    → s.reconciler.drift_remediate ≡ false
    → s.reconciler.recorder ≡ true
    → let after = handle_drift secret raw hash s in
      (after.1.world ≡ s.world)
      × (after.0 ≡ requeue requeue_interval)
      × ((message : Text) × (after.1.log
            ≡ emitted secret.name warning Reasons.config_drift message
              ∷ gauged (config_in_sync secret.name) 0
              ∷ increased (config_drift secret.name)
              ∷ s.log))
unfolding handle_drift emit_event event_type is_warning ◌>>=◌ gets perform pure
handle_drift-only_alerts secret raw hash s off told =
    elim (Bool-cases (text_eq hash (annotation last_failed_hash_annotation secret))) [
      | inl suppressed ↦ rw (suppressed, told) (refl, refl, (_, refl))
      | inr other ↦ rw (other, off, told) (refl, refl, (_, refl))
    ]
