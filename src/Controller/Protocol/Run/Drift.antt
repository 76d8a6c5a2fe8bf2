-- ===== src/Controller/Protocol/Run/Drift.antt =====
-- The drift check keeps every invariant of the protocol.
use haproxy_operator.Base.{Text, codes, refl, text_eq, has_prefix, not}
use haproxy_operator.Platform.{Secret, Platform}
use haproxy_operator.Act.{State}
use haproxy_operator.Act.Keeps.{Keeps, Ensures-bind, Ensures-or_error, Ensures-if}
use haproxy_operator.Controller.Annotations.{
  annotation, last_observed_hash_annotation, last_failed_hash_annotation, status_annotation,
  observed_hash_pending,
}
use haproxy_operator.Controller.Reconcile.{
  handle_drift, adopt_baseline, in_sync, compare_live, check_drift,
}
use haproxy_operator.Controller.Protocol.{is_note, Closed}
use haproxy_operator.Controller.Protocol.Primitives.{
  Keeps-pure, Keeps-gets, Keeps-perform, Keeps-modify, Keeps-emit_event,
}
use haproxy_operator.Controller.Protocol.Client.{Keeps-get_raw_configuration}
use haproxy_operator.Controller.Protocol.Writes.{
  Keeps-patch_annotations, OwnMutation-applied_status, LeavesHashes-applied_status,
  OwnMutation-baseline, LeavesHashes-baseline,
}
use haproxy_operator.Controller.Protocol.Certs.{Keeps-get_or_create_client}
use haproxy_operator.Controller.Protocol.Run.Ends.{Keeps-transient_failure}
use haproxy_operator.Controller.Protocol.Run.Apply.{Keeps-apply_desired}

module _ {p : Platform} {P : State p → Type 0} (k : Closed P) where
  pub Keeps-handle_drift :
      (secret : Secret) (raw : Text) → Keeps P (handle_drift secret raw (p.sha256_hex raw))
  unfolding handle_drift is_note
  Keeps-handle_drift secret raw = Ensures-bind _ _ (Keeps-perform k _ refl) λ _.
      Ensures-bind _ _ (Keeps-perform k _ refl) λ _.
        Ensures-bind _ _ (Keeps-gets k (λ s. s.reconciler)) λ r.
          Ensures-if (text_eq (p.sha256_hex raw) (annotation last_failed_hash_annotation secret)) _
            _ (λ _. Ensures-bind _ _ (Keeps-emit_event k _ _ _) (λ _. Keeps-pure k _))
            (λ _.
              Ensures-if (not r.drift_remediate) _ _
                (λ _. Ensures-bind _ _ (Keeps-emit_event k _ _ _) (λ _. Keeps-pure k _))
                (λ _.
                  Ensures-bind _ _ (Keeps-emit_event k _ _ _)
                    (λ _. Keeps-apply_desired k secret raw)))

  pub Keeps-compare_live :
      (secret : Secret) (raw live : Text)
      → Keeps P (compare_live secret raw (p.sha256_hex raw) live)
  unfolding compare_live adopt_baseline in_sync is_note
  Keeps-compare_live secret raw live =
      Ensures-bind _ _ (Keeps-modify k _ (λ r. refl) (λ r. refl)) λ _.
        Ensures-if (text_eq (annotation last_observed_hash_annotation secret) observed_hash_pending)
          _ _
          (λ _.
            Ensures-bind _ _
              (Keeps-patch_annotations k secret _ (OwnMutation-baseline live)
                (LeavesHashes-baseline live))
              λ r. Ensures-bind _ _ (Keeps-perform k _ refl) (λ _. Keeps-pure k _))
          (λ _.
            Ensures-if (text_eq live _) _ _
              (λ _. Ensures-bind _ _ (Keeps-perform k _ refl) λ _.
                Ensures-if (has_prefix (annotation status_annotation secret) (codes "DriftCheck")) _
                  _
                  (λ _.
                    Ensures-bind _ _
                      (Keeps-patch_annotations k secret _ OwnMutation-applied_status
                        LeavesHashes-applied_status)
                      (λ r. Keeps-pure k _))
                  (λ _. Keeps-pure k _))
              (λ _. Keeps-handle_drift secret raw))

  pub Keeps-check_drift :
      (secret : Secret) (raw : Text) → Keeps P (check_drift secret raw (p.sha256_hex raw))
  unfolding check_drift
  Keeps-check_drift secret raw = Ensures-bind _ _ (Keeps-get_or_create_client k) λ made.
      Ensures-or_error made _ _ (λ e _. Keeps-transient_failure k _ _ _ e)
        (λ c _. Ensures-bind _ _ (Keeps-get_raw_configuration k c) λ live.
          Ensures-or_error live _ _ (λ e _. Keeps-transient_failure k _ _ _ e)
            (λ l _. Keeps-compare_live secret raw (p.sha256_hex l)))
