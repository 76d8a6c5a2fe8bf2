-- ===== src/Controller/Protocol/Run.antt =====
-- Every phase of a reconciliation keeps every invariant of the protocol.
pub mod Ends
pub mod Apply
mod Drift
use haproxy_operator.Base.{
  Text, String, codes, refl, Option, none, some, ◌&&◌, ◌===◌, text_eq, has_prefix, not,
}
use haproxy_operator.Haproxy.Errors.{Error, is_missing}
use haproxy_operator.Platform.{Secret, Platform}
use haproxy_operator.Act.{State}
use haproxy_operator.Act.Keeps.{Keeps, Ensures-bind, Ensures-on_error, Ensures-or_error, Ensures-if}
use haproxy_operator.Controller.Annotations.{
  annotation, last_applied_hash_annotation, status_annotation,
}
use haproxy_operator.Controller.Reconcile.{
  should_reconcile, is_managed_cert, back_off, reconcile_contents, reconcile_config, report_failure,
  cert_sync_failed, reconcile_after, clear_cert_status, after_cert_sync, sync_event, reconcile_cert,
  reconcile,
}
use haproxy_operator.Controller.Protocol.{is_note, Closed}
use haproxy_operator.Controller.Protocol.Primitives.{
  Keeps-pure, Keeps-gets, Keeps-perform, Keeps-get_secret, Keeps-emit_event,
}
use haproxy_operator.Controller.Protocol.Writes.{
  Keeps-patch_annotations, OwnMutation-applied_status, LeavesHashes-applied_status,
}
use haproxy_operator.Controller.Protocol.Certs.{Keeps-sync_cert_secret}
use haproxy_operator.Controller.Protocol.Run.Ends.{Keeps-back_off, Keeps-with_status}
use haproxy_operator.Controller.Protocol.Run.Apply.{Keeps-apply_desired}
use haproxy_operator.Controller.Protocol.Run.Drift.{Keeps-check_drift}

module _ {p : Platform} {P : State p → Type 0} (k : Closed P) where
  Keeps-reconcile_contents :
      (secret : Secret) (key : String) (o : Option Text) → Keeps P (reconcile_contents secret key o)
  unfolding reconcile_contents
  Keeps-reconcile_contents secret key none = Keeps-with_status k secret _ _ _ (Keeps-pure k _)
  Keeps-reconcile_contents secret key (some raw) =
      Ensures-if (text_eq (p.sha256_hex raw) (annotation last_applied_hash_annotation secret)) _ _
        (λ _. Keeps-check_drift k secret raw) (λ _. Keeps-apply_desired k secret raw)

  Keeps-reconcile_config : (secret : Secret) → Keeps P (reconcile_config secret)
  unfolding reconcile_config
  Keeps-reconcile_config secret = Ensures-bind _ _ (Keeps-gets k (λ s. s.reconciler)) λ r.
      Ensures-if (not (should_reconcile r secret)) _ _ (λ _. Keeps-pure k _)
        (λ _. Keeps-reconcile_contents secret _ _)

  Keeps-cert_sync_failed :
      (secret : Secret) (config : Option Secret) (e : Error)
      → Keeps P (cert_sync_failed secret config e)
  unfolding cert_sync_failed is_note report_failure
  Keeps-cert_sync_failed secret config e =
      Ensures-bind _ _ (Keeps-perform k _ refl)
        λ _. Ensures-bind _ _ (Keeps-emit_event k _ _ _) (λ _. reported config)
    where
      reported : (o : Option Secret) → Keeps P (report_failure o e)
      reported none = Keeps-back_off k
      reported (some cfg) = Keeps-with_status k cfg _ e back_off (Keeps-back_off k)

  Keeps-clear_cert_status : (secret : Secret) → Keeps P (clear_cert_status secret)
  unfolding clear_cert_status
  Keeps-clear_cert_status secret =
      Ensures-if (has_prefix (annotation status_annotation secret) (codes "CertSync")) _ _
        (λ _.
          Ensures-bind _ _
            (Keeps-patch_annotations k secret _ OwnMutation-applied_status
              LeavesHashes-applied_status)
            (λ r. Keeps-pure k _))
        (λ _. Keeps-pure k _)

  Keeps-reconcile_after : (config : Option Secret) → Keeps P (reconcile_after config)
  unfolding reconcile_after
  Keeps-reconcile_after none = Keeps-pure k _
  Keeps-reconcile_after (some cfg) =
      Ensures-bind _ _ (Keeps-clear_cert_status cfg) (λ cfg'. Keeps-reconcile_config _)

  Keeps-sync_event : (secret : Secret) (config : Option Secret) → Keeps P (sync_event secret config)
  unfolding sync_event after_cert_sync
  Keeps-sync_event secret config = Ensures-bind _ _ (Keeps-sync_cert_secret k secret config) λ r.
      Ensures-on_error r.0 _ _ (λ e _. Keeps-cert_sync_failed secret r.1 e)
        (λ _. Ensures-bind _ _ (Keeps-gets k (λ s. s.reconciler)) λ r'.
          Ensures-if (r'.secret_name === "") _ _ (λ _. Keeps-pure k _)
            (λ _. Keeps-reconcile_after r.1))

  Keeps-reconcile_cert :
      (namespace : String) (secret : Secret) → Keeps P (reconcile_cert namespace secret)
  unfolding reconcile_cert
  Keeps-reconcile_cert namespace secret = Ensures-bind _ _ (Keeps-gets k (λ s. s.reconciler)) λ r.
      Ensures-if (not (r.secret_name === "") && not (secret.name === r.secret_name)) _ _
        (λ _. Ensures-bind _ _ (Keeps-get_secret k namespace r.secret_name) λ got.
          Ensures-or_error got _ _
            (λ e _.
              Ensures-if (not (is_missing e)) _ _ (λ _. Keeps-pure k _)
                (λ _. Keeps-sync_event secret none))
            (λ cfg _. Keeps-sync_event secret (some cfg)))
        (λ _. Keeps-sync_event secret (some secret))

  -- A reconciliation keeps every invariant of the protocol.
  pub Keeps-reconcile : (namespace name : String) → Keeps P (reconcile namespace name)
  unfolding reconcile
  Keeps-reconcile namespace name = Ensures-bind _ _ (Keeps-gets k (λ s. s.reconciler)) λ r.
      Ensures-if
        (not (r.secret_name === "")
          && (not (name === r.secret_name) && not (is_managed_cert r name)))
        _ _ (λ _. Keeps-pure k _)
        (λ _. Ensures-bind _ _ (Keeps-get_secret k namespace name) λ got.
          Ensures-or_error got _ _
            (λ e _. Ensures-if (is_missing e) _ _ (λ _. Keeps-pure k _) (λ _. Keeps-pure k _))
            (λ secret _.
              Ensures-if (is_managed_cert r name) _ _ (λ _. Keeps-reconcile_cert namespace secret)
                (λ _. Keeps-reconcile_config secret)))
