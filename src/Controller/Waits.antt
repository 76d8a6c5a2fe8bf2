-- ===== src/Controller/Waits.antt =====
-- Bytes that are on record as rejected, in internal/controller/secret_controller.go: their Secret is
-- read, and that is all.
use haproxy_operator.Base.{String, Text, text_eq, Bool, true, false, not, ◌≡◌, refl, some, List}
use haproxy_operator.Platform.{Secret, Effect, Platform}
use haproxy_operator.Act.{State, pure, gets, get_secret, when, modify}
use haproxy_operator.Act.Keeps.{Keeps, Ensures, Ensures-bind, Ensures-pure, Ensures-if}
use haproxy_operator.Controller.Annotations.{
  annotation, last_applied_hash_annotation, last_failed_hash_annotation,
}
use haproxy_operator.Controller.Backoff.{requeue_interval}
use haproxy_operator.Controller.Front.{IsFound, Ensures-request_of}
use haproxy_operator.Controller.Reconcile.{requeue, apply_desired, reconcile_contents, reconcile}

module _ {p : Platform} (secret : Secret) (raw : Text) (l : List Effect)
    (news : text_eq (p.sha256_hex raw) (annotation last_applied_hash_annotation secret) ≡ false)
    (rejected : text_eq (p.sha256_hex raw) (annotation last_failed_hash_annotation secret)
      ≡ true) where
  -- The failure streak may be reset, and that is all.
  Waits-apply_desired :
      (key : String)
      → Ensures {p = p}
          (λ s. s.log ≡ l)
          (reconcile_contents secret key (some raw))
          (λ o s. (o ≡ requeue requeue_interval) × (s.log ≡ l))
  unfolding reconcile_contents apply_desired gets modify
  Waits-apply_desired key =
      Ensures-if (text_eq (p.sha256_hex raw) (annotation last_applied_hash_annotation secret)) _ _
        (λ e. record { at = λ s h. cc })
        (λ _.
          Ensures-bind _ _ (record { at = λ s h. h })
            λ r.
              Ensures-bind _ _ (log_kept (not (text_eq r.last_desired_hash (p.sha256_hex raw))))
                λ _.
                  Ensures-if
                    (text_eq (p.sha256_hex raw) (annotation last_failed_hash_annotation secret)) _ _
                    (λ _. Ensures-pure _ (λ s h. (refl, h))) (λ e. record { at = λ s h. cc }))
    where
      log_kept :
          (b : Bool)
          → Keeps {p = p}
              (λ s. s.log ≡ l)
              (when b (
                modify
                  (λ r. record r { transient_failures = 0; last_desired_hash = p.sha256_hex raw })))
      log_kept true = unfold when modify in record { at = λ s h. h }
      log_kept false = unfold when pure in record { at = λ s h. h }

-- For every state and every Secret that the cluster has under the configured name and that is no
-- managed certificate, whose bytes are recorded as rejected and not as applied: the reconciliation
-- asks to be repeated after the regular interval, and has sent the gateway nothing, patched nothing,
-- and reported nothing.
pub reconcile-Waits :
    {p : Platform} (namespace : String) (secret : Secret) (raw : Text) (s : State p)
    → text_eq (p.sha256_hex raw) (annotation last_applied_hash_annotation secret) ≡ false
    → text_eq (p.sha256_hex raw) (annotation last_failed_hash_annotation secret) ≡ true
    → IsFound namespace secret raw s
    → ((reconcile namespace secret.name s).0 ≡ requeue requeue_interval)
      × ((reconcile namespace secret.name s).1.log ≡ s.log)
unfolding get_secret
reconcile-Waits namespace secret raw s news rejected found =
    (Ensures-request_of secret raw (λ ns n t h. h)
        (Waits-apply_desired secret raw s.log news rejected) namespace).at
      s (found, refl)
