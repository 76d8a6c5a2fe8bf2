-- ===== src/Controller/Protocol/Run/Apply.antt =====
-- The validate and apply path keeps every invariant of the protocol.
use haproxy_operator.Base.{Text, true, false, ◌≡◌, refl, text_eq}
use haproxy_operator.Haproxy.Errors.{is_conflict}
use haproxy_operator.Platform.{Client, Secret, Platform}
use haproxy_operator.Act.{State}
use haproxy_operator.Act.Keeps.{
  Keeps, Ensures-weaken, Ensures-bind, Ensures-on_error, Ensures-or_error, Ensures-if,
}
use haproxy_operator.Controller.Annotations.{annotation, last_failed_hash_annotation}
use haproxy_operator.Controller.Reconcile.{
  no_certs, record_applied, observed, validate_and_apply, sync_then_apply, apply_desired,
}
use haproxy_operator.Controller.Protocol.{
  applied, is_validated, is_applied, is_note, Closed, Closed-any, Closed-×,
}
use haproxy_operator.Controller.Protocol.Primitives.{
  Keeps-pure, Keeps-gets, Keeps-perform, Keeps-modify, Keeps-when, Keeps-emit_event,
}
use haproxy_operator.Controller.Protocol.Client.{Keeps-get_raw_configuration}
use haproxy_operator.Controller.Protocol.Verdict.{Ensures-validate, Ensures-apply}
use haproxy_operator.Controller.Protocol.Writes.{Keeps-patch_applied}
use haproxy_operator.Controller.Protocol.Certs.{
  Keeps-get_or_create_client, Keeps-ensure_cert_secrets_synced,
}
use haproxy_operator.Controller.Protocol.Run.Ends.{
  Keeps-export_config_hash, Keeps-transient_failure, Keeps-refused,
}

module _ {p : Platform} {P : State p → Type 0} (k : Closed P) where
  -- The record of an application that the log shows.
  pub Keeps-record_applied :
      (c : Client) (secret : Secret) (raw : Text)
      → ((s : State p) → P s → applied raw s.log ≡ true)
      → Keeps P (record_applied c secret (p.sha256_hex raw))
  unfolding record_applied is_note
  Keeps-record_applied c secret raw took = Ensures-bind _ _ (Keeps-emit_event k _ _ _) λ _.
      Ensures-bind _ _ (Keeps-perform k _ refl) λ _.
        Ensures-bind _ _ (Keeps-export_config_hash k raw _) λ _.
          Ensures-bind _ _ (Keeps-gets k (λ s. p.unix_now s.world)) λ n.
            Ensures-bind _ _ (Keeps-perform k _ refl) λ _.
              Ensures-bind _ _ (Keeps-perform k _ refl) λ _.
                Ensures-bind _ _ (Keeps-modify k _ (λ r. refl) (λ r. refl)) λ _.
                  Ensures-bind _ _ (Keeps-get_raw_configuration k c) λ live.
                    Ensures-bind _ _ (Keeps-gets k (λ s. p.timestamp s.world)) λ now.
                      Ensures-bind _ _ (Keeps-patch_applied k secret raw (observed p live) now took)
                        λ r.
                          Ensures-on_error r.0 _ _
                            (λ u _.
                              Ensures-if (is_conflict u) _ _ (λ _. Keeps-pure k _)
                                (λ _. Keeps-pure k _))
                            (λ _. Keeps-pure k _)

module _ {p : Platform} {P : State p → Type 0} (k : Closed P) where
  pub Keeps-validate_and_apply :
      (c : Client) (secret : Secret) (raw : Text)
      → Keeps P (validate_and_apply c secret raw (p.sha256_hex raw))
  unfolding validate_and_apply is_note
  Keeps-validate_and_apply c secret raw =
      let kv = Closed-× k (Closed-any false (is_validated raw)) in
      let ka = Closed-× kv (Closed-any false (is_applied raw)) in
      Ensures-bind _ _ (Keeps-perform k _ refl) λ _.
        Ensures-bind _ _ (Ensures-validate k c raw) λ o.
          Ensures-on_error o _ _
            (λ e q.
              Ensures-weaken _ (λ s h. (h.0, h.1.spurned e q)) (λ a s h. h)
                (Keeps-refused k secret raw "" e))
            (λ q.
              Ensures-weaken _ (λ s h. (h.0, h.1.took q)) (λ a s h. h.0)
                (Ensures-bind _ _ (Keeps-emit_event kv _ _ _) λ _.
                  Ensures-bind _ _ (Keeps-perform kv _ refl) λ _.
                    Ensures-bind _ _ (Ensures-apply kv c raw (λ s h. h.1)) λ o'.
                      Ensures-on_error o' _ _
                        (λ e q'.
                          Ensures-weaken _ (λ s h. (h.0, h.1.spurned e q')) (λ a s h. h)
                            (Keeps-refused kv secret raw "Apply" e))
                        (λ q'.
                          Ensures-weaken _ (λ s h. (h.0, h.1.took q')) (λ a s h. h.0)
                            (Keeps-record_applied ka c secret raw (λ s h. h.1)))))

  pub Keeps-sync_then_apply :
      (c : Client) (secret : Secret) (raw : Text)
      → Keeps P (sync_then_apply c secret raw (p.sha256_hex raw))
  unfolding sync_then_apply is_note
  Keeps-sync_then_apply c secret raw = Ensures-bind _ _ (Keeps-gets k (λ s. s.reconciler)) λ r.
      Ensures-if (no_certs r.certs_secret_names) _ _ (λ _. Keeps-validate_and_apply c secret raw)
        (λ _. Ensures-bind _ _ (Keeps-perform k _ refl) λ _.
          Ensures-bind _ _ (Keeps-ensure_cert_secrets_synced k _ _ secret c) λ r'.
            Ensures-on_error r'.0 _ _ (λ e _. Keeps-transient_failure k _ _ _ e)
              (λ _. Keeps-validate_and_apply c r'.1 raw))

  pub Keeps-apply_desired :
      (secret : Secret) (raw : Text) → Keeps P (apply_desired secret raw (p.sha256_hex raw))
  unfolding apply_desired
  Keeps-apply_desired secret raw = Ensures-bind _ _ (Keeps-gets k (λ s. s.reconciler)) λ r.
      Ensures-bind _ _ (Keeps-when k _ _ (Keeps-modify k _ (λ r. refl) (λ r. refl))) λ _.
        Ensures-if (text_eq (p.sha256_hex raw) (annotation last_failed_hash_annotation secret)) _ _
          (λ _. Keeps-pure k _)
          (λ _. Ensures-bind _ _ (Keeps-get_or_create_client k) λ made.
            Ensures-or_error made _ _ (λ e _. Keeps-transient_failure k _ _ _ e)
              (λ c _. Keeps-sync_then_apply c secret raw))
