-- ===== src/Controller/Settles/Delivered.antt =====
-- A reconciliation of internal/controller/secret_controller.go delivers the bytes and records them.
use haproxy_operator.Base.{Text, ◌≡◌, ◌≢◌, ◌∙◌, refl, ap, [], ◌∷◌, none, ℕ}
use haproxy_operator.Haproxy.Healthy.{IsHealthy-IsOpen, Yields-apply}
use haproxy_operator.Platform.{Client, Secret, Platform}
use haproxy_operator.Act.{State, gets, caused, patch_secret}
use haproxy_operator.Act.Keeps.{
  Ensures-if, Ensures, Ensures-bind, Ensures-pure, Ensures-weaken, Ensures-both, Ensures-on_error,
  Ensures-given,
}
use haproxy_operator.Controller.Annotations.{applied_record, patch_annotations, mutated}
use haproxy_operator.Controller.Backoff.{requeue_interval}
use haproxy_operator.Controller.Reconcile.{
  no_certs, Outcome, requeue, record_applied, validate_and_apply, sync_then_apply, reconcile,
}
use haproxy_operator.Controller.Stable.{
  no_request, is_report, Stable-perform, Stable-modify, Stable-gets, Stable-emit_event,
  Stable-export_config_hash,
}
use haproxy_operator.Controller.Converges.Apply.{Yields-validate}
use haproxy_operator.Controller.Converges.Way.{IsNews, Ensures-reconcile}
use haproxy_operator.Controller.Settles.Storage.{Stores, no_application}
use haproxy_operator.Controller.Settles.Pushed.{SameObject, Follows-ensure_cert_secrets_synced}
use haproxy_operator.Controller.Converges.Pushes.{AllPushable, Yields-ensure_cert_secrets_synced}
use haproxy_operator.Controller.Settles.Deliver.{
  IsFound-Known, Known, Deployed, Stable-Known, Stable-Deployed, Keeps-validate, Deployed-apply,
  Ensures-read, reads_only,
}

-- The Secret with the record of an application.
abbrev pub recorded : (p : Platform) → Stores p → Text → Text → Secret → Secret
recorded p stores raw now secret =
    mutated (applied_record (p.sha256_hex raw) (p.sha256_hex (stores.written raw)) now) secret

-- The gateway runs the bytes, and the Secret says so, besides what the pushes of certificates have
-- put there.
abbrev pub Delivered :
    {p : Platform} → Stores p → Client → Text → Secret → Outcome → State p → Type 0
Delivered {p} stores c raw secret o s =
    (o ≡ requeue requeue_interval)
    × ((secret' : Secret) × SameObject secret secret'
        × (now : Text) × Deployed stores c raw (recorded p stores raw now secret') s)

module _ {p : Platform} (stores : Stores p) (c : Client) (secret : Secret) (raw : Text) where
  Delivered-patch :
      (now : Text)
      → Ensures {p = p}
          (Deployed stores c raw secret)
          (patch_annotations secret
            (applied_record (p.sha256_hex raw) (p.sha256_hex (stores.written raw)) now))
          (λ r s. (r.0 ≡ none) × Deployed stores c raw (recorded p stores raw now secret) s)
  unfolding patch_annotations patch_secret mutated
  Delivered-patch now = record {
    at = λ s h.
        let after = recorded p stores raw now secret in
        (
          ap caused (stores.answers.patches secret after s.world),
          (
            (stores.patched_held secret after.annotations s.world h.0.0, h.0.1),
            stores.patched_live secret after s.world ∙ h.1,
          ),
        );
  }

  Delivered-record_applied :
      (c' : Client)
      → Ensures {p = p}
          (Deployed stores c raw secret)
          (record_applied c' secret (p.sha256_hex raw))
          (Delivered stores c raw secret)
  unfolding record_applied is_report
  Delivered-record_applied c' =
      let st = Stable-Deployed stores c raw secret in
      Ensures-bind _ _ (Stable-emit_event st _ _ _) λ _.
        Ensures-bind _ _ (Stable-perform st _ refl) λ _.
          Ensures-bind _ _ (Stable-export_config_hash st _ _) λ _.
            Ensures-bind _ _ (Stable-gets st _) λ n.
              Ensures-bind _ _ (Stable-perform st _ refl) λ _.
                Ensures-bind _ _ (Stable-perform st _ refl) λ _.
                  Ensures-bind _ _
                    (Stable-modify st _ λ r. record {
                      name = refl;
                      key = refl;
                      certs = refl;
                      client = refl;
                      remediate = refl;
                    })
                    λ _.
                      Ensures-bind _ _
                        (Ensures-read stores (stores.written raw) st (reads_only stores c secret)
                          (λ s h. h.1) c')
                        λ live. Ensures-given _ λ same. rw same (
                          Ensures-bind _ _ (Stable-gets st _) λ now.
                            Ensures-bind _ _ (Delivered-patch now) λ r.
                              Ensures-on_error r.0 _ _ (λ e q. record { at = λ s h. cc })
                                (λ q.
                                  Ensures-pure _ (λ s h. (refl, (secret, (refl, refl), now, h.1)))))

module _ {p : Platform} (stores : Stores p) (c : Client) (secret : Secret) (b : ℕ)
    (rest : Text) where
  Delivered-validate_and_apply :
      (c' : Client)
      → Ensures {p = p}
          (Known stores c (b ∷ rest) secret)
          (validate_and_apply c' secret (b ∷ rest) (p.sha256_hex (b ∷ rest)))
          (Delivered stores c (b ∷ rest) secret)
  unfolding validate_and_apply is_report
  Delivered-validate_and_apply c' =
      let st = Stable-Known stores c (b ∷ rest) no_application secret in
      Ensures-bind _ _ (Stable-perform st _ refl) λ _.
        Ensures-bind _ _
          (Ensures-both _ (Keeps-validate stores c secret b rest (b ∷ rest) c') (
            Ensures-weaken _ (λ s h. tt) (λ o s h. h)
              (Yields-validate stores.answers c' (b ∷ rest) (λ e. cc))))
          λ o. Ensures-given _ λ fine.
            Ensures-on_error o _ _ (λ e q. record { at = λ s h. cc })
              (λ q. Ensures-bind _ _ (Stable-emit_event st _ _ _) λ _.
                Ensures-bind _ _ (Stable-perform st _ refl) λ _.
                  Ensures-bind _ _
                    (Ensures-both _ (Deployed-apply stores c secret (b ∷ rest) c') (
                      Ensures-weaken _ (λ s h. tt) (λ o s h. h)
                        (Yields-apply stores.answers c' (b ∷ rest))))
                    λ o'. Ensures-given _ λ fine'.
                      Ensures-on_error o' _ _ (λ e q'. record { at = λ s h. cc })
                        (λ q'.
                          Ensures-weaken _ (λ s h. h fine') (λ o s h. h)
                            (Delivered-record_applied stores c secret (b ∷ rest) c')))

module _ {p : Platform} (stores : Stores p) (c : Client) (secret : Secret) (b : ℕ)
    (rest : Text) where
  pub Delivered-sync_then_apply :
      (c' : Client)
      → Ensures {p = p}
          (Known stores c (b ∷ rest) secret)
          (sync_then_apply c' secret (b ∷ rest) (p.sha256_hex (b ∷ rest)))
          (Delivered stores c (b ∷ rest) secret)
  unfolding sync_then_apply gets is_report
  Delivered-sync_then_apply c' =
      let known = Stable-Known stores c (b ∷ rest) no_application secret in
      Ensures-bind
        {R = λ r s.
          Known stores c (b ∷ rest) secret s × AllPushable p secret.namespace r.certs_secret_names}
        _ _ (record { at = λ s h. (h, h.1.3) })
        λ r. Ensures-given _ λ all.
          Ensures-if (no_certs r.certs_secret_names) _ _
            (λ _. Delivered-validate_and_apply stores c secret b rest c')
            (λ _. Ensures-bind _ _ (Stable-perform known _ refl) λ _.
              Ensures-bind _ _
                (Ensures-both _
                  (Follows-ensure_cert_secrets_synced stores c (b ∷ rest) r.certs_secret_names
                    secret.namespace secret c')
                  (Ensures-weaken _ (λ s h. tt) (λ o s h. h)
                    (Yields-ensure_cert_secrets_synced (IsHealthy-IsOpen stores.answers)
                      stores.reads_certificates r.certs_secret_names secret.namespace secret c'
                      all)))
                λ r'. Ensures-given _ λ fine. Ensures-given _ λ same.
                  Ensures-on_error r'.0 _ _ (λ e q. record { at = λ s h. cc })
                    (λ _.
                      Ensures-weaken _ (λ s h. h)
                        (λ o s h.
                          (h.0, (h.1.0, (h.1.1.0 ∙ same.0, h.1.1.1 ∙ same.1), h.1.2, h.1.3)))
                        (Delivered-validate_and_apply stores c r'.1 b rest c')))

-- From the request on.
pub Ensures-delivery :
    {p : Platform} (stores : Stores p) (c : Client) (secret : Secret) (raw : Text)
    → raw ≢ []
    → IsNews p secret raw
    → Ensures {p = p}
        (Known stores c raw secret)
        (reconcile secret.namespace secret.name)
        (Delivered stores c raw secret)
Ensures-delivery stores c secret [] filled news = absurd (filled refl)
Ensures-delivery stores c secret (b ∷ rest) filled news =
    Ensures-weaken _ (λ s h. (IsFound-Known stores c secret (b ∷ rest) s h, (h.1.0, h)))
      (λ o s h. h)
      (Ensures-reconcile secret (b ∷ rest) (Stable-Known stores c (b ∷ rest) no_request secret)
        (Delivered-sync_then_apply stores c secret b rest) news c secret.namespace)
