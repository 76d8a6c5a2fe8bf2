-- ===== src/Controller/Settles/Restores.antt =====
-- The drift check of internal/controller/secret_controller.go where the gateway runs something else.
use haproxy_operator.Base.{ℕ, Text, text_eq, true, false, ◌≡◌, ◌≢◌, refl, some, [], ◌∷◌, String}
use haproxy_operator.Haproxy.Client.{build}
use haproxy_operator.Platform.{Client, Secret, Platform}
use haproxy_operator.Act.{State, or_error}
use haproxy_operator.Act.Keeps.{
  Ensures, Ensures-bind, Ensures-weaken, Ensures-if, Ensures-or_error, Ensures-given,
}
use haproxy_operator.Controller.Annotations.{
  annotation, last_applied_hash_annotation, last_failed_hash_annotation,
}
use haproxy_operator.Controller.Reconcile.{check_drift, reconcile_contents, reconcile}
use haproxy_operator.Controller.Stable.{no_request, Stable, Stable-×}
use haproxy_operator.Controller.Front.{Ensures-request_of}
use haproxy_operator.Controller.Converges.Way.{
  IsDrift, Ensures-get_or_create_client, Ensures-compare_live, Stable-remediate,
}
use haproxy_operator.Controller.Settles.Storage.{
  Stores, no_application, IsReady, IsLive, Stable-IsLive,
}
use haproxy_operator.Controller.Settles.Deliver.{Known, Stable-Known, IsFound-Known, Ensures-read}
use haproxy_operator.Controller.Settles.Delivered.{Delivered, Delivered-sync_then_apply}

module _ {p : Platform} (stores : Stores p) (c : Client) (secret : Secret) (b : ℕ)
    (rest t : Text) where
  -- The gateway runs that text, and drift is to be remedied.
  abbrev pub Drifted : State p → Type 0
  Drifted s =
      (Known stores c (b ∷ rest) secret s × IsLive stores t s)
      × (s.reconciler.drift_remediate ≡ true)

  Stable-Drifted : Stable no_application Drifted
  Stable-Drifted =
      Stable-×
        (Stable-× (Stable-Known stores c (b ∷ rest) no_application secret) (Stable-IsLive stores t))
        (Stable-remediate no_application)

  module _
      (done : text_eq (p.sha256_hex (b ∷ rest)) (annotation last_applied_hash_annotation secret)
        ≡ true)
      (allowed : text_eq (p.sha256_hex (b ∷ rest)) (annotation last_failed_hash_annotation secret)
        ≡ false)
      (drift : IsDrift secret (p.sha256_hex t)) where
    Restores-check_drift :
        Ensures Drifted
          (check_drift secret (b ∷ rest) (p.sha256_hex (b ∷ rest)))
          (Delivered stores c (b ∷ rest) secret)
    unfolding check_drift or_error
    Restores-check_drift =
        Ensures-weaken _ (λ s h. (h.0.0.1.0, h)) (λ o s h. h)
          (Ensures-bind _ _ (Ensures-get_or_create_client c) λ made.
            Ensures-or_error made _ _ (λ e q. record { at = λ s h. cc })
              (λ c' q.
                Ensures-weaken _ (λ s h. h.1.1) (λ o s h. h)
                  (Ensures-bind _ _
                    (Ensures-read stores t Stable-Drifted (λ c e u. unfold build in refl)
                      (λ s h. h.0.1) c')
                    λ live. Ensures-given _ λ same. rw same (
                      Ensures-weaken _ (λ s h. ((h.0.0.1.0, h.0.0), h.1)) (λ o s h. h)
                        (Ensures-compare_live secret (b ∷ rest)
                          (Stable-Known stores c (b ∷ rest) no_request secret)
                          (Delivered-sync_then_apply stores c secret b rest) allowed c
                          (p.sha256_hex t) drift)))))

    Restores-reconcile_contents :
        (key : String)
        → Ensures Drifted
            (reconcile_contents secret key (some (b ∷ rest)))
            (Delivered stores c (b ∷ rest) secret)
    unfolding reconcile_contents
    Restores-reconcile_contents key =
        Ensures-if
          (text_eq (p.sha256_hex (b ∷ rest)) (annotation last_applied_hash_annotation secret)) _ _
          (λ _. Restores-check_drift) (λ e. record { at = λ s h. cc })

    Restores-reconcile :
        Ensures Drifted
          (reconcile secret.namespace secret.name)
          (Delivered stores c (b ∷ rest) secret)
    Restores-reconcile =
        Ensures-weaken _ (λ s h. (IsFound-Known stores c secret (b ∷ rest) s h.0.0, h)) (λ o s h. h)
          (Ensures-request_of secret (b ∷ rest) Stable-Drifted.fetched Restores-reconcile_contents
            secret.namespace)

-- On a gateway and a cluster that keep what they are given and answer everything, from every state
-- with a client and drift remediation on, where the Secrets of the managed certificates make bundles
-- with a leaf, for a Secret that the cluster holds under the configured name, that is no managed
-- certificate, and whose bytes are not empty and are recorded as applied and not as rejected, where
-- the digest of what the gateway runs is not the recorded baseline: after one reconciliation the
-- gateway runs the bytes in their written form, the cluster holds a Secret of the same namespace and
-- name that records them, and the reconciliation asks to be repeated after the regular interval.
pub reconcile-Restores :
    {p : Platform} (stores : Stores p) (c : Client) (secret : Secret) (raw : Text) (s : State p)
    → raw ≢ []
    → text_eq (p.sha256_hex raw) (annotation last_applied_hash_annotation secret) ≡ true
    → text_eq (p.sha256_hex raw) (annotation last_failed_hash_annotation secret) ≡ false
    → IsDrift secret (p.sha256_hex (stores.live s.world))
    → IsReady p c secret raw s.reconciler
    → s.reconciler.drift_remediate ≡ true
    → stores.held s.world secret.namespace secret.name ≡ secret
    → Delivered stores c raw secret
        (reconcile secret.namespace secret.name s).0
        (reconcile secret.namespace secret.name s).1
reconcile-Restores stores c secret [] s filled done allowed drift ready on held =
    absurd (filled refl)
reconcile-Restores stores c secret (b ∷ rest) s filled done allowed drift ready on held =
    (Restores-reconcile stores c secret b rest (stores.live s.world) done allowed drift).at s
      (((held, ready), refl), on)
