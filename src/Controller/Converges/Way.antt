-- ===== src/Controller/Converges/Way.antt =====
-- The way of a reconciliation of internal/controller/secret_controller.go to its validation and
-- application, whatever these end in.
use haproxy_operator.Base.{
  String, Text, text_eq, Bool, true, false, ◌≡◌, refl, ◌∙◌, some, [], if◌then◌else◌, not, arith,
}
use haproxy_operator.Haproxy.Errors.{ok}
use haproxy_operator.Controller.Connect.{get_or_create_client, connect}
use haproxy_operator.Platform.{HttpRequest, Client, Secret, Platform}
use haproxy_operator.Act.{State, gets}
use haproxy_operator.Act.Keeps.{
  Ensures, Ensures-pure, Ensures-bind, Ensures-weaken, Ensures-if, Ensures-or_error, Ensures-given,
}
use haproxy_operator.Controller.Annotations.{
  annotation, last_applied_hash_annotation, last_failed_hash_annotation,
  last_observed_hash_annotation, observed_hash_pending,
}
use haproxy_operator.Controller.Reconcile.{
  sync_then_apply, apply_desired, reconcile_contents, reconcile, handle_drift, compare_live,
}
use haproxy_operator.Controller.Front.{IsFound, Ensures-request_of}
use haproxy_operator.Controller.Stable.{
  no_request, is_report, Stable, Stable-×, Stable-settings, Stable-perform, Stable-modify,
  Stable-gets, Stable-when, Stable-emit_event,
}
use haproxy_operator.Controller.Reconcile.{Outcome}

-- The Secret records neither the application of the bytes nor their rejection.
abbrev pub IsNews : Platform → Secret → Text → Type 0
IsNews p secret raw =
    (text_eq (p.sha256_hex raw) (annotation last_applied_hash_annotation secret) ≡ false)
    × (text_eq (p.sha256_hex raw) (annotation last_failed_hash_annotation secret) ≡ false)

-- The digest that the live configuration should have: the baseline, or the applied one.
abbrev pub expected : Secret → Text
expected secret =
    if text_eq (annotation last_observed_hash_annotation secret) []
    then annotation last_applied_hash_annotation secret
    else annotation last_observed_hash_annotation secret

-- There is a baseline, and the live configuration is another one.
abbrev pub IsDrift : Secret → Text → Type 0
IsDrift secret live =
    (text_eq (annotation last_observed_hash_annotation secret) observed_hash_pending ≡ false)
    × (text_eq live (expected secret) ≡ false)

-- The operator has its client.
abbrev pub HasClient : {p : Platform} → Client → State p → Type 0
HasClient c s = s.reconciler.haproxy_client ≡ some c

Stable-HasClient :
    {p : Platform} (allowed : HttpRequest → Bool) (c : Client)
    → Stable {p = p} allowed (HasClient c)
Stable-HasClient allowed c =
    Stable-settings allowed (λ r. r.haproxy_client ≡ some c) (λ r r' same h. same.client ∙ h)

pub Stable-remediate :
    {p : Platform} (allowed : HttpRequest → Bool)
    → Stable {p = p} allowed (λ s. s.reconciler.drift_remediate ≡ true)
Stable-remediate allowed =
    Stable-settings allowed (λ r. r.drift_remediate ≡ true) (λ r r' same h. same.remediate ∙ h)

module _ {p : Platform} (c : Client) {E : State p → Type 0} where
  pub Ensures-get_or_create_client :
      Ensures {p = p}
        (λ s. HasClient c s × E s)
        get_or_create_client
        (λ made s. (made ≡ ok c) × (HasClient c s × E s))
  unfolding get_or_create_client connect gets
  Ensures-get_or_create_client =
      Ensures-bind {R = λ r s. (HasClient c s × E s) × (r.haproxy_client ≡ some c)} _ _
        (record { at = λ s h. (h, h.0) })
        λ r. Ensures-given _ λ there. rw there (Ensures-pure _ (λ s h. (refl, h)))

module _ {p : Platform} (secret : Secret) (raw : Text) {E : State p → Type 0}
    (st : Stable no_request E) {Q : Outcome → State p → Type 0}
    (ends : (c : Client) → Ensures E (sync_then_apply c secret raw (p.sha256_hex raw)) Q)
    (allowed : text_eq (p.sha256_hex raw) (annotation last_failed_hash_annotation secret)
      ≡ false) where
  Ensures-apply_desired :
      (c : Client)
      → Ensures {p = p} (λ s. HasClient c s × E s) (apply_desired secret raw (p.sha256_hex raw)) Q
  unfolding apply_desired gets
  Ensures-apply_desired c =
      let known = Stable-× (Stable-HasClient no_request c) st in
      Ensures-bind _ _ (Stable-gets known _) λ r.
        Ensures-bind _ _
          (Stable-when known _ _ (
            Stable-modify known _ λ r'. record {
              name = refl;
              key = refl;
              certs = refl;
              client = refl;
              remediate = refl;
            }))
          λ _.
            Ensures-if (text_eq (p.sha256_hex raw) (annotation last_failed_hash_annotation secret))
              _ _ (λ e. record { at = λ s h. cc })
              (λ _. Ensures-bind _ _ (Ensures-get_or_create_client c) λ made.
                Ensures-or_error made _ _ (λ e q. record { at = λ s h. cc })
                  (λ c' q. Ensures-weaken _ (λ s h. h.1.1) (λ o s h. h) (ends c')))

  -- A drift that was found is remedied, where that is asked for.
  Ensures-handle_drift :
      (c : Client)
      → Ensures {p = p}
          (λ s. (HasClient c s × E s) × (s.reconciler.drift_remediate ≡ true))
          (handle_drift secret raw (p.sha256_hex raw))
          Q
  unfolding handle_drift gets is_report
  Ensures-handle_drift c =
      let known =
        Stable-× (Stable-× (Stable-HasClient no_request c) st) (Stable-remediate no_request) in
      Ensures-bind _ _ (Stable-perform known _ refl) λ _.
        Ensures-bind _ _ (Stable-perform known _ refl) λ _.
          Ensures-bind {R = λ r s. (HasClient c s × E s) × (r.drift_remediate ≡ true)} _ _
            (record { at = λ s h. h })
            λ r. Ensures-given _ λ on.
              Ensures-if
                (text_eq (p.sha256_hex raw) (annotation last_failed_hash_annotation secret)) _ _
                (λ e. record { at = λ s h. cc })
                (λ _.
                  Ensures-if (not r.drift_remediate) _ _
                    (λ e. record { at = λ s h. ground (arith, on, e) })
                    (λ _.
                      Ensures-bind _ _
                        (Stable-emit_event (Stable-× (Stable-HasClient no_request c) st) _ _ _)
                        λ _. Ensures-apply_desired c))

  pub Ensures-compare_live :
      (c : Client) (live : Text)
      → IsDrift secret live
      → Ensures {p = p}
          (λ s. (HasClient c s × E s) × (s.reconciler.drift_remediate ≡ true))
          (compare_live secret raw (p.sha256_hex raw) live)
          Q
  unfolding compare_live
  Ensures-compare_live c live drift =
      let known =
        Stable-× (Stable-× (Stable-HasClient no_request c) st) (Stable-remediate no_request) in
      Ensures-bind _ _
        (Stable-modify known _
          λ r'. record { name = refl; key = refl; certs = refl; client = refl; remediate = refl })
        λ _.
          Ensures-if
            (text_eq (annotation last_observed_hash_annotation secret) observed_hash_pending) _ _
            (λ e. record { at = λ s h. cc })
            (λ _.
              Ensures-if (text_eq live (expected secret)) _ _ (λ e. record { at = λ s h. cc })
                (λ _. Ensures-handle_drift c))

-- From the request to the validation, for bytes that are news.
module _ {p : Platform} (secret : Secret) (raw : Text) {E : State p → Type 0}
    (st : Stable no_request E) {Q : Outcome → State p → Type 0}
    (ends : (c : Client) → Ensures E (sync_then_apply c secret raw (p.sha256_hex raw)) Q)
    (news : IsNews p secret raw) where
  Ensures-reconcile_contents :
      (c : Client) (key : String)
      → Ensures (λ s. HasClient c s × E s) (reconcile_contents secret key (some raw)) Q
  unfolding reconcile_contents
  Ensures-reconcile_contents c key =
      Ensures-if (text_eq (p.sha256_hex raw) (annotation last_applied_hash_annotation secret)) _ _
        (λ e. record { at = λ s h. cc }) (λ _. Ensures-apply_desired secret raw st ends news.1 c)

  pub Ensures-reconcile :
      (c : Client) (namespace : String)
      → Ensures {p = p}
          (λ s. IsFound namespace secret raw s × (HasClient c s × E s))
          (reconcile namespace secret.name)
          Q
  Ensures-reconcile c namespace =
      Ensures-request_of secret raw (Stable-× (Stable-HasClient no_request c) st).fetched
        (Ensures-reconcile_contents c) namespace
