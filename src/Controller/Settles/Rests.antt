-- ===== src/Controller/Settles/Rests.antt =====
-- The drift check of internal/controller/secret_controller.go where nothing has drifted.
use haproxy_operator.Base.{
  String, Text, text_eq, codes, has_prefix, Bool, true, false, ◌≡◌, ◌∙◌, refl, some, List, [], ◌∷◌,
  if◌then◌else◌, arith,
}
use haproxy_operator.Haproxy.Client.{build}
use haproxy_operator.Platform.{
  Client, Method, get, post, put, HttpRequest, Secret, Effect, exchanged, patched, Platform,
}
use haproxy_operator.Act.{State, or_error, get_secret, pause, exchange}
use haproxy_operator.Act.Keeps.{
  Ensures, Ensures-bind, Ensures-pure, Ensures-weaken, Ensures-if, Ensures-or_error, Ensures-given,
}
use haproxy_operator.Controller.Annotations.{
  annotation, status_annotation, last_applied_hash_annotation, last_observed_hash_annotation,
  observed_hash_pending,
}
use haproxy_operator.Controller.Backoff.{requeue_interval}
use haproxy_operator.Controller.Reconcile.{
  Outcome, requeue, in_sync, compare_live, check_drift, reconcile_contents, reconcile,
}
use haproxy_operator.Controller.Stable.{
  is_report, Stable, Stable-×, Stable-weaken, Stable-perform, Stable-modify,
}
use haproxy_operator.Controller.Front.{Ensures-request_of}
use haproxy_operator.Controller.Converges.Way.{expected, Ensures-get_or_create_client}
use haproxy_operator.Controller.Settles.Storage.{Stores, no_application, IsLive, Stable-IsLive}
use haproxy_operator.Controller.Settles.Deliver.{Known, Stable-Known, IsFound-Known, Ensures-read}

abbrev pub is_get : Method → Bool
is_get get = true
is_get _ = false

abbrev pub is_read : HttpRequest → Bool
is_read r = is_get r.method

-- The effects that change the gateway or the cluster, or may do so.
unfoldable pub changes : List Effect → List Effect
changes [] = []
changes (exchanged r a ∷ log) =
    let rest = changes log in if is_read r then rest else exchanged r a ∷ rest
changes (patched before after f ∷ log) = patched before after f ∷ changes log
changes (_ ∷ log) = changes log

changes-report :
    (e : Effect) (log : List Effect) → is_report e ≡ true → changes (e ∷ log) ≡ changes log
unfolding changes is_report
changes-report e log h = ground arith

Stable-changes : {p : Platform} (l : List Effect) → Stable {p = p} is_read (λ s. changes s.log ≡ l)
unfolding get_secret pause exchange
Stable-changes l = record {
  reported = λ e s n h. changes-report e s.log n ∙ h;
  counted = λ r s same h. h;
  fetched = λ namespace name s h. h;
  waited = λ ms s h. h;
  asked = λ c r s may h. unfold changes in rw may h;
}

pub read_applies_nothing : (r : HttpRequest) → is_read r ≡ true → no_application r ≡ true
read_applies_nothing r h = by_method r.method h
  where
    by_method : (m : Method) → is_get m ≡ true → no_application (record r { method = m }) ≡ true
    by_method get h' = refl
    by_method post h' = cc
    by_method put h' = refl

-- The Secret records that the bytes are applied, and that the gateway was seen to run that text.
pub record IsRecorded (p : Platform) (raw t : Text) (secret : Secret) : Type 0 where
  pub applied : text_eq (p.sha256_hex raw) (annotation last_applied_hash_annotation secret) ≡ true
  pub verified :
      text_eq (annotation last_observed_hash_annotation secret) observed_hash_pending ≡ false
  pub baseline : text_eq (p.sha256_hex t) (expected secret) ≡ true
  pub healthy : has_prefix (annotation status_annotation secret) (codes "DriftCheck") ≡ false

module _ {p : Platform} (stores : Stores p) (c : Client) (secret : Secret) (raw t : Text)
    (l : List Effect) where
  -- The gateway runs that text, and nothing has changed since.
  abbrev pub Calm : State p → Type 0
  Calm s = (Known stores c raw secret s × IsLive stores t s) × (changes s.log ≡ l)

  Stable-Calm : Stable is_read Calm
  Stable-Calm =
      Stable-×
        (Stable-× (Stable-Known stores c raw is_read secret)
          (Stable-weaken read_applies_nothing (Stable-IsLive stores t)))
        (Stable-changes l)

  abbrev pub Rests : Outcome → State p → Type 0
  Rests o s = (o ≡ requeue requeue_interval) × Calm s

  module _ (recorded : IsRecorded p raw t secret) where
    Rests-in_sync : Ensures Calm (in_sync secret) Rests
    unfolding in_sync is_report
    Rests-in_sync = Ensures-bind _ _ (Stable-perform Stable-Calm _ refl) λ _.
        Ensures-if (has_prefix (annotation status_annotation secret) (codes "DriftCheck")) _ _
          (λ e. record { at = λ s h. cc }) (λ _. Ensures-pure _ (λ s h. (refl, h)))

    Rests-compare_live :
        Ensures Calm (compare_live secret raw (p.sha256_hex raw) (p.sha256_hex t)) Rests
    unfolding compare_live
    Rests-compare_live =
        Ensures-bind _ _
          (Stable-modify Stable-Calm _
            λ r. record { name = refl; key = refl; certs = refl; client = refl; remediate = refl })
          λ _.
            Ensures-if
              (text_eq (annotation last_observed_hash_annotation secret) observed_hash_pending) _ _
              (λ e. record { at = λ s h. cc })
              (λ _.
                Ensures-if (text_eq (p.sha256_hex t) (expected secret)) _ _ (λ _. Rests-in_sync)
                  (λ e. record { at = λ s h. cc }))

    Rests-check_drift : Ensures Calm (check_drift secret raw (p.sha256_hex raw)) Rests
    unfolding check_drift or_error
    Rests-check_drift =
        Ensures-weaken _ (λ s h. (h.0.0.1.0, h)) (λ o s h. h)
          (Ensures-bind _ _ (Ensures-get_or_create_client c) λ made.
            Ensures-or_error made _ _ (λ e q. record { at = λ s h. cc })
              (λ c' q.
                Ensures-weaken _ (λ s h. h.1.1) (λ o s h. h)
                  (Ensures-bind _ _
                    (Ensures-read stores t Stable-Calm (λ c e u. unfold build in refl)
                      (λ s h. h.0.1) c')
                    λ live. Ensures-given _ λ same. rw same Rests-compare_live)))

    Rests-reconcile_contents :
        (key : String) → Ensures Calm (reconcile_contents secret key (some raw)) Rests
    unfolding reconcile_contents
    Rests-reconcile_contents key =
        Ensures-if (text_eq (p.sha256_hex raw) (annotation last_applied_hash_annotation secret)) _ _
          (λ _. Rests-check_drift) (λ e. record { at = λ s h. cc })

    -- From the request on.
    pub Rests-reconcile : Ensures Calm (reconcile secret.namespace secret.name) Rests
    Rests-reconcile =
        Ensures-weaken _ (λ s h. (IsFound-Known stores c secret raw s h.0.0, h)) (λ o s h. h)
          (Ensures-request_of secret raw Stable-Calm.fetched Rests-reconcile_contents
            secret.namespace)
