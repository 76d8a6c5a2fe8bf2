-- ===== src/Controller/Front.antt =====
-- From a request to the contents of the configuration Secret, in
-- internal/controller/secret_controller.go.
use haproxy_operator.Base.{
  String, Text, Bool, true, false, ◌≡◌, refl, ap, some, inr, ◌===◌, if◌then◌else◌, not, ◌&&◌, arith,
}
use haproxy_operator.Haproxy.Errors.{ok}
use haproxy_operator.Base.Map
use haproxy_operator.Base.Map.{writes}
use haproxy_operator.Platform.{Secret, Platform}
use haproxy_operator.Act.{Reconciler, lifted, State, get_secret, or_error, gets}
use haproxy_operator.Act.Keeps.{Ensures, Ensures-bind, Ensures-if, Ensures-given}
use haproxy_operator.Controller.Reconcile.{
  Outcome, reconcile_contents, should_reconcile, is_managed_cert, reconcile_config, reconcile,
}

-- The Secret is the configured one, and holds the bytes.
abbrev pub IsOurs : Secret → Text → Reconciler → Type 0
IsOurs secret raw r =
    ((secret.name === r.secret_name) ≡ true)
    × (Map.lookup r.secret_key (writes secret.contents) ≡ some raw)

-- The cluster has the Secret, the configured one, which is no managed certificate.
abbrev pub IsFound : {p : Platform} → String → Secret → Text → State p → Type 0
IsFound {p} namespace secret raw s =
    (IsOurs secret raw s.reconciler × (is_managed_cert s.reconciler secret.name ≡ false))
    × ((p.get_secret namespace secret.name s.world).0 ≡ inr secret)

should_reconcile-true :
    (secret : Secret) (raw : Text) (r : Reconciler)
    → IsOurs secret raw r
    → not (should_reconcile r secret) ≡ false
should_reconcile-true secret raw r h = by_name (r.secret_name === "")
  where
    by_name : (b : Bool) → not (if not b then secret.name === r.secret_name else true) ≡ false
    by_name true = refl
    by_name false = rw h.0

-- From the request to the contents of the Secret, whatever is done about these.
module _ {p : Platform} (secret : Secret) (raw : Text) {E : State p → Type 0}
    (fetched : (namespace name : String) (s : State p) → E s → E (get_secret namespace name s).1)
    {Q : Outcome → State p → Type 0}
    (decided : (key : String) → Ensures E (reconcile_contents secret key (some raw)) Q) where
  Ensures-reconcile_config :
      Ensures {p = p} (λ s. E s × IsOurs secret raw s.reconciler) (reconcile_config secret) Q
  unfolding reconcile_config gets
  Ensures-reconcile_config =
      Ensures-bind {R = λ r s. E s × IsOurs secret raw r} _ _ (record { at = λ s h. h })
        λ r. Ensures-given _ λ ours.
          Ensures-if (not (should_reconcile r secret)) _ _
            (λ e. record { at = λ s h. ground (arith, should_reconcile-true secret raw r ours, e) })
            (λ _. rw ours.1 (decided r.secret_key))

  Ensures-get_secret :
      (namespace : String)
      → Ensures {p = p}
          (λ s. IsFound namespace secret raw s × E s)
          (get_secret namespace secret.name)
          (λ got s. (E s × IsOurs secret raw s.reconciler) × (got ≡ ok secret))
  unfolding get_secret
  Ensures-get_secret namespace = record {
    at = λ s h. ((fetched namespace secret.name s h.1, h.0.0.0), ap lifted h.0.1);
  }

  pub Ensures-request_of :
      (namespace : String)
      → Ensures {p = p}
          (λ s. IsFound namespace secret raw s × E s)
          (reconcile namespace secret.name)
          Q
  unfolding reconcile gets or_error
  Ensures-request_of namespace =
      Ensures-bind
        {R = λ r s.
          (IsFound namespace secret raw s × E s)
          × (((secret.name === r.secret_name) ≡ true) × (is_managed_cert r secret.name ≡ false))}
        _ _ (record { at = λ s h. (h, (h.0.0.0.0, h.0.0.1)) })
        λ r. Ensures-given _ λ known.
          Ensures-if
            (not (r.secret_name === "")
              && (not (secret.name === r.secret_name) && not (is_managed_cert r secret.name)))
            _ _ (λ e. record { at = λ s h. ground (arith, known.0, e) })
            (λ _.
              Ensures-bind _ _ (Ensures-get_secret namespace)
                λ got. Ensures-given _ λ e. rw (e, known.1) Ensures-reconcile_config)
