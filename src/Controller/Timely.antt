-- ===== src/Controller/Timely.antt =====
-- How soon a reconciliation is repeated.
pub mod Repeats
use haproxy_operator.Base.{String, true, not, ◌&&◌, ◌≡◌, Option, none, some, ◌===◌}
use haproxy_operator.Haproxy.Errors.{Error, is_missing}
use haproxy_operator.Platform.{Secret, Platform}
use haproxy_operator.Act.{State, Act, pure, gets, ◌>>=◌}
use haproxy_operator.Act.Keeps.{Ensures-on_error, Ensures-or_error, Ensures-if, Ensures-weaken}
use haproxy_operator.Controller.Reconcile.{
  Outcome, finished, requeue, failed, should_reconcile, is_managed_cert, back_off, with_status,
  reconcile_contents, reconcile_config, report_failure, cert_sync_failed, reconcile_after,
  after_cert_sync, sync_event, reconcile_cert, reconcile,
}
use haproxy_operator.Controller.Timely.Repeats.{
  Bounded, Repeated, Returns, Returns-then, Returns-pure, Returns-with_status, waits,
  Repeated-back_off, Repeated-reconcile_contents,
}

-- The rest may end without a requeue.
Bounded-of : {p : Platform} (m : Act p Outcome) → Returns Repeated m → Returns Bounded m
Bounded-of m h = Ensures-weaken m (λ s i. i) weaker h
  where
    weaker : {p : Platform} (o : Outcome) (s : State p) → Repeated o → Bounded o
    weaker finished s h = tt
    weaker (requeue d) s h = h
    weaker (failed e) s h = tt

module _ {p : Platform} where
  Bounded-reconcile_config : (secret : Secret) → Returns {p = p} Bounded (reconcile_config secret)
  unfolding reconcile_config
  Bounded-reconcile_config secret = Returns-then _ _ λ r.
      Ensures-if (not (should_reconcile r secret)) _ _ (λ _. Returns-pure _ tt)
        (λ _. Bounded-of _ (Repeated-reconcile_contents secret _ _))

  Bounded-cert_sync_failed :
      (secret : Secret) (config : Option Secret) (e : Error)
      → Returns {p = p} Bounded (cert_sync_failed secret config e)
  unfolding cert_sync_failed report_failure
  Bounded-cert_sync_failed secret none e =
      Returns-then _ _ λ _. Returns-then _ _ λ _. Bounded-of _ Repeated-back_off
  Bounded-cert_sync_failed secret (some cfg) e = Returns-then _ _ λ _.
      Returns-then _ _
        λ _. Returns-with_status cfg _ e _ back_off (λ u. tt) (Bounded-of _ Repeated-back_off)

  Bounded-reconcile_after :
      (config : Option Secret) → Returns {p = p} Bounded (reconcile_after config)
  unfolding reconcile_after
  Bounded-reconcile_after none = Returns-pure _ waits
  Bounded-reconcile_after (some cfg) = Returns-then _ _ λ cfg'. Bounded-reconcile_config _

  Bounded-sync_event :
      (secret : Secret) (config : Option Secret)
      → Returns {p = p} Bounded (sync_event secret config)
  unfolding sync_event after_cert_sync
  Bounded-sync_event secret config = Returns-then _ _ λ r.
      Ensures-on_error r.0 _ _ (λ e _. Bounded-cert_sync_failed secret r.1 e)
        (λ _. Returns-then _ _ λ r'.
          Ensures-if (r'.secret_name === "") _ _ (λ _. Returns-pure _ waits)
            (λ _. Bounded-reconcile_after r.1))

  Bounded-reconcile_cert :
      (namespace : String) (secret : Secret)
      → Returns {p = p} Bounded (reconcile_cert namespace secret)
  unfolding reconcile_cert
  Bounded-reconcile_cert namespace secret = Returns-then _ _ λ r.
      Ensures-if (not (r.secret_name === "") && not (secret.name === r.secret_name)) _ _
        (λ _. Returns-then _ _ λ got.
          Ensures-or_error got _ _
            (λ e _.
              Ensures-if (not (is_missing e)) _ _ (λ _. Returns-pure _ tt)
                (λ _. Bounded-sync_event secret none))
            (λ cfg _. Bounded-sync_event secret (some cfg)))
        (λ _. Bounded-sync_event secret (some secret))

  Bounded-reconcile : (namespace name : String) → Returns {p = p} Bounded (reconcile namespace name)
  unfolding reconcile
  Bounded-reconcile namespace name = Returns-then _ _ λ r.
      Ensures-if
        (not (r.secret_name === "")
          && (not (name === r.secret_name) && not (is_managed_cert r name)))
        _ _ (λ _. Returns-pure _ tt)
        (λ _. Returns-then _ _ λ got.
          Ensures-or_error got _ _
            (λ e _. Ensures-if (is_missing e) _ _ (λ _. Returns-pure _ tt) (λ _. Returns-pure _ tt))
            (λ secret _.
              Ensures-if (is_managed_cert r name) _ _ (λ _. Bounded-reconcile_cert namespace secret)
                (λ _. Bounded-reconcile_config secret)))

-- From every state, a reconciliation ends, returns an error, or asks to be repeated in 30 to 300
-- seconds.
pub reconcile-Bounded :
    {p : Platform} (namespace name : String) (s : State p) → Bounded (reconcile namespace name s).0
reconcile-Bounded namespace name s = (Bounded-reconcile namespace name).at s tt

-- From every state in which the Secret is the one to reconcile, its reconciliation never just ends:
-- it returns an error, or asks to be repeated in 30 to 300 seconds, so drift goes on being checked
-- and every failure is retried.
pub reconcile_config-Repeated :
    {p : Platform} (secret : Secret) (s : State p)
    → should_reconcile s.reconciler secret ≡ true
    → Repeated (reconcile_config secret s).0
unfolding reconcile_config ◌>>=◌ gets
reconcile_config-Repeated secret s ours = rw ours ((Repeated-reconcile_contents secret _ _).at s tt)
