-- ===== src/Controller/Timely/Repeats.antt =====
-- How soon the reconciliation of the configuration Secret is repeated.
use haproxy_operator.Base.{
  ℕ, String, Text, codes, Bool, true, not, Option, none, some, ◌≤◌, arith, text_eq, has_prefix,
}
use haproxy_operator.Base.Map.{Map}
use haproxy_operator.Haproxy.Errors.{Error, classify, is_config_rejected, is_conflict}
use haproxy_operator.Platform.{Secret, Client, Platform}
use haproxy_operator.Act.{Act, pure, ◌>>=◌}
use haproxy_operator.Act.Keeps.{
  Yields, Yields-any, Ensures-bind, Ensures-on_error, Ensures-or_error, Ensures-if, Ensures-pure,
}
use haproxy_operator.Config.{hash_bytes}
use haproxy_operator.Controller.Annotations.{
  annotation, last_applied_hash_annotation, last_observed_hash_annotation,
  last_failed_hash_annotation, status_annotation, observed_hash_pending,
}
use haproxy_operator.Controller.Backoff.{pos, requeue_interval, backoff_bounds}
use haproxy_operator.Controller.Reconcile.{
  Outcome, finished, requeue, failed, no_certs, back_off, with_status, transient_failure, rejection,
  refused, record_applied, validate_and_apply, sync_then_apply, apply_desired, handle_drift,
  adopt_baseline, in_sync, compare_live, check_drift, reconcile_contents,
}

-- A delay between 30 and 300 seconds.
abbrev pub IsBounded : ℕ → Type 0
IsBounded d = (30000000000 ≤ d) × (d ≤ 300000000000)

-- A requeue has a bounded delay; the controller's queue retries an error by itself.
abbrev pub Bounded : Outcome → Type 0
Bounded finished = Unit {0}
Bounded (requeue d) = IsBounded d
Bounded (failed e) = Unit {0}

-- Bounded, and not at its end.
abbrev pub Repeated : Outcome → Type 0
Repeated finished = ⊥
Repeated (requeue d) = IsBounded d
Repeated (failed e) = Unit {0}

abbrev pub Returns : {p : Platform} → (Outcome → Type 0) → Act p Outcome → Type 0
Returns Q m = Yields m Q

module _ {p : Platform} {Q : Outcome → Type 0} where
  pub Returns-then :
      {A : Type 0} (m : Act p A) (f : A → Act p Outcome)
      → ((a : A) → Returns Q (f a))
      → Returns Q (m >>= f)
  Returns-then m f kf = Ensures-bind m f (Yields-any m) kf

  pub Returns-pure : (o : Outcome) → Q o → Returns {p = p} Q (pure o)
  Returns-pure o h = Ensures-pure o (λ s _. h)

  pub Returns-with_status :
      (secret : Secret) (status : Text) (e : Error) (extra : Map Text → Map Text)
      (rest : Act p Outcome)
      → ((u : Error) → Q (failed u))
      → Returns Q rest
      → Returns Q (with_status secret status e extra rest)
  unfolding with_status
  Returns-with_status secret status e extra rest kf kr =
      Returns-then _ _ λ u. Ensures-on_error u _ _ (λ e' _. Returns-pure _ (kf e')) (λ _. kr)

-- The interval between two checks, and the delay after a conflict.
pub waits : IsBounded requeue_interval
waits = omega arith

module _ {p : Platform} where
  pub Repeated-back_off : Returns {p = p} Repeated back_off
  unfolding back_off
  Repeated-back_off =
      Returns-then _ _ λ _. Returns-then _ _ λ n. Returns-pure _ (backoff_bounds (pos n))

  Repeated-transient_failure :
      (secret : Secret) (stage : String) (event : Bool) (e : Error)
      → Returns {p = p} Repeated (transient_failure secret stage event e)
  unfolding transient_failure
  Repeated-transient_failure secret stage event e = Returns-then _ _ λ _.
      Returns-then _ _ λ _. Returns-with_status secret _ e _ back_off (λ u. tt) Repeated-back_off

  Repeated-refused :
      (secret : Secret) (hash : Text) (stage : String) (e : Error)
      → Returns {p = p} Repeated (refused secret hash stage e)
  unfolding refused rejection
  Repeated-refused secret hash stage e = Returns-then _ _ λ _.
      Ensures-if (is_config_rejected (classify e)) _ _
        (λ _. Returns-then _ _ λ _.
          Returns-then _ _ λ _. Returns-with_status secret _ e _ _ (λ u. tt) (Returns-pure _ waits))
        (λ _. Repeated-transient_failure secret stage true e)

  Repeated-record_applied :
      (c : Client) (secret : Secret) (hash : Text)
      → Returns {p = p} Repeated (record_applied c secret hash)
  unfolding record_applied
  Repeated-record_applied c secret hash = Returns-then _ _ λ _. Returns-then _ _ λ _.
      Returns-then _ _ λ _. Returns-then _ _ λ _. Returns-then _ _ λ _. Returns-then _ _ λ _.
        Returns-then _ _ λ _. Returns-then _ _ λ _. Returns-then _ _ λ _. Returns-then _ _ λ r.
          Ensures-on_error r.0 _ _
            (λ u _.
              Ensures-if (is_conflict u) _ _ (λ _. Returns-pure _ (backoff_bounds (pos 0)))
                (λ _. Returns-pure _ tt))
            (λ _. Returns-pure _ waits)

  Repeated-validate_and_apply :
      (c : Client) (secret : Secret) (raw hash : Text)
      → Returns {p = p} Repeated (validate_and_apply c secret raw hash)
  unfolding validate_and_apply
  Repeated-validate_and_apply c secret raw hash = Returns-then _ _ λ _. Returns-then _ _ λ o.
      Ensures-on_error o _ _ (λ e _. Repeated-refused secret hash "" e)
        (λ _. Returns-then _ _ λ _. Returns-then _ _ λ _. Returns-then _ _ λ o'.
          Ensures-on_error o' _ _ (λ e _. Repeated-refused secret hash "Apply" e)
            (λ _. Repeated-record_applied c secret hash))

  Repeated-sync_then_apply :
      (c : Client) (secret : Secret) (raw hash : Text)
      → Returns {p = p} Repeated (sync_then_apply c secret raw hash)
  unfolding sync_then_apply
  Repeated-sync_then_apply c secret raw hash = Returns-then _ _ λ r.
      Ensures-if (no_certs r.certs_secret_names) _ _
        (λ _. Repeated-validate_and_apply c secret raw hash)
        (λ _. Returns-then _ _ λ _. Returns-then _ _ λ r'.
          Ensures-on_error r'.0 _ _ (λ e _. Repeated-transient_failure _ _ _ e)
            (λ _. Repeated-validate_and_apply c r'.1 raw hash))

  Repeated-apply_desired :
      (secret : Secret) (raw hash : Text) → Returns {p = p} Repeated (apply_desired secret raw hash)
  unfolding apply_desired
  Repeated-apply_desired secret raw hash = Returns-then _ _ λ r. Returns-then _ _ λ _.
      Ensures-if (text_eq hash (annotation last_failed_hash_annotation secret)) _ _
        (λ _. Returns-pure _ waits)
        (λ _. Returns-then _ _ λ made.
          Ensures-or_error made _ _ (λ e _. Repeated-transient_failure _ _ _ e)
            (λ c _. Repeated-sync_then_apply c secret raw hash))

  Repeated-handle_drift :
      (secret : Secret) (raw hash : Text) → Returns {p = p} Repeated (handle_drift secret raw hash)
  unfolding handle_drift
  Repeated-handle_drift secret raw hash = Returns-then _ _ λ _. Returns-then _ _ λ _.
      Returns-then _ _ λ r.
        Ensures-if (text_eq hash (annotation last_failed_hash_annotation secret)) _ _
          (λ _. Returns-then _ _ λ _. Returns-pure _ waits)
          (λ _.
            Ensures-if (not r.drift_remediate) _ _ (λ _. Returns-then _ _ λ _. Returns-pure _ waits)
              (λ _. Returns-then _ _ λ _. Repeated-apply_desired secret raw hash))

  Repeated-compare_live :
      (secret : Secret) (raw hash live : Text)
      → Returns {p = p} Repeated (compare_live secret raw hash live)
  unfolding compare_live adopt_baseline in_sync
  Repeated-compare_live secret raw hash live = Returns-then _ _ λ _.
      Ensures-if (text_eq (annotation last_observed_hash_annotation secret) observed_hash_pending) _
        _ (λ _. Returns-then _ _ λ r. Returns-then _ _ λ _. Returns-pure _ waits)
        (λ _.
          Ensures-if (text_eq live _) _ _
            (λ _. Returns-then _ _ λ _.
              Ensures-if (has_prefix (annotation status_annotation secret) (codes "DriftCheck")) _ _
                (λ _. Returns-then _ _ λ r. Returns-pure _ waits) (λ _. Returns-pure _ waits))
            (λ _. Repeated-handle_drift secret raw hash))

  Repeated-check_drift :
      (secret : Secret) (raw hash : Text) → Returns {p = p} Repeated (check_drift secret raw hash)
  unfolding check_drift
  Repeated-check_drift secret raw hash = Returns-then _ _ λ made.
      Ensures-or_error made _ _ (λ e _. Repeated-transient_failure _ _ _ e)
        (λ c _. Returns-then _ _ λ live.
          Ensures-or_error live _ _ (λ e _. Repeated-transient_failure _ _ _ e)
            (λ l _. Repeated-compare_live secret raw hash _))

  pub Repeated-reconcile_contents :
      (secret : Secret) (key : String) (o : Option Text)
      → Returns {p = p} Repeated (reconcile_contents secret key o)
  unfolding reconcile_contents
  Repeated-reconcile_contents secret key none =
      Returns-with_status secret _ _ _ _ (λ u. tt) (Returns-pure _ (omega arith))
  Repeated-reconcile_contents secret key (some raw) =
      Ensures-if (text_eq (hash_bytes p raw) (annotation last_applied_hash_annotation secret)) _ _
        (λ _. Repeated-check_drift secret raw _) (λ _. Repeated-apply_desired secret raw _)
