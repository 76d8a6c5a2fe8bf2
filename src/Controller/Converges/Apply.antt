-- ===== src/Controller/Converges/Apply.antt =====
-- Validation and application of internal/controller/secret_controller.go on a healthy gateway.
use haproxy_operator.Base.{Text, true, false, ◌≡◌, ◌≢◌, refl, ap, none, some, List, [], ◌∷◌}
use haproxy_operator.Haproxy.Healthy.{IsHealthy, Yields-validate_raw, Yields-apply}
use haproxy_operator.Act.Keeps.{Yields-any, Yields}
use haproxy_operator.Base.Map
use haproxy_operator.Base.Map.{writes}
use haproxy_operator.Config.{validate}
use haproxy_operator.Platform.{Client, Secret, Effect, patched, Platform}
use haproxy_operator.Act.{State, caused, patch_secret}
use haproxy_operator.Act.Keeps.{
  Ensures, Ensures-bind, Ensures-pure, Ensures-weaken, Ensures-both, Ensures-on_error,
}
use haproxy_operator.Controller.Annotations.{
  applied_record, patch_annotations, mutated, last_applied_hash_annotation,
}
use haproxy_operator.Controller.Backoff.{requeue_interval}
use haproxy_operator.Controller.Reconcile.{
  Outcome, requeue, record_applied, observed, validate_and_apply,
}
use haproxy_operator.Controller.Protocol.{
  Closed-Unit, applied, is_validated, is_applied, is_note, note_at, Closed-any,
}
use haproxy_operator.Controller.Protocol.Primitives.{Keeps-perform, Keeps-emit_event}
use haproxy_operator.Controller.Protocol.Verdict.{Ensures-validate, Ensures-apply}
use haproxy_operator.Controller.Protocol.Run.Apply.{Keeps-record_applied}

-- The last effect of the log is a patch that was taken, with that hash as the last applied one.
abbrev pub EndsRecorded : Text → List Effect → Type 0
EndsRecorded hash [] = ⊥
EndsRecorded hash (patched before after f ∷ log) =
    (f ≡ none) × (note_at last_applied_hash_annotation after ≡ some hash)
EndsRecorded hash (_ ∷ log) = ⊥

-- The configuration is on the gateway and on record, and its drift will be checked.
pub record Converged {p : Platform} (raw : Text) (o : Outcome) (s : State p) : Type 0 where
  pub again : o ≡ requeue requeue_interval
  pub deployed : applied raw s.log ≡ true
  pub recorded : EndsRecorded (p.sha256_hex raw) s.log

module _ {p : Platform} (healthy : IsHealthy p) where
  -- The patch that records an application.
  Ends-patch :
      (secret : Secret) (hash seen now : Text)
      → Ensures {p = p}
          (λ _. Unit {0})
          (patch_annotations secret (applied_record hash seen now))
          (λ r s. (r.0 ≡ none) × EndsRecorded hash s.log)
  unfolding patch_annotations patch_secret mutated Map.lookup writes
  Ends-patch secret hash seen now = record {
    at = λ s h.
        let taken =
          healthy.patches secret (mutated (applied_record hash seen now) secret) s.world in
        (ap caused taken, (taken, refl));
  }

  Ends-record_applied :
      (c : Client) (secret : Secret) (hash : Text)
      → Ensures {p = p}
          (λ _. Unit {0})
          (record_applied c secret hash)
          (λ o s. (o ≡ requeue requeue_interval) × EndsRecorded hash s.log)
  unfolding record_applied
  Ends-record_applied c secret hash = Ensures-bind _ _ (Yields-any _) λ _.
      Ensures-bind _ _ (Yields-any _) λ _. Ensures-bind _ _ (Yields-any _) λ _.
        Ensures-bind _ _ (Yields-any _) λ n. Ensures-bind _ _ (Yields-any _) λ _.
          Ensures-bind _ _ (Yields-any _) λ _. Ensures-bind _ _ (Yields-any _) λ _.
            Ensures-bind _ _ (Yields-any _) λ live. Ensures-bind _ _ (Yields-any _) λ now.
              Ensures-bind _ _ (Ends-patch secret hash (observed p live) now) λ r.
                Ensures-on_error r.0 _ _ (λ e q. record { at = λ s h. cc })
                  (λ q. Ensures-pure _ (λ s h. (refl, h.1)))

-- Bytes that there are pass the validator.
pub Yields-validate :
    {p : Platform}
    → IsHealthy p
    → (c : Client) (raw : Text) → raw ≢ []
    → Yields {p = p} (validate c raw) (λ o. o ≡ none)
unfolding validate
Yields-validate healthy c [] filled = absurd (filled refl)
Yields-validate healthy c (b ∷ raw) filled = Yields-validate_raw healthy c (b ∷ raw)

module _ {p : Platform} (healthy : IsHealthy p) (c : Client) (secret : Secret) (raw : Text) where
  -- Validated and applied bytes are recorded.
  Converges-record_applied :
      Ensures {p = p}
        (λ s. applied raw s.log ≡ true)
        (record_applied c secret (p.sha256_hex raw))
        (Converged raw)
  Converges-record_applied =
      Ensures-weaken _ (λ s h. h)
        (λ o s h. record { again = h.0.0; deployed = h.1; recorded = h.0.1 })
        (Ensures-both _
          (Ensures-weaken _ (λ s h. tt) (λ o s h. h)
            (Ends-record_applied healthy c secret (p.sha256_hex raw)))
          (Keeps-record_applied (Closed-any false (is_applied raw)) c secret raw (λ s h. h)))

  pub Converges-validate_and_apply :
      raw ≢ []
      → Ensures {p = p}
          (λ _. Unit {0})
          (validate_and_apply c secret raw (p.sha256_hex raw))
          (Converged raw)
  unfolding validate_and_apply is_note
  Converges-validate_and_apply filled =
      let kv = Closed-any false (is_validated raw) in
      Ensures-bind _ _ (Keeps-perform Closed-Unit _ refl) λ _.
        Ensures-bind _ _
          (Ensures-both _ (Ensures-validate Closed-Unit c raw)
            (Yields-validate healthy c raw filled))
          λ o.
            Ensures-on_error o _ _ (λ e q. record { at = λ s h. cc })
              (λ q.
                Ensures-weaken _ (λ s h. h.0.1.took q) (λ a s h. h)
                  (Ensures-bind _ _ (Keeps-emit_event kv _ _ _) λ _.
                    Ensures-bind _ _ (Keeps-perform kv _ refl) λ _.
                      Ensures-bind _ _
                        (Ensures-both _ (Ensures-apply kv c raw (λ s h. h))
                          (Ensures-weaken _ (λ s h. tt) (λ o s h. h) (Yields-apply healthy c raw)))
                        λ o'.
                          Ensures-on_error o' _ _ (λ e q'. record { at = λ s h. cc })
                            (λ q'.
                              Ensures-weaken _ (λ s h. h.0.1.took q') (λ a s h. h)
                                Converges-record_applied)))
