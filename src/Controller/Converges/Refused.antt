-- ===== src/Controller/Converges/Refused.antt =====
-- Reconciliations of internal/controller/secret_controller.go on a gateway that refuses the
-- configuration.
use haproxy_operator.Base.{
  ℕ, String, Text, codes, [], ◌∷◌, Bool, true, false, ◌≡◌, refl, ap, subst, Option, none, some,
  List, inl, inr, ◌⊎◌, arith,
}
use haproxy_operator.Base.Map
use haproxy_operator.Base.Map.{Map, writes}
use haproxy_operator.Haproxy.Errors.{
  Error, classify, config_rejected, is_config_rejected, is_local_rejection, as_version_check,
  as_api_error, err,
}
use haproxy_operator.Haproxy.Errors.Laws.{classify-eq_iff}
use haproxy_operator.Haproxy.Client.{
  new_api_error, conclude, no_body, failure, build, request, post_plain, add_or_replace_query,
  versioned, validate_raw_configuration,
}
use haproxy_operator.Haproxy.Healthy.{IsOpen, Yields-or_error, Yields-get_config_version}
use haproxy_operator.Act.Keeps.{Yields, Yields-then, Yields-any}
use haproxy_operator.Config.{validate}
use haproxy_operator.Platform.{
  Client, post, Endpoint, HttpRequest, unreachable, answered, Response, Secret, Effect, patched,
  Platform,
}
use haproxy_operator.Act.{State, caused, exchange, patch_secret}
use haproxy_operator.Act.Keeps.{
  Ensures, Ensures-bind, Ensures-pure, Ensures-weaken, Ensures-on_error, Ensures-if, Ensures-given,
  Ensures-both,
}
use haproxy_operator.Controller.Annotations.{
  failed_status, fail_with_status, patch_annotations, mutated, last_failed_hash_annotation,
}
use haproxy_operator.Controller.Backoff.{requeue_interval}
use haproxy_operator.Controller.Reconcile.{
  Outcome, requeue, rejection, with_status, refused as refused_end, validate_and_apply,
}
use haproxy_operator.Controller.Protocol.{
  Closed-Unit, is_raw_post, rejected, refused, is_refused, is_nil, note_at, Closed-any,
}
use haproxy_operator.Controller.Protocol.Verdict.{Ensures-validate}
use haproxy_operator.Controller.Protocol.Run.Ends.{Keeps-refused}

-- A gateway that answers every GET and PUT, and refuses every write of the raw configuration with 400
-- or 422; and a cluster that takes every patch.
pub record IsRefusing (p : Platform) : Type 0 where
  pub is_open : IsOpen p
  pub refuses :
      (c : Client) (r : HttpRequest) (w : p.World)
      → is_raw_post r ≡ true
      → rejected (p.round_trip c r w).0 ≡ true

-- The last effect of the log is a patch that was taken, with that hash as the last failed one.
abbrev pub EndsSuppressed : Text → List Effect → Type 0
EndsSuppressed hash [] = ⊥
EndsSuppressed hash (patched before after f ∷ log) =
    (f ≡ none) × (note_at last_failed_hash_annotation after ≡ some hash)
EndsSuppressed hash (_ ∷ log) = ⊥

-- The configuration was refused, its hash is on record, and it will be looked at again later.
pub record Suppressed {p : Platform} (raw : Text) (o : Outcome) (s : State p) : Type 0 where
  pub again : o ≡ requeue requeue_interval
  pub spurned : refused raw s.log ≡ true
  pub recorded : EndsSuppressed (p.sha256_hex raw) s.log

-- An error that is a deterministic rejection.
abbrev Rejects : Option Error → Type 0
Rejects none = ⊥
Rejects (some e) = classify e ≡ config_rejected

conclude-rejected :
    (resp : Response)
    → rejected (answered resp) ≡ true
    → conclude tt no_body resp ≡ err (new_api_error resp)
unfolding conclude
conclude-rejected resp h = ground arith

new_api_error-rejected :
    (resp : Response)
    → rejected (answered resp) ≡ true
    → classify (new_api_error resp) ≡ config_rejected
unfolding new_api_error as_version_check as_api_error is_local_rejection
new_api_error-rejected resp h = (classify-eq_iff (new_api_error resp)).1 (inr (refl, status))
  where
    status : (some resp.status ≡ some 400) ⊎ (some resp.status ≡ some 422)
    status = ground arith

abbrev validation : ℕ → Endpoint
validation n = add_or_replace_query (versioned n) "only_validate" (codes "true")

validation_write :
    (c : Client) (n : ℕ) (raw : Text)
    → is_raw_post (build c post (validation n) raw "text/plain") ≡ true
unfolding build add_or_replace_query
validation_write c n raw = refl

module _ {p : Platform} (refusing : IsRefusing p) where
  Yields-post :
      (c : Client) (e : Endpoint) (raw : Text)
      → is_raw_post (build c post e raw "text/plain") ≡ true
      → Yields {p = p} (post_plain c post e raw) Rejects
  unfolding post_plain request exchange
  Yields-post c e raw write =
      Yields-then {R = λ r. Rejects (failure r)} _ _
        (Yields-then {R = λ a. rejected a ≡ true} _ _
          (record { at = λ s _. refusing.refuses c _ s.world write })
          (elim [
            | unreachable u cause ↦ (λ h. record { at = λ s _. cc })
            | answered resp ↦ (λ h. Yields-then _ _ (Yields-any _) (λ _ _.
                Ensures-pure _
                  (λ s _. rw (conclude-rejected resp h) (new_api_error-rejected resp h))))
          ]))
        (λ r h. Ensures-pure _ (λ s _. h))

  Yields-validate : (c : Client) (raw : Text) → Yields {p = p} (validate c raw) Rejects
  unfolding validate validate_raw_configuration is_local_rejection
  Yields-validate c [] = Ensures-pure _ (λ s _. (classify-eq_iff _).1 (inl refl))
  Yields-validate c (b ∷ raw) =
      Yields-then _ _
        (Yields-get_config_version c (refusing.is_open.reads c) refusing.is_open.versions)
        (λ r h.
          Yields-or_error r _ _ h
            (λ n. Yields-post c (validation n) (b ∷ raw) (validation_write c n (b ∷ raw))))

  -- The patch that records a rejection.
  Ends-patch :
      (secret : Secret) (status msg now hash : Text)
      → Ensures {p = p}
          (λ _. Unit {0})
          (patch_annotations secret
            (failed_status status msg now (Map.insert last_failed_hash_annotation hash)))
          (λ r s. (r.0 ≡ none) × EndsSuppressed hash s.log)
  unfolding patch_annotations patch_secret mutated Map.lookup writes
  Ends-patch secret status msg now hash = record {
    at = λ s h.
        let taken =
          refusing.is_open.patches secret
            (mutated (failed_status status msg now (Map.insert last_failed_hash_annotation hash))
              secret)
            s.world in
        (ap caused taken, (taken, refl));
  }

  Ends-fail_with_status :
      (secret : Secret) (status msg hash : Text)
      → Ensures {p = p}
          (λ _. Unit {0})
          (fail_with_status secret status msg (Map.insert last_failed_hash_annotation hash))
          (λ u s. (u ≡ none) × EndsSuppressed hash s.log)
  unfolding fail_with_status
  Ends-fail_with_status secret status msg hash = Ensures-bind _ _ (Yields-any _) λ now.
      Ensures-bind _ _ (Ends-patch secret status msg now hash)
        λ r. Ensures-pure _ (λ s h. (rw h.0, h.1))

  Ends-rejection :
      (secret : Secret) (hash : Text) (e : Error)
      → Ensures {p = p}
          (λ _. Unit {0})
          (rejection secret hash e)
          (λ o s. (o ≡ requeue requeue_interval) × EndsSuppressed hash s.log)
  unfolding rejection with_status
  Ends-rejection secret hash e = Ensures-bind _ _ (Yields-any _) λ _.
      Ensures-bind _ _ (Yields-any _) λ _.
        Ensures-bind _ _ (Ends-fail_with_status secret _ _ hash) λ u.
          Ensures-on_error u _ _ (λ e' q. record { at = λ s h. cc })
            (λ q. Ensures-pure _ (λ s h. (refl, h.1)))

  Ends-refused :
      (secret : Secret) (hash : Text) (stage : String) (e : Error)
      → classify e ≡ config_rejected
      → Ensures {p = p}
          (λ _. Unit {0})
          (refused_end secret hash stage e)
          (λ o s. (o ≡ requeue requeue_interval) × EndsSuppressed hash s.log)
  unfolding refused_end is_config_rejected
  Ends-refused secret hash stage e definite = Ensures-bind _ _ (Yields-any _) λ _.
      Ensures-if (is_config_rejected (classify e)) _ _ (λ _. Ends-rejection secret hash e)
        (λ other. record { at = λ s h. absurd (no (ap is_config_rejected definite) other) })
    where
      no : {b : Bool} → b ≡ true → b ≡ false → ⊥
      no h i = cc

  -- A refused validation suppresses the bytes.
  pub Suppressed-validate_and_apply :
      (secret : Secret) (raw : Text) (c : Client)
      → Ensures {p = p}
          (λ _. Unit {0})
          (validate_and_apply c secret raw (p.sha256_hex raw))
          (Suppressed raw)
  unfolding validate_and_apply
  Suppressed-validate_and_apply secret raw c = Ensures-bind _ _ (Yields-any _) λ _.
      Ensures-bind _ _ (Ensures-both _ (Ensures-validate Closed-Unit c raw) (Yields-validate c raw))
        λ o.
          Ensures-on_error o _ _
            (λ e q. Ensures-given _ λ definite.
              let d = subst Rejects q definite in
              Ensures-weaken _ (λ s h. h.1.spurned e q d)
                (λ end s h. record { again = h.0.0; spurned = h.1; recorded = h.0.1 })
                (Ensures-both _
                  (Ensures-weaken _ (λ s h. tt) (λ end s h. h)
                    (Ends-refused secret (p.sha256_hex raw) "" e d))
                  (Ensures-weaken _ (λ s h. (h, λ _. h)) (λ end s h. h)
                    (Keeps-refused (Closed-any (is_nil raw) (is_refused raw)) secret raw "" e))))
            (λ q. record { at = λ s h. absurd (subst Rejects q h.1) })
