-- ===== src/Haproxy/Healthy.antt =====
-- The requests of internal/haproxy/dataplane_client.go to a gateway that answers all of them.
pub mod Answers
pub use haproxy_operator.Haproxy.Healthy.Answers.{
  IsGood, Decodes, Decodes-no_body, Decodes-raw_body, version_endpoint, ReadsVersions, IsHealthy,
  IsOpen, IsHealthy-IsOpen, IsOk,
}
use haproxy_operator.Base.{
  ℕ, suc, ◌+◌, ◌<◌, String, Text, [], Bool, true, false, ◌≡◌, refl, Option, none, some, inr, ◌⊎◌,
  ◌==◌, ltb, leb, ◌||◌, if◌then◌else◌, arith,
}
use haproxy_operator.Haproxy.Errors.{Cause, Error, Result, ok, err}
use haproxy_operator.Haproxy.Client.{
  conclude, no_body, raw_body, failure, request, build, post_plain, get_config_version, poll_ready,
  wait_for_ready, apply_raw, validate_raw_configuration, apply_raw_configuration_validated,
  get_raw_configuration, dataplane_ready_timeout,
}
use haproxy_operator.Platform.{
  Client, Method, get, put, Endpoint, unreachable, answered, Response, Platform,
}
use haproxy_operator.Act.{Act, gets, exchange, on_error, or_error}
use haproxy_operator.Act.Keeps.{
  Yields, Yields-then, Yields-any, Ensures, Ensures-bind, Ensures-if, Ensures-weaken, Ensures-pure,
}

conclude-IsOk :
    {A : Type 0} (empty : A) (decode : Response → Cause ⊎ A) (resp : Response)
    → (ltb resp.status 200 || leb 300 resp.status) ≡ false
    → ((a : A) × (decode resp ≡ inr a))
    → IsOk (conclude empty decode resp)
unfolding conclude
conclude-IsOk empty decode resp good (a, e) = rw (good, e) (by_status (resp.status == 204))
  where
    by_status : (b : Bool) → IsOk (if b then ok empty else ok a)
    by_status true = tt
    by_status false = tt

module _ {p : Platform} where
  pub Yields-or_error :
      {A B : Type 0} {Q : B → Type 0} (r : Result A) (handler : Error → Act p B)
      (rest : A → Act p B)
      → IsOk r
      → ((a : A) → Yields (rest a) Q)
      → Yields (or_error r handler rest) Q
  unfolding or_error
  Yields-or_error (ok a) handler rest h k = k a
  Yields-or_error (err e) handler rest h k = absurd h

  pub Yields-on_error :
      {B : Type 0} {Q : B → Type 0} (o : Option Error) (handler : Error → Act p B) (rest : Act p B)
      → o ≡ none
      → Yields rest Q
      → Yields (on_error o handler rest) Q
  unfolding on_error
  Yields-on_error none handler rest h k = k
  Yields-on_error (some e) handler rest h k = cc

module _ {p : Platform} where
  -- A request that is given a good answer.
  pub Yields-request :
      {A : Type 0} (c : Client) (m : Method) (e : Endpoint) (body : Text) (t : String) (empty : A)
      (decode : Response → Cause ⊎ A)
      → ((w : p.World) → IsGood (p.round_trip c (build c m e body t) w).0)
      → ((w : p.World) → Decodes decode (p.round_trip c (build c m e body t) w).0)
      → Yields {p = p} (request c m e body t empty decode) IsOk
  unfolding request exchange
  Yields-request c m e body t empty decode answers decodes =
      Yields-then {R = λ a. IsGood a × Decodes decode a} _ _
        (record { at = λ s h. (answers s.world, decodes s.world) })
        (elim [
          | unreachable u cause ↦ (λ h. absurd h.0)
          | answered resp ↦ (λ h.
              Yields-then _ _ (Yields-any _)
                (λ _ _. Ensures-pure _ (λ s _. conclude-IsOk empty decode resp h.0.0 h.1)))
        ])

  pub Yields-get_config_version :
      (c : Client)
      → ((e : Endpoint) (t : String) (w : p.World)
          → IsGood (p.round_trip c (build c get e [] t) w).0)
      → ReadsVersions p
      → Yields {p = p} (get_config_version c) IsOk
  unfolding get_config_version
  Yields-get_config_version c answers versions =
      Yields-then _ _ (Yields-request c get _ _ _ 0 p.decode_version (answers _ _) (versions c _))
        (λ r h. Yields-or_error r _ _ h (λ n. Ensures-pure _ (λ s _. tt)))

module _ {p : Platform} where
  -- A write with no result.
  Yields-write :
      (c : Client) (m : Method) (e : Endpoint) (body : Text)
      → ((w : p.World) → IsGood (p.round_trip c (build c m e body "text/plain") w).0)
      → Yields {p = p} (post_plain c m e body) (λ o. o ≡ none)
  unfolding post_plain
  Yields-write c m e body answers =
      Yields-then _ _
        (Yields-request c m e body _ tt no_body answers (λ w. Decodes-no_body _ (answers w)))
        (λ r h. Ensures-pure _ (λ s _. failure_none r h))
    where
      failure_none : (r : Result (Unit {0})) → IsOk r → failure r ≡ none
      failure_none (ok a) h = refl
      failure_none (err e) h = absurd h

module _ {p : Platform} (is_open : IsOpen p) where
  Yields-open_version : (c : Client) → Yields {p = p} (get_config_version c) IsOk
  Yields-open_version c = Yields-get_config_version c (is_open.reads c) is_open.versions

  pub Yields-put :
      (c : Client) (e : Endpoint) (body : Text)
      → Yields {p = p} (post_plain c put e body) (λ o. o ≡ none)
  Yields-put c e body = Yields-write c put e body (is_open.puts c e body "text/plain")

  -- A round of the wait that is in time finds the gateway ready.
  Ensures-poll_ready :
      (rounds : ℕ) (c : Client) (deadline : ℕ)
      → Ensures {p = p}
          (λ s. ltb (p.now s.world) deadline ≡ true)
          (poll_ready (suc rounds) c deadline none)
          (λ o _. o ≡ none)
  unfolding poll_ready gets
  Ensures-poll_ready rounds c deadline =
      Ensures-bind {R = λ now s. ltb now deadline ≡ true} _ _ (record { at = λ s h. h })
        λ now.
          Ensures-if (ltb now deadline) _ _
            (λ e.
              Ensures-weaken _ (λ s h. tt) (λ a s h. h)
                (Yields-then _ _ (Yields-open_version c)
                  (λ r g. Yields-or_error r _ _ g (λ n. Ensures-pure _ (λ t _. refl)))))
            (λ late. record { at = λ s h. cc })

  -- The deadline is after the start.
  pub Yields-wait_for_ready :
      (c : Client) (timeout : ℕ)
      → 0 < timeout
      → Yields {p = p} (wait_for_ready c timeout) (λ o. o ≡ none)
  unfolding wait_for_ready gets
  Yields-wait_for_ready c timeout h =
      Ensures-bind {R = λ start s. ltb (p.now s.world) (start + timeout) ≡ true} _ _
        (record { at = λ s _. in_time (p.now s.world) }) λ start. Ensures-poll_ready _ c _
    where
      in_time : (n : ℕ) → ltb n (n + timeout) ≡ true
      in_time n = ground (arith, h)

module _ {p : Platform} (healthy : IsHealthy p) where
  Yields-version : (c : Client) → Yields {p = p} (get_config_version c) IsOk
  Yields-version = Yields-open_version (IsHealthy-IsOpen healthy)

  -- A write with no result.
  pub Yields-post_plain :
      (c : Client) (m : Method) (e : Endpoint) (body : Text)
      → Yields {p = p} (post_plain c m e body) (λ o. o ≡ none)
  Yields-post_plain c m e body = Yields-write c m e body (λ w. healthy.answers c _ w)

  pub Yields-get_raw_configuration : (c : Client) → Yields {p = p} (get_raw_configuration c) IsOk
  unfolding get_raw_configuration
  Yields-get_raw_configuration c =
      Yields-request c _ _ _ _ [] raw_body (λ w. healthy.answers c _ w)
        (λ w. Decodes-raw_body _ (healthy.answers c _ w))

  pub Yields-validate_raw :
      (c : Client) (raw : Text) → Yields {p = p} (validate_raw_configuration c raw) (λ o. o ≡ none)
  unfolding validate_raw_configuration
  Yields-validate_raw c raw =
      Yields-then _ _ (Yields-version c)
        (λ r h. Yields-or_error r _ _ h (λ n. Yields-post_plain c _ _ raw))

  pub Yields-apply_raw :
      (c : Client) (raw : Text) → Yields {p = p} (apply_raw c raw) (λ o. o ≡ none)
  unfolding apply_raw
  Yields-apply_raw c raw =
      Yields-then _ _ (Yields-version c)
        (λ r h. Yields-or_error r _ _ h (λ n. Yields-post_plain c _ _ raw))

  pub Yields-apply :
      (c : Client) (raw : Text)
      → Yields {p = p} (apply_raw_configuration_validated c raw) (λ o. o ≡ none)
  unfolding apply_raw_configuration_validated
  Yields-apply c raw =
      Yields-then _ _
        (Yields-wait_for_ready (IsHealthy-IsOpen healthy) c dataplane_ready_timeout (omega arith))
        (λ o h. Yields-on_error o _ _ h (Yields-apply_raw c raw))
