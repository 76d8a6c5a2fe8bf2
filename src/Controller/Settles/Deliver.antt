-- ===== src/Controller/Settles/Deliver.antt =====
-- Validation, application and record of internal/controller/secret_controller.go, on a gateway and a
-- cluster that keep what they are given.
use haproxy_operator.Base.{
  inr, ◌∙◌, ap, refl, ℕ, String, Bool, Text, true, not, ◌≡◌, refl, ap, [], ◌∷◌, none,
}
use haproxy_operator.Base.Map
use haproxy_operator.Haproxy.Errors.{ok}
use haproxy_operator.Haproxy.Client.{
  build, conclude, request, post_plain, get_raw_configuration, raw_configuration, raw_body, bare,
  versioned, add_or_replace_query, validate_raw_configuration, apply_raw, no_body,
  apply_raw_configuration_validated,
}
use haproxy_operator.Haproxy.Healthy.{IsGood}
use haproxy_operator.Config.{validate}
use haproxy_operator.Platform.{
  HttpRequest, Client, Endpoint, post, get, unreachable, answered, Response, Secret, Platform,
}
use haproxy_operator.Act.{State, exchange}
use haproxy_operator.Act.Keeps.{
  Ensures, Keeps, Ensures-bind, Ensures-pure, Ensures-weaken, Ensures-on_error, Ensures-or_error,
  Ensures-given,
}
use haproxy_operator.Controller.Stable.{
  Stable, Stable-×, Stable-observe, Stable-post_plain, Stable-get_config_version,
  Stable-wait_for_ready, Ensures-request,
}
use haproxy_operator.Controller.Front.{IsFound}
use haproxy_operator.Controller.Protocol.Verdict.{validation_harmless}
use haproxy_operator.Controller.Settles.Storage.{
  Stores, Serves, no_application, IsLive, IsHeld, Stable-IsLive, Stable-IsHeld, IsReady,
  Stable-IsReady,
}

-- The whole body of a good answer that has one.
served :
    (t : Text) (resp : Response)
    → IsGood (answered resp)
    → Serves t (answered resp)
    → conclude [] raw_body resp ≡ ok t
unfolding conclude raw_body
served t resp good (filled, same) = rw (good.0, filled, good.1) (ap ok same)

module _ {p : Platform} (stores : Stores p) (c : Client) (raw : Text) where
  -- The operator is ready, and the cluster holds that Secret with the bytes.
  abbrev pub Known : Secret → State p → Type 0
  Known secret s =
      IsHeld stores secret.namespace secret.name secret s × IsReady p c secret raw s.reconciler

  -- And the gateway runs the bytes.
  abbrev pub Deployed : Secret → State p → Type 0
  Deployed secret s = Known secret s × IsLive stores (stores.written raw) s

  pub Stable-Known : (allowed : _) (secret : Secret) → Stable allowed (Known secret)
  Stable-Known allowed secret =
      Stable-× (Stable-IsHeld stores allowed secret.namespace secret.name secret)
        (Stable-IsReady allowed c secret raw)

  pub Stable-Deployed : (secret : Secret) → Stable no_application (Deployed secret)
  Stable-Deployed secret =
      Stable-× (Stable-Known no_application secret) (Stable-IsLive stores (stores.written raw))

pub IsFound-Known :
    {p : Platform} (stores : Stores p) (c : Client) (secret : Secret) (raw : Text) (s : State p)
    → Known stores c raw secret s
    → IsFound secret.namespace secret raw s
IsFound-Known stores c secret raw s h =
    ((h.1.1, h.1.2), stores.gets secret.namespace secret.name s.world ∙ ap inr h.0)

module _ {p : Platform} (stores : Stores p) (c : Client) (secret : Secret) where
  -- Reads are no applications.
  pub reads_only :
      (c' : Client) (e : Endpoint) (t : _) → no_application (build c' get e [] t) ≡ true
  reads_only c' e t = unfold build in refl

  -- A validation changes nothing.
  pub Keeps-validate :
      (b : ℕ) (raw whole : Text) (c' : Client)
      → Keeps {p = p} (Known stores c whole secret) (validate c' (b ∷ raw))
  unfolding validate validate_raw_configuration
  Keeps-validate b raw whole c' =
      let known = Stable-Known stores c whole no_application secret in
      Ensures-bind _ _ (Stable-get_config_version known reads_only c') λ r.
        Ensures-or_error r _ _ (λ e q. Ensures-pure _ (λ s h. h))
          (λ n q. Stable-post_plain known c' post _ _ (ap not (validation_harmless c' n (b ∷ raw))))

module _ {p : Platform} (stores : Stores p) (c : Client) (secret : Secret) (raw : Text) where
  -- An application puts the bytes on the gateway.
  Deployed-exchange :
      (c' : Client) (n : ℕ)
      → Ensures {p = p}
          (Known stores c raw secret)
          (exchange c' (build c' post (versioned n) raw "text/plain"))
          (λ _ s. Deployed stores c raw secret s)
  unfolding exchange build
  Deployed-exchange c' n = record {
    at = λ s h. (
      (Stable-Known stores c raw (λ r. true) secret).asked c'
          (build c' post (versioned n) raw "text/plain") s refl h,
      stores.applied_live c' (build c' post (versioned n) raw "text/plain") s.world
          (unfold add_or_replace_query Map.lookup in refl),
    );
  }

  Deployed-post :
      (c' : Client) (n : ℕ)
      → Ensures {p = p}
          (Known stores c raw secret)
          (post_plain c' post (versioned n) raw)
          (λ _ s. Deployed stores c raw secret s)
  unfolding post_plain
  Deployed-post c' n =
      Ensures-bind _ _
        (Ensures-request (Stable-Deployed stores c raw secret) c' post _ _ _ tt no_body
          (Deployed-exchange c' n))
        (λ r. Ensures-pure _ (λ s h. h))

  -- An application that ends well has put them there.
  Deployed-apply_raw :
      (c' : Client)
      → Ensures {p = p}
          (Known stores c raw secret)
          (apply_raw c' raw)
          (λ o s. o ≡ none → Deployed stores c raw secret s)
  unfolding apply_raw
  Deployed-apply_raw c' =
      Ensures-bind _ _
        (Stable-get_config_version (Stable-Known stores c raw no_application secret)
          (reads_only stores c secret) c')
        λ r.
          Ensures-or_error r _ _ (λ e q. Ensures-pure _ (λ s h i. cc))
            (λ n q. Ensures-weaken _ (λ s h. h) (λ o s h i. h) (Deployed-post c' n))

  pub Deployed-apply :
      (c' : Client)
      → Ensures {p = p}
          (Known stores c raw secret)
          (apply_raw_configuration_validated c' raw)
          (λ o s. o ≡ none → Deployed stores c raw secret s)
  unfolding apply_raw_configuration_validated
  Deployed-apply c' =
      Ensures-bind _ _
        (Stable-wait_for_ready (Stable-Known stores c raw no_application secret)
          (reads_only stores c secret) c' _)
        λ o.
          Ensures-on_error o _ _ (λ e q. Ensures-pure _ (λ s h i. cc)) (λ q. Deployed-apply_raw c')

-- What is read back is what the gateway runs.
pub Ensures-read :
    {p : Platform} (stores : Stores p) (t : Text) {allowed : HttpRequest → Bool}
    {E : State p → Type 0}
    → Stable allowed E
    → ((c : Client) (e : Endpoint) (u : String) → allowed (build c get e [] u) ≡ true)
    → ((s : State p) → E s → IsLive stores t s)
    → (c : Client) → Ensures E (get_raw_configuration c) (λ r s. E s × (r ≡ ok t))
unfolding get_raw_configuration request
Ensures-read {p = p} stores t {E = E} st may runs c =
    Ensures-bind {R = λ a s. E s × (IsGood a × Serves t a)} _ _
      (record { at = λ s h. (st.asked c (build c get _ [] _) s (may c _ _) h, good s h) })
      (elim [
        | unreachable u cause ↦ record { at = λ s h. absurd h.1.0 }
        | answered resp ↦ Ensures-given _ λ fine.
            Ensures-bind _ _ (Stable-observe st c resp.peer_not_after)
              (λ _. Ensures-pure _ (λ s h. (h, served t resp fine.0 fine.1)))
      ])
  where
    good :
        (s : State p)
        → E s
        → IsGood (exchange c (build c get (bare raw_configuration) [] "text/plain") s).0
          × Serves t (exchange c (build c get (bare raw_configuration) [] "text/plain") s).0
    good s h =
        unfold exchange in
        (stores.answers.answers c _ s.world, rw⁻¹ (runs s h) (stores.reads c s.world))
