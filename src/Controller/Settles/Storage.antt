-- ===== src/Controller/Settles/Storage.antt =====
-- A gateway and a cluster that keep what they are given: what the operator relies on when it takes a
-- configuration for deployed and an annotation for written.
use haproxy_operator.Base.{
  subst, some, String, Text, false, true, ◌≡◌, ◌∙◌, sym, refl, ap, [], inr, Bool, not, ◌==◌,
}
use haproxy_operator.Base.{Option}
use haproxy_operator.Base.Map.{Map}
use haproxy_operator.Haproxy.Client.{build, bare, raw_configuration}
use haproxy_operator.Haproxy.Healthy.{IsHealthy}
use haproxy_operator.Platform.{
  Client, get, HttpRequest, Answer, unreachable, answered, Secret, Platform,
}
use haproxy_operator.Act.{Reconciler, State, get_secret, pause, exchange}
use haproxy_operator.Controller.Protocol.{is_application}
use haproxy_operator.Controller.Reconcile.{is_managed_cert}
use haproxy_operator.Controller.Converges.Pushes.{AllPushable, ReadsCertificates}
use haproxy_operator.Controller.Stable.{SameSettings, Stable, Stable-settings}
use haproxy_operator.Controller.Front.{IsOurs}

-- The answer carries that text.
abbrev pub Serves : Text → Answer → Type 0
Serves t (unreachable u c) = ⊥
Serves t (answered resp) = ((resp.status == 204) ≡ false) × (resp.body ≡ t)

-- `live` is the configuration that the gateway runs, `held` the Secret of a namespace and a name,
-- and `written` the form that the gateway gives a configuration.
pub record Stores (p : Platform) : Type 0 where
  pub live : p.World → Text
  pub held : p.World → String → String → Secret
  pub written : Text → Text
  pub answers : IsHealthy p
  pub reads_certificates : ReadsCertificates p
  -- only an application changes the live configuration, and no request a Secret
  pub asked_live :
      (c : Client) (r : HttpRequest) (w : p.World)
      → is_application r ≡ false
      → live (p.round_trip c r w).1 ≡ live w
  pub applied_live :
      (c : Client) (r : HttpRequest) (w : p.World)
      → is_application r ≡ true
      → live (p.round_trip c r w).1 ≡ written r.body
  pub asked_held :
      (c : Client) (r : HttpRequest) (w : p.World) → held (p.round_trip c r w).1 ≡ held w
  pub reads :
      (c : Client) (w : p.World)
      → Serves (live w) (p.round_trip c (build c get (bare raw_configuration) [] "text/plain") w).0
  pub waited_live : (ms : _) (w : p.World) → live (p.pause ms w).1 ≡ live w
  pub waited_held : (ms : _) (w : p.World) → held (p.pause ms w).1 ≡ held w
  pub gets :
      (namespace name : String) (w : p.World)
      → (p.get_secret namespace name w).0 ≡ inr (held w namespace name)
  pub got_live :
      (namespace name : String) (w : p.World) → live (p.get_secret namespace name w).1 ≡ live w
  pub got_held :
      (namespace name : String) (w : p.World) → held (p.get_secret namespace name w).1 ≡ held w
  pub patched_live :
      (before after : Secret) (w : p.World) → live (p.patch_secret before after w).1 ≡ live w
  -- a patch of the annotations of the Secret as it is held leaves it as it is asked for
  pub patched_held :
      (secret : Secret) (annotations : Option (Map Text)) (w : p.World)
      → held w secret.namespace secret.name ≡ secret
      → let after = record secret { annotations = annotations } in
        held (p.patch_secret secret after w).1 secret.namespace secret.name ≡ after
  pub patched_object :
      (secret : Secret) (annotations : Option (Map Text)) (w : p.World)
      → held w secret.namespace secret.name ≡ secret
      → let after = record secret { annotations = annotations } in
        (p.patch_secret secret after w).0.object ≡ after

abbrev pub no_application : HttpRequest → Bool
no_application r = not (is_application r)

module _ {p : Platform} (stores : Stores p) where
  abbrev pub IsLive : Text → State p → Type 0
  IsLive t s = stores.live s.world ≡ t

  abbrev pub IsHeld : String → String → Secret → State p → Type 0
  IsHeld namespace name secret s = stores.held s.world namespace name ≡ secret

  pub Stable-IsLive : (t : Text) → Stable no_application (IsLive t)
  unfolding get_secret pause exchange
  Stable-IsLive t = record {
    reported = λ e s n h. h;
    counted = λ r s same h. h;
    fetched = λ namespace name s h. stores.got_live namespace name s.world ∙ h;
    waited = λ ms s h. stores.waited_live ms s.world ∙ h;
    asked = λ c r s may h. stores.asked_live c r s.world (not_not (is_application r) may) ∙ h;
  }
    where
      not_not : (b : Bool) → not b ≡ true → b ≡ false
      not_not true e = sym e
      not_not false e = refl

  pub Stable-IsHeld :
      (allowed : HttpRequest → Bool) (namespace name : String) (secret : Secret)
      → Stable allowed (IsHeld namespace name secret)
  unfolding get_secret pause exchange
  Stable-IsHeld allowed namespace name secret = record {
    reported = λ e s n h. h;
    counted = λ r s same h. h;
    fetched = λ ns n s h. at (stores.got_held ns n s.world) h;
    waited = λ ms s h. at (stores.waited_held ms s.world) h;
    asked = λ c r s may h. at (stores.asked_held c r s.world) h;
  }
    where
      at :
          {f g : String → String → Secret}
          → f ≡ g
          → g namespace name ≡ secret
          → f namespace name ≡ secret
      at e h = ap (λ (k : String → String → Secret). k namespace name) e ∙ h

-- The operator has its client, the Secret is the configured one, holds the bytes and is no managed
-- certificate, and the Secrets of the managed certificates can be pushed.
abbrev pub IsReady : Platform → Client → Secret → Text → Reconciler → Type 0
IsReady p c secret raw r =
    (r.haproxy_client ≡ some c)
    × IsOurs secret raw r
    × (is_managed_cert r secret.name ≡ false)
    × AllPushable p secret.namespace r.certs_secret_names

IsReady-same :
    (p : Platform) (c : Client) (secret : Secret) (raw : Text) (r r' : Reconciler)
    → SameSettings r r'
    → IsReady p c secret raw r
    → IsReady p c secret raw r'
IsReady-same p c secret raw r r' same h = (
  same.client ∙ h.0,
  (rw same.name h.1.0, rw same.key h.1.1),
  rw same.certs h.2,
  subst (AllPushable p secret.namespace) (sym same.certs) h.3,
)

pub Stable-IsReady :
    {p : Platform} (allowed : HttpRequest → Bool) (c : Client) (secret : Secret) (raw : Text)
    → Stable {p = p} allowed (λ s. IsReady p c secret raw s.reconciler)
Stable-IsReady {p} allowed c secret raw =
    Stable-settings allowed (IsReady p c secret raw) (IsReady-same p c secret raw)
