-- ===== src/Controller/Connect/Verified.antt =====
-- What NewClient of internal/haproxy/dataplane_client.go checks before it hands out a client, and
-- what getOrCreateClient of internal/controller/secret_controller.go keeps.
use haproxy_operator.Base.{true, false, ◌≡◌, ◌⊎◌, none, ◌===◌, arith, if◌then◌else◌, subst}
use haproxy_operator.Haproxy.Errors.{Result, ok, err}
use haproxy_operator.Platform.{ApiConfig, Url, tls_transport, Client, Platform}
use haproxy_operator.Act.{State, pure}
use haproxy_operator.Act.Keeps.{
  Ensures, Ensures-bind, Ensures-on_error, Ensures-or_error, Ensures-pure,
}
use haproxy_operator.Controller.Connect.{
  parsed_url, check_config, build_transport, uses_tls, check_files, new_client,
}

-- The scheme is one of the two, and https without the opt-out verifies the gateway and sends a
-- client certificate.
abbrev pub IsGuarded : Client → Type 0
IsGuarded c =
    ((c.base.scheme === "http") ≡ true ⊎ (c.base.scheme === "https") ≡ true)
    × ((c.base.scheme === "https") ≡ true
        → c.config.insecure ≡ false
        → c.transport ≡ tls_transport true true true)

check_config-IsGuarded :
    (cfg : ApiConfig) (u : Url)
    → check_config cfg u ≡ none
    → IsGuarded (record { config = cfg; base = u; transport = build_transport cfg u })
unfolding check_config build_transport
check_config-IsGuarded cfg u h = (ground arith, ground arith)

abbrev Guards : Result Client → Type 0
Guards (ok c) = IsGuarded c
Guards (err e) = Unit {0}

Guards-new_client :
    {p : Platform} (cfg : ApiConfig)
    → Ensures {p = p} (λ _. Unit {0}) (new_client cfg) (λ r _. Guards r)
unfolding new_client
Guards-new_client {p} cfg =
    Ensures-or_error (parsed_url (p.parse_url cfg.base_url)) _ _ (λ e _. Ensures-pure _ (λ s _. tt))
      (λ u _.
        Ensures-on_error (check_config cfg u) _ _ (λ e _. Ensures-pure _ (λ s _. tt))
          (λ fine.
            Ensures-bind {R = λ _ _. Unit {0}}
              (if uses_tls cfg u then check_files cfg else pure none) _ (record { at = λ s _. tt })
              (λ bad.
                Ensures-on_error bad _ _ (λ e _. Ensures-pure _ (λ s _. tt))
                  (λ _. Ensures-pure _ (λ s _. check_config-IsGuarded cfg u fine)))))

-- A client that `NewClient` returns, from any configuration, files and state, has the scheme http
-- or https; and with https and no opt-out of verification, its transport runs the operator's own
-- verification of the gateway's chain and sends a client certificate.
pub new_client-IsGuarded :
    {p : Platform} (cfg : ApiConfig) (s : State p) (c : Client)
    → (new_client cfg s).0 ≡ ok c
    → IsGuarded c
new_client-IsGuarded cfg s c made = at (new_client cfg s).0 ((Guards-new_client cfg).at s tt) made
  where
    at : (r : Result Client) → Guards r → r ≡ ok c → IsGuarded c
    at (ok c') h e = let same : c' ≡ c = cc in subst IsGuarded same h
    at (err e') h e = cc
