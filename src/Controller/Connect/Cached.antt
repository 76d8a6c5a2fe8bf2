-- ===== src/Controller/Connect/Cached.antt =====
-- The client that getOrCreateClient of internal/controller/secret_controller.go keeps.
use haproxy_operator.Base.{String, Bool, true, false, ◌≡◌, refl, Option, none, some, ap, ◌∙◌}
use haproxy_operator.Haproxy.Errors.{Error, Result, ok, err}
use haproxy_operator.Platform.{ApiConfig, Client, Platform}
use haproxy_operator.Act.{State, Act, pure, gets, ◌>>=◌, or_error, modify}
use haproxy_operator.Act.Keeps.{
  Ensures, Ensures-bind, Ensures-on_error, Ensures-or_error, Ensures-if, Ensures-pure,
}
use haproxy_operator.Controller.Connect.{
  is_set, new_client, new_client_with_transport, keep_client, connect, get_or_create_client,
}

-- A client that is handed out is the one that is kept.
abbrev Keeping : {p : Platform} → Result Client → State p → Type 0
Keeping (ok c) s = s.reconciler.haproxy_client ≡ some c
Keeping (err e) s = Unit {0}

Keeping-keep_client :
    {p : Platform} (spire : Bool) (c : Client)
    → Ensures {p = p} (λ _. Unit {0}) (keep_client spire c) Keeping
unfolding keep_client ◌>>=◌ modify pure
Keeping-keep_client spire c = record { at = λ s _. refl }

Keeping-made :
    {p : Platform} (made : Act p (Result Client)) (fail_with : Error → Act p (Result Client))
    (keep : Client → Act p (Result Client))
    → ((e : Error) → Ensures (λ _. Unit {0}) (fail_with e) Keeping)
    → ((c : Client) → Ensures (λ _. Unit {0}) (keep c) Keeping)
    → Ensures {p = p} (λ _. Unit {0}) (made >>= λ r. or_error r fail_with keep) Keeping
Keeping-made made fail_with keep failed kept =
    Ensures-bind {R = λ _ _. Unit {0}} _ _ (record { at = λ s _. tt })
      (λ r. Ensures-or_error r _ _ (λ e _. failed e) (λ c _. kept c))

Keeping-connect :
    {p : Platform} (path : String) (cfg : ApiConfig)
    → Ensures {p = p} (λ _. Unit {0}) (connect none path cfg) Keeping
unfolding connect
Keeping-connect path cfg =
    Ensures-if (is_set path) _ _
      (λ _.
        Ensures-bind {R = λ _ _. Unit {0}} _ _ (record { at = λ s _. tt })
          (λ failure.
            Ensures-on_error failure _ _ (λ e _. Ensures-pure _ (λ s _. tt))
              (λ _.
                Keeping-made (new_client_with_transport cfg) _ _
                  (λ e.
                    Ensures-bind {R = λ _ _. Unit {0}} _ _ (record { at = λ s _. tt })
                      (λ _. Ensures-pure _ (λ s _. tt)))
                  (Keeping-keep_client true))))
      (λ _.
        Keeping-made (new_client cfg) _ _ (λ e. Ensures-pure _ (λ s _. tt))
          (Keeping-keep_client false))

-- What the call does, by whether a client is there.
connect_lem :
    {p : Platform} (s : State p)
    → get_or_create_client s
      ≡ connect s.reconciler.haproxy_client s.reconciler.spire_socket_path s.reconciler.api_config s
unfolding get_or_create_client ◌>>=◌ gets
connect_lem s = refl

connect-some :
    {p : Platform} (o : Option Client) (path : String) (cfg : ApiConfig) (c : Client) (s : State p)
    → o ≡ some c
    → connect o path cfg s ≡ (ok c, s)
unfolding connect pure
connect-some o path cfg c s h = rw h

Keeping-get_or_create_client :
    {p : Platform} (s : State p) → Keeping (get_or_create_client s).0 (get_or_create_client s).1
Keeping-get_or_create_client s = rw (connect_lem s) (cases s.reconciler.haproxy_client refl)
  where
    cases :
        (o : Option Client)
        → s.reconciler.haproxy_client ≡ o
        → Keeping
            (connect o s.reconciler.spire_socket_path s.reconciler.api_config s).0
            (connect o s.reconciler.spire_socket_path s.reconciler.api_config s).1
    cases none h = (Keeping-connect s.reconciler.spire_socket_path s.reconciler.api_config).at s tt
    cases (some c) h =
        rw (connect-some (some c) s.reconciler.spire_socket_path s.reconciler.api_config c s refl) h

-- Once a call of `getOrCreateClient` has returned a client, the next one returns the same client
-- and changes nothing: no file is read, no SPIRE source is opened.
pub get_or_create_client-idempotent :
    {p : Platform} (s : State p) (c : Client)
    → (get_or_create_client s).0 ≡ ok c
    → get_or_create_client (get_or_create_client s).1 ≡ (ok c, (get_or_create_client s).1)
get_or_create_client-idempotent s c made =
    connect_lem (get_or_create_client s).1
    ∙ connect-some _ _ _ c (get_or_create_client s).1
        (kept (get_or_create_client s).0 made (Keeping-get_or_create_client s))
  where
    kept :
        (r : Result Client)
        → r ≡ ok c
        → Keeping r (get_or_create_client s).1
        → (get_or_create_client s).1.reconciler.haproxy_client ≡ some c
    kept (ok c') e h = let same : c' ≡ c = cc in h ∙ ap some same
    kept (err x) e h = cc
