-- ===== src/Metrics/Current.antt =====
-- What the gauge that StartClientCertWatcher keeps in internal/metrics/cert_expiry.go holds.
use haproxy_operator.Base.{
  ℕ, zero, suc, String, ◌≡◌, refl, sym, ap, Option, none, some, List, [], ◌∷◌,
}
use haproxy_operator.Haproxy.Errors.{Error, Result, ok, err}
use haproxy_operator.Platform.{dataplane_client_cert_expiry, Effect, gauged, Platform}
use haproxy_operator.Act.{Act, State, pure, gets, ◌>>=◌, ◌>>◌, on_error, or_error, perform, pause}
use haproxy_operator.Metrics.{
  cert_file_not_after, observe_dataplane_client_cert, observe_client_cert_file, observe, watch,
  start_client_cert_watcher,
}

-- The value of the client certificate's gauge after the effects of a log.
abbrev pub client_cert_gauge : List Effect → Option ℕ
client_cert_gauge [] = none
client_cert_gauge (gauged dataplane_client_cert_expiry x ∷ log) = some x
client_cert_gauge (e ∷ log) = client_cert_gauge log

-- What the gauge should hold: the expiry in the file, and 0 for a file without one.
abbrev pub healthy : Result ℕ → ℕ
healthy (ok x) = x
healthy (err e) = 0

-- The gauge is that of the file as it is now.
abbrev pub IsCurrent : (p : Platform) → String → State p → Type 0
IsCurrent p path s = client_cert_gauge s.log ≡ some (healthy (cert_file_not_after p path s.world))

observe-IsCurrent :
    {p : Platform} (path : String) (s : State p) → IsCurrent p path (observe path s).1
unfolding observe observe_client_cert_file observe_dataplane_client_cert ◌>>=◌ gets or_error
    on_error pure perform
observe-IsCurrent {p} path s = by_result (cert_file_not_after p path s.world) refl
  where
    by_result :
        (r : Result ℕ)
        → cert_file_not_after p path s.world ≡ r
        → IsCurrent p path (observe path s).1
    by_result (ok x) e = rw e (ap (λ r. some (healthy r)) (sym e))
    by_result (err f) e = rw e (ap (λ r. some (healthy r)) (sym e))

-- A round of the loop, whatever the later ones do.
round-IsCurrent :
    {p : Platform} (path : String) (later : Act p (Option Error)) (ended : Option Error)
    (s : State p)
    → ((t : State p) → IsCurrent p path t → (later t).0 ≡ none → IsCurrent p path (later t).1)
    → (on_error ended (λ e. pure (some e)) (observe path >> later) s).0 ≡ none
    → IsCurrent p path (on_error ended (λ e. pure (some e)) (observe path >> later) s).1
unfolding on_error ◌>>=◌ pure
round-IsCurrent path later none s rest h = rest (observe path s).1 (observe-IsCurrent path s) h
round-IsCurrent path later (some e) s rest h = cc

watch-IsCurrent :
    {p : Platform} (rounds interval : ℕ) (path : String) (s : State p)
    → IsCurrent p path s
    → (watch rounds interval path s).0 ≡ none
    → IsCurrent p path (watch rounds interval path s).1
unfolding watch pure ◌>>=◌
watch-IsCurrent zero interval path s current h = current
watch-IsCurrent {p} (suc rounds) interval path s current h =
    round-IsCurrent path (watch rounds interval path) (pause interval s).0 (pause interval s).1
      (watch-IsCurrent rounds interval path) h

-- At every round of the watcher, for every state that it starts in and every course of the
-- surroundings, while the context has not ended: the client certificate's gauge is set, to the
-- expiry that the file holds now, or to 0 when the file cannot be read or holds no certificate that
-- parses. So no earlier value is left standing.
pub start_client_cert_watcher-IsCurrent :
    {p : Platform} (rounds interval : ℕ) (path : String) (s : State p)
    → (start_client_cert_watcher rounds interval path s).0 ≡ none
    → IsCurrent p path (start_client_cert_watcher rounds interval path s).1
unfolding start_client_cert_watcher ◌>>=◌
start_client_cert_watcher-IsCurrent rounds interval path s h =
    watch-IsCurrent rounds interval path (observe path s).1 (observe-IsCurrent path s) h
