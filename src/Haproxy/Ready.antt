-- ===== src/Haproxy/Ready.antt =====
-- The loop of waitForReady in internal/haproxy/dataplane_client.go, on a clock that does not go
-- back.
use haproxy_operator.Base.{ℕ, ◌+◌, ◌≤◌, ◌≡◌, Option, none, some}
use haproxy_operator.Haproxy.Errors.{Error, Result}
use haproxy_operator.Haproxy.Client.{ready_poll_interval}
use haproxy_operator.Platform.{Client, HttpRequest, Platform}
use haproxy_operator.Act.{State, Act, pure, ◌>>=◌, on_error, or_error, pause}
use haproxy_operator.Act.Keeps.{Keeps}

-- A request takes no negative time, and a wait that is not cut short takes its time.
pub record IsClock (p : Platform) : Type 0 where
  pub after_request :
      (c : Client) (r : HttpRequest) (w : p.World) → p.now w ≤ p.now (p.round_trip c r w).1
  pub after_pause :
      (ms : ℕ) (w : p.World) → (p.pause ms w).0 ≡ none → p.now w + ms ≤ p.now (p.pause ms w).1

-- It is that time, or later.
abbrev Since : {p : Platform} → ℕ → State p → Type 0
Since {p} t s = t ≤ p.now s.world

-- The end of a round: ready, or a wait before what comes next.
abbrev end_round : {p : Platform} → Result ℕ → (Error → Act p (Option Error)) → Act p (Option Error)
end_round r next =
    or_error r
      (λ e.
        pause ready_poll_interval >>= λ ended. on_error ended (λ done. pure (some done)) (next e))
      (λ _. pure none)
