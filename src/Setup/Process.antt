-- ===== src/Setup/Process.antt =====
-- What main.go does once its flags are known, up to its exit status. In the mode local: the client,
-- then the runner. Otherwise the manager of controller-runtime, whose answers are a parameter.
use haproxy_operator.Base.{ℕ, String, Text, Option, none, some, if◌then◌else◌, Bool, List, [], ◌≡◌}
use haproxy_operator.Haproxy.Errors.{Cause, is_canceled, Result, ok, err}
use haproxy_operator.Platform.{ApiConfig, Client, Platform}
use haproxy_operator.Act.{Reconciler, State, Act, pure, ◌>>=◌, or_error}
use haproxy_operator.Act.Keeps.{Keeps, Ensures-bind, Ensures-or_error, Ensures-pure}
use haproxy_operator.Controller.Connect.{new_client}
use haproxy_operator.Controller.Protocol.{Closed}
use haproxy_operator.Controller.Protocol.Certs.{Keeps-new_client}
use haproxy_operator.Controller.Safety.{ValidatedFirst, ValidatedFirst-of, Closed-AllJustified}
use haproxy_operator.Controller.Manager.{Manager, set_up_with_manager}
use haproxy_operator.Local.{Runner, Notice, Exit, returned, running, run}
use haproxy_operator.Setup.{Flags, Launch, usage_error, local_run, manager, launch}
use haproxy_operator.Local.Keeps.{Ensures-run}

abbrev pub runner : String → Bool → Client → Runner
runner path watch c = record { cfg_path = path; client = c; watch = watch }

-- What controller-runtime answers: the configuration of its client, `ctrl.NewManager`, the
-- registrations, `AddHealthzCheck` and `mgr.Start`, which returns when the manager has ended.
pub record Boot : Type 0 where
  pub rest_config : Option Cause
  pub new_manager : Option Cause
  pub mgr : Manager
  pub add_healthz_check : Option Cause
  pub start : Option Cause

-- How `main` stands: ended with that status, or watching the local file with that hash.
pub data Ending : Type 0 where
  exited : ℕ → Ending
  serving : Text → Ending

-- `os.Exit(1)` on an error, and the rest without one
abbrev pub unless_failed {ℓ} : {A : Type ℓ} → Option A → ℕ → ℕ
unless_failed none rest = rest
unless_failed (some e) rest = 1

-- The end of `main` in the mode k8s.
unfoldable pub manager_status : Boot → Reconciler → ℕ
manager_status boot r = unless_failed boot.rest_config (
    unless_failed boot.new_manager (
      unless_failed (set_up_with_manager boot.mgr r).0
        (unless_failed boot.add_healthz_check (unless_failed boot.start 0))))

-- The end of `main` in the mode local.
unfoldable pub local_status : Result Exit → Ending
local_status (err e) = exited 1
local_status (ok (returned e)) = if is_canceled e then exited 0 else exited 1
local_status (ok (running h)) = serving h

module _ {p : Platform} where
  -- The construction of the client and the run; a client that cannot be built ends the program.
  unfoldable pub run_local : ApiConfig → String → Bool → List Notice → Act p (Result Exit)
  run_local cfg path watch notices = do
    made ← new_client cfg
    or_error made (λ e. pure (err e))
        (λ c. do exit ← run (runner path watch c) notices; pure (ok exit))

  -- What `main` does after its decision.
  unfoldable pub carry_out : Boot → List Notice → Launch → Act p Ending
  unfolding local_status manager_status
  carry_out boot notices usage_error = pure (exited 1)
  carry_out boot notices (local_run cfg path watch) = do
    exit ← run_local cfg path watch notices
    pure (local_status exit)
  carry_out boot notices (manager options r insecure cert) = pure (exited (manager_status boot r))

  -- `main`, from the parsed flags on
  unfoldable pub main : Flags → Boot → List Notice → Act p Ending
  unfolding carry_out
  main f boot notices = carry_out boot notices (launch p f)

  Keeps-run_local :
      {P : State p → Type 0}
      → Closed P
      → (cfg : ApiConfig) (path : String) (watch : Bool) (notices : List Notice)
      → Keeps P (run_local cfg path watch notices)
  unfolding run_local
  Keeps-run_local k cfg path watch notices = Ensures-bind _ _ (Keeps-new_client k cfg) λ made.
      Ensures-or_error made _ _ (λ e _. Ensures-pure _ (λ s h. h))
        (λ c _.
          Ensures-bind _ _ (Ensures-run k (runner path watch c) notices)
            (λ exit. Ensures-pure _ (λ s h. h.0)))

-- In the mode local, from the construction of the client on, from every state with an empty log, for
-- every client configuration, file and sequence of notices: every POST that applies a raw
-- configuration comes after a POST of the same bytes with only_validate=true, answered with a 2xx status.
pub run_local-ValidatedFirst :
    {p : Platform} (cfg : ApiConfig) (path : String) (watch : Bool) (notices : List Notice)
    (s : State p)
    → s.log ≡ []
    → ValidatedFirst (run_local cfg path watch notices s).1.log
run_local-ValidatedFirst {p} cfg path watch notices s fresh =
    ValidatedFirst-of p _
      ((Keeps-run_local (Closed-AllJustified p) cfg path watch notices).at s (rw fresh tt))

Keeps-carry_out :
    {p : Platform} {P : State p → Type 0}
    → Closed P
    → (boot : Boot) (notices : List Notice) (l : Launch) → Keeps P (carry_out boot notices l)
unfolding carry_out
Keeps-carry_out k boot notices usage_error = Ensures-pure _ (λ s h. h)
Keeps-carry_out k boot notices (local_run cfg path watch) =
    Ensures-bind _ _ (Keeps-run_local k cfg path watch notices) (λ exit. Ensures-pure _ (λ s h. h))
Keeps-carry_out k boot notices (manager options r insecure cert) = Ensures-pure _ (λ s h. h)

-- For all flags, answers of controller-runtime and sequences of notices, from every state with an
-- empty log: whatever `main` itself and its local mode do, every POST that applies a raw configuration
-- comes after a POST of the same bytes with only_validate=true, answered with a 2xx status.
pub main-ValidatedFirst :
    {p : Platform} (f : Flags) (boot : Boot) (notices : List Notice) (s : State p)
    → s.log ≡ []
    → ValidatedFirst (main f boot notices s).1.log
unfolding main
main-ValidatedFirst {p} f boot notices s fresh =
    ValidatedFirst-of p _
      ((Keeps-carry_out (Closed-AllJustified p) boot notices (launch p f)).at s (rw fresh tt))
