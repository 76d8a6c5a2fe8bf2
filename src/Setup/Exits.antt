-- ===== src/Setup/Exits.antt =====
-- The exit status of main.go.
use haproxy_operator.Base.{
  String, Option, none, some, if◌then◌else◌, ◌===◌, not, ap, ◌∙◌, ◌==◌, false, refl, Bool, ◌&&◌,
  arith, true, List, ◌≡◌,
}
use haproxy_operator.Haproxy.Errors.{Cause}
use haproxy_operator.Platform.{ApiConfig, Platform}
use haproxy_operator.Act.{Reconciler, State}
use haproxy_operator.Act.Keeps.{Ensures-or_error, Ensures-pure, Yields, Yields-then, Yields-any}
use haproxy_operator.Controller.Manager.{set_up_with_manager}
use haproxy_operator.Local.Stops.{IsUninterrupted, NoneEnds, OtherEnd-run}
use haproxy_operator.Local.{Notice, returned, running}
use haproxy_operator.Setup.{
  fill_in, new_reconciler, manager_options, insecure_active, unless_empty, downgrade, start_local,
  Flags, Launch, usage_error, local_run, manager, launch,
}
use haproxy_operator.Setup.Process.{
  runner, Boot, Ending, exited, serving, manager_status, local_status, run_local, carry_out, main,
}

-- The exit status says that all is well.
abbrev pub succeeded : Ending → Bool
succeeded (exited n) = n == 0
succeeded (serving h) = false

abbrev well : Option Cause → Bool
well none = true
well (some c) = false

-- controller-runtime answers nothing with an error, and its manager ends with none.
abbrev pub all_well : Boot → Bool
all_well boot =
    well boot.rest_config
    && (well boot.new_manager
        && (well boot.mgr.add
            && (well boot.mgr.add_readyz_check
                && (well boot.mgr.complete && (well boot.add_healthz_check && well boot.start)))))

manager_status-eq_zero :
    (boot : Boot) (r : Reconciler) → (manager_status boot r == 0) ≡ all_well boot
unfolding manager_status set_up_with_manager
manager_status-eq_zero boot r = ground arith

abbrev is_manager : Launch → Bool
is_manager (manager options r insecure cert) = true
is_manager _ = false

is_manager-launch : (p : Platform) (f : Flags) → is_manager (launch p f) ≡ not (f.mode === "local")
unfolding launch
is_manager-launch p f = by_mode (f.mode === "local") (f.local_config_path === "") (downgrade p f)
  where
    by_mode :
        (local empty : Bool) (o : Option Flags)
        → is_manager (
            if local
            then if empty then usage_error else start_local p f.local_config_path f.local_watch o
            else manager
                (manager_options (fill_in f))
                (new_reconciler (fill_in f))
                (f.mode === "k8s" && insecure_active f)
                (unless_empty f.dataplane_client_cert))
          ≡ not local
    by_mode true true o = refl
    by_mode true false none = refl
    by_mode true false (some g) = refl
    by_mode false empty o = refl

-- A local run watches its file.
abbrev Watches : Launch → Type 0
Watches (local_run cfg path watch) = watch ≡ true
Watches _ = Unit {0}

Watches-launch :
    (p : Platform) (f : Flags)
    → ((f.mode === "local") ≡ true → f.local_watch ≡ true)
    → Watches (launch p f)
unfolding launch
Watches-launch p f h = by_mode (f.mode === "local") h (f.local_config_path === "") (downgrade p f)
  where
    by_mode :
        (local : Bool)
        → (local ≡ true → f.local_watch ≡ true)
        → (empty : Bool) (o : Option Flags)
        → Watches (
            if local
            then if empty then usage_error else start_local p f.local_config_path f.local_watch o
            else manager
                (manager_options (fill_in f))
                (new_reconciler (fill_in f))
                (f.mode === "k8s" && insecure_active f)
                (unless_empty f.dataplane_client_cert))
    by_mode true i true o = tt
    by_mode true i false none = tt
    by_mode true i false (some g) = i refl
    by_mode false i empty o = tt

module _ {p : Platform} (uninterrupted : IsUninterrupted p) where
  fails-run_local :
      (cfg : ApiConfig) (path : String) (watch : Bool) (notices : List Notice)
      → NoneEnds notices
      → watch ≡ true
      → Yields {p = p} (run_local cfg path watch notices) (λ r. succeeded (local_status r) ≡ false)
  unfolding run_local local_status
  fails-run_local cfg path watch notices still watches = Yields-then _ _ (Yields-any _) λ made _.
      Ensures-or_error made _ _ (λ e _. Ensures-pure _ (λ s _. refl))
        λ c _.
          Yields-then _ _ (OtherEnd-run uninterrupted (runner path watch c) notices still watches)
            (elim [
              | returned e ↦ (λ h. Ensures-pure _ (λ s _. rw h refl))
              | running hash ↦ (λ h. Ensures-pure _ (λ s _. refl))
            ])

  succeeds-carry_out :
      (boot : Boot) (notices : List Notice) (l : Launch)
      → NoneEnds notices
      → Watches l
      → Yields {p = p}
          (carry_out boot notices l)
          (λ e. succeeded e ≡ (is_manager l && all_well boot))
  unfolding carry_out
  succeeds-carry_out boot notices usage_error still watches = Ensures-pure _ (λ s _. refl)
  succeeds-carry_out boot notices (local_run cfg path watch) still watches =
      Yields-then _ _ (fails-run_local cfg path watch notices still watches)
        (λ exit h. Ensures-pure _ (λ s _. h))
  succeeds-carry_out boot notices (manager options r insecure cert) still watches =
      Ensures-pure _ (λ s _. manager_status-eq_zero boot r)

-- Where the context goes on, for all flags that have a local run watch its file, all answers of
-- controller-runtime, and every state and sequence of notices without the end of the context: `main`
-- ends with the exit status 0 exactly if its mode is not local and controller-runtime answered
-- everything without an error, the end of the manager included. So no failure of the local mode looks
-- like a regular end.
pub main-succeeded :
    {p : Platform} (uninterrupted : IsUninterrupted p) (f : Flags) (boot : Boot)
    (notices : List Notice) (s : State p)
    → NoneEnds notices
    → ((f.mode === "local") ≡ true → f.local_watch ≡ true)
    → succeeded (main f boot notices s).0 ≡ (not (f.mode === "local") && all_well boot)
unfolding main
main-succeeded {p} uninterrupted f boot notices s still watches =
    (succeeds-carry_out uninterrupted boot notices (launch p f) still
        (Watches-launch p f watches)).at
      s tt
    ∙ ap (λ b. b && all_well boot) (is_manager-launch p f)
