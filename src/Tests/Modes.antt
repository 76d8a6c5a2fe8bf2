-- ===== src/Tests/Modes.antt =====
-- The theorems on the local mode, on the flags and on the manager at concrete inputs.
use haproxy_operator.Base.{codes, String, true, false, ◌≡◌, refl, some, none, List, [], ◌∷◌}
use haproxy_operator.Act.{State}
use haproxy_operator.Haproxy.Errors.{opaque, leaf}
use haproxy_operator.Local.{Runner, Op, Notice, done, event, watch_error, run_loop}
use haproxy_operator.Local.Laws.{run_loop-follow, follow, turns}
use haproxy_operator.Controller.Reconcile.{finished, reconcile}
use haproxy_operator.Controller.Manager.{Manager, set_up_with_manager}
use haproxy_operator.Setup.{
  with_scheme, Flags, default_flags, env_or, fill_in, manager_options, new_reconciler, launch,
  manager, insecure_active, unless_empty,
}
use haproxy_operator.Base.Split.{join}
use haproxy_operator.Setup.Split.{certs_secret_names_of, is_space}
use haproxy_operator.Setup.Names.{certs_secret_names_of-join}
use haproxy_operator.Setup.Started.{launch-watches_one}
use haproxy_operator.Tests.Gateway.{gateway, fresh, plain_client}

abbrev pub runner : Runner
runner = record { cfg_path = "/etc/haproxy/haproxy.cfg"; client = plain_client; watch = true }

abbrev written : Op
written = record { create = false; write = true; remove = false; rename = false; chmod = false }

abbrev touched : Op
touched = record { create = false; write = false; remove = false; rename = false; chmod = true }

abbrev pub notices : List Notice
notices =
    event "/etc/haproxy/haproxy.cfg" touched
    ∷ event "/etc/haproxy/haproxy.cfg" written
    ∷ watch_error (leaf opaque (codes "overflow"))
    ∷ done (leaf opaque (codes "context canceled"))
    ∷ []

run_loop-follow_example :
    run_loop {p = gateway []} runner (codes "#a") notices (fresh [])
    ≡ follow runner (codes "#a") (turns runner.cfg_path notices) (fresh [])
run_loop-follow_example = run_loop-follow {p = gateway []} runner (codes "#a") notices (fresh [])

abbrev names : List String
names = "site" ∷ "api" ∷ []

certs_secret_names_of-join_example : certs_secret_names_of "site,api" ≡ "site" ∷ "api" ∷ []
unfolding is_space join
certs_secret_names_of-join_example = certs_secret_names_of-join names (
  (refl, refl, (refl, refl, (refl, refl, (refl, refl, tt)))),
  ((refl, refl, (refl, refl, (refl, refl, tt))), tt),
)

-- No variable of the environment is set.
abbrev pub flags : Flags
flags = default_flags (λ k. "")

abbrev pub mgr : Manager
mgr = record { add = none; add_readyz_check = none; complete = none }

abbrev started : State (gateway [])
started = record (fresh []) {
  reconciler = (set_up_with_manager mgr (new_reconciler (fill_in flags))).1;
}

launch-watches_one_example :
    ((n : String) × ((manager_options (fill_in flags)).default_namespace ≡ some n))
    × (launch (gateway []) flags
        ≡ manager
            (manager_options (fill_in flags))
            (new_reconciler (fill_in flags))
            (insecure_active flags)
            (unless_empty flags.dataplane_client_cert))
    × (reconcile {p = gateway []} "edge" "other" started ≡ (finished, started))
unfolding default_flags env_or fill_in set_up_with_manager certs_secret_names_of
launch-watches_one_example =
    launch-watches_one (gateway []) flags mgr "edge" "other" started refl refl (λ e. cc) refl

-- The default address, reached over plain HTTP.
local_address : with_scheme (gateway []) "https://lb:5555/v3" "http" ≡ some "http://lb:5555/v3"
unfolding with_scheme
local_address = refl
