-- ===== src/Tests/Exits.antt =====
-- The exit status on concrete answers.
use haproxy_operator.Base.{codes, ◌≡◌, refl, not, ◌&&◌, none, some, ◌===◌, []}
use haproxy_operator.Haproxy.Errors.{leaf, opaque, is_canceled}
use haproxy_operator.Setup.{Flags}
use haproxy_operator.Setup.Process.{Boot, main}
use haproxy_operator.Setup.Exits.{succeeded, all_well, main-succeeded}
use haproxy_operator.Setup.Process.{main-ValidatedFirst}
use haproxy_operator.Controller.Safety.{ValidatedFirst}
use haproxy_operator.Base.{List, ◌∷◌, true, false}
use haproxy_operator.Local.{Notice, event}
use haproxy_operator.Local.Stops.{IsUninterrupted}
use haproxy_operator.Tests.Gateway.{gateway, fresh}
use haproxy_operator.Tests.Modes.{flags, mgr, notices}

gateway-IsUninterrupted : IsUninterrupted (gateway [])
unfolding is_canceled
gateway-IsUninterrupted = record { ended = λ w. refl; watcher = λ w c e. cc }

-- The manager ends with an error.
abbrev failing : Boot
failing = record {
  rest_config = none;
  new_manager = none;
  mgr = mgr;
  add_healthz_check = none;
  start = some (leaf opaque (codes "leader election lost"));
}

abbrev local_flags : Flags
local_flags = record flags {
  mode = "local";
  local_config_path = "/etc/haproxy/haproxy.cfg";
  local_watch = true;
}

-- The file was written to.
abbrev seen : List Notice
seen =
    event "/etc/haproxy/haproxy.cfg"
      (record { create = false; write = true; remove = false; rename = false; chmod = false })
    ∷ []

main-succeeded_example :
    succeeded (main {p = gateway []} local_flags failing seen (fresh [])).0
    ≡ (not (local_flags.mode === "local") && all_well failing)
main-succeeded_example =
    main-succeeded {p = gateway []} gateway-IsUninterrupted local_flags failing seen (fresh []) tt
      (λ e. refl)

main-ValidatedFirst_example :
    ValidatedFirst (main {p = gateway []} local_flags failing notices (fresh [])).1.log
main-ValidatedFirst_example =
    main-ValidatedFirst {p = gateway []} local_flags failing notices (fresh []) refl
