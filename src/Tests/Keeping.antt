-- ===== src/Tests/Keeping.antt =====
-- Repeated reconciliations on a gateway and a cluster that keep what they are given.
use haproxy_operator.Base.{codes, text_eq, true, false, ◌≡◌, refl, none, some, [], List, ◌∷◌}
use haproxy_operator.Base.Map
use haproxy_operator.Base.Map.{Map}
use haproxy_operator.Haproxy.Errors.{leaf, opaque}
use haproxy_operator.Platform.{Secret}
use haproxy_operator.Act.{State}
use haproxy_operator.Controller.Annotations.{
  last_failed_hash_annotation, last_observed_hash_annotation, last_applied_hash_annotation,
}
use haproxy_operator.Controller.Backoff.{requeue_interval}
use haproxy_operator.Controller.Reconcile.{requeue, reconcile}
use haproxy_operator.Controller.Series.{reconcile_all}
use haproxy_operator.Controller.Settles.{again, reconcile-Settles}
use haproxy_operator.Controller.Settles.Delivered.{Delivered}
use haproxy_operator.Controller.Settles.Rests.{changes}
use haproxy_operator.Controller.Settles.Restores.{reconcile-Restores}
use haproxy_operator.Tests.Healthy.{managed}
use haproxy_operator.Controller.Waits.{reconcile-Waits}
use haproxy_operator.Local.{Notice, event, watch_error, running, run_loop}
use haproxy_operator.Base.{◌⊎◌}
use haproxy_operator.Controller.Protocol.{applied}
use haproxy_operator.Local.Serves.{IsServed, run_loop-catches_up}
use haproxy_operator.Tests.Modes.{runner}
use haproxy_operator.Tests.Gateway.{reconciler, config_secret, plain_client}
use haproxy_operator.Tests.Cluster.{keeping, keeping_stores, keeping-AllPushable}

-- The gateway runs nothing yet.
abbrev bare_start : State keeping
bare_start = record {
  reconciler = record reconciler {
    haproxy_client = some plain_client;
    certs_secret_names = managed;
  };
  log = [];
  world = record { clock = 1000; runs = []; annotations = none; site_annotations = none };
}

reconcile-Settles_example :
    let once = (reconcile {p = keeping} "edge" "haproxy-config" bare_start).1 in
    let later = reconcile_all (again 2 "edge" "haproxy-config") once in
    (later.world.runs ≡ codes "good")
    × (changes later.log ≡ changes once.log)
    × ((reconcile "edge" "haproxy-config" later).0 ≡ requeue requeue_interval)
unfolding text_eq Map.lookup Map.writes keeping_stores
reconcile-Settles_example =
    reconcile-Settles keeping_stores plain_client (config_secret (codes "good")) (codes "good")
      bare_start 2 (λ e. cc) (refl, refl) (refl, (refl, refl), refl, keeping-AllPushable) refl refl
      refl

-- The bytes "good" were applied, and somebody has changed what the gateway runs.
abbrev recorded : Secret
recorded = record (config_secret (codes "good")) {
  annotations = some (
      Map.insert last_observed_hash_annotation (codes "#good")
        (Map.insert last_applied_hash_annotation (codes "#good") []));
}

abbrev edited : State keeping
edited = record bare_start {
  world = record {
    clock = 1000;
    runs = codes "edited";
    annotations = recorded.annotations;
    site_annotations = none;
  };
}

reconcile-Restores_example :
    Delivered keeping_stores plain_client
      (codes "good")
      recorded
      (reconcile {p = keeping} "edge" "haproxy-config" edited).0
      (reconcile {p = keeping} "edge" "haproxy-config" edited).1
unfolding text_eq Map.lookup Map.writes keeping_stores
reconcile-Restores_example =
    reconcile-Restores keeping_stores plain_client recorded (codes "good") edited (λ e. cc) refl
      refl (refl, refl) (refl, (refl, refl), refl, keeping-AllPushable) refl refl

-- The bytes "good" were rejected before.
abbrev rejected : Secret
rejected = record (config_secret (codes "good")) {
  annotations = some (Map.insert last_failed_hash_annotation (codes "#good") []);
}

abbrev held_back : State keeping
held_back = record bare_start {
  world = record {
    clock = 1000;
    runs = [];
    annotations = rejected.annotations;
    site_annotations = none;
  };
}

reconcile-Waits_example :
    ((reconcile {p = keeping} "edge" "haproxy-config" held_back).0 ≡ requeue requeue_interval)
    × ((reconcile {p = keeping} "edge" "haproxy-config" held_back).1.log ≡ held_back.log)
unfolding text_eq Map.lookup Map.writes
reconcile-Waits_example =
    reconcile-Waits {p = keeping} "edge" rejected (codes "good") held_back refl refl
      (((refl, refl), refl), refl)

keeping-IsServed : IsServed keeping runner.cfg_path (codes "frontend")
unfolding keeping_stores
keeping-IsServed = record {
  healthy = keeping_stores.answers;
  goes_on = λ w. refl;
  named = refl;
  holds = λ w. refl;
}

-- The file was written to, after an error of the watcher.
abbrev changes_seen : List Notice
changes_seen =
    watch_error (leaf opaque (codes "overflow"))
    ∷ event runner.cfg_path
        (record { create = false; write = true; remove = false; rename = false; chmod = false })
    ∷ []

run_loop-catches_up_example :
    ((codes "#old" ≡ keeping.sha256_hex (codes "frontend"))
      ⊎ (applied
            (codes "frontend")
            (run_loop {p = keeping} runner (codes "#old") changes_seen bare_start).1.log
          ≡ true))
    × ((run_loop {p = keeping} runner (codes "#old") changes_seen bare_start).0
        ≡ running (keeping.sha256_hex (codes "frontend")))
run_loop-catches_up_example =
    run_loop-catches_up {p = keeping} runner (codes "frontend") (codes "#old") changes_seen
      bare_start keeping-IsServed tt refl
