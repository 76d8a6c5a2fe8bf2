-- ===== src/Tests/Secrets.antt =====
-- The theorems on alerts and on the event filter at concrete inputs.
use haproxy_operator.Base.{codes, text_eq, false, ◌≡◌, refl, some, []}
use haproxy_operator.Base.Map
use haproxy_operator.Base.Map.{Map}
use haproxy_operator.Base.{Text, ◌∷◌}
use haproxy_operator.Status.Reasons
use haproxy_operator.Platform.{
  Secret, emitted, gauged, increased, warning, config_drift, config_in_sync,
}
use haproxy_operator.Act.{State}
use haproxy_operator.Controller.Reconcile.{requeue}
use haproxy_operator.Controller.Annotations.{last_failed_hash_annotation}
use haproxy_operator.Controller.Reconcile.{handle_drift}
use haproxy_operator.Controller.Protocol.{note_at}
use haproxy_operator.Controller.Alert.{handle_drift-only_alerts}
use haproxy_operator.Controller.Noticed.{is_relevant_update-misses_nothing}
use haproxy_operator.Controller.Annotations.{
  is_operator_key, is_relevant_update, deep_equal, strip_operator_annotations, foreign_writes,
  same_value,
}
use haproxy_operator.Tests.Gateway.{gateway, reconciler, fresh, config_secret}

-- The Secret on the server has suppressed the bytes "good".
abbrev suppressed : Secret
suppressed = record (config_secret (codes "good")) {
  annotations = some (Map.insert last_failed_hash_annotation (codes "#good") []);
}

abbrev alert_only : State (gateway [])
alert_only = record (fresh []) { reconciler = record reconciler { drift_remediate = false } }

handle_drift-only_alerts_example :
    let after = handle_drift {p = gateway []} suppressed (codes "new") (codes "#new") alert_only in
    (after.1.world ≡ 1000)
    × (after.0 ≡ requeue 300000000000)
    × ((message : Text) × (after.1.log
          ≡ emitted "haproxy-config" warning Reasons.config_drift message
            ∷ gauged (config_in_sync "haproxy-config") 0
            ∷ increased (config_drift "haproxy-config")
            ∷ []))
handle_drift-only_alerts_example =
    handle_drift-only_alerts {p = gateway []} suppressed (codes "new") (codes "#new") alert_only
      refl refl

is_relevant_update-misses_nothing_example :
    (Map.lookup "site" (Map.writes suppressed.labels)
      ≡ Map.lookup "site" (Map.writes (config_secret (codes "good")).labels))
    × (Map.lookup "site" (Map.writes suppressed.contents)
        ≡ Map.lookup "site" (Map.writes (config_secret (codes "good")).contents))
    × (is_operator_key "site" ≡ false
        → note_at "site" suppressed ≡ note_at "site" (config_secret (codes "good")))
unfolding is_relevant_update deep_equal strip_operator_annotations foreign_writes same_value
    Map.lookup Map.writes Map.absent Map.all_absent text_eq
is_relevant_update-misses_nothing_example =
    is_relevant_update-misses_nothing (config_secret (codes "good")) suppressed refl "site"
