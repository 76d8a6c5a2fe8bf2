-- ===== src/Tests.antt =====
-- Small runs of the model on a concrete gateway, and the theorems at concrete inputs.
pub mod Gateway
pub mod Parts
pub mod Secrets
pub mod Modes
pub mod Tls
pub mod Healthy
pub mod Requests
pub mod Cluster
pub mod Keeping
pub mod Exits
use haproxy_operator.Base.{String, Text, codes, text_eq, decimal, true, ◌≡◌, refl, List, [], ◌∷◌}
use haproxy_operator.Base.Map
use haproxy_operator.Base.Map.{Map}
use haproxy_operator.Haproxy.Errors.{
  classify, version_class, classify_with, is_local_rejection, as_api_error, classify_http_status,
  is_config_rejected, message,
}
use haproxy_operator.Haproxy.Results
use haproxy_operator.Haproxy.Verify
use haproxy_operator.Haproxy.Client.{
  validate_raw_configuration, get_config_version, request, build, observe, conclude, post_plain,
  add_or_replace_query, new_api_error, get_raw_configuration, raw_body,
  apply_raw_configuration_validated, wait_for_ready, poll_ready, apply_raw,
}
use haproxy_operator.Config.{validate}
use haproxy_operator.Controller.Connect.{
  get_or_create_client, connect, new_client, parsed_url, check_config, build_transport, keep_client,
}
use haproxy_operator.Platform.{Effect}
use haproxy_operator.Act.{
  ◌>>=◌, or_error, get_secret, when, modify, on_error, exchange, patch_secret, perform, pause,
}
use haproxy_operator.Status.{
  sanitize_message, emit_event, event_type, is_warning, clean, rewritten, rune_rest,
}
use haproxy_operator.Controller.Annotations.{fail_with_status, patch_annotations, mutated}
use haproxy_operator.Controller.Backoff.{backoff_for_failure}
use haproxy_operator.Controller.Reconcile.{
  Outcome, finished, requeue, reconcile, reconcile_config, reconcile_contents, apply_desired,
  sync_then_apply, validate_and_apply, refused, rejection, with_status, export_config_hash,
  transient_failure, back_off, record_applied,
}
use haproxy_operator.Controller.Safety.{
  ValidatedFirst, reconcile-ValidatedFirst, EachPatch, SuppressesRefused, RecordsApplied,
  reconcile-SuppressesRefused, reconcile-RecordsApplied,
}
use haproxy_operator.Controller.Events.{WakesNobody, reconcile-WakesNobody}
use haproxy_operator.Controller.Series.{is_exported, reconcile_all-exports_one}
use haproxy_operator.Controller.Connect.{check_files, check_key_pair}
use haproxy_operator.Controller.Connect.Verified.{IsGuarded, new_client-IsGuarded}
use haproxy_operator.Controller.Timely.{reconcile-Bounded, reconcile_config-Repeated}
use haproxy_operator.Controller.Timely.Repeats.{Bounded, Repeated}
use haproxy_operator.Tests.Gateway.{
  gateway, fresh, filled, config_secret, secure_config, secure_client,
}

-- The reconciliation of a new configuration: what it returns, and its log.
log_of : Text → List Effect
unfolding reconcile ◌>>=◌ or_error get_secret reconcile_config reconcile_contents Map.lookup
    Map.writes text_eq apply_desired get_or_create_client connect when modify new_client parsed_url
    on_error check_config build_transport keep_client sync_then_apply validate_and_apply validate
    validate_raw_configuration get_config_version request exchange build observe conclude post_plain
    add_or_replace_query decimal refused rejection with_status fail_with_status patch_annotations
    mutated patch_secret export_config_hash perform emit_event classify classify_with version_class
    new_api_error is_local_rejection as_api_error classify_http_status is_config_rejected message
    transient_failure back_off backoff_for_failure record_applied get_raw_configuration raw_body
    apply_raw_configuration_validated wait_for_ready poll_ready apply_raw pause event_type
    is_warning sanitize_message clean rewritten rune_rest
log_of raw = (reconcile {p = gateway raw} "edge" "haproxy-config" (fresh raw)).1.log

outcome_of : Text → Outcome
unfolding reconcile ◌>>=◌ or_error get_secret reconcile_config reconcile_contents Map.lookup
    Map.writes text_eq apply_desired get_or_create_client connect when modify new_client parsed_url
    on_error check_config build_transport keep_client sync_then_apply validate_and_apply validate
    validate_raw_configuration get_config_version request exchange build observe conclude post_plain
    add_or_replace_query decimal refused rejection with_status fail_with_status patch_annotations
    mutated patch_secret export_config_hash perform emit_event classify classify_with version_class
    new_api_error is_local_rejection as_api_error classify_http_status is_config_rejected message
    transient_failure back_off backoff_for_failure record_applied get_raw_configuration raw_body
    apply_raw_configuration_validated wait_for_ready poll_ready apply_raw pause event_type
    is_warning sanitize_message clean rewritten rune_rest
outcome_of raw = (reconcile {p = gateway raw} "edge" "haproxy-config" (fresh raw)).0

-- A request for another Secret is left alone; the two configurations are applied and refused.
other_name : (reconcile {p = gateway []} "edge" "other" (fresh [])).0 ≡ finished
unfolding reconcile ◌>>=◌
other_name = refl

good_outcome : outcome_of (codes "good") ≡ requeue 300000000000
unfolding outcome_of
good_outcome = refl

good_exported : is_exported (codes "#good") "applied" (log_of (codes "good")) ≡ true
unfolding log_of
good_exported = refl

bad_exported : is_exported (codes "#bad") "rejected" (log_of (codes "bad")) ≡ true
unfolding log_of
bad_exported = refl

reconcile-ValidatedFirst_example :
    ValidatedFirst
      (reconcile {p = gateway (codes "good")} "edge" "haproxy-config" (fresh (codes "good"))).1.log
reconcile-ValidatedFirst_example =
    reconcile-ValidatedFirst {p = gateway (codes "good")} "edge" "haproxy-config"
      (fresh (codes "good")) refl

reconcile-SuppressesRefused_example :
    EachPatch
      (SuppressesRefused (gateway (codes "bad")))
      (reconcile {p = gateway (codes "bad")} "edge" "haproxy-config" (fresh (codes "bad"))).1.log
reconcile-SuppressesRefused_example =
    reconcile-SuppressesRefused {p = gateway (codes "bad")} "edge" "haproxy-config"
      (fresh (codes "bad")) refl

reconcile-RecordsApplied_example :
    EachPatch
      (RecordsApplied (gateway (codes "good")))
      (reconcile {p = gateway (codes "good")} "edge" "haproxy-config" (fresh (codes "good"))).1.log
reconcile-RecordsApplied_example =
    reconcile-RecordsApplied {p = gateway (codes "good")} "edge" "haproxy-config"
      (fresh (codes "good")) refl

reconcile-WakesNobody_example :
    EachPatch WakesNobody
      (reconcile {p = gateway (codes "good")} "edge" "haproxy-config" (fresh (codes "good"))).1.log
reconcile-WakesNobody_example =
    reconcile-WakesNobody {p = gateway (codes "good")} "edge" "haproxy-config"
      (fresh (codes "good")) refl

reconcile_all-exports_one_example :
    (codes "#good" ≡ codes "#good") × (◌≡◌ {A = String} "applied" "applied")
unfolding log_of
reconcile_all-exports_one_example =
    reconcile_all-exports_one {p = gateway (codes "good")} (filled (codes "good"))
      (("edge", "haproxy-config") ∷ ("edge", "other") ∷ []) (fresh (codes "good")) refl
      (codes "#good") (codes "#good") "applied" "applied" refl refl

reconcile-Bounded_example :
    Bounded (reconcile {p = gateway (codes "bad")} "edge" "haproxy-config" (fresh (codes "bad"))).0
reconcile-Bounded_example =
    reconcile-Bounded {p = gateway (codes "bad")} "edge" "haproxy-config" (fresh (codes "bad"))

reconcile_config-Repeated_example :
    Repeated (reconcile_config {p = gateway []} (config_secret (codes "bad")) (fresh [])).0
reconcile_config-Repeated_example =
    reconcile_config-Repeated {p = gateway []} (config_secret (codes "bad")) (fresh []) refl

new_client-IsGuarded_example : IsGuarded secure_client
unfolding outcome_of check_files check_key_pair Verify.load_ca_pool Results.and_then Results.wrapped
new_client-IsGuarded_example =
    new_client-IsGuarded {p = gateway []} secure_config (fresh []) secure_client refl
