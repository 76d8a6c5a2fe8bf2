-- ===== src/Tests/Healthy.antt =====
-- The theorems on a healthy gateway and on the ledger at concrete inputs.
use haproxy_operator.Base.{codes, String, refl, none, some, List, [], ◌∷◌, text_eq}
use haproxy_operator.Base.Map
use haproxy_operator.Platform.{answered, Secret, Platform}
use haproxy_operator.Act.{State}
use haproxy_operator.Haproxy.Healthy.{IsHealthy}
use haproxy_operator.Controller.Annotations.{
  last_observed_hash_annotation, last_applied_hash_annotation,
}
use haproxy_operator.Controller.Reconcile.{reconcile, compare_live}
use haproxy_operator.Controller.Series.{reconcile_all}
use haproxy_operator.Controller.Converges.Apply.{Converged}
use haproxy_operator.Base.{◌===◌, inr}
use haproxy_operator.Haproxy.Certificates.{leaf_round, leaf_serial_from, leaf_serial}
use haproxy_operator.Controller.Certs.{cert_pem_bundle}
use haproxy_operator.Controller.Converges.Pushes.{ReadsCertificates, AllPushable}
use haproxy_operator.Controller.Converges.Refused.{IsRefusing, Suppressed}
use haproxy_operator.Controller.Converges.{
  reconcile-Converged, reconcile-Suppressed, compare_live-repairs,
}
use haproxy_operator.Controller.Protocol.{is_raw_post}
use haproxy_operator.Haproxy.Client.{build}
use haproxy_operator.Base.{if◌then◌else◌}
use haproxy_operator.Controller.Ledger.{Reach}
use haproxy_operator.Controller.Ledger.View.{ledger}
use haproxy_operator.Controller.Ledger.Refines.{reconcile_all-Reach}
use haproxy_operator.Tests.Gateway.{gateway, fresh, reconciler, config_secret, plain_client}

-- The Secret of the managed certificate.
abbrev pub site : Secret
site = record {
  namespace = "edge";
  name = "site";
  labels = none;
  contents = some (Map.insert "tls.crt" (codes "c") (Map.insert "tls.key" (codes "k") []));
  annotations = none;
}

-- A gateway that takes every configuration, and a cluster with a certificate.
abbrev obliging : Platform
obliging = record (gateway (codes "good")) {
  round_trip = λ c r w. (
    answered (record { status = 200; peer_not_after = none; body = codes "good"; broken = none }),
    w,
  );
  get_secret =
      λ namespace name w. (inr (if name === "site" then site else config_secret (codes "good")), w);
}

obliging-IsHealthy : IsHealthy obliging
obliging-IsHealthy = record {
  answers = λ c r w. (refl, refl);
  versions = λ c t w. (7, refl);
  patches = λ before after w. refl;
}

obliging-ReadsCertificates : ReadsCertificates obliging
obliging-ReadsCertificates c name t w = (record { serial = []; size = 0 }, refl)

abbrev pub managed : List String
managed = "site" ∷ []

obliging-AllPushable : AllPushable obliging "edge" managed
unfolding cert_pem_bundle leaf_serial leaf_serial_from leaf_round Map.lookup Map.writes text_eq
obliging-AllPushable = ((λ w. (codes "c\nk\n", refl, tt)), tt)

abbrev connected : State obliging
connected = record {
  reconciler = record reconciler {
    haproxy_client = some plain_client;
    certs_secret_names = managed;
  };
  log = [];
  world = 1000;
}

reconcile-Converged_example :
    Converged {p = obliging}
      (codes "good")
      (reconcile {p = obliging} "edge" "haproxy-config" connected).0
      (reconcile {p = obliging} "edge" "haproxy-config" connected).1
unfolding text_eq Map.lookup Map.writes
reconcile-Converged_example =
    reconcile-Converged {p = obliging} obliging-IsHealthy obliging-ReadsCertificates plain_client
      "edge" (config_secret (codes "good")) (codes "good") connected (λ e. cc) (refl, refl) refl
      obliging-AllPushable (((refl, refl), refl), refl)

-- The bytes "good" were applied, and the gateway read back the same.
abbrev recorded : Secret
recorded = record (config_secret (codes "good")) {
  annotations = some (
      Map.insert last_observed_hash_annotation (codes "#good")
        (Map.insert last_applied_hash_annotation (codes "#good") []));
}

compare_live-repairs_example :
    Converged {p = obliging}
      (codes "good")
      (compare_live {p = obliging} recorded
        (codes "good")
        (codes "#good")
        (codes "#edited")
        connected).0
      (compare_live {p = obliging} recorded
        (codes "good")
        (codes "#good")
        (codes "#edited")
        connected).1
unfolding text_eq Map.lookup Map.writes
compare_live-repairs_example =
    compare_live-repairs {p = obliging} obliging-IsHealthy obliging-ReadsCertificates plain_client
      recorded (codes "good") (codes "#edited") connected (λ e. cc) refl (refl, refl) refl
      obliging-AllPushable refl

-- A gateway that refuses every configuration.
abbrev strict : Platform
strict = record obliging {
  round_trip = λ c r w. (
    answered (record {
      status = if is_raw_post r then 422 else 200;
      peer_not_after = none;
      body = [];
      broken = none;
    }),
    w,
  );
}

strict-IsRefusing : IsRefusing strict
unfolding build
strict-IsRefusing = record {
  is_open = record {
    reads = λ c e t w. (refl, refl);
    puts = λ c e body t w. (refl, refl);
    versions = λ c t w. (7, refl);
    patches = λ before after w. refl;
  };
  refuses = λ c r w h. rw h;
}

strict-ReadsCertificates : ReadsCertificates strict
strict-ReadsCertificates c name t w = (record { serial = []; size = 0 }, refl)

strict-AllPushable : AllPushable strict "edge" managed
unfolding cert_pem_bundle leaf_serial leaf_serial_from leaf_round Map.lookup Map.writes text_eq
strict-AllPushable = ((λ w. (codes "c\nk\n", refl, tt)), tt)

abbrev waiting : State strict
waiting = record {
  reconciler = record reconciler {
    haproxy_client = some plain_client;
    certs_secret_names = managed;
  };
  log = [];
  world = 1000;
}

reconcile-Suppressed_example :
    Suppressed {p = strict}
      (codes "good")
      (reconcile {p = strict} "edge" "haproxy-config" waiting).0
      (reconcile {p = strict} "edge" "haproxy-config" waiting).1
unfolding text_eq Map.lookup Map.writes
reconcile-Suppressed_example =
    reconcile-Suppressed {p = strict} strict-IsRefusing strict-ReadsCertificates plain_client "edge"
      (config_secret (codes "good")) (codes "good") waiting (refl, refl) refl strict-AllPushable
      (((refl, refl), refl), refl)

abbrev requests : List (String × String)
requests = ("edge", "haproxy-config") ∷ ("edge", "other") ∷ ("edge", "haproxy-config") ∷ []

reconcile_all-Reach_example :
    Reach
      (gateway (codes "good")).sha256_hex
      (ledger [])
      (ledger (reconcile_all {p = gateway (codes "good")} requests (fresh (codes "good"))).log)
reconcile_all-Reach_example =
    reconcile_all-Reach {p = gateway (codes "good")} requests (fresh (codes "good"))
