-- ===== src/Tests/Cluster.antt =====
-- A gateway and a cluster that keep what they are given, with the configuration Secret and a managed
-- certificate.
use haproxy_operator.Base.{
  ℕ, ◌+◌, String, Text, codes, text_eq, true, false, ◌≡◌, refl, none, [], inr, if◌then◌else◌, Bool,
}
use haproxy_operator.Base.{Option, ap, ◌===◌}
use haproxy_operator.Base.Map
use haproxy_operator.Base.Map.{Map}
use haproxy_operator.Haproxy.Client.{build}
use haproxy_operator.Haproxy.Errors.{canceled, leaf}
use haproxy_operator.Platform.{answered, Secret, Platform}
use haproxy_operator.Controller.Protocol.{is_application}
use haproxy_operator.Controller.Settles.Storage.{Stores}
use haproxy_operator.Haproxy.Certificates.{leaf_round, leaf_serial_from, leaf_serial}
use haproxy_operator.Controller.Certs.{cert_pem_bundle}
use haproxy_operator.Controller.Converges.Pushes.{AllPushable}
use haproxy_operator.Tests.Healthy.{site, managed}
use haproxy_operator.Tests.Gateway.{gateway, config_secret}

-- What there is: the clock, the configuration that runs, and the annotations of the two Secrets.
pub record Store : Type 0 where
  pub clock : ℕ
  pub runs : Text
  pub annotations : Option (Map Text)
  pub site_annotations : Option (Map Text)

-- The managed certificate, or the configuration.
abbrev pub held_one : Bool → Store → Secret
held_one is_site w =
    if is_site
    then record site { annotations = w.site_annotations }
    else record (config_secret (codes "good")) { annotations = w.annotations }

abbrev pub annotate : Bool → Option (Map Text) → Store → Store
annotate is_site a w =
    if is_site then record w { site_annotations = a } else record w { annotations = a }

abbrev pub keeping : Platform
keeping = record (gateway []) {
  World = Store;
  round_trip = λ c r w. (
    answered (record { status = 200; peer_not_after = none; body = w.runs; broken = none }),
    if is_application r then record w { runs = r.body } else w,
  );
  get_secret = λ namespace name w. (inr (held_one (name === "site") w), w);
  patch_secret = λ before after w. (
    record { failure = none; object = after },
    annotate (before.name === "site") after.annotations w,
  );
  now = λ w. w.clock;
  unix_now = λ w. w.clock;
  timestamp = λ w. codes "2026-01-01T00:00:00Z";
  pause = λ ms w. (none, record w { clock = ms + w.clock });
  read_file = λ path w. inr (codes "frontend");
  load_key_pair = λ cert key w. none;
  verify_chain = λ leaf v w. none;
  open_source = λ path w. (none, w);
  close_source = λ w. (none, w);
  x509_svid = λ w. inr (record { trust_domain = "edge"; chain = [] });
  x509_bundle = λ domain w. inr [];
  ended = λ w. none;
  until_done = λ w. (leaf canceled (codes "context canceled"), w);
  sleep = λ ms w. record w { clock = ms + w.clock };
  new_watcher = λ w. (none, w);
  add_watch = λ path w. (none, w);
}

unfoldable pub keeping_stores : Stores keeping
unfolding build
keeping_stores = record {
  live = λ w. w.runs;
  held = λ w namespace name. held_one (name === "site") w;
  written = λ t. t;
  answers = record {
    answers = λ c r w. (refl, refl);
    versions = λ c t w. (7, refl);
    patches = λ before after w. refl;
  };
  reads_certificates = λ c name t w. (record { serial = []; size = 0 }, refl);
  asked_live = λ c r w h. rw h refl;
  applied_live = λ c r w h. rw h refl;
  asked_held = λ c r w. same_secrets (is_application r) w r.body;
  reads = λ c w. (refl, refl);
  waited_live = λ ms w. refl;
  waited_held = λ ms w. refl;
  gets = λ namespace name w. refl;
  got_live = λ namespace name w. refl;
  got_held = λ namespace name w. refl;
  patched_live = λ before after w. still_runs (before.name === "site") after.annotations w;
  patched_held = λ secret a w h. annotated (secret.name === "site") secret a w h;
  patched_object = λ secret a w h. refl;
}
  where
    same_secrets :
        (b : Bool) (w : Store) (t : Text)
        → Path
            (String → String → Secret)
            (λ namespace name. held_one (name === "site") (if b then record w { runs = t } else w))
            (λ namespace name. held_one (name === "site") w)
    same_secrets true w t = refl
    same_secrets false w t = refl

    still_runs : (b : Bool) (a : Option (Map Text)) (w : Store) → (annotate b a w).runs ≡ w.runs
    still_runs true a w = refl
    still_runs false a w = refl

    annotated :
        (b : Bool) (secret : Secret) (a : Option (Map Text)) (w : Store)
        → held_one b w ≡ secret
        → held_one b (annotate b a w) ≡ record secret { annotations = a }
    annotated true secret a w h = ap (λ (k : Secret). record k { annotations = a }) h
    annotated false secret a w h = ap (λ (k : Secret). record k { annotations = a }) h

-- Its certificate can be pushed in every state.
pub keeping-AllPushable : AllPushable keeping "edge" managed
unfolding cert_pem_bundle leaf_serial leaf_serial_from leaf_round Map.lookup Map.writes text_eq
keeping-AllPushable = ((λ w. (codes "c\nk\n", refl, tt)), tt)
