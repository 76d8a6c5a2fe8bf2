-- ===== src/Tests/Gateway.antt =====
-- A platform whose gateway, cluster and clock are simple functions.
use haproxy_operator.Base.{
  ◌<>◌, ℕ, ◌+◌, Text, codes, text_eq, length, true, false, ◌≡◌, ◌≢◌, inl, inr, none, some, [], ◌∷◌,
  ◌===◌, if◌then◌else◌, arith,
}
use haproxy_operator.Base.Map
use haproxy_operator.Base.Map.{Map}
use haproxy_operator.Haproxy.Errors.{canceled, leaf, kubernetes, missing}
use haproxy_operator.Platform.{ApiConfig, HttpRequest, Answer, answered, Secret, Platform}
use haproxy_operator.Act.{Reconciler, State}
use haproxy_operator.Platform.{PemBlock, tls_transport, default_transport, Client}
use haproxy_operator.Haproxy.Ready.{IsClock}
use haproxy_operator.Haproxy.Leaf.{Consumes}
use haproxy_operator.Base.{◌<◌, Option, suc}

-- Every byte is a PEM block.
abbrev pub decode : Text → Option (PemBlock × Text)
decode [] = none
decode (b ∷ t) = some (record { kind = "CERTIFICATE"; bytes = b ∷ [] }, t)

-- A gateway that takes every configuration but "bad", and serves "good" as its own.
abbrev pub reply : HttpRequest → Answer
reply r =
    if text_eq r.body (codes "bad")
    then answered (record { status = 422; peer_not_after = none; body = codes "no"; broken = none })
    else answered
        (record { status = 200; peer_not_after = none; body = codes "good"; broken = none })

abbrev pub config_secret : Text → Secret
config_secret raw = record {
  namespace = "edge";
  name = "haproxy-config";
  labels = none;
  contents = some (Map.insert "haproxy.cfg" raw []);
  annotations = none;
}

-- A world is a clock in milliseconds; the cluster has one Secret, with that configuration.
abbrev pub gateway : Text → Platform
gateway raw = record {
  World = ℕ;
  round_trip = λ c r w. (reply r, w + 1);
  get_secret = λ namespace name w.
      if name === "haproxy-config"
      then (inr (config_secret raw), w)
      else (inl (leaf (kubernetes missing) (codes "not found")), w);
  patch_secret = λ before after w. (record { failure = none; object = after }, w);
  now = λ w. w;
  unix_now = λ w. w;
  timestamp = λ w. codes "2026-01-01T00:00:00Z";
  pause = λ ms w. (none, ms + w);
  read_file = λ path w. inr [];
  load_key_pair = λ cert key w. none;
  append_certs_from_pem = λ pem. true;
  open_source = λ path w. (none, w);
  close_source = λ w. (none, w);
  parse_url = λ u. inr (record {
    scheme = if u === "https://lb:5555/v3" then "https" else "http";
    hostname = "lb";
    path = "/v3";
    query = [];
    others = ":5555";
  });
  url_string = λ u. u.scheme <> ("://" <> (u.hostname <> (u.others <> u.path)));
  path_escape = λ u. u;
  sha256_hex = λ t. 35 ∷ t;
  trim_space = λ t. t;
  pem_decode = decode;
  parse_certificate = λ t. inr (record { serial = t; not_after = 0 });
  decode_version = λ r. inr 7;
  decode_info = λ r. inr none;
  decode_certificate = λ r. inr (record { serial = []; size = 0 });
  multipart = λ field name t. inr ("multipart/form-data", t);
  decode_sync_state = λ t. [];
  encode_sync_state = λ m. some [];
  certs_from_pem = λ pem. [];
  verify_chain = λ leaf v w. none;
  x509_svid = λ w. inr (record { trust_domain = "edge"; chain = [] });
  x509_bundle = λ domain w. inr [];
  ended = λ w. none;
  until_done = λ w. (leaf canceled (codes "context canceled"), w);
  sleep = λ ms w. w + ms;
  new_watcher = λ w. (none, w);
  add_watch = λ path w. (none, w);
  directory = λ path. "/etc/haproxy";
}

abbrev pub api_config : ApiConfig
api_config = record {
  base_url = "http://lb:5555/v3";
  insecure = false;
  ca_cert_path = "";
  client_cert_path = "";
  client_key_path = "";
  username = "";
  password = "";
}

abbrev pub reconciler : Reconciler
reconciler = record {
  secret_name = "haproxy-config";
  secret_key = "haproxy.cfg";
  api_config = api_config;
  spire_socket_path = "";
  recorder = true;
  certs_secret_names = [];
  drift_remediate = true;
  haproxy_client = none;
  spire_source = false;
  transient_failures = 0;
  last_desired_hash = [];
  last_metric_hash = [];
  last_metric_state = "";
  cert_sync_hashes = none;
}

abbrev pub fresh : (raw : Text) → State (gateway raw)
fresh raw = record { reconciler = reconciler; log = []; world = 1000 }

pub filled : (raw t : Text) → (gateway raw).sha256_hex t ≢ []
filled raw t h = cc

abbrev pub plain_client : Client
plain_client = record {
  config = api_config;
  base = record { scheme = "http"; hostname = "lb"; path = "/v3"; query = []; others = ":5555" };
  transport = default_transport;
}

abbrev pub secure_config : ApiConfig
secure_config = record {
  base_url = "https://lb:5555/v3";
  insecure = false;
  ca_cert_path = "/certs/ca.crt";
  client_cert_path = "/certs/tls.crt";
  client_key_path = "/certs/tls.key";
  username = "";
  password = "";
}

abbrev pub secure_client : Client
secure_client = record {
  config = secure_config;
  base = record { scheme = "https"; hostname = "lb"; path = "/v3"; query = []; others = ":5555" };
  transport = tls_transport true true true;
}

pub gateway-IsClock : (raw : Text) → IsClock (gateway raw)
gateway-IsClock raw = record {
  after_request = λ c r w. omega arith;
  after_pause = λ ms w e. omega arith;
}

pub gateway-Consumes : (raw : Text) → Consumes (gateway raw)
gateway-Consumes raw [] block rest e = cc
gateway-Consumes raw (b ∷ t) block rest e = shorter t rest (cc)
  where
    shorter : (t rest : Text) → t ≡ rest → length rest < suc (length t)
    shorter t rest same = rw same (omega arith)
