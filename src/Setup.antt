-- ===== src/Setup.antt =====
-- main.go: how flags and environment become a local run or a manager.
pub mod Split
pub mod Names
pub mod Started
pub mod Process
pub mod Exits
use haproxy_operator.Setup.Split.{certs_secret_names_of}
use haproxy_operator.Base.{
  inl, inr, String, Bool, true, false, not, ◌&&◌, Option, none, some, [], ◌===◌, ◌==◌,
  if◌then◌else◌,
}
use haproxy_operator.Platform.{ApiConfig, Platform}
use haproxy_operator.Act.{Reconciler}

abbrev pub default_dataplane_url : String
default_dataplane_url = "https://haproxy:5555/v3"

-- `envOr`; a variable that is not set reads as the empty string.
unfoldable pub env_or : (String → String) → String → String → String
env_or getenv k d = if not (getenv k === "") then getenv k else d

-- The variables of `main` that flags set; the polling interval is left out, which nothing reads.
pub record Flags : Type 0 where
  pub mode : String
  pub metrics_addr : String
  pub enable_leader_election : Bool
  pub probe_addr : String
  pub watch_namespace : String
  pub secret_name : String
  pub secret_key : String
  pub certs_secret_names : String
  pub local_config_path : String
  pub local_watch : Bool
  pub dataplane_url : String
  pub dataplane_ca_cert : String
  pub dataplane_client_cert : String
  pub dataplane_client_key : String
  pub dataplane_username : String
  pub dataplane_password : String
  pub dataplane_insecure : Bool
  pub drift_remediate : Bool
  pub spire_socket_path : String

-- The defaults, before the command line is parsed.
unfoldable pub default_flags : (String → String) → Flags
unfolding env_or
default_flags getenv = record {
  mode = env_or getenv "MODE" "k8s";
  metrics_addr = env_or getenv "METRICS_ADDR" ":9090";
  enable_leader_election = env_or getenv "LEADER_ELECT" "" === "true";
  probe_addr = env_or getenv "PROBE_ADDR" ":8081";
  watch_namespace = env_or getenv "WATCH_NAMESPACE" "";
  secret_name = env_or getenv "SECRET_NAME" "";
  secret_key = env_or getenv "SECRET_KEY" "haproxy.cfg";
  certs_secret_names = env_or getenv "CERTS_SECRET_NAMES" "";
  local_config_path = env_or getenv "LOCAL_CONFIG_PATH" "";
  local_watch = env_or getenv "LOCAL_WATCH" "true" === "true";
  dataplane_url = env_or getenv "DATAPLANE_URL" default_dataplane_url;
  dataplane_ca_cert = env_or getenv "DATAPLANE_CA_CERT" "";
  dataplane_client_cert = env_or getenv "DATAPLANE_CLIENT_CERT" "";
  dataplane_client_key = env_or getenv "DATAPLANE_CLIENT_KEY" "";
  dataplane_username = env_or getenv "DATAPLANE_USERNAME" "";
  dataplane_password = env_or getenv "DATAPLANE_PASSWORD" "";
  dataplane_insecure = env_or getenv "DATAPLANE_INSECURE" "" === "true";
  drift_remediate = env_or getenv "DRIFT_REMEDIATE" "true" === "true";
  spire_socket_path = env_or getenv "SPIRE_AGENT_SOCKET" "";
}

abbrev pub api_config_of : Flags → ApiConfig
api_config_of f = record {
  base_url = f.dataplane_url;
  insecure = f.dataplane_insecure;
  ca_cert_path = f.dataplane_ca_cert;
  client_cert_path = f.dataplane_client_cert;
  client_key_path = f.dataplane_client_key;
  username = f.dataplane_username;
  password = f.dataplane_password;
}

-- The reconciler that is registered; SetupWithManager gives it its recorder.
abbrev pub new_reconciler : Flags → Reconciler
new_reconciler f = record {
  secret_name = f.secret_name;
  secret_key = f.secret_key;
  api_config = api_config_of f;
  spire_socket_path = f.spire_socket_path;
  recorder = false;
  certs_secret_names = certs_secret_names_of f.certs_secret_names;
  drift_remediate = f.drift_remediate;
  haproxy_client = none;
  spire_source = false;
  transient_failures = 0;
  last_desired_hash = [];
  last_metric_hash = [];
  last_metric_state = "";
  cert_sync_hashes = none;
}

-- Where the Kubernetes configuration comes from.
pub data RestConfig : Type 0 where
  detected : RestConfig
  built : String → String → RestConfig  -- the API server's address, the kubeconfig file

-- `loadRESTConfig`
unfoldable pub load_rest_config : (String → String) → RestConfig
unfolding env_or
load_rest_config getenv =
    let override = env_or getenv "KUBE_APISERVER" "" in
    let kubeconfig = env_or getenv "KUBECONFIG" "" in
    if kubeconfig === "" && override === "" then detected else built override kubeconfig

-- The options of `ctrl.NewManager` that flags decide; a cache for no namespace is one for all.
pub record ManagerOptions : Type 0 where
  pub metrics_bind_address : String
  pub health_probe_bind_address : String
  pub leader_election : Bool
  pub default_namespace : Option String

-- What `main` starts. The last fields of a manager say whether the insecure gauge is set and whose
-- certificate file is observed.
pub data Launch : Type 0 where
  usage_error : Launch
  local_run : ApiConfig → String → Bool → Launch  -- the file, and whether it is watched
  manager : ManagerOptions → Reconciler → Bool → Option String → Launch

-- The defaults that only the k8s mode sets.
unfoldable pub fill_in : Flags → Flags
fill_in f = if not (f.mode === "k8s") then f else record f {
  watch_namespace = if f.watch_namespace === "" then "haproxy-operator" else f.watch_namespace;
  secret_name = if f.secret_name === "" then "haproxy-config" else f.secret_name;
}

abbrev pub insecure_active : Flags → Bool
insecure_active f = f.dataplane_insecure && f.spire_socket_path === ""

abbrev pub unless_empty : String → Option String
unless_empty s = if s === "" then none else some s

abbrev pub manager_options : Flags → ManagerOptions
manager_options f = record {
  metrics_bind_address = f.metrics_addr;
  health_probe_bind_address = f.probe_addr;
  leader_election = f.enable_leader_election;
  default_namespace = unless_empty f.watch_namespace;
}

module _ (p : Platform) where
  -- `withScheme`; an address that cannot be parsed ends the program.
  unfoldable pub with_scheme : String → String → Option String
  with_scheme raw_url scheme = elim (p.parse_url raw_url) [
    | inl failure ↦ none
    | inr u ↦ some (p.url_string (record u { scheme = scheme }))
  ]

  -- The default address is for the cluster; the local mode reaches it over http.
  unfoldable pub downgrade : Flags → Option Flags
  unfolding with_scheme
  downgrade f =
      if f.dataplane_url === default_dataplane_url
      then elim (with_scheme default_dataplane_url "http") [
        | none ↦ none
        | some u ↦ some (record f {
          dataplane_url = u;
          dataplane_ca_cert = "";
          dataplane_client_cert = "";
          dataplane_client_key = "";
        })
      ]
      else some f

  abbrev pub start_local : String → Bool → Option Flags → Launch
  start_local path watch none = usage_error
  start_local path watch (some f) = local_run (api_config_of f) path watch

  -- `main`, from the parsed flags on, up to what it starts
  unfoldable pub launch : Flags → Launch
  unfolding fill_in downgrade
  launch f =
      if f.mode === "local"
      then if f.local_config_path === ""
        then usage_error
        else start_local f.local_config_path f.local_watch (downgrade f)
      else manager (manager_options (fill_in f)) (new_reconciler (fill_in f))
          (f.mode === "k8s" && insecure_active f) (unless_empty f.dataplane_client_cert)
