-- ===== src/Platform.antt =====
-- The data that the operator exchanges with its surroundings, and the surroundings themselves: the
-- HTTP transport, the Kubernetes API, files, clocks and the standard library's codecs are the
-- fields of `Platform`, which every stateful definition takes as a parameter.
use haproxy_operator.Base.{ℕ, String, Text, Bool, Option, List, ◌⊎◌}
use haproxy_operator.Base.Map.{Map}
use haproxy_operator.Haproxy.Errors.{Cause}

-- `APIConfig`
pub record ApiConfig : Type 0 where
  pub base_url : String
  pub insecure : Bool
  pub ca_cert_path : String
  pub client_cert_path : String
  pub client_key_path : String
  pub username : String
  pub password : String

-- The parts of a parsed URL that the operator reads, and all the others as one.
pub record Url : Type 0 where
  pub scheme : String
  pub hostname : String
  pub path : String  -- decoded
  pub query : Map Text
  pub others : String

-- The transport of a client: Go's default one, one that is built from the mounted files, or the
-- one that SPIRE supplies.
pub data Transport : Type 0 where
  default_transport : Transport
  tls_transport : Bool → Bool → Bool → Transport  -- skips Go's check, verifies, sends a certificate
  supplied_transport : Transport

-- `Client`
pub record Client : Type 0 where
  pub config : ApiConfig
  pub base : Url
  pub transport : Transport

pub data Method : Type 0 where
  get post put : Method

-- A request path with its query, `p?k=v`.
pub record Endpoint : Type 0 where
  pub path : String
  pub query : Map Text

pub record HttpRequest : Type 0 where
  pub method : Method
  pub endpoint : Endpoint  -- as the caller of `do` gives it
  pub target : Url  -- as it is sent
  pub content_type : String
  pub body : Text
  pub basic_auth : Option (String × String)

-- A response; `broken` is the error that ends its body early.
pub record Response : Type 0 where
  pub status : ℕ
  pub peer_not_after : Option ℕ
  pub body : Text
  pub broken : Option Cause

-- What `http.NewRequestWithContext` and `http.Client.Do` return together; the error of the one for an
-- address that does not parse, and that of the other, is a *url.Error.
pub data Answer : Type 0 where
  unreachable : Text → Cause → Answer
  answered : Response → Answer

-- `corev1.Secret`
pub record Secret : Type 0 where
  pub namespace : String
  pub name : String
  pub labels : Option (Map Text)
  pub contents : Option (Map Text)  -- Data
  pub annotations : Option (Map Text)

-- The outcome of a patch; `object` is what the client library leaves in the object it was given.
pub record Patched : Type 0 where
  pub failure : Option Cause
  pub object : Secret

-- `certSyncEntry`
pub record CertSyncEntry : Type 0 where
  pub hash : Text
  pub time : Text

pub record PemBlock : Type 0 where
  pub kind : String
  pub bytes : Text

pub record Certificate : Type 0 where
  pub serial : Text
  pub not_after : ℕ

-- What `Certificate.Verify` is asked: the host name if it is to be checked, and the two pools.
pub record Verification : Type 0 where
  pub dns_name : Option String
  pub roots : List Certificate
  pub intermediates : List Certificate

-- The parts of an X.509 SVID that the operator reads.
pub record Svid : Type 0 where
  pub trust_domain : String
  pub chain : List Text

-- `storageSSLCertificate`
pub record StorageSslCertificate : Type 0 where
  pub serial : Text
  pub size : ℕ

pub data EventType : Type 0 where
  normal warning : EventType

-- The metric series that internal/metrics declares.
pub data Series : Type 0 where
  reconcile_attempts reconcile_results transient_errors : String → Series
  config_hash : Text → String → Series
  last_successful_apply : Series
  dataplane_server_cert_expiry : String → Series
  dataplane_client_cert_expiry : Series
  config_drift config_in_sync : String → Series

-- What the operator does to its surroundings, as far as a property speaks of it.
pub data Effect : Type 0 where
  exchanged : HttpRequest → Answer → Effect
  patched : Secret → Secret → Option Cause → Effect  -- before, after, failure
  emitted : String → EventType → String → Text → Effect  -- Secret, type, reason, message
  increased : Series → Effect
  gauged : Series → ℕ → Effect
  dropped : Series → Effect

pub record Platform : Type 1 where
  pub World : Type 0
  -- http.Client.Do with the whole response
  pub round_trip : Client → HttpRequest → World → Answer × World
  -- the Kubernetes API
  pub get_secret : String → String → World → (Cause ⊎ Secret) × World
  pub patch_secret : Secret → Secret → World → Patched × World
  -- time.Now, in milliseconds, as a Unix time in seconds and in RFC 3339
  pub now : World → ℕ
  pub unix_now : World → ℕ
  pub timestamp : World → Text
  -- wait that many milliseconds; `some` when the context ends first
  pub pause : ℕ → World → Option Cause × World
  -- files; `load_key_pair` is tls.LoadX509KeyPair
  pub read_file : String → World → Cause ⊎ Text
  pub load_key_pair : String → String → World → Option Cause
  pub append_certs_from_pem : Text → Bool
  -- workloadapi.NewX509Source, and the Close of a source
  pub open_source : String → World → Option Cause × World
  pub close_source : World → Option Cause × World
  -- the standard library's codecs
  pub parse_url : String → (Text × Cause) ⊎ Url
  pub url_string : Url → String  -- u.String()
  pub path_escape : String → String
  pub sha256_hex : Text → Text
  pub trim_space : Text → Text
  pub pem_decode : Text → Option (PemBlock × Text)
  pub parse_certificate : Text → Cause ⊎ Certificate
  pub decode_version : Response → Cause ⊎ ℕ
  pub decode_info : Response → Cause ⊎ Option Text  -- the field version, if it is a string
  pub decode_certificate : Response → Cause ⊎ StorageSslCertificate
  pub multipart : String → String → Text → Cause ⊎ (String × Text)
  pub decode_sync_state : Text → Map CertSyncEntry
  pub encode_sync_state : Map CertSyncEntry → Option Text
  -- what AppendCertsFromPEM adds to a pool, and `leaf.Verify` at a time
  pub certs_from_pem : Text → List Certificate
  pub verify_chain : Certificate → Verification → World → Option Cause
  -- source.GetX509SVID, and the authorities of source.GetX509BundleForTrustDomain
  pub x509_svid : World → Cause ⊎ Svid
  pub x509_bundle : String → World → Cause ⊎ List Certificate
  -- ctx.Err, the wait for its end, and a wait in milliseconds that nothing cuts short
  pub ended : World → Option Cause
  pub until_done : World → Cause × World
  pub sleep : ℕ → World → World
  -- fsnotify.NewWatcher, its Add, and filepath.Dir
  pub new_watcher : World → Option Cause × World
  pub add_watch : String → World → Option Cause × World
  pub directory : String → String
