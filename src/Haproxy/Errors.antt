-- ===== src/Haproxy/Errors.antt =====
-- internal/haproxy/errors.go: the classes of errors, and Classify.
pub mod Chain
pub mod Laws
unfoldable pub use Chain.*
use haproxy_operator.Base.{
  ℕ, String, Text, codes, contains, Bool, true, false, not, ◌&&◌, ◌||◌, Option, none, some, ◌==◌,
  ltb, leb, if◌then◌else◌,
}

pub data ErrorClass : Type 0 where
  config_rejected auth tls connection conflict rate_limited server unknown : ErrorClass

-- The value of the string constant.
unfoldable pub class_text : ErrorClass → String
class_text config_rejected = "ConfigRejected"
class_text auth = "AuthError"
class_text tls = "TLSConnectionError"
class_text connection = "ConnectionError"
class_text conflict = "ConflictError"
class_text rate_limited = "RateLimited"
class_text server = "DataplaneServerError"
class_text unknown = "UnknownError"

unfoldable pub is_config_rejected : ErrorClass → Bool
is_config_rejected config_rejected = true
is_config_rejected _ = false

-- `Transient`
unfoldable pub transient : ErrorClass → Bool
unfolding is_config_rejected
transient c = not (is_config_rejected c)

-- `StatusValue`
unfoldable pub status_value : ErrorClass → Text
unfolding class_text
status_value c = codes (class_text c)

unfoldable pub classify_http_status : ℕ → ErrorClass
classify_http_status code =
    if code == 400 || code == 422
    then config_rejected
    else if code == 401 || code == 403
    then auth
    else if code == 409
    then conflict
    else if code == 429
    then rate_limited
    else if leb 500 code && ltb code 600
    then server
    else unknown

tls_kind : Kind → Option (Unit {0})
tls_kind record_header = some tt
tls_kind certificate_invalid = some tt
tls_kind hostname = some tt
tls_kind unknown_authority = some tt
tls_kind system_roots = some tt
tls_kind _ = none

unfoldable pub is_tls_error : Error → Bool
unfolding tls_kind find message
is_tls_error e =
    found (find tls_kind e)
    || (contains (message e) (codes "tls:") || contains (message e) (codes "x509:"))

-- `Timeout()` of an error that has the method.
timeout : Kind → Option Bool
timeout (dns b) = some b
timeout (net b) = some b
timeout deadline_exceeded = some true
timeout _ = none

-- `Timeout()` of a *url.Error asks its own cause, and no deeper.
url_timeout : Cause → Bool
unfolding timeout
url_timeout (leaf k t) = elim (timeout k) [ some b ↦ b | none ↦ false ]
url_timeout (around k t c) = elim (timeout k) [ some b ↦ b | none ↦ false ]

-- `errors.As(err, &netErr)`: `Timeout()` of the first net.Error; a *url.Error is one.
unfoldable pub as_net_error : Error → Option Bool
unfolding timeout url_timeout cause_find
as_net_error (version_check e) = as_net_error e
as_net_error (url t c) = some (url_timeout c)
as_net_error (wrap before e after) = as_net_error e
as_net_error (foreign c) = cause_find timeout c
as_net_error _ = none

deadline_kind : Kind → Option (Unit {0})
deadline_kind deadline_exceeded = some tt
deadline_kind _ = none

unfoldable pub is_timeout : Error → Bool
unfolding as_net_error find deadline_kind
is_timeout e = elim (as_net_error e) [ some b ↦ b | none ↦ false ] || found (find deadline_kind e)

unfoldable pub is_conn_refused : Error → Bool
unfolding message
is_conn_refused e = contains (message e) (codes "connection refused")

dns_kind : Kind → Option (Unit {0})
dns_kind (dns b) = some tt
dns_kind _ = none

unfoldable pub is_dns_error : Error → Bool
unfolding dns_kind find
is_dns_error e = found (find dns_kind e)

-- The end of `Classify`, from the test on the whole error.
unfoldable pub classify_transport : Error → ErrorClass
classify_transport e =
    if is_tls_error e
    then tls
    else if is_timeout e || (is_conn_refused e || is_dns_error e)
    then connection
    else if found (as_net_error e)
    then connection
    else unknown

-- `Classify` from the test on *url.Error on.
unfoldable pub classify_url : Option Cause → Error → ErrorClass
unfolding classify_transport
classify_url none e = classify_transport e
classify_url (some c) e =
    if is_tls_error (foreign c)
    then tls
    else if is_timeout (foreign c) || (is_conn_refused (foreign c) || is_dns_error (foreign c))
    then connection
    else classify_transport e

-- A version read says nothing about the pending configuration.
unfoldable pub demote : ErrorClass → ErrorClass
demote config_rejected = unknown
demote c = c

-- `Classify`, where `inner` is the class of what a version check in the chain wraps.
unfoldable pub classify_with : Option ErrorClass → Error → ErrorClass
unfolding classify_url demote
classify_with inner e = if is_local_rejection e then config_rejected else elim inner [
  | some c ↦ demote c
  | none ↦ elim (as_api_error e) [
    | some code ↦ classify_http_status code
    | none ↦ classify_url (as_url_error e) e
  ]
]

unfoldable pub version_class : Error → Option ErrorClass
unfolding classify_with
version_class (version_check e) = some (classify_with (version_class e) e)
version_class (wrap before e after) = version_class e
version_class _ = none

-- `Classify` of an error that is not nil.
unfoldable pub classify : Error → ErrorClass
unfolding version_class
classify e = classify_with (version_class e) e
