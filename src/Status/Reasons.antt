-- ===== src/Status/Reasons.antt =====
-- The reasons of the Events that the operator emits, from internal/status/reporter.go.
use haproxy_operator.Base.{String}

abbrev pub validation_passed : String
validation_passed = "ValidationPassed"

abbrev pub validation_failed : String
validation_failed = "ValidationFailed"

abbrev pub config_rejected : String
config_rejected = "ConfigRejected"

abbrev pub apply_succeeded : String
apply_succeeded = "ApplySucceeded"

abbrev pub apply_failed : String
apply_failed = "ApplyFailed"

abbrev pub auth_error : String
auth_error = "AuthError"

abbrev pub tls_connection_err : String
tls_connection_err = "TLSConnectionError"

abbrev pub connection_error : String
connection_error = "ConnectionError"

abbrev pub conflict_error : String
conflict_error = "ConflictError"

abbrev pub transient_error : String
transient_error = "TransientError"

abbrev pub config_unchanged : String
config_unchanged = "ConfigUnchanged"

abbrev pub cert_synced : String
cert_synced = "CertSynced"

abbrev pub cert_sync_failed : String
cert_sync_failed = "CertSyncFailed"

abbrev pub config_drift : String
config_drift = "ConfigDrift"
