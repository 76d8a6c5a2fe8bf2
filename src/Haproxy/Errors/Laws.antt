-- ===== src/Haproxy/Errors/Laws.antt =====
-- What `Classify` decides.
use haproxy_operator.Base.{
  ℕ, Text, ◌≡◌, refl, ◌≢◌, ◌↔◌, ◌⊎◌, Bool, true, false, Option, none, some, arith, if◌then◌else◌,
}
use haproxy_operator.Haproxy.Errors.{
  Cause, Error, local_rejection, version_check, api, url, wrap, foreign, ErrorClass,
  config_rejected, tls, connection, classify_http_status, is_local_rejection, as_version_check,
  as_api_error, as_url_error, as_net_error, classify_transport, classify_url, demote, classify_with,
  version_class, classify,
}

version_class_lem :
    (e : Error)
    → version_class e ≡ elim (as_version_check e) [ none ↦ none | some i ↦ some (classify i) ]
unfolding version_class as_version_check classify
version_class_lem local_rejection = refl
version_class_lem (version_check e) = refl
version_class_lem (api code body) = refl
version_class_lem (url t c) = refl
version_class_lem (wrap before e after) = version_class_lem e
version_class_lem (foreign c) = refl

-- `Classify` satisfies the recursion that the Go function is: a local rejection first, then the
-- demoted class of what a version check wraps, then the HTTP status, then the transport's tests.
pub classify_lem :
    (e : Error)
    → classify e ≡ (
        if is_local_rejection e then config_rejected else elim (as_version_check e) [
          | some inner ↦ demote (classify inner)
          | none ↦ elim (as_api_error e) [
            | some code ↦ classify_http_status code
            | none ↦ classify_url (as_url_error e) e
          ]
        ])
unfolding classify classify_with
classify_lem e = rw (version_class_lem e) (ground arith)

-- The errors after which the same bytes cannot succeed: a local rejection, or a 400 or 422 that
-- does not come from a version read.
abbrev pub IsDefinite : Error → Type 0
IsDefinite e =
    (is_local_rejection e ≡ true)
    ⊎ ((as_version_check e ≡ none) × ((as_api_error e ≡ some 400) ⊎ (as_api_error e ≡ some 422)))

classify_url-ne : (o : Option Cause) (e : Error) → classify_url o e ≢ config_rejected
unfolding classify_url
classify_url-ne o e h = ground arith

demote-ne : (c : ErrorClass) → demote c ≢ config_rejected
unfolding demote
demote-ne config_rejected h = cc
demote-ne _ h = cc

classify_http_status-eq_iff :
    (code : ℕ) → (classify_http_status code ≡ config_rejected) ↔ ((code ≡ 400) ⊎ (code ≡ 422))
unfolding classify_http_status
classify_http_status-eq_iff code = ground arith

-- `Classify` answers ConfigRejected for definite rejections and for no other error.
pub classify-eq_iff : (e : Error) → (classify e ≡ config_rejected) ↔ IsDefinite e
classify-eq_iff e =
    rw classify_lem (cases (is_local_rejection e) (as_version_check e) (as_api_error e))
  where
    cases :
        (l : Bool) (v : Option Error) (a : Option ℕ)
        → ((if l then config_rejected else elim v [
          | some inner ↦ demote (classify inner)
          | none ↦ elim a [
            | some code ↦ classify_http_status code
            | none ↦ classify_url (as_url_error e) e
          ]
        ])
            ≡ config_rejected)
          ↔ ((l ≡ true) ⊎ ((v ≡ none) × ((a ≡ some 400) ⊎ (a ≡ some 422))))
    cases true v a = ground arith
    cases false (some i) a = ground (arith, demote-ne (classify i))
    cases false none none = ground (arith, classify_url-ne (as_url_error e) e)
    cases false none (some code) = ground (arith, classify_http_status-eq_iff code)

-- Whatever breaks a request on its way is a TLS or a connection failure: it never suppresses a
-- configuration, and it never falls through to UnknownError.
pub classify-url :
    (t : Text) (c : Cause) → (classify (url t c) ≡ tls) ⊎ (classify (url t c) ≡ connection)
unfolding classify classify_transport is_local_rejection as_api_error as_url_error as_net_error
classify-url t c = ground arith
