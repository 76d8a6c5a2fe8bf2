-- ===== src/Haproxy/Errors/Chain.antt =====
-- The error values of internal/haproxy/errors.go and of internal/haproxy/dataplane_client.go, and
-- what errors.Is and errors.As find in their chains.
use haproxy_operator.Base.{
  ℕ, String, Text, codes, decimal, Bool, true, false, Option, none, some, ◌++◌, ◌==◌,
}

-- The reason of a Kubernetes API error, as far as the operator tells reasons apart.
pub data ApiReason : Type 0 where
  missing conflicting unspecified : ApiReason

-- What `errors.As` and `errors.Is` can find in an error that is raised outside the repository.
pub data Kind : Type 0 where
  record_header certificate_invalid hostname unknown_authority system_roots : Kind
  dns : Bool → Kind  -- *net.DNSError, with its Timeout()
  net : Bool → Kind  -- any other net.Error, with its Timeout()
  deadline_exceeded : Kind  -- context.DeadlineExceeded, which is a net.Error too
  kubernetes : ApiReason → Kind
  canceled : Kind  -- context.Canceled
  opaque : Kind

-- A foreign error: each with its whole text, and the error that it wraps if any.
pub data Cause : Type 0 where
  leaf : Kind → Text → Cause
  around : Kind → Text → Cause → Cause

pub data Error : Type 0 where
  local_rejection : Error  -- ErrLocalRejection
  version_check : Error → Error  -- &VersionCheckError{Err}
  api : ℕ → Text → Error  -- &APIError{StatusCode, Message}
  url : Text → Cause → Error  -- *url.Error, its text before the cause's
  wrap : String → Error → Text → Error  -- fmt.Errorf with a %w
  foreign : Cause → Error

abbrev pub fail : String → Error
fail t = foreign (leaf opaque (codes t))

pub data Result {ℓ} (A : Type ℓ) : Type ℓ where
  ok : A → Result A
  err : Error → Result A

cause_text : Cause → Text
cause_text (leaf k t) = t
cause_text (around k t c) = t

-- `Error()`
unfoldable pub message : Error → Text
unfolding cause_text
message local_rejection = codes "configuration rejected locally"
message (version_check e) = codes "config version check: " ++ message e
message (api code body) =
    codes "dataplane api error (status " ++ (decimal code ++ (codes "): " ++ body))
message (url t c) = t ++ cause_text c
message (wrap before e after) = codes before ++ (message e ++ after)
message (foreign c) = cause_text c

-- `errors.As` into a foreign type: the first error of the chain that `pick` takes.
unfoldable pub cause_find {ℓ} : {A : Type ℓ} → (Kind → Option A) → Cause → Option A
cause_find pick (leaf k t) = pick k
cause_find pick (around k t c) = elim (pick k) [ some a ↦ some a | none ↦ cause_find pick c ]

unfoldable pub find {ℓ} : {A : Type ℓ} → (Kind → Option A) → Error → Option A
unfolding cause_find
find pick local_rejection = none
find pick (version_check e) = find pick e
find pick (api code body) = none
find pick (url t c) = cause_find pick c
find pick (wrap before e after) = find pick e
find pick (foreign c) = cause_find pick c

abbrev pub found {ℓ} : {A : Type ℓ} → Option A → Bool
found none = false
found (some a) = true

-- `errors.Is(err, ErrLocalRejection)`
unfoldable pub is_local_rejection : Error → Bool
is_local_rejection local_rejection = true
is_local_rejection (version_check e) = is_local_rejection e
is_local_rejection (api code body) = false
is_local_rejection (url t c) = false
is_local_rejection (wrap before e after) = is_local_rejection e
is_local_rejection (foreign c) = false

-- `errors.As(err, &vce)`: the error that the first *VersionCheckError of the chain wraps.
unfoldable pub as_version_check : Error → Option Error
as_version_check (version_check e) = some e
as_version_check (wrap before e after) = as_version_check e
as_version_check _ = none

-- `errors.As(err, &apiErr)`: the status code of the first *APIError of the chain.
unfoldable pub as_api_error : Error → Option ℕ
as_api_error (version_check e) = as_api_error e
as_api_error (api code body) = some code
as_api_error (wrap before e after) = as_api_error e
as_api_error _ = none

-- `errors.As(err, &urlErr)`: what the first *url.Error of the chain wraps.
unfoldable pub as_url_error : Error → Option Cause
as_url_error (version_check e) = as_url_error e
as_url_error (url t c) = some c
as_url_error (wrap before e after) = as_url_error e
as_url_error _ = none

-- `err == context.Canceled`: the very value, and no error that wraps it
unfoldable pub is_canceled : Error → Bool
is_canceled (foreign (leaf canceled t)) = true
is_canceled _ = false

-- The reason of the first Kubernetes API error of the chain.
kubernetes_kind : Kind → Option ApiReason
kubernetes_kind (kubernetes r) = some r
kubernetes_kind _ = none

-- `apierrors.IsNotFound`
unfoldable pub is_missing : Error → Bool
unfolding find kubernetes_kind
is_missing e = elim (find kubernetes_kind e) [ some missing ↦ true | _ ↦ false ]

-- `apierrors.IsConflict`
unfoldable pub is_conflict : Error → Bool
unfolding find kubernetes_kind
is_conflict e = elim (find kubernetes_kind e) [ some conflicting ↦ true | _ ↦ false ]

-- `isNotFound` of the client.
unfoldable pub is_not_found : Error → Bool
unfolding as_api_error
is_not_found e = elim (as_api_error e) [ some code ↦ code == 404 | none ↦ false ]
