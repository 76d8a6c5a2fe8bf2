-- ===== src/Haproxy/Healthy/Answers.antt =====
-- The answers of a gateway to the requests of internal/haproxy/dataplane_client.go.
use haproxy_operator.Base.{String, Text, [], false, ◌≡◌, refl, none, inr, ◌⊎◌, ltb, leb, ◌||◌}
use haproxy_operator.Haproxy.Errors.{Cause, Result, ok, err}
use haproxy_operator.Haproxy.Client.{bare, no_body, raw_body, build}
use haproxy_operator.Platform.{
  Client, get, put, Endpoint, HttpRequest, Answer, unreachable, answered, Response, Secret,
  Platform,
}

-- An answer with a 2xx status and a whole body.
abbrev pub IsGood : Answer → Type 0
IsGood (unreachable t c) = ⊥
IsGood (answered resp) =
    ((ltb resp.status 200 || leb 300 resp.status) ≡ false) × (resp.broken ≡ none)

-- An answer whose body can be read that way.
abbrev pub Decodes : {A : Type 0} → (Response → Cause ⊎ A) → Answer → Type 0
Decodes decode (unreachable t c) = ⊥
Decodes {A} decode (answered resp) = (a : A) × (decode resp ≡ inr a)

pub Decodes-no_body : (a : Answer) → IsGood a → Decodes no_body a
Decodes-no_body (unreachable t c) h = absurd h
Decodes-no_body (answered resp) h = (tt, refl)

pub Decodes-raw_body : (a : Answer) → IsGood a → Decodes raw_body a
unfolding raw_body
Decodes-raw_body (unreachable t c) h = absurd h
Decodes-raw_body (answered resp) h = (resp.body, rw h.1 refl)

abbrev pub version_endpoint : Endpoint
version_endpoint = bare "/services/haproxy/configuration/version"

-- The gateway's answers on its version can be read.
abbrev pub ReadsVersions : Platform → Type 0
ReadsVersions p =
    (c : Client) (t : String) (w : p.World)
    → Decodes p.decode_version (p.round_trip c (build c get version_endpoint [] t) w).0

-- A gateway that gives such an answer to every request, with a version wherever one is asked for, and
-- a cluster that takes every patch.
pub record IsHealthy (p : Platform) : Type 0 where
  pub answers : (c : Client) (r : HttpRequest) (w : p.World) → IsGood (p.round_trip c r w).0
  pub versions : ReadsVersions p
  pub patches :
      (before after : Secret) (w : p.World) → (p.patch_secret before after w).0.failure ≡ none

-- A gateway that gives such an answer to every GET and PUT, with a version wherever one is asked for,
-- and a cluster that takes every patch.
pub record IsOpen (p : Platform) : Type 0 where
  pub reads :
      (c : Client) (e : Endpoint) (t : String) (w : p.World)
      → IsGood (p.round_trip c (build c get e [] t) w).0
  pub puts :
      (c : Client) (e : Endpoint) (body : Text) (t : String) (w : p.World)
      → IsGood (p.round_trip c (build c put e body t) w).0
  pub versions : ReadsVersions p
  pub patches :
      (before after : Secret) (w : p.World) → (p.patch_secret before after w).0.failure ≡ none

pub IsHealthy-IsOpen : {p : Platform} → IsHealthy p → IsOpen p
IsHealthy-IsOpen healthy = record {
  reads = λ c e t w. healthy.answers c _ w;
  puts = λ c e body t w. healthy.answers c _ w;
  versions = healthy.versions;
  patches = healthy.patches;
}

abbrev pub IsOk : {A : Type 0} → Result A → Type 0
IsOk (ok a) = Unit {0}
IsOk (err e) = ⊥
