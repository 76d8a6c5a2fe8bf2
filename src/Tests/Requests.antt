-- ===== src/Tests/Requests.antt =====
-- Requests of the client on concrete URLs.
use haproxy_operator.Base.{String, ◌≡◌, refl, inl, List, [], ◌∷◌}
use haproxy_operator.Base.Split.{join, separated}
use haproxy_operator.Platform.{get}
use haproxy_operator.Haproxy.Client.{build}
use haproxy_operator.Haproxy.Target.{resolve_path}
use haproxy_operator.Haproxy.Target.Segments.{AllSegments}
use haproxy_operator.Haproxy.Target.Resolved.{endpoint_of, build-target}
use haproxy_operator.Tests.Gateway.{plain_client as client}

abbrev base_segments : List String
base_segments = "v3" ∷ []

abbrev version_segments : List String
version_segments = "services" ∷ "haproxy" ∷ []

base_AllSegments : AllSegments base_segments
base_AllSegments = ((refl, refl, refl, (refl, (refl, tt))), tt)

version_AllSegments : AllSegments version_segments
version_AllSegments = (
  (refl, refl, refl, (refl, (refl, (refl, (refl, (refl, (refl, (refl, (refl, tt))))))))),
  ((refl, refl, refl, (refl, (refl, (refl, (refl, (refl, (refl, (refl, tt)))))))), tt),
)

build-target_example :
    (build client get (endpoint_of version_segments []) [] "").target
    ≡ record client.base { path = "/v3/services/haproxy"; query = [] }
unfolding join separated
build-target_example =
    build-target client get "v3" [] version_segments [] [] "" (inl refl) base_AllSegments
      version_AllSegments

-- "..", "." and empty segments
dotted : resolve_path "/v3/" "/a//./b/../c" ≡ "/v3/a/c"
unfolding resolve_path
dotted = refl
