-- ===== src/Haproxy/Target/Resolved.antt =====
-- The URL of a request, for endpoints and base URLs whose paths are clean.
use mathlib.Core.List.{append_cancel_left}
use haproxy_operator.Base.{String, Text, ◌≡◌, ap, sym, ◌∙◌, List, ◌∷◌, ◌++◌, ◌⊎◌, inl, inr}
use haproxy_operator.Base.Map.{Map}
use haproxy_operator.Base.Split.{separated}
use haproxy_operator.Platform.{Url, Client, Method, Endpoint}
use haproxy_operator.Haproxy.Target.{slash, resolve_path, resolve_url}
use haproxy_operator.Haproxy.Target.Segments.{
  AllSegments, AllSegments-append, absolute, absolute-injective, resolve_path-absolute,
  resolve_path-slash,
}
use haproxy_operator.Haproxy.Client.{build}

-- The base path has these segments, with or without a slash at its end.
abbrev pub IsBase : String → List String → Type 0
IsBase path segments = (path ≡ absolute segments) ⊎ (path ≡ separated slash (absolute segments) "")

abbrev pub endpoint_of : List String → Map Text → Endpoint
endpoint_of segments query = record { path = absolute segments; query = query }

resolve_path-IsBase :
    (path b : String) (bs es : List String)
    → AllSegments (b ∷ bs)
    → AllSegments es
    → IsBase path (b ∷ bs)
    → resolve_path path (absolute es) ≡ absolute ((b ∷ bs) ++ es)
resolve_path-IsBase path b bs es h k (inl e) =
    ap (λ t. resolve_path t (absolute es)) e ∙ resolve_path-absolute b bs es h k
resolve_path-IsBase path b bs es h k (inr e) =
    ap (λ t. resolve_path t (absolute es)) e ∙ resolve_path-slash b bs es h k

-- For every client whose base URL has a path of one segment at least, with or without a slash at its
-- end, and every endpoint, all of their segments neither empty, "." nor "..": the request that is built
-- goes to the path of the base's segments and then the endpoint's, with the endpoint's query, and every
-- other part of its URL is the base's.
pub build-target :
    (c : Client) (m : Method) (b : String) (bs es : List String) (query : Map Text) (body : Text)
    (content_type : String)
    → IsBase c.base.path (b ∷ bs)
    → AllSegments (b ∷ bs)
    → AllSegments es
    → (build c m (endpoint_of es query) body content_type).target
      ≡ record c.base { path = absolute ((b ∷ bs) ++ es); query = query }
unfolding build resolve_url
build-target c m b bs es query body content_type base h k =
    ap (λ t. record c.base { path = t; query = query })
      (resolve_path-IsBase c.base.path b bs es h k base)

-- For every such client and two such endpoints: where the two requests go to one URL, the endpoints
-- have the same segments and the same query.
pub build-target_injective :
    (c : Client) (m : Method) (b : String) (bs es fs : List String) (q r : Map Text) (body : Text)
    (content_type : String)
    → IsBase c.base.path (b ∷ bs)
    → AllSegments (b ∷ bs)
    → AllSegments es
    → AllSegments fs
    → (build c m (endpoint_of es q) body content_type).target
      ≡ (build c m (endpoint_of fs r) body content_type).target
    → (es ≡ fs) × (q ≡ r)
build-target_injective c m b bs es fs q r body content_type base h k l same = (
  append_cancel_left (b ∷ bs) es fs (
      absolute-injective ((b ∷ bs) ++ es) ((b ∷ bs) ++ fs) (AllSegments-append (b ∷ bs) es h k)
        (AllSegments-append (b ∷ bs) fs h l) (ap (λ (u : Url). u.path) urls)),
  ap (λ (u : Url). u.query) urls,
)
  where
    urls :
        record c.base { path = absolute ((b ∷ bs) ++ es); query = q }
        ≡ record c.base { path = absolute ((b ∷ bs) ++ fs); query = r }
    urls =
        sym (build-target c m b bs es q body content_type base h k)
        ∙ same
        ∙ build-target c m b bs fs r body content_type base h l
