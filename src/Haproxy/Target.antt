-- ===== src/Haproxy/Target.antt =====
-- resolveURL of internal/haproxy/dataplane_client.go: a request path is joined to the base URL. The
-- functions of Go's packages path and strings that it calls are written out, on segments.
pub mod Segments
pub mod Resolved
use Prim.Native.Char.{Char, code}
use haproxy_operator.Base.{
  String, Bool, false, ◌&&◌, ◌||◌, List, [], ◌∷◌, ◌===◌, ◌==◌, if◌then◌else◌,
}
use haproxy_operator.Platform.{Url, Client, Endpoint}
use haproxy_operator.Base.Split.{split, separated, join}

abbrev pub slash : Char
slash = "/"

abbrev is_slash : Char → Bool
is_slash c = code c == code slash

-- `strings.TrimPrefix(s, "/")`
unfoldable pub trim_prefix : String → String
trim_prefix String.[] = ""
trim_prefix (String.◌∷◌ c s) = if is_slash c then s else String.◌∷◌ c s

-- `strings.TrimSuffix(s, "/")`
unfoldable pub trim_suffix : String → String
trim_suffix String.[] = ""
trim_suffix (String.◌∷◌ c s) =
    let rest = trim_suffix s in if s === "" && is_slash c then "" else String.◌∷◌ c rest

abbrev pub is_rooted : String → Bool
is_rooted String.[] = false
is_rooted (String.◌∷◌ c s) = is_slash c

-- What ".." does to the segments before it, the last one first.
abbrev pub up : Bool → List String → List String
up rooted [] = if rooted then [] else ".." ∷ []
up rooted (s ∷ before) = if s === ".." then ".." ∷ s ∷ before else before

-- The segments of one list in reverse, before the other list.
abbrev pub reverse_onto : List String → List String → List String
reverse_onto [] ys = ys
reverse_onto (x ∷ xs) ys = reverse_onto xs (x ∷ ys)

-- The loop of `path.Clean`; `kept` has the last segment first.
unfoldable pub clean_segments : Bool → List String → List String → List String
clean_segments rooted kept [] = reverse_onto kept []
clean_segments rooted kept (s ∷ later) =
    let stay = clean_segments rooted kept later in
    let parent = clean_segments rooted (up rooted kept) later in
    let push = clean_segments rooted (s ∷ kept) later in
    if s === "" || s === "." then stay else if s === ".." then parent else push

-- `path.Clean` of a path that is not empty
unfoldable pub path_clean : String → String
unfolding clean_segments join split
path_clean p =
    let body = join slash (clean_segments (is_rooted p) [] (split slash p)) in
    if is_rooted p then String.◌∷◌ slash body else if body === "" then "." else body

-- `path.Join` of two elements
unfoldable pub path_join : String → String → String
unfolding path_clean separated
path_join a b =
    if a === "" then if b === "" then "" else path_clean b else path_clean (separated slash a b)

-- The path that `resolveURL` gives its URL.
unfoldable pub resolve_path : String → String → String
unfolding path_join trim_prefix trim_suffix
resolve_path base rel = path_join (trim_suffix base) (trim_prefix rel)

-- `resolveURL`: the other parts are those of the base URL.
unfoldable pub resolve_url : Client → Endpoint → Url
unfolding resolve_path
resolve_url c e = record c.base { path = resolve_path c.base.path e.path; query = e.query }
