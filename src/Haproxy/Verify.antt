-- ===== src/Haproxy/Verify.antt =====
-- The verification of the gateway's certificate chain by the transport that NewClient builds in
-- internal/haproxy/dataplane_client.go: loadCAPool and the VerifyPeerCertificate callback.
pub mod Trust
use haproxy_operator.Base.{String, Text, not, Option, none, some, List, [], ◌∷◌, if◌then◌else◌}
use haproxy_operator.Haproxy.Errors.{Error, fail, foreign, wrap, Result, ok, err}
use haproxy_operator.Haproxy.Results.{and_then, wrapped, passed}
use haproxy_operator.Platform.{Certificate, Platform}
use haproxy_operator.Act.{caused}

module _ (p : Platform) where
  -- `loadCAPool`, with the certificates of the pool
  unfoldable pub load_ca_pool : String → p.World → Result (List Certificate)
  load_ca_pool path w = and_then (wrapped "read dataplane CA: " (p.read_file path w)) λ pem.
      if not (p.append_certs_from_pem pem)
      then err (fail "append dataplane CA: failed to parse PEM")
      else ok (p.certs_from_pem pem)

  -- The loop over the certificates after the leaf; the first that cannot be parsed is an error.
  unfoldable pub parse_chain : List Text → Result (List Certificate)
  parse_chain [] = ok []
  parse_chain (raw ∷ raws) =
      and_then (wrapped "parse dataplane chain cert: " (p.parse_certificate raw))
        λ cert. and_then (parse_chain raws) (λ certs. ok (cert ∷ certs))

  -- The `VerifyPeerCertificate` callback, for a CA file, a host name and what the server presented
  unfoldable pub verify_peer_certificate : String → String → List Text → p.World → Result (Unit {0})
  unfolding load_ca_pool parse_chain
  verify_peer_certificate ca_path server_name [] w =
      err (fail "dataplane server presented no certificates")
  verify_peer_certificate ca_path server_name (raw ∷ raws) w =
      and_then (load_ca_pool ca_path w) λ roots.
        and_then (wrapped "parse dataplane server cert: " (p.parse_certificate raw)) λ leaf.
          and_then (parse_chain raws) λ intermediates. passed (
            caused (
              p.verify_chain leaf
                (record {
                  dns_name = some server_name;
                  roots = roots;
                  intermediates = intermediates;
                })
                w))

  -- The `GetClientCertificate` callback: the pair is read again at every handshake.
  unfoldable pub get_client_certificate : String → String → p.World → Option Error
  get_client_certificate cert_path key_path w = elim (p.load_key_pair cert_path key_path w) [
    | none ↦ none
    | some c ↦ some (wrap "reload dataplane client cert/key: " (foreign c) [])
  ]
