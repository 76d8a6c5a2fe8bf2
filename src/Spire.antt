-- ===== src/Spire.antt =====
-- internal/spire/transport.go: the transport over a SPIRE source, and its verification of the
-- gateway's chain. The Workload API is a parameter.
pub mod Trust
use haproxy_operator.Base.{String, Text, Option, none, some, List, [], ◌∷◌, inl, inr}
use haproxy_operator.Haproxy.Errors.{Cause, Error, foreign, fail, wrap, Result, ok, err}
use haproxy_operator.Haproxy.Results.{and_then, wrapped}
use haproxy_operator.Platform.{Certificate, Svid, Platform}
use haproxy_operator.Act.{Act, pure, ◌>>=◌, on_error, open_source}

module _ {p : Platform} where
  -- `TLSTransport`, as far as it can fail
  unfoldable pub tls_transport : String → Act p (Option Error)
  tls_transport socket_path = do
    failure ← open_source socket_path
    on_error failure (λ e. pure (some (wrap "create SPIRE x509 source: " e []))) (pure none)

abbrev svid_chain : Svid → List Text
svid_chain svid = svid.chain

-- `if _, err := leaf.Verify(opts); err != nil { … }`
unfoldable pub checked_chain : Option Cause → Result (Unit {0})
checked_chain none = ok tt
checked_chain (some c) = err (wrap "server certificate verification failed: " (foreign c) [])

module _ (p : Platform) where
  -- The `GetClientCertificate` callback: the SVID's chain of the moment
  unfoldable pub get_client_certificate : p.World → Result (List Text)
  get_client_certificate w =
      and_then (wrapped "get X.509 SVID: " (p.x509_svid w)) (λ svid. ok (svid_chain svid))

  -- The loop over the certificates after the leaf; one that cannot be parsed is skipped.
  unfoldable pub parse_some : List Text → List Certificate
  parse_some [] = []
  parse_some (raw ∷ raws) = elim (p.parse_certificate raw) [
    | inl c ↦ parse_some raws
    | inr cert ↦ cert ∷ parse_some raws
  ]

  -- `verifyServerCert`
  unfoldable pub verify_server_cert : List Text → p.World → Result (Unit {0})
  unfolding parse_some
  verify_server_cert [] w = err (fail "server presented no certificates")
  verify_server_cert (raw ∷ raws) w =
      and_then (wrapped "get SVID for trust domain: " (p.x509_svid w)) λ svid.
        and_then (wrapped "get trust bundle: " (p.x509_bundle svid.trust_domain w)) λ bundle.
          and_then (wrapped "parse server leaf certificate: " (p.parse_certificate raw)) λ leaf.
            checked_chain (
              p.verify_chain leaf
                (record { dns_name = none; roots = bundle; intermediates = parse_some raws }) w)
