-- ===== src/Spire/Trust.antt =====
-- Which certificate chains of a gateway the SPIRE transport of internal/spire/transport.go accepts.
use haproxy_operator.Base.{
  Text, ◌≡◌, ◌↔◌, refl, sym, ap, subst, Option, none, some, List, [], ◌∷◌, inl, inr,
}
use haproxy_operator.Haproxy.Errors.{Cause, ok}
use haproxy_operator.Haproxy.Results.{and_then, wrapped, and_then-eq_ok, wrapped-eq_ok}
use haproxy_operator.Platform.{Certificate, Svid, Platform}
use haproxy_operator.Spire.{checked_chain, parse_some, verify_server_cert}

-- The certificates that texts hold, without the texts that hold none.
pub data SomeParsed (p : Platform) : List Text → List Certificate → Type 0 where
  nothing : SomeParsed p [] []
  take :
      {raw : Text} {raws : List Text} {c : Certificate} {cs : List Certificate}
      → p.parse_certificate raw ≡ inr c
      → SomeParsed p raws cs
      → SomeParsed p (raw ∷ raws) (c ∷ cs)
  skip :
      {raw : Text} {raws : List Text} {e : Cause} {cs : List Certificate}
      → p.parse_certificate raw ≡ inl e
      → SomeParsed p raws cs
      → SomeParsed p (raw ∷ raws) cs

-- A chain that holds in a world: its leaf is verified, in that world, against the authorities of the operator's own
-- trust domain, for no host name.
pub record TrustedBySpire (p : Platform) (w : p.World) (raws : List Text) : Type 0 where
  pub first : Text
  pub others : List Text
  pub presented : raws ≡ first ∷ others
  pub svid : Svid
  pub own : p.x509_svid w ≡ inr svid
  pub authorities : List Certificate
  pub bundle : p.x509_bundle svid.trust_domain w ≡ inr authorities
  pub leaf : Certificate
  pub leaf_parsed : p.parse_certificate first ≡ inr leaf
  pub intermediates : List Certificate
  pub parsed : SomeParsed p others intermediates
  pub verified :
      p.verify_chain leaf
        (record { dns_name = none; roots = authorities; intermediates = intermediates })
        w
      ≡ none

parse_some-SomeParsed : (p : Platform) (raws : List Text) → SomeParsed p raws (parse_some p raws)
unfolding parse_some
parse_some-SomeParsed p [] = nothing
parse_some-SomeParsed p (raw ∷ raws) =
    elim (p.parse_certificate raw)
        as (λ o.
          p.parse_certificate raw ≡ o
          → SomeParsed p (raw ∷ raws)
              (elim o [ inl c ↦ parse_some p raws | inr cert ↦ cert ∷ parse_some p raws ])) [
                | inl c ↦ (λ e. skip e (parse_some-SomeParsed p raws))
                | inr cert ↦ (λ e. take e (parse_some-SomeParsed p raws))
              ]
      refl

parse_some_unique :
    (p : Platform) (raws : List Text) (certs : List Certificate)
    → SomeParsed p raws certs
    → parse_some p raws ≡ certs
unfolding parse_some
parse_some_unique p [] [] nothing = refl
parse_some_unique p [] (c ∷ cs) x = elim x [ ]
parse_some_unique p (raw ∷ raws) (c ∷ cs) (take e t) =
    rw (parse_some, e) (ap (λ l. c ∷ l) (parse_some_unique p raws cs t))
parse_some_unique p (raw ∷ raws) cs (skip e t) = rw (parse_some, e) (parse_some_unique p raws cs t)

accepts :
    (p : Platform) (raws : List Text) (w : p.World)
    → TrustedBySpire p w raws
    → verify_server_cert p raws w ≡ ok tt
unfolding verify_server_cert and_then wrapped checked_chain
accepts p raws w t =
    subst (λ l. verify_server_cert p l w ≡ ok tt) (sym t.presented)
      (rw (
        t.own,
        t.bundle,
        t.leaf_parsed,
        parse_some_unique p t.others t.intermediates t.parsed,
        t.verified,
      ))

no_failure : (o : Option Cause) → checked_chain o ≡ ok tt → o ≡ none
unfolding checked_chain
no_failure none h = refl
no_failure (some c) h = cc

-- For every presented chain and world: the handshake callback accepts the chain if and only if the
-- source has an SVID and a bundle for its trust domain, the chain is not empty, its first
-- certificate parses and is verified against that bundle for no host name, with those of the
-- others that parse as intermediates.
pub verify_server_cert-eq_ok_iff :
    (p : Platform) (raws : List Text) (w : p.World)
    → (verify_server_cert p raws w ≡ ok tt) ↔ TrustedBySpire p w raws
unfolding verify_server_cert
verify_server_cert-eq_ok_iff p [] w = (λ h. cc, accepts p [] w)
verify_server_cert-eq_ok_iff p (raw ∷ raws) w = (
  λ h.
      let (svid, own, h1) = and_then-eq_ok _ _ h in
      let (authorities, bundle, h2) = and_then-eq_ok _ _ h1 in
      let (leaf, parsed, h3) = and_then-eq_ok _ _ h2 in
      record {
        first = raw;
        others = raws;
        presented = refl;
        svid = svid;
        own = wrapped-eq_ok _ _ own;
        authorities = authorities;
        bundle = wrapped-eq_ok _ _ bundle;
        leaf = leaf;
        leaf_parsed = wrapped-eq_ok _ _ parsed;
        intermediates = parse_some p raws;
        parsed = parse_some-SomeParsed p raws;
        verified = no_failure _ h3;
      },
  accepts p (raw ∷ raws) w,
)
