-- ===== src/Haproxy/Verify/Trust.antt =====
-- Which certificate chains of a gateway the transports of internal/haproxy and internal/spire accept.
use haproxy_operator.Base.{
  String, Text, not, Bool, true, false, ◌≡◌, ◌↔◌, refl, sym, Option, none, some, List, [], ◌∷◌,
  if◌then◌else◌, inr, subst,
}
use haproxy_operator.Haproxy.Errors.{Cause, Error, Result, ok, err}
use haproxy_operator.Haproxy.Results.{and_then, wrapped, passed, and_then-eq_ok, wrapped-eq_ok}
use haproxy_operator.Platform.{Certificate, Platform}
use haproxy_operator.Act.{caused}
use haproxy_operator.Haproxy.Verify.{load_ca_pool, parse_chain, verify_peer_certificate}

-- The certificates that texts hold, one of each.
abbrev pub AllParsed : Platform → List Text → List Certificate → Type 0
AllParsed p [] [] = Unit {0}
AllParsed p [] (c ∷ cs) = ⊥
AllParsed p (t ∷ ts) [] = ⊥
AllParsed p (t ∷ ts) (c ∷ cs) = (p.parse_certificate t ≡ inr c) × AllParsed p ts cs

-- The pool of a CA file, as it is in a world.
pub record IsPool (p : Platform) (path : String) (w : p.World) (roots : List Certificate)
    : Type 0 where
  pub pem : Text
  pub readable : p.read_file path w ≡ inr pem
  pub usable : p.append_certs_from_pem pem ≡ true
  pub pool : roots ≡ p.certs_from_pem pem

-- A chain whose leaf is verified in a world for a host name, with all of its other certificates to build on.
pub record Trusted (p : Platform) (w : p.World) (roots : List Certificate) (name : String)
    (raws : List Text) : Type 0 where
  pub first : Text
  pub others : List Text
  pub presented : raws ≡ first ∷ others
  pub leaf : Certificate
  pub leaf_parsed : p.parse_certificate first ≡ inr leaf
  pub intermediates : List Certificate
  pub parsed : AllParsed p others intermediates
  pub verified :
      p.verify_chain leaf
        (record { dns_name = some name; roots = roots; intermediates = intermediates })
        w
      ≡ none

caused-passed : (o : Option Error) → passed o ≡ ok tt → o ≡ none
unfolding passed
caused-passed none h = refl
caused-passed (some e) h = cc

unless_err :
    {A : Type 0} (b : Bool) (e : Error) (x y : A)
    → (if not b then err e else ok x) ≡ ok y
    → (b ≡ true) × (y ≡ x)
unless_err true e x y h = (refl, cc)
unless_err false e x y h = cc

load_ca_pool-IsPool :
    (p : Platform) (path : String) (w : p.World) (roots : List Certificate)
    → load_ca_pool p path w ≡ ok roots
    → IsPool p path w roots
unfolding load_ca_pool
load_ca_pool-IsPool p path w roots h =
    let (pem, read, rest) = and_then-eq_ok _ _ h in
    let (usable, pool) = unless_err (p.append_certs_from_pem pem) _ _ _ rest in
    record { pem = pem; readable = wrapped-eq_ok _ _ read; usable = usable; pool = pool }

load_ca_pool-eq_ok :
    (p : Platform) (path : String) (w : p.World) (roots : List Certificate)
    → IsPool p path w roots
    → load_ca_pool p path w ≡ ok roots
unfolding load_ca_pool and_then wrapped
load_ca_pool-eq_ok p path w roots pool = rw (pool.readable, pool.usable, pool.pool)

parse_chain-AllParsed :
    (p : Platform) (raws : List Text) (certs : List Certificate)
    → parse_chain p raws ≡ ok certs
    → AllParsed p raws certs
unfolding parse_chain
parse_chain-AllParsed p [] [] h = tt
parse_chain-AllParsed p [] (c ∷ cs) h = cc
parse_chain-AllParsed p (raw ∷ raws) certs h =
    let (cert, parsed, rest) = and_then-eq_ok _ _ h in
    let (others, all, same) = and_then-eq_ok _ _ rest in
    subst (AllParsed p (raw ∷ raws)) (ok_inj same)
      (wrapped-eq_ok _ _ parsed, parse_chain-AllParsed p raws others all)
  where
    ok_inj : {a b : List Certificate} → Result.ok a ≡ ok b → a ≡ b
    ok_inj h = cc

parse_chain-eq_ok :
    (p : Platform) (raws : List Text) (certs : List Certificate)
    → AllParsed p raws certs
    → parse_chain p raws ≡ ok certs
unfolding parse_chain and_then wrapped
parse_chain-eq_ok p [] [] h = refl
parse_chain-eq_ok p [] (c ∷ cs) h = absurd h
parse_chain-eq_ok p (raw ∷ raws) [] h = absurd h
parse_chain-eq_ok p (raw ∷ raws) (c ∷ cs) h = rw (h.0, parse_chain-eq_ok p raws cs h.1)

accepts :
    (p : Platform) (ca_path server_name : String) (raws : List Text) (w : p.World)
    (roots : List Certificate)
    → IsPool p ca_path w roots
    → Trusted p w roots server_name raws
    → verify_peer_certificate p ca_path server_name raws w ≡ ok tt
unfolding verify_peer_certificate and_then wrapped passed
accepts p ca_path server_name raws w roots pool t =
    subst (λ l. verify_peer_certificate p ca_path server_name l w ≡ ok tt) (sym t.presented)
      (rw (
        load_ca_pool-eq_ok p ca_path w roots pool,
        t.leaf_parsed,
        parse_chain-eq_ok p t.others t.intermediates t.parsed,
        t.verified,
      ))

-- For every CA file, host name, presented chain and world: the handshake callback accepts the chain
-- if and only if the file as it is now holds a usable pool and the chain is not empty, all of its
-- certificates parse, and its first one is verified for the host name against that pool, with the
-- others as intermediates.
pub verify_peer_certificate-eq_ok_iff :
    (p : Platform) (ca_path server_name : String) (raws : List Text) (w : p.World)
    → (verify_peer_certificate p ca_path server_name raws w ≡ ok tt)
      ↔ ((roots : List Certificate) × IsPool p ca_path w roots × Trusted p w roots server_name raws)
unfolding verify_peer_certificate
verify_peer_certificate-eq_ok_iff p ca_path server_name [] w =
    (λ h. cc, λ (roots, pool, t). accepts p ca_path server_name [] w roots pool t)
verify_peer_certificate-eq_ok_iff p ca_path server_name (raw ∷ raws) w = (
  λ h.
      let (roots, pool, h1) = and_then-eq_ok _ _ h in
      let (leaf, parsed, h2) = and_then-eq_ok _ _ h1 in
      let (intermediates, all, h3) = and_then-eq_ok _ _ h2 in
      (
        roots,
        load_ca_pool-IsPool p ca_path w roots pool,
        record {
          first = raw;
          others = raws;
          presented = refl;
          leaf = leaf;
          leaf_parsed = wrapped-eq_ok _ _ parsed;
          intermediates = intermediates;
          parsed = parse_chain-AllParsed p raws intermediates all;
          verified = not_caused _ (caused-passed _ h3);
        },
      ),
  λ (roots, pool, t). accepts p ca_path server_name (raw ∷ raws) w roots pool t,
)
  where
    not_caused : (o : Option Cause) → caused o ≡ none → o ≡ none
    not_caused none h = refl
    not_caused (some c) h = cc
