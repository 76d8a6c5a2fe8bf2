-- ===== src/Metrics/Expiry.antt =====
-- The loops over PEM blocks of certFileNotAfter in internal/metrics/cert_expiry.go and leafSerial in
-- internal/haproxy/dataplane_client.go.
use haproxy_operator.Base.{
  ℕ, zero, suc, ◌<◌, String, Text, length, true, false, ◌≡◌, ◌↔◌, refl, ◌∙◌, ap, Option, none, some,
  arith, inl, inr, ◌⊎◌, ◌===◌, Bool, not, if◌then◌else◌,
}
use haproxy_operator.Haproxy.Errors.{Cause, Result, ok}
use haproxy_operator.Haproxy.Certificates.{leaf_round, leaf_serial_from, leaf_serial, parsed_serial}
use haproxy_operator.Haproxy.Leaf.{Consumes}
use haproxy_operator.Platform.{PemBlock, Certificate, Platform}
use haproxy_operator.Metrics.{expiry_round, expiry_from, parsed_expiry, cert_file_not_after}
use haproxy_operator.Act.{lifted}
use haproxy_operator.Haproxy.Results.{and_then, and_then-eq_ok, settled, settled-eq_ok}

-- The first certificate of a PEM text: blocks of other kinds stand before it at most.
pub data First (p : Platform) : Text → Certificate → Type 0 where
  here :
      {t rest : Text} {block : PemBlock} {c : Certificate}
      → p.pem_decode t ≡ some (block, rest)
      → (block.kind === "CERTIFICATE") ≡ true
      → p.parse_certificate block.bytes ≡ inr c
      → First p t c
  past :
      {t rest : Text} {block : PemBlock} {c : Certificate}
      → p.pem_decode t ≡ some (block, rest)
      → (block.kind === "CERTIFICATE") ≡ false
      → First p rest c
      → First p t c

some_inj : {A : Type 0} {a b : Result A} → Option.some a ≡ some b → a ≡ b
some_inj h = cc

-- What a round that reads one field of a certificate has found when it answers.
found :
    (p : Platform) {A : Type 0} (field : Certificate → A) (answer : Cause ⊎ Certificate → Result A)
    (later : Text → Option (Result A)) (t : Text) {x : A}
    → ((o : Cause ⊎ Certificate)
        → answer o ≡ ok x
        → (c : Certificate) × (o ≡ inr c) × (field c ≡ x))
    → ((next : Text)
        → later next ≡ some (ok x)
        → (c : Certificate) × First p next c × (field c ≡ x))
    → (b : PemBlock) (next : Text) (k : Bool) → p.pem_decode t ≡ some (b, next)
    → (b.kind === "CERTIFICATE") ≡ k
    → (if not k then later next else some (answer (p.parse_certificate b.bytes))) ≡ some (ok x)
    → (c : Certificate) × First p t c × (field c ≡ x)
found p field answer later t answers laters b next true d k h =
    let (c, q, e) = answers (p.parse_certificate b.bytes) (some_inj h) in (c, here d k q, e)
found p field answer later t answers laters b next false d k h =
    let (c, f, e) = laters next h in (c, past d k f, e)

parsed_expiry-eq_ok :
    (path : String) {x : ℕ} (o : Cause ⊎ Certificate)
    → parsed_expiry path o ≡ ok x
    → (c : Certificate) × (o ≡ inr c) × (c.not_after ≡ x)
parsed_expiry-eq_ok path (inl e) h = cc
parsed_expiry-eq_ok path (inr c) h = (c, refl, cc)

parsed_serial-eq_ok :
    {x : Text} (o : Cause ⊎ Certificate)
    → parsed_serial o ≡ ok x
    → (c : Certificate) × (o ≡ inr c) × (c.serial ≡ x)
parsed_serial-eq_ok (inl e) h = cc
parsed_serial-eq_ok (inr c) h = (c, refl, cc)

expiry_round-First :
    (p : Platform) (path : String) (later : Text → Option (Result ℕ)) (t : Text) {x : ℕ}
    → ((next : Text)
        → later next ≡ some (ok x)
        → (c : Certificate) × First p next c × (c.not_after ≡ x))
    → (o : Option (PemBlock × Text)) → p.pem_decode t ≡ o
    → expiry_round p path o later ≡ some (ok x)
    → (c : Certificate) × First p t c × (c.not_after ≡ x)
unfolding expiry_round
expiry_round-First p path later t laters none d h = cc
expiry_round-First p path later t laters (some (b, next)) d h =
    found p (λ c. c.not_after) (parsed_expiry path) later t (parsed_expiry-eq_ok path) laters b next
      (b.kind === "CERTIFICATE") d refl h

expiry_from-First :
    (p : Platform) (rounds : ℕ) (path : String) (t : Text) {x : ℕ}
    → expiry_from p rounds path t ≡ some (ok x)
    → (c : Certificate) × First p t c × (c.not_after ≡ x)
unfolding expiry_from
expiry_from-First p zero path t h = cc
expiry_from-First p (suc rounds) path t h =
    expiry_round-First p path (λ n. expiry_from p rounds path n) t
      (λ n. expiry_from-First p rounds path n) (p.pem_decode t) refl h

leaf_round-First :
    (p : Platform) (later : Text → Option (Result Text)) (t : Text) {x : Text}
    → ((next : Text)
        → later next ≡ some (ok x)
        → (c : Certificate) × First p next c × (c.serial ≡ x))
    → (o : Option (PemBlock × Text)) → p.pem_decode t ≡ o
    → leaf_round p o later ≡ some (ok x)
    → (c : Certificate) × First p t c × (c.serial ≡ x)
unfolding leaf_round
leaf_round-First p later t laters none d h = cc
leaf_round-First p later t laters (some (b, next)) d h =
    found p (λ c. c.serial) parsed_serial later t parsed_serial-eq_ok laters b next
      (b.kind === "CERTIFICATE") d refl h

leaf_serial_from-First :
    (p : Platform) (rounds : ℕ) (t : Text) {x : Text}
    → leaf_serial_from p rounds t ≡ some (ok x)
    → (c : Certificate) × First p t c × (c.serial ≡ x)
unfolding leaf_serial_from
leaf_serial_from-First p zero t h = cc
leaf_serial_from-First p (suc rounds) t h =
    leaf_round-First p (λ n. leaf_serial_from p rounds n) t (λ n. leaf_serial_from-First p rounds n)
      (p.pem_decode t) refl h

from_First :
    (p : Platform)
    → Consumes p
    → (rounds : ℕ) (path : String) (t : Text) (c : Certificate) → First p t c
    → length t < rounds
    → (expiry_from p rounds path t ≡ some (ok c.not_after))
      × (leaf_serial_from p rounds t ≡ some (ok c.serial))
unfolding expiry_from leaf_serial_from
from_First p consumes zero path t c f h = absurd (omega arith)
from_First p consumes (suc rounds) path t c (here d k q) h =
    unfold expiry_round leaf_round in (rw (d, k, q), rw (d, k, q))
from_First p consumes (suc rounds) path t c (past {rest = rest} d k f) h =
    let (a, b) =
      from_First p consumes rounds path rest c f (omega (arith, consumes t _ rest d, h)) in
    unfold expiry_round leaf_round in (rw (d, k) a, rw (d, k) b)

lifted-eq_ok : {A : Type 0} (x : Cause ⊎ A) {a : A} → lifted x ≡ ok a → x ≡ inr a
lifted-eq_ok (inl c) h = cc
lifted-eq_ok (inr a) h = cc

module _ (p : Platform) (consumes : Consumes p) where
  -- Where each PEM block takes a byte at least of the text it is decoded from: certFileNotAfter
  -- answers with a time if and only if the file can be read, its first block of kind CERTIFICATE
  -- parses, and the time is that certificate's.
  pub cert_file_not_after-eq_ok_iff :
      (path : String) (w : p.World) (x : ℕ)
      → (cert_file_not_after p path w ≡ ok x) ↔ (
          (pem : Text) × (p.read_file path w ≡ inr pem)
          × ((c : Certificate) × First p pem c × (c.not_after ≡ x)))
  unfolding cert_file_not_after and_then settled
  cert_file_not_after-eq_ok_iff path w x = (
    λ h.
        let (pem, read, rest) = and_then-eq_ok _ _ h in
        (
          pem,
          lifted-eq_ok _ read,
          expiry_from-First p (suc (length pem)) path pem (settled-eq_ok _ rest),
        ),
    λ (pem, read, (c, f, e)). rw read (
        ap settled (from_First p consumes (suc (length pem)) path pem c f (omega arith)).0
        ∙ ap (λ n. ok n) e),
  )

  -- Where each PEM block takes a byte at least of the text it is decoded from: when leafSerial
  -- answers with a serial number for a file's content, certFileNotAfter answers for that file, and
  -- with the expiry of the very certificate that the serial number is of.
  pub leaf_serial-same_leaf :
      (path : String) (w : p.World) (pem serial : Text)
      → p.read_file path w ≡ inr pem
      → leaf_serial p pem ≡ ok serial
      → (c : Certificate) × First p pem c
        × (c.serial ≡ serial)
        × (cert_file_not_after p path w ≡ ok c.not_after)
  unfolding cert_file_not_after and_then leaf_serial settled
  leaf_serial-same_leaf path w pem serial read h =
      let (c, f, e) = leaf_serial_from-First p (suc (length pem)) pem (settled-eq_ok _ h) in
      (
        c,
        f,
        e,
        rw read
            (ap settled (from_First p consumes (suc (length pem)) path pem c f (omega arith)).0),
      )
