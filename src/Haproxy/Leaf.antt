-- ===== src/Haproxy/Leaf.antt =====
-- The loops over PEM blocks: leafSerial in internal/haproxy/dataplane_client.go, and what each such
-- loop needs to end.
use haproxy_operator.Base.{
  ℕ, zero, suc, ◌<◌, Text, length, Bool, true, false, not, ◌≡◌, ◌∙◌, refl, Option, none, some, inl,
  inr, ◌⊎◌, ◌===◌, arith, if◌then◌else◌,
}
use haproxy_operator.Haproxy.Errors.{Result, err, fail}
use haproxy_operator.Haproxy.Results.{settled}
use haproxy_operator.Haproxy.Certificates.{leaf_round, leaf_serial_from, leaf_serial, parsed_serial}
use haproxy_operator.Platform.{PemBlock, Platform}

-- A PEM block takes a byte at least from the text that it stands in.
abbrev pub Consumes : Platform → Type 0
Consumes p =
    (t : Text) (block : PemBlock) (rest : Text)
    → p.pem_decode t ≡ some (block, rest)
    → length rest < length t

-- A round on a text ends the loop, however many are left, or goes on with what follows a block.
abbrev pub Turns : {A : Type 0} → Platform → (ℕ → Text → Option A) → Text → Type 0
Turns {A} p loop t =
    ((x : A) × ((rounds : ℕ) → loop (suc rounds) t ≡ some x))
    ⊎ ((block : PemBlock) × (rest : Text) × (p.pem_decode t ≡ some (block, rest))
        × ((rounds : ℕ) → loop (suc rounds) t ≡ loop rounds rest))

-- Such a round, by the next block and its kind.
pub turns :
    {A : Type 0} (p : Platform) (loop : ℕ → Text → Option A) (t : Text) (missing : A)
    (answer : PemBlock → A)
    → (p.pem_decode t ≡ none → (rounds : ℕ) → loop (suc rounds) t ≡ some missing)
    → ((block : PemBlock) (rest : Text)
        → p.pem_decode t ≡ some (block, rest)
        → (rounds : ℕ)
        → loop (suc rounds) t
          ≡ (if not (block.kind === "CERTIFICATE") then loop rounds rest else some (answer block)))
    → Turns p loop t
turns p loop t missing answer stops goes = by_block (p.pem_decode t) refl
  where
    by_kind :
        (block : PemBlock) (rest : Text) (k : Bool)
        → p.pem_decode t ≡ some (block, rest)
        → ((rounds : ℕ)
            → loop (suc rounds) t ≡ (if not k then loop rounds rest else some (answer block)))
        → Turns p loop t
    by_kind block rest true d e = inl (answer block, e)
    by_kind block rest false d e = inr (block, rest, d, e)

    by_block : (o : Option (PemBlock × Text)) → p.pem_decode t ≡ o → Turns p loop t
    by_block none d = inl (missing, stops d)
    by_block (some (block, rest)) d =
        by_kind block rest (block.kind === "CERTIFICATE") d (goes block rest d)

-- Such a loop ends, with the same result in every number of rounds above the length of the text.
pub settles :
    {A : Type 0} (p : Platform) (loop : ℕ → Text → Option A)
    → Consumes p
    → ((t : Text) → Turns p loop t)
    → (n : ℕ) (t : Text) → length t < n
    → (x : A) × ((rounds : ℕ) → length t < rounds → loop rounds t ≡ some x)
settles p loop consumes steps zero t h = absurd (omega arith)
settles {A} p loop consumes steps (suc n) t h = elim (steps t) [
  | inl (x, e) ↦ (x, λ rounds i. at_once x e rounds i)
  | inr (block, rest, d, e) ↦
      let shorter = consumes t block rest d in
      let (x, q) = settles p loop consumes steps n rest (omega (arith, shorter, h)) in
      (x, λ rounds i. later rest x e q shorter rounds i)
]
  where
    at_once :
        (x : A)
        → ((rounds : ℕ) → loop (suc rounds) t ≡ some x)
        → (rounds : ℕ) → length t < rounds
        → loop rounds t ≡ some x
    at_once x e zero i = absurd (omega arith)
    at_once x e (suc rounds) i = e rounds

    later :
        (rest : Text) (x : A)
        → ((rounds : ℕ) → loop (suc rounds) t ≡ loop rounds rest)
        → ((rounds : ℕ) → length rest < rounds → loop rounds rest ≡ some x)
        → length rest < length t
        → (rounds : ℕ) → length t < rounds
        → loop rounds t ≡ some x
    later rest x e q shorter zero i = absurd (omega arith)
    later rest x e q shorter (suc rounds) i = e rounds ∙ q rounds (omega (arith, shorter, i))

-- What a loop that settles was given is enough.
pub settled-enough :
    {A : Type 0} (loop : ℕ → Text → Option (Result A)) (t : Text)
    → ((x : Result A) × ((rounds : ℕ) → length t < rounds → loop rounds t ≡ some x))
    → (rounds : ℕ) → length t < rounds
    → loop rounds t ≡ some (settled (loop (suc (length t)) t))
unfolding settled
settled-enough loop t (x, q) rounds h = rw (q (suc (length t)) (omega arith)) (q rounds h)

Turns-leaf_serial_from : (p : Platform) (t : Text) → Turns p (leaf_serial_from p) t
unfolding leaf_serial_from leaf_round
Turns-leaf_serial_from p t =
    turns p (leaf_serial_from p) t (err (fail "no CERTIFICATE block found in PEM bundle"))
      (λ block. parsed_serial (p.parse_certificate block.bytes)) (λ d rounds. rw d refl)
      (λ block rest d rounds. rw d refl)

-- Where each PEM block takes a byte at least of the text it is decoded from: the loop of leafSerial
-- ends in every number of rounds above the length of the bundle, and what it then has is what
-- leafSerial returns.
pub leaf_serial-enough :
    (p : Platform)
    → Consumes p
    → (pem : Text) (rounds : ℕ) → length pem < rounds
    → leaf_serial_from p rounds pem ≡ some (leaf_serial p pem)
unfolding leaf_serial
leaf_serial-enough p consumes pem rounds h =
    settled-enough (leaf_serial_from p) pem
      (settles p (leaf_serial_from p) consumes (Turns-leaf_serial_from p) (suc (length pem)) pem
        (omega arith))
      rounds h
