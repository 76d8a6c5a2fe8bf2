-- ===== src/Metrics/Ends.antt =====
-- The end of the loop of certFileNotAfter in internal/metrics/cert_expiry.go.
use haproxy_operator.Base.{ℕ, suc, ◌<◌, String, Text, length, ◌≡◌, refl, some, inr, arith}
use haproxy_operator.Base.{◌<>◌}
use haproxy_operator.Haproxy.Errors.{err, fail}
use haproxy_operator.Haproxy.Leaf.{Consumes, Turns, turns, settles, settled-enough}
use haproxy_operator.Haproxy.Results.{and_then}
use haproxy_operator.Platform.{Platform}
use haproxy_operator.Metrics.{expiry_round, expiry_from, parsed_expiry, cert_file_not_after}

Turns-expiry_from :
    (p : Platform) (path : String) (t : Text) → Turns p (λ rounds u. expiry_from p rounds path u) t
unfolding expiry_from expiry_round
Turns-expiry_from p path t =
    turns p (λ rounds u. expiry_from p rounds path u) t
      (err (fail ("no CERTIFICATE block found in " <> path)))
      (λ block. parsed_expiry path (p.parse_certificate block.bytes)) (λ d rounds. rw d refl)
      (λ block rest d rounds. rw d refl)

-- Where each PEM block takes a byte at least of the text it is decoded from, for a file that can be
-- read: the loop of certFileNotAfter ends in every number of rounds above the length of the file, and
-- what it then has is what certFileNotAfter returns.
pub cert_file_not_after-enough :
    (p : Platform)
    → Consumes p
    → (path : String) (w : p.World) (pem : Text) (rounds : ℕ) → p.read_file path w ≡ inr pem
    → length pem < rounds
    → expiry_from p rounds path pem ≡ some (cert_file_not_after p path w)
unfolding cert_file_not_after and_then
cert_file_not_after-enough p consumes path w pem rounds read h = rw read (
    settled-enough (λ n u. expiry_from p n path u) pem
      (settles p (λ n u. expiry_from p n path u) consumes (Turns-expiry_from p path)
        (suc (length pem)) pem (omega arith))
      rounds h)
