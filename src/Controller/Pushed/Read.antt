-- ===== src/Controller/Pushed/Read.antt =====
-- What the read of a certificate by SyncSSLCertificate of internal/haproxy/dataplane_client.go shows.
use haproxy_operator.Base.{
  String, Text, text_eq, text_eq_refl, eq_iff, Bool, true, false, not, ◌&&◌, ◌||◌, ◌===◌, ◌==◌, ◌≡◌,
  refl, sym, ap, ◌∙◌, [], length, ltb, leb, ◌⊎◌, inl, inr, arith, if◌then◌else◌,
}
use haproxy_operator.Haproxy.Errors.{Cause, Result, ok, err}
use haproxy_operator.Haproxy.Client.{build, conclude, new_api_error}
use haproxy_operator.Haproxy.Certificates.{leaf_serial, is_current, certificate_endpoint}
use haproxy_operator.Platform.{
  Client, Method, get, StorageSslCertificate, Answer, unreachable, answered, Response, Effect,
  exchanged, Platform,
}
use haproxy_operator.Act.{lifted}
use haproxy_operator.Controller.Protocol.{succeeded}
use haproxy_operator.Controller.Protocol.Client.{result_of}

abbrev is_get : Method → Bool
is_get get = true
is_get _ = false

-- The stored certificate is that of the bundle: by the serial number of its leaf, and by its size if
-- that is known.
abbrev is_same : Text → Result Text → Cause ⊎ StorageSslCertificate → Bool
is_same pem (err e) remote = false
is_same pem (ok serial) (inl c) = false
is_same pem (ok serial) (inr remote) =
    not (text_eq remote.serial [])
    && (text_eq remote.serial serial && (remote.size == 0 || remote.size == length pem))

abbrev pub shows_same : Platform → Text → Answer → Bool
shows_same p pem (unreachable t c) = false
shows_same p pem (answered resp) =
    succeeded (answered resp) && is_same pem (leaf_serial p pem) (p.decode_certificate resp)

-- A read of the certificate that the gateway answered with the one of the bundle.
unfoldable pub is_match : (p : Platform) → String → Text → Effect → Bool
is_match p name pem (exchanged r a) =
    is_get r.method
    && (r.endpoint.path === (certificate_endpoint p name).path && shows_same p pem a)
is_match p name pem _ = false

module _ (p : Platform) where
  pub matched :
      (c : Client) (name : String) (pem : Text) (a : Answer)
      → shows_same p pem a ≡ true
      → is_match p name pem
          (exchanged (build c get (certificate_endpoint p name) [] "application/json") a)
        ≡ true
  unfolding is_match build
  matched c name pem a h =
      rw ((eq_iff (certificate_endpoint p name).path (certificate_endpoint p name).path).1 refl, h)

-- A result is what the decoder made of a 2xx answer, if it is not the empty one.
conclude-eq_ok :
    {A : Type 0} (empty : A) (decode : Response → Cause ⊎ A) (resp : Response) (x : A)
    → conclude empty decode resp ≡ ok x
    → (succeeded (answered resp) ≡ true) × ((x ≡ empty) ⊎ (decode resp ≡ inr x))
unfolding conclude
conclude-eq_ok {A} empty decode resp x h =
    by_status (ltb resp.status 200 || leb 300 resp.status) (resp.status == 204) (ground arith) h
  where
    decoded : (o : Cause ⊎ A) → lifted o ≡ ok x → o ≡ inr x
    decoded (inl c) i = cc
    decoded (inr a) i = cc

    by_status :
        (bad none_there : Bool)
        → (bad ≡ false → succeeded (answered resp) ≡ true)
        → (if bad
            then err (new_api_error resp)
            else if none_there
            then ok empty
            else lifted (decode resp))
          ≡ ok x
        → (succeeded (answered resp) ≡ true) × ((x ≡ empty) ⊎ (decode resp ≡ inr x))
    by_status true none_there good i = cc
    by_status false true good i = (good refl, inl cc)
    by_status false false good i = (good refl, inr (decoded (decode resp) i))

-- What was read is current only if it is the certificate of a bundle that is on record as pushed.
pub is_current-match :
    (p : Platform) (remote : StorageSslCertificate) (serial pem : Text) (previously_synced : Bool)
    (a : Answer)
    → leaf_serial p pem ≡ ok serial
    → ok remote ≡ result_of (record { serial = []; size = 0 }) p.decode_certificate a
    → is_current remote serial pem previously_synced ≡ true
    → (previously_synced ≡ true) × (shows_same p pem a ≡ true)
unfolding is_current
is_current-match p remote serial pem previously_synced (unreachable u cause) own got same = cc
is_current-match p remote serial pem previously_synced (answered resp) own got same =
    let (good, from) = conclude-eq_ok _ _ resp remote (sym got) in
    elim from [
      | inl nothing ↦
          absurd (
            differs (text_eq remote.serial []) (ap (λ r. text_eq r.serial []) nothing)
              (filled same))
      | inr decoded ↦ (ground (arith, same), rw (good, own, decoded) (ground (arith, same)))
    ]
  where
    filled :
        is_current remote serial pem previously_synced ≡ true → text_eq remote.serial [] ≡ false
    filled h = ground (arith, h)

    apart : (b : Bool) → b ≡ true → b ≡ false → ⊥
    apart b h i = cc

    differs : (b : Bool) → b ≡ text_eq [] [] → b ≡ false → ⊥
    differs b h i = absurd (apart b (h ∙ text_eq_refl []) i)
