-- ===== src/Controller/Pushed.antt =====
-- What an error-free push of a certificate by internal/haproxy/dataplane_client.go shows.
pub mod Read
use haproxy_operator.Base.{
  String, Text, text_eq, text_eq_refl, eq_iff, Bool, true, false, ◌&&◌, ◌||◌, ◌===◌, ◌==◌, ◌≡◌,
  refl, sym, ◌∙◌, Option, none, [], any, ◌⊎◌, inl, inr,
}
use haproxy_operator.Haproxy.Errors.{Cause, Error, is_not_found}
use haproxy_operator.Haproxy.Client.{build, ssl_certificates, bare, post_plain}
use haproxy_operator.Haproxy.Certificates.{
  leaf_serial, is_current, certificate_endpoint, upload, create_ssl_certificate,
  sync_ssl_certificate,
}
use haproxy_operator.Platform.{
  Client, HttpRequest, Method, get, put, post, Answer, Effect, exchanged, Platform,
}
use haproxy_operator.Act.{State, pure}
use haproxy_operator.Act.Keeps.{
  Ensures, Ensures-bind, Ensures-pure, Ensures-weaken, Ensures-on_error, Ensures-or_error,
  Ensures-if, Yields-any,
}
use haproxy_operator.Controller.Protocol.{Closed-Unit, is_post, succeeded}
use haproxy_operator.Controller.Protocol.Client.{
  Seen, responded, Ensures-ask, Ensures-write, Ensures-post_plain,
}
use haproxy_operator.Controller.Protocol.Verdict.{responded-none}
use haproxy_operator.Controller.Pushed.Read.{is_match, matched, is_current-match}

abbrev is_put : Method → Bool
is_put put = true
is_put _ = false

-- The content of an upload form.
abbrev form_of : Cause ⊎ (String × Text) → Text
form_of (inl c) = []
form_of (inr (t, body)) = body

-- A write of the bundle that the gateway took: over the stored file, or as a new one in a form.
unfoldable pub is_push : (p : Platform) → String → Text → Effect → Bool
is_push p name pem (exchanged r a) =
    ((is_put r.method
        && (r.endpoint.path === (certificate_endpoint p name).path && text_eq r.body pem))
      || (is_post r.method
          && (r.endpoint.path === ssl_certificates
              && text_eq r.body (form_of (p.multipart "file_upload" name pem)))))
    && succeeded a
is_push p name pem _ = false

-- The bundle was written; or it is on record as pushed, the gateway answered with its certificate,
-- and it is reported as unchanged.
abbrev pub IsPushed : {p : Platform} → String → Text → Bool → Bool → State p → Type 0
IsPushed {p} name pem previously_synced changed s =
    (any (is_push p name pem) s.log ≡ true)
    ⊎ ((previously_synced ≡ true) × (changed ≡ false) × (any (is_match p name pem) s.log ≡ true))

module _ (p : Platform) where
  written_over :
      (c : Client) (name : String) (pem : Text) (a : Answer)
      → succeeded a ≡ true
      → is_push p name pem
          (exchanged (build c put (certificate_endpoint p name) pem "text/plain") a)
        ≡ true
  unfolding is_push build
  written_over c name pem a h = rw (
    (eq_iff (certificate_endpoint p name).path (certificate_endpoint p name).path).1 refl,
    text_eq_refl pem,
    h,
  )

  written_new :
      (c : Client) (name : String) (pem : Text) (t : String) (body : Text) (a : Answer)
      → p.multipart "file_upload" name pem ≡ inr (t, body)
      → succeeded a ≡ true
      → is_push p name pem (exchanged (build c post (bare ssl_certificates) body t) a) ≡ true
  unfolding is_push build
  written_new c name pem t body a e h = rw (e, text_eq_refl body, h)

module _ {p : Platform} where
  -- An answer that shows a write.
  pushed_by :
      (name : String) (pem : Text) (r : HttpRequest) (a : Answer) (e : Option Error) (s : State p)
      → (succeeded a ≡ true → is_push p name pem (exchanged r a) ≡ true)
      → Seen (exchanged r a) s
      → e ≡ responded a
      → e ≡ none
      → any (is_push p name pem) s.log ≡ true
  pushed_by name pem r a e s shows seen answer fine =
      seen (is_push p name pem) (shows (responded-none a (sym answer ∙ fine)))

  Pushed-put :
      (c : Client) (name : String) (pem : Text)
      → Ensures {p = p}
          (λ _. Unit {0})
          (post_plain c put (certificate_endpoint p name) pem)
          (λ e s. e ≡ none → any (is_push p name pem) s.log ≡ true)
  Pushed-put c name pem =
      Ensures-weaken _ (λ s h. h)
        (λ e s (_, (a, seen, answer)).
          pushed_by name pem _ a e s (written_over p c name pem a) seen answer)
        (Ensures-post_plain Closed-Unit c put (certificate_endpoint p name) pem
          (inl (unfold build in refl)))

  Pushed-upload :
      (c : Client) (name : String) (pem : Text)
      → Ensures {p = p}
          (λ _. Unit {0})
          (create_ssl_certificate c name pem)
          (λ e s. e ≡ none → any (is_push p name pem) s.log ≡ true)
  unfolding create_ssl_certificate upload pure
  Pushed-upload c name pem = by_form (p.multipart "file_upload" name pem) refl
    where
      by_form :
          (form : Cause ⊎ (String × Text))
          → p.multipart "file_upload" name pem ≡ form
          → Ensures {p = p}
              (λ _. Unit {0})
              (upload c form)
              (λ e s. e ≡ none → any (is_push p name pem) s.log ≡ true)
      by_form (inl cause) e = record { at = λ s h fine. cc }
      by_form (inr (t, body)) e =
          Ensures-bind _ _
            (Ensures-write Closed-Unit c post (bare ssl_certificates) body t
              (inl (unfold build in refl)))
            (λ r. Ensures-pure _ (λ s (_, (a, seen, answer)).
              pushed_by name pem _ a _ s (written_new p c name pem t body a e) seen answer))

IsPushed-sync_ssl_certificate :
    {p : Platform} (c : Client) (name : String) (pem : Text) (previously_synced : Bool)
    → Ensures {p = p}
        (λ _. Unit {0})
        (sync_ssl_certificate c name pem previously_synced)
        (λ r s. r.1 ≡ none → IsPushed name pem previously_synced r.0 s)
unfolding sync_ssl_certificate
IsPushed-sync_ssl_certificate {p} c name pem previously_synced =
    Ensures-or_error (leaf_serial p pem) _ _ (λ e _. Ensures-pure _ (λ s _ fine. cc))
      λ serial own. Ensures-bind _ _ (Yields-any _) λ ready.
        Ensures-on_error ready _ _ (λ e _. Ensures-pure _ (λ s _ fine. cc))
          λ _.
            Ensures-bind _ _
              (Ensures-ask Closed-Unit c get (certificate_endpoint p name) [] "application/json"
                (record { serial = []; size = 0 }) p.decode_certificate
                (inl (unfold build in refl)))
              λ r.
                Ensures-or_error r _ _
                  (λ e _.
                    Ensures-if (is_not_found e) _ _
                      (λ _.
                        Ensures-bind _ _
                          (Ensures-weaken _ (λ s h. tt) (λ o s h. h) (Pushed-upload c name pem))
                          (λ e'. Ensures-pure _ (λ s h fine. inl (h fine))))
                      (λ _. Ensures-pure _ (λ s _ fine. cc)))
                  (λ remote read.
                    Ensures-if (is_current remote serial pem previously_synced) _ _
                      (λ same. Ensures-pure _ (λ s (_, (a, seen, got)) fine.
                        let (synced, shown) =
                          is_current-match p remote serial pem previously_synced a own
                            (sym read ∙ got) same in
                        inr (
                          synced,
                          refl,
                          seen (is_match p name pem) (matched p c name pem a shown),
                        )))
                      (λ _.
                        Ensures-bind _ _
                          (Ensures-weaken _ (λ s h. tt) (λ o s h. h) (Pushed-put c name pem))
                          (λ e'. Ensures-pure _ (λ s h fine. inl (h fine)))))

-- From every state, for every name and bundle: if `SyncSSLCertificate` returns no error, then the log
-- shows a write of this very bundle that the gateway answered with a 2xx status, over the stored
-- file or as the form of a new one; or else the bundle was on record as pushed, the certificate is
-- reported as unchanged, and the log shows a read of it that was answered with a 2xx status and a
-- certificate with the serial number of the bundle's leaf, of no size or of that of the bundle.
pub sync_ssl_certificate-IsPushed :
    {p : Platform} (c : Client) (name : String) (pem : Text) (previously_synced : Bool)
    (s : State p)
    → (sync_ssl_certificate c name pem previously_synced s).0.1 ≡ none
    → IsPushed name pem previously_synced
        (sync_ssl_certificate c name pem previously_synced s).0.0
        (sync_ssl_certificate c name pem previously_synced s).1
sync_ssl_certificate-IsPushed c name pem previously_synced s fine =
    (IsPushed-sync_ssl_certificate c name pem previously_synced).at s tt fine
