-- ===== src/Controller/Protocol/Certs.antt =====
-- Connecting and pushing certificates keep every invariant of the protocol.
use haproxy_operator.Base.{
  Text, String, Bool, true, false, ◌≡◌, refl, Option, none, some, List, [], ◌∷◌, ◌||◌, inl, inr,
  ◌⊎◌, text_eq, not,
}
use haproxy_operator.Base.Map
use haproxy_operator.Base.Map.{Map}
use haproxy_operator.Haproxy.Errors.{Cause, is_not_found, is_conflict}
use haproxy_operator.Haproxy.Client.{bare, build, ssl_certificates}
use haproxy_operator.Haproxy.Certificates.{
  upload, is_current, create_ssl_certificate, sync_ssl_certificate,
}
use haproxy_operator.Platform.{
  ApiConfig, Client, Endpoint, get, post, put, Secret, CertSyncEntry, Platform,
}
use haproxy_operator.Spire
use haproxy_operator.Act.{State}
use haproxy_operator.Act.Keeps.{
  Keeps, Ensures-given, Ensures-weaken, Ensures-bind, Ensures-on_error, Ensures-or_error,
  Ensures-if,
}
use haproxy_operator.Controller.Connect.{
  check_key_pair, check_files, new_client, new_client_with_transport, keep_client, connect, is_set,
  uses_tls, get_or_create_client,
}
use haproxy_operator.Controller.Certs.{
  record_sync, write_state, entry_hash, push_cert_secret, sync_cert_secret,
  ensure_cert_secrets_synced, kept,
}
use haproxy_operator.Controller.Protocol.{is_application, Closed}
use haproxy_operator.Controller.Protocol.Primitives.{
  Keeps-pure, Keeps-gets, Keeps-modify, Keeps-get_secret, Keeps-open_source, Keeps-close_source,
  Keeps-emit_event,
}
use haproxy_operator.Controller.Protocol.Client.{
  Keeps-request, Ensures-post_plain, Ensures-wait_for_ready,
}
use haproxy_operator.Controller.Protocol.Writes.{
  Keeps-patch_annotations, OwnMutation-cert_sync, LeavesHashes-cert_sync,
}

harmless_get :
    (c : Client) (e : Endpoint) (body : Text) (t : String)
    → is_application (build c get e body t) ≡ false
unfolding build
harmless_get c e body t = refl

harmless_put :
    (c : Client) (e : Endpoint) (body : Text) (t : String)
    → is_application (build c put e body t) ≡ false
unfolding build
harmless_put c e body t = refl

harmless_upload :
    (c : Client) (body : Text) (t : String)
    → is_application (build c post (bare ssl_certificates) body t) ≡ false
unfolding build
harmless_upload c body t = refl

module _ {p : Platform} {P : State p → Type 0} (k : Closed P) where
  Keeps-tls_transport : (path : String) → Keeps P (Spire.tls_transport path)
  unfolding Spire.tls_transport
  Keeps-tls_transport path =
      Ensures-bind _ _ (Keeps-open_source k path)
        λ failure. Ensures-on_error failure _ _ (λ e _. Keeps-pure k _) (λ _. Keeps-pure k _)

  Keeps-check_key_pair : (cfg : ApiConfig) → Keeps P (check_key_pair cfg)
  unfolding check_key_pair
  Keeps-check_key_pair cfg =
      Ensures-if (is_set cfg.client_cert_path || is_set cfg.client_key_path) _ _
        (λ _.
          Ensures-bind _ _ (Keeps-gets k _)
            λ f. Ensures-on_error _ _ _ (λ e _. Keeps-pure k _) (λ _. Keeps-pure k _))
        (λ _. Keeps-pure k _)

  Keeps-check_files : (cfg : ApiConfig) → Keeps P (check_files cfg)
  unfolding check_files
  Keeps-check_files cfg =
      Ensures-bind _ _ (Keeps-gets k _)
        λ o. Ensures-on_error o _ _ (λ e _. Keeps-pure k _) (λ _. Keeps-check_key_pair cfg)

  pub Keeps-new_client : (cfg : ApiConfig) → Keeps P (new_client cfg)
  unfolding new_client
  Keeps-new_client cfg =
      Ensures-or_error _ _ _ (λ e _. Keeps-pure k _)
        λ u _.
          Ensures-on_error _ _ _ (λ e _. Keeps-pure k _)
            λ _.
              Ensures-bind _ _
                (Ensures-if (uses_tls cfg u) _ _ (λ _. Keeps-check_files cfg)
                  (λ _. Keeps-pure k none))
                λ o. Ensures-on_error o _ _ (λ e _. Keeps-pure k _) (λ _. Keeps-pure k _)

  Keeps-new_client_with_transport : (cfg : ApiConfig) → Keeps P (new_client_with_transport cfg)
  unfolding new_client_with_transport
  Keeps-new_client_with_transport cfg =
      Ensures-or_error _ _ _ (λ e _. Keeps-pure k _) (λ u _. Keeps-pure k _)

  Keeps-keep_client : (spire : Bool) (c : Client) → Keeps P (keep_client spire c)
  unfolding keep_client
  Keeps-keep_client spire c =
      Ensures-bind _ _ (Keeps-modify k _ (λ r. refl) (λ r. refl)) (λ _. Keeps-pure k _)

  Keeps-connect :
      (o : Option Client) (path : String) (cfg : ApiConfig) → Keeps P (connect o path cfg)
  unfolding connect
  Keeps-connect (some c) path cfg = Keeps-pure k _
  Keeps-connect none path cfg =
      Ensures-if (is_set path) _ _
        (λ _. Ensures-bind _ _ (Keeps-tls_transport path) λ f.
          Ensures-on_error f _ _ (λ e _. Keeps-pure k _)
            λ _. Ensures-bind _ _ (Keeps-new_client_with_transport cfg) λ made.
              Ensures-or_error made _ _
                (λ e _. Ensures-bind _ _ (Keeps-close_source k) (λ _. Keeps-pure k _))
                (λ c _. Keeps-keep_client true c))
        (λ _. Ensures-bind _ _ (Keeps-new_client cfg) λ made.
          Ensures-or_error made _ _ (λ e _. Keeps-pure k _) (λ c _. Keeps-keep_client false c))

  pub Keeps-get_or_create_client : Keeps P get_or_create_client
  unfolding get_or_create_client
  Keeps-get_or_create_client =
      Ensures-bind _ _ (Keeps-gets k (λ s. s.reconciler)) (λ r. Keeps-connect _ _ _)

  Keeps-create :
      (c : Client) (name : String) (pem : Text) → Keeps P (create_ssl_certificate c name pem)
  unfolding create_ssl_certificate
  Keeps-create c name pem = created (p.multipart "file_upload" name pem)
    where
      created : (m : Cause ⊎ (String × Text)) → Keeps P (upload c m)
      created (inl cause) = Keeps-pure k _
      created (inr (t, body)) =
          Ensures-bind _ _ (Keeps-request k c post _ body t tt _ (inl (harmless_upload c body t)))
            (λ r. Keeps-pure k _)

  Keeps-sync_ssl_certificate :
      (c : Client) (name : String) (pem : Text) (synced : Bool)
      → Keeps P (sync_ssl_certificate c name pem synced)
  unfolding sync_ssl_certificate
  Keeps-sync_ssl_certificate c name pem synced =
      Ensures-or_error _ _ _ (λ e _. Keeps-pure k _)
        λ serial _. Ensures-bind _ _ (Ensures-wait_for_ready k c _) λ o. Ensures-given _ λ _.
          Ensures-on_error o _ _ (λ e _. Keeps-pure k _)
            λ _.
              Ensures-bind _ _
                (Keeps-request k c get _ [] _ _ p.decode_certificate (inl (harmless_get c _ [] _)))
                λ r.
                  Ensures-or_error r _ _
                    (λ e _.
                      Ensures-if (is_not_found e) _ _
                        (λ _. Ensures-bind _ _ (Keeps-create c name pem) (λ e'. Keeps-pure k _))
                        (λ _. Keeps-pure k _))
                    (λ remote _.
                      Ensures-if (is_current remote serial pem synced) _ _ (λ _. Keeps-pure k _)
                        (λ _.
                          Ensures-bind _ _
                            (Ensures-weaken _ (λ s h. h) (λ a s h. h.0)
                              (Ensures-post_plain k c put _ pem (inl (harmless_put c _ pem _))))
                            (λ e. Keeps-pure k _)))

  Keeps-record_sync :
      (name : String) (hash : Text) (changed : Bool) (state : Map CertSyncEntry)
      (config : Option Secret)
      → Keeps P (record_sync name hash changed state config)
  unfolding record_sync
  Keeps-record_sync name hash changed state none = Keeps-pure k _
  Keeps-record_sync name hash changed state (some config) =
      Ensures-if (changed || not (text_eq (entry_hash (Map.lookup name state)) hash)) _ _
        (λ _. Ensures-bind _ _ (Keeps-gets k _) (λ now. written _)) (λ _. Keeps-pure k _)
    where
      written : (o : Option Text) → Keeps P (write_state config o)
      written none = Keeps-pure k _
      written (some raw) =
          Ensures-bind _ _
            (Keeps-patch_annotations k config _ (OwnMutation-cert_sync raw)
              (LeavesHashes-cert_sync raw))
            λ r.
              Ensures-on_error r.0 _ _
                (λ e _. Ensures-if (is_conflict e) _ _ (λ _. Keeps-pure k _) (λ _. Keeps-pure k _))
                (λ _. Keeps-pure k _)

  Keeps-push_cert_secret :
      (c : Client) (secret : Secret) (config : Option Secret)
      → Keeps P (push_cert_secret c secret config)
  unfolding push_cert_secret
  Keeps-push_cert_secret c secret config =
      Ensures-or_error _ _ _ (λ e _. Keeps-pure k _)
        λ bundle _. Ensures-bind _ _ (Keeps-gets k (λ s. s.reconciler.cert_sync_hashes)) λ hashes.
          Ensures-bind _ _ (Keeps-sync_ssl_certificate c _ bundle _) λ r.
            Ensures-on_error r.1 _ _ (λ e _. Keeps-pure k _)
              λ _.
                Ensures-bind _ _ (Keeps-modify k _ (λ r. refl) (λ r. refl))
                  λ _. Ensures-bind _ _ (Keeps-record_sync _ _ _ _ config) (λ r'. Keeps-pure k _)

  pub Keeps-sync_cert_secret :
      (secret : Secret) (config : Option Secret) → Keeps P (sync_cert_secret secret config)
  unfolding sync_cert_secret
  Keeps-sync_cert_secret secret config = Ensures-bind _ _ Keeps-get_or_create_client λ made.
      Ensures-or_error made _ _ (λ e _. Keeps-pure k _)
        λ c _. Ensures-bind _ _ (Keeps-push_cert_secret c secret config) λ r.
          Ensures-on_error r.1 _ _ (λ e _. Keeps-pure k _)
            λ _.
              Ensures-if r.0 _ _
                (λ _. Ensures-bind _ _ (Keeps-emit_event k _ _ _) (λ _. Keeps-pure k _))
                (λ _. Keeps-pure k _)

  pub Keeps-ensure_cert_secrets_synced :
      (names : List String) (namespace : String) (config : Secret) (c : Client)
      → Keeps P (ensure_cert_secrets_synced names namespace config c)
  unfolding ensure_cert_secrets_synced
  Keeps-ensure_cert_secrets_synced [] namespace config c = Keeps-pure k _
  Keeps-ensure_cert_secrets_synced (name ∷ names) namespace config c =
      Ensures-bind _ _ (Keeps-get_secret k namespace name) λ got.
        Ensures-or_error got _ _ (λ e _. Keeps-pure k _)
          λ s _. Ensures-bind _ _ (Keeps-push_cert_secret c s (some config)) λ r.
            Ensures-on_error r.1 _ _ (λ e _. Keeps-pure k _)
              (λ _. Keeps-ensure_cert_secrets_synced names namespace (kept config r.2) c)
