-- ===== src/Controller/Settles/Pushed.antt =====
-- The pushes of internal/controller/certs.go leave the configuration Secret as the cluster holds it.
use haproxy_operator.Base.{
  Bool, String, Text, text_eq, true, not, ◌≡◌, ◌∙◌, refl, some, none, Option, List, [], ◌∷◌, ◌||◌,
  inl, inr, ◌⊎◌,
}
use haproxy_operator.Base.Map
use haproxy_operator.Base.Map.{Map}
use haproxy_operator.Haproxy.Errors.{Cause, is_conflict, is_not_found}
use haproxy_operator.Haproxy.Certificates.{
  leaf_serial, is_current, upload, create_ssl_certificate, sync_ssl_certificate,
}
use haproxy_operator.Platform.{Client, Secret, CertSyncEntry, Platform}
use haproxy_operator.Act.{State, patch_secret}
use haproxy_operator.Act.Keeps.{
  Ensures, Keeps, Ensures-bind, Ensures-pure, Ensures-weaken, Ensures-if, Ensures-on_error,
  Ensures-or_error, Ensures-given,
}
use haproxy_operator.Controller.Annotations.{patch_annotations, mutated}
use haproxy_operator.Controller.Certs.{
  entry_hash, cert_pem_bundle, kept, write_state, record_sync, push_cert_secret,
  ensure_cert_secrets_synced,
}
use haproxy_operator.Controller.Stable.{
  Stable, Stable-modify, Stable-gets, Stable-get_secret, Stable-request, Stable-post_plain,
  Stable-wait_for_ready,
}
use haproxy_operator.Controller.Settles.Storage.{Stores}
use haproxy_operator.Controller.Settles.Deliver.{Known, Stable-Known}

-- One object of the cluster, whatever is in it.
abbrev pub SameObject : Secret → Secret → Type 0
SameObject secret secret' = (secret'.namespace ≡ secret.namespace) × (secret'.name ≡ secret.name)

module _ {p : Platform} {P : State p → Type 0} (st : Stable (λ r. true) P) where
  Keeps-upload : (c : Client) (form : Cause ⊎ (String × Text)) → Keeps P (upload c form)
  unfolding upload
  Keeps-upload c (inl cause) = Ensures-pure _ (λ s h. h)
  Keeps-upload c (inr (t, body)) =
      Ensures-bind _ _ (Stable-request st c _ _ body t tt _ refl) (λ r. Ensures-pure _ (λ s h. h))

  pub Keeps-sync_ssl_certificate :
      (c : Client) (name : String) (pem : Text) (previously : Bool)
      → Keeps P (sync_ssl_certificate c name pem previously)
  unfolding sync_ssl_certificate create_ssl_certificate
  Keeps-sync_ssl_certificate c name pem previously =
      Ensures-or_error (leaf_serial p pem) _ _ (λ e _. Ensures-pure _ (λ s h. h))
        λ serial _. Ensures-bind _ _ (Stable-wait_for_ready st (λ c' e t. refl) c _) λ ready.
          Ensures-on_error ready _ _ (λ e _. Ensures-pure _ (λ s h. h))
            λ _. Ensures-bind _ _ (Stable-request st c _ _ _ _ _ p.decode_certificate refl) λ r.
              Ensures-or_error r _ _
                (λ e _.
                  Ensures-if (is_not_found e) _ _
                    (λ _.
                      Ensures-bind _ _ (Keeps-upload c (p.multipart "file_upload" name pem))
                        (λ e'. Ensures-pure _ (λ s h. h)))
                    (λ _. Ensures-pure _ (λ s h. h)))
                (λ remote _.
                  Ensures-if (is_current remote serial pem previously) _ _
                    (λ _. Ensures-pure _ (λ s h. h))
                    (λ _.
                      Ensures-bind _ _ (Stable-post_plain st c _ _ pem refl)
                        (λ e. Ensures-pure _ (λ s h. h))))

module _ {p : Platform} (stores : Stores p) (c : Client) (raw' : Text) where
  -- The cluster holds that object as it is here.
  abbrev pub Follows : Secret → Secret → State p → Type 0
  Follows config config' s = Known stores c raw' config' s × SameObject config config'

  known : (config : Secret) → Stable (λ r. true) (Known stores c raw' config)
  known config = Stable-Known stores c raw' (λ r. true) config

  Follows-patch :
      (config : Secret) (mutate : Map Text → Map Text)
      → Ensures {p = p}
          (Known stores c raw' config)
          (patch_annotations config mutate)
          (λ r s. Follows config r.1 s)
  unfolding patch_annotations patch_secret mutated
  Follows-patch config mutate = record {
    at = λ s h.
        let annotations = (mutated mutate config).annotations in
        rw (stores.patched_object config annotations s.world h.0)
          ((stores.patched_held config annotations s.world h.0, h.1), (refl, refl));
  }

  Follows-write_state :
      (config : Secret) (raw : Option Text)
      → Ensures {p = p}
          (Known stores c raw' config)
          (write_state config raw)
          (λ r s. Follows config (kept config r.1) s)
  unfolding write_state
  Follows-write_state config none = Ensures-pure _ (λ s h. (h, (refl, refl)))
  Follows-write_state config (some raw) = Ensures-bind _ _ (Follows-patch config _) λ r.
      Ensures-on_error r.0 _ _
        (λ e _.
          Ensures-if (is_conflict e) _ _ (λ _. Ensures-pure _ (λ s h. h))
            (λ _. Ensures-pure _ (λ s h. h)))
        (λ _. Ensures-pure _ (λ s h. h))

  Follows-record_sync :
      (name : String) (hash : Text) (changed : Bool) (state : Map CertSyncEntry) (config : Secret)
      → Ensures {p = p}
          (Known stores c raw' config)
          (record_sync name hash changed state (some config))
          (λ r s. Follows config (kept config r.1) s)
  unfolding record_sync
  Follows-record_sync name hash changed state config =
      Ensures-if (changed || not (text_eq (entry_hash (Map.lookup name state)) hash)) _ _
        (λ _. Ensures-bind _ _ (Stable-gets (known config) _) λ now. Follows-write_state config _)
        (λ _. Ensures-pure _ (λ s h. (h, (refl, refl))))

  Follows-push_cert_secret :
      (c' : Client) (secret config : Secret)
      → Ensures {p = p}
          (Known stores c raw' config)
          (push_cert_secret c' secret (some config))
          (λ r s. Follows config (kept config r.2) s)
  unfolding push_cert_secret
  Follows-push_cert_secret c' secret config =
      Ensures-or_error (cert_pem_bundle p secret) _ _
        (λ e _. Ensures-pure _ (λ s h. (h, (refl, refl))))
        λ bundle _. Ensures-bind _ _ (Stable-gets (known config) _) λ hashes.
          Ensures-bind _ _ (Keeps-sync_ssl_certificate (known config) c' _ bundle _) λ r.
            Ensures-on_error r.1 _ _ (λ e _. Ensures-pure _ (λ s h. (h, (refl, refl))))
              λ _.
                Ensures-bind _ _
                  (Stable-modify (known config) _ λ r'. record {
                    name = refl;
                    key = refl;
                    certs = refl;
                    client = refl;
                    remediate = refl;
                  })
                  λ _.
                    Ensures-bind _ _ (Follows-record_sync _ _ _ _ config)
                      λ r'. Ensures-pure _ (λ s h. h)

  pub Follows-ensure_cert_secrets_synced :
      (names : List String) (namespace : String) (config : Secret) (c' : Client)
      → Ensures {p = p}
          (Known stores c raw' config)
          (ensure_cert_secrets_synced names namespace config c')
          (λ r s. Follows config r.1 s)
  unfolding ensure_cert_secrets_synced
  Follows-ensure_cert_secrets_synced [] namespace config c' =
      Ensures-pure _ (λ s h. (h, (refl, refl)))
  Follows-ensure_cert_secrets_synced (name ∷ names) namespace config c' =
      Ensures-bind _ _ (Stable-get_secret (known config) namespace name) λ got.
        Ensures-or_error got _ _ (λ e _. Ensures-pure _ (λ s h. (h, (refl, refl))))
          λ secret _. Ensures-bind _ _ (Follows-push_cert_secret c' secret config) λ r.
            Ensures-on_error r.1 _ _ (λ e _. Ensures-pure _ (λ s h. h))
              (λ _. Ensures-given _ λ same.
                Ensures-weaken _ (λ s h. h) (λ o s h. (h.0, (h.1.0 ∙ same.0, h.1.1 ∙ same.1)))
                  (Follows-ensure_cert_secrets_synced names namespace (kept config r.2) c'))
