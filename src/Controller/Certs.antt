-- ===== src/Controller/Certs.antt =====
-- internal/controller/certs.go: the TLS Secrets that are pushed to the certificate storage.
use haproxy_operator.Status.Reasons
use haproxy_operator.Base.{
  String, Text, codes, text_eq, not, Bool, false, ◌||◌, Option, none, some, List, [], ◌∷◌, ◌++◌,
  ◌<>◌, if◌then◌else◌,
}
use haproxy_operator.Base.Map
use haproxy_operator.Base.Map.{Map, writes}
use haproxy_operator.Haproxy.Errors.{Error, wrap, fail, is_conflict, Result, ok, err}
use haproxy_operator.Haproxy.Certificates.{sync_ssl_certificate}
use haproxy_operator.Platform.{Secret, Client, CertSyncEntry, Platform}
use haproxy_operator.Act.{Act, pure, gets, ◌>>=◌, ◌>>◌, on_error, or_error, modify, get_secret}
use haproxy_operator.Status.{emit_event}
use haproxy_operator.Controller.Annotations.{annotation, cert_sync_annotation, patch_annotations}
use haproxy_operator.Controller.Connect.{get_or_create_client}

-- A missing entry has the empty hash.
abbrev pub entry_hash : Option CertSyncEntry → Text
entry_hash none = []
entry_hash (some entry) = entry.hash

abbrev pub data_or_empty : Option Text → Text
data_or_empty none = []
data_or_empty (some v) = v

-- `%q` of a name with nothing to escape
abbrev quoted : String → String
quoted name = "\"" <> (name <> "\"")

-- A text as a line, nothing for an empty one.
abbrev line_unless_empty : Text → Text
line_unless_empty [] = []
line_unless_empty (c ∷ t) = (c ∷ t) ++ (10 ∷ [])

module _ (p : Platform) where
  -- `bytes.TrimSpace(secret.Data[key])`
  abbrev pub trimmed : String → Secret → Text
  trimmed key secret = p.trim_space (data_or_empty (Map.lookup key (writes secret.contents)))

  -- `certPEMBundle`
  unfoldable pub cert_pem_bundle : Secret → Result Text
  cert_pem_bundle secret =
      let crt = trimmed "tls.crt" secret in
      let key = trimmed "tls.key" secret in
      if text_eq crt [] || text_eq key []
      then err (fail ("secret " <> (secret.name <> " must contain tls.crt and tls.key")))
      else ok (crt ++ (10 ∷ (line_unless_empty (trimmed "ca.crt" secret) ++ (key ++ (10 ∷ [])))))

  -- `certSyncState`
  unfoldable pub cert_sync_state : Option Secret → Map CertSyncEntry
  cert_sync_state none = []
  cert_sync_state (some s) = p.decode_sync_state (annotation cert_sync_annotation s)

-- The config Secret after a push that was given it.
abbrev pub kept : Secret → Option Secret → Secret
kept s none = s
kept s (some s') = s'

-- `certSyncHashes[name] == hash`
abbrev pub remembers : Option (Map Text) → String → Text → Bool
remembers hashes name hash = text_eq (data_or_empty (Map.lookup name (writes hashes))) hash

module _ {p : Platform} where
  -- The patch of the sync state, unless it could not be encoded; a conflict is no error.
  unfoldable pub write_state : Secret → Option Text → Act p (Option Error × Option Secret)
  write_state config none = pure (none, some config)
  write_state config (some raw) = do
    (e, config') ← patch_annotations config (Map.insert cert_sync_annotation raw)
    on_error e
        (λ perr.
          if is_conflict perr
          then pure (none, some config')
          else pure (some (wrap "record cert sync state: " perr []), some config'))
        (pure (none, some config'))

  -- The bookkeeping on the config Secret, if there is one and it is out of date.
  unfoldable pub record_sync :
      String
      → Text
      → Bool
      → Map CertSyncEntry
      → Option Secret
      → Act p (Option Error × Option Secret)
  unfolding write_state
  record_sync name hash changed state none = pure (none, none)
  record_sync name hash changed state (some config) =
      if changed || not (text_eq (entry_hash (Map.lookup name state)) hash)
      then (do
        now ← gets (λ s. p.timestamp s.world)
        write_state config
            (p.encode_sync_state (Map.insert name (record { hash = hash; time = now }) state)))
      else pure (none, some config)

  -- `pushCertSecret`: whether the remote object was written, the error, and the config Secret as it
  -- is left.
  unfoldable pub push_cert_secret :
      Client → Secret → Option Secret → Act p (Bool × Option Error × Option Secret)
  push_cert_secret c secret config =
      or_error (cert_pem_bundle p secret) (λ e. pure (false, some e, config))
        λ bundle. do
          let hash = p.sha256_hex bundle
          let state = cert_sync_state p config
          hashes ← gets (λ s. s.reconciler.cert_sync_hashes)
          (changed, e) ← sync_ssl_certificate c (secret.name <> ".pem") bundle (
              text_eq (entry_hash (Map.lookup secret.name state)) hash
              || remembers hashes secret.name hash)
          on_error e (λ e'. pure (false, some e', config))
              (do
                modify (λ r. record r {
                  cert_sync_hashes = some (Map.insert secret.name hash (writes r.cert_sync_hashes));
                })
                (e', config') ← record_sync secret.name hash changed state config
                pure (changed, e', config'))

  -- `syncCertSecret`
  unfoldable pub sync_cert_secret : Secret → Option Secret → Act p (Option Error × Option Secret)
  sync_cert_secret secret config = do
    made ← get_or_create_client
    or_error made (λ e. pure (some e, config))
        λ c. do
          (changed, e, config') ← push_cert_secret c secret config
          on_error e (λ e'. pure (some e', config'))
              (if changed
                then (do
                  emit_event secret.name Reasons.cert_synced (
                      codes (
                        "pushed " <> (secret.name <> ".pem to Dataplane ssl_certificates storage")))
                  pure (none, config'))
                else pure (none, config'))

  -- `ensureCertSecretsSynced`, over the names
  unfoldable pub ensure_cert_secrets_synced :
      List String → String → Secret → Client → Act p (Option Error × Secret)
  ensure_cert_secrets_synced [] namespace config c = pure (none, config)
  ensure_cert_secrets_synced (name ∷ names) namespace config c = do
    got ← get_secret namespace name
    or_error got
        (λ e. pure (some (wrap ("fetch cert secret " <> (quoted name <> ": ")) e []), config))
        λ s. do
          (_, e, config') ← push_cert_secret c s (some config)
          let config'' = kept config config'
          on_error e
              (λ e'.
                pure (some (wrap ("sync cert secret " <> (quoted name <> ": ")) e' []), config''))
              (ensure_cert_secrets_synced names namespace config'' c)
