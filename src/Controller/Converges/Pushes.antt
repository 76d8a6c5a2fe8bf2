-- ===== src/Controller/Converges/Pushes.antt =====
-- The push of the managed certificates, internal/controller/certs.go, on a gateway that answers
-- every GET and PUT.
use haproxy_operator.Base.{
  subst, Bool, String, Text, text_eq, ◌≡◌, refl, ap, some, none, Option, List, [], ◌∷◌, ◌||◌, not,
  ◌⊎◌, inl, inr, arith,
}
use haproxy_operator.Base.Map
use haproxy_operator.Base.Map.{Map}
use haproxy_operator.Haproxy.Errors.{Cause, Result, ok, err}
use haproxy_operator.Haproxy.Client.{build, dataplane_ready_timeout}
use haproxy_operator.Haproxy.Certificates.{
  certificate_endpoint, leaf_serial, is_current, sync_ssl_certificate,
}
use haproxy_operator.Haproxy.Healthy.{
  Decodes, IsOpen, IsOk, Yields-or_error, Yields-on_error, Yields-request, Yields-wait_for_ready,
  Yields-put,
}
use haproxy_operator.Platform.{Client, get, Secret, CertSyncEntry, Platform}
use haproxy_operator.Controller.Reconcile.{Outcome, no_certs, sync_then_apply, validate_and_apply}
use haproxy_operator.Act.{gets, or_error, State, lifted, caused, get_secret, patch_secret}
use haproxy_operator.Act.Keeps.{
  Ensures, Ensures-bind, Ensures-weaken, Ensures-given, Ensures-on_error, Ensures-if,
  Ensures-or_error, Ensures-pure, Yields, Yields-then, Yields-any,
}
use haproxy_operator.Controller.Annotations.{patch_annotations, mutated}
use haproxy_operator.Controller.Certs.{
  entry_hash, cert_pem_bundle, write_state, record_sync, push_cert_secret,
  ensure_cert_secrets_synced,
}

-- The Secret is there and makes a bundle with a leaf certificate.
abbrev pub IsPushable : (p : Platform) → Cause ⊎ Secret → Type 0
IsPushable p (inl c) = ⊥
IsPushable p (inr secret) =
    (bundle : Text) × (cert_pem_bundle p secret ≡ ok bundle) × IsOk (leaf_serial p bundle)

-- So is every Secret of these names, at any time.
abbrev pub AllPushable : (p : Platform) → String → List String → Type 0
AllPushable p namespace [] = Unit {0}
AllPushable p namespace (name ∷ names) =
    ((w : p.World) → IsPushable p (p.get_secret namespace name w).0) × AllPushable p namespace names

-- The gateway's answers on its certificates can be read.
abbrev pub ReadsCertificates : Platform → Type 0
ReadsCertificates p =
    (c : Client) (name t : String) (w : p.World)
    → Decodes p.decode_certificate
        (p.round_trip c (build c get (certificate_endpoint p name) [] t) w).0

abbrev IsFetched : Platform → Result Secret → Type 0
IsFetched p (ok secret) = IsPushable p (inr secret)
IsFetched p (err e) = ⊥

fetched : (p : Platform) (a : Cause ⊎ Secret) → IsPushable p a → IsFetched p (lifted a)
fetched p (inl cause) h = absurd h
fetched p (inr secret) h = h

module _ {p : Platform} (is_open : IsOpen p) where
  Yields-patch :
      (secret : Secret) (mutate : Map Text → Map Text)
      → Yields {p = p} (patch_annotations secret mutate) (λ r. r.0 ≡ none)
  unfolding patch_annotations patch_secret
  Yields-patch secret mutate = record {
    at = λ s h. ap caused (is_open.patches secret (mutated mutate secret) s.world);
  }

  Yields-write_state :
      (config : Secret) (raw : Option Text)
      → Yields {p = p} (write_state config raw) (λ r. r.0 ≡ none)
  unfolding write_state
  Yields-write_state config none = Ensures-pure _ (λ s h. refl)
  Yields-write_state config (some raw) =
      Yields-then _ _ (Yields-patch config _)
        λ r h. Yields-on_error r.0 _ _ h (Ensures-pure _ (λ s _. refl))

  Yields-record_sync :
      (name : String) (hash : Text) (changed : Bool) (state : Map CertSyncEntry)
      (config : Option Secret)
      → Yields {p = p} (record_sync name hash changed state config) (λ r. r.0 ≡ none)
  unfolding record_sync
  Yields-record_sync name hash changed state none = Ensures-pure _ (λ s h. refl)
  Yields-record_sync name hash changed state (some config) =
      Ensures-if (changed || not (text_eq (entry_hash (Map.lookup name state)) hash)) _ _
        (λ _. Yields-then _ _ (Yields-any _) λ now _. Yields-write_state config _)
        (λ _. Ensures-pure _ (λ s h. refl))

  module _ (reads : ReadsCertificates p) where
    Yields-sync_ssl_certificate :
        (c : Client) (name : String) (pem : Text) (previously : Bool)
        → IsOk (leaf_serial p pem)
        → Yields {p = p} (sync_ssl_certificate c name pem previously) (λ r. r.1 ≡ none)
    unfolding sync_ssl_certificate
    Yields-sync_ssl_certificate c name pem previously leaf =
        Yields-or_error (leaf_serial p pem) _ _ leaf λ serial.
          Yields-then _ _ (Yields-wait_for_ready is_open c dataplane_ready_timeout (omega arith))
            λ o h. Yields-on_error o _ _ h (
              Yields-then _ _
                (Yields-request c _ _ _ _ _ p.decode_certificate (is_open.reads c _ _)
                  (reads c _ _))
                λ r g. Yields-or_error r _ _ g λ remote.
                  Ensures-if (is_current remote serial pem previously) _ _
                    (λ _. Ensures-pure _ (λ s _. refl))
                    (λ _.
                      Yields-then _ _ (Yields-put is_open c _ pem)
                        (λ e i. Ensures-pure _ (λ s _. i))))

    Yields-push_cert_secret :
        (c : Client) (secret : Secret) (config : Option Secret)
        → IsPushable p (inr secret)
        → Yields {p = p} (push_cert_secret c secret config) (λ r. r.1 ≡ none)
    unfolding push_cert_secret or_error
    Yields-push_cert_secret c secret config (bundle, made, leaf) = rw made (
        Yields-then _ _ (Yields-any _) λ hashes _.
          Yields-then _ _ (Yields-sync_ssl_certificate c _ bundle _ leaf) λ r h.
            Yields-on_error r.1 _ _ h (
              Yields-then _ _ (Yields-any _) λ _ _.
                Yields-then _ _ (Yields-record_sync _ _ _ _ config)
                  λ r' h'. Ensures-pure _ (λ s _. h')))

    pub Yields-ensure_cert_secrets_synced :
        (names : List String) (namespace : String) (config : Secret) (c : Client)
        → AllPushable p namespace names
        → Yields {p = p} (ensure_cert_secrets_synced names namespace config c) (λ r. r.0 ≡ none)
    unfolding ensure_cert_secrets_synced get_secret
    Yields-ensure_cert_secrets_synced [] namespace config c all = Ensures-pure _ (λ s h. refl)
    Yields-ensure_cert_secrets_synced (name ∷ names) namespace config c all =
        Yields-then {R = IsFetched p} _ _
          (record { at = λ s h. fetched p (p.get_secret namespace name s.world).0 (all.0 s.world) })
          λ got there.
            Ensures-or_error got _ _ (λ e q. absurd (subst (IsFetched p) q there))
              λ secret q.
                Yields-then _ _
                  (Yields-push_cert_secret c secret (some config) (subst (IsFetched p) q there))
                  λ r h.
                    Yields-on_error r.1 _ _ h
                      (Yields-ensure_cert_secrets_synced names namespace _ c all.1)

-- The certificates are pushed, and the bytes applied.
pub Ensures-sync_then_apply :
    {p : Platform} (is_open : IsOpen p) (reads : ReadsCertificates p)
    {Q : Outcome → State p → Type 0} (secret : Secret) (raw hash : Text)
    → ((c : Client) (secret' : Secret)
        → Ensures (λ _. Unit {0}) (validate_and_apply c secret' raw hash) Q)
    → (c : Client)
    → Ensures {p = p}
        (λ s. AllPushable p secret.namespace s.reconciler.certs_secret_names)
        (sync_then_apply c secret raw hash)
        Q
unfolding sync_then_apply gets
Ensures-sync_then_apply {p} is_open reads secret raw hash ends c =
    Ensures-bind {R = λ r _. AllPushable p secret.namespace r.certs_secret_names} _ _
      (record { at = λ s h. h })
      λ r.
        Ensures-weaken _ (λ s all. (tt, all)) (λ o s h. h)
          (Ensures-given _ λ all.
            Ensures-if (no_certs r.certs_secret_names) _ _ (λ _. ends c secret)
              (λ _. Ensures-bind _ _ (Yields-any _) λ _.
                Ensures-bind _ _
                  (Yields-ensure_cert_secrets_synced is_open reads r.certs_secret_names
                    secret.namespace secret c all)
                  λ r'.
                    Ensures-weaken _ (λ s h. (tt, h)) (λ o s h. h)
                      (Ensures-given _ λ fine.
                        Ensures-on_error r'.0 _ _ (λ e q. record { at = λ s h. cc })
                          (λ _. ends c r'.1))))
