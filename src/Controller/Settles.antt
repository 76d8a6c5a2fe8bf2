-- ===== src/Controller/Settles.antt =====
-- Repeated reconciliations of internal/controller/secret_controller.go, on a gateway and a cluster
-- that keep what they are given.
pub mod Storage
pub mod Deliver
pub mod Delivered
pub mod Pushed
pub mod Rests
pub mod Restores
use haproxy_operator.Base.{
  ℕ, zero, suc, String, Text, text_eq, text_eq_refl, has_prefix, false, ◌≡◌, ◌≢◌, refl, List, [],
  ◌∷◌,
}
use haproxy_operator.Base.Map
use haproxy_operator.Base.Map.{writes}
use haproxy_operator.Platform.{Client, Secret, Effect, Platform}
use haproxy_operator.Act.{State}
use haproxy_operator.Controller.Annotations.{observed_hash_pending, mutated}
use haproxy_operator.Controller.Backoff.{requeue_interval}
use haproxy_operator.Controller.Reconcile.{requeue, reconcile}
use haproxy_operator.Controller.Series.{reconcile_all}
use haproxy_operator.Controller.Converges.Way.{IsNews}
use haproxy_operator.Controller.Settles.Storage.{Stores, IsReady}
use haproxy_operator.Controller.Settles.Pushed.{SameObject}
use haproxy_operator.Controller.Settles.Deliver.{Deployed}
use haproxy_operator.Controller.Settles.Delivered.{recorded, Ensures-delivery}
use haproxy_operator.Controller.Settles.Rests.{changes, IsRecorded, Calm, Rests-reconcile}

-- The same request, that many times.
abbrev pub again : ℕ → String → String → List (String × String)
again zero namespace name = []
again (suc n) namespace name = (namespace, name) ∷ again n namespace name

module _ {p : Platform} (stores : Stores p) (c : Client) (secret : Secret) (raw t : Text)
    (l : List Effect) (is_recorded : IsRecorded p raw t secret) where
  Calm-reconcile_all :
      (n : ℕ) (s : State p)
      → Calm stores c secret raw t l s
      → Calm stores c secret raw t l (reconcile_all (again n secret.namespace secret.name) s)
  Calm-reconcile_all zero s h = h
  Calm-reconcile_all (suc n) s h =
      Calm-reconcile_all n _ ((Rests-reconcile stores c secret raw t l is_recorded).at s h).1

-- What an application records is what a drift check looks for.
recorded-IsRecorded :
    {p : Platform} (stores : Stores p) (raw now : Text) (secret : Secret)
    → text_eq (p.sha256_hex (stores.written raw)) observed_hash_pending ≡ false
    → text_eq (p.sha256_hex (stores.written raw)) [] ≡ false
    → IsRecorded p raw (stores.written raw) (recorded p stores raw now secret)
unfolding mutated Map.lookup writes has_prefix
recorded-IsRecorded {p} stores raw now secret verified filled = record {
  applied = text_eq_refl (p.sha256_hex raw);
  verified = verified;
  baseline = rw filled (text_eq_refl (p.sha256_hex (stores.written raw)));
  healthy = refl;
}

-- What was delivered stays, however often it is reconciled.
stays :
    {p : Platform} (stores : Stores p) (c : Client) (secret secret' : Secret) (raw now : Text)
    (s : State p) (n : ℕ)
    → SameObject secret secret'
    → text_eq (p.sha256_hex (stores.written raw)) observed_hash_pending ≡ false
    → text_eq (p.sha256_hex (stores.written raw)) [] ≡ false
    → Deployed stores c raw (recorded p stores raw now secret') s
    → let later = reconcile_all (again n secret.namespace secret.name) s in
      (stores.live later.world ≡ stores.written raw)
      × (changes later.log ≡ changes s.log)
      × ((reconcile secret.namespace secret.name later).0 ≡ requeue requeue_interval)
unfolding mutated
stays {p} stores c secret secret' raw now s n same verified filled deployed =
    let sound = recorded-IsRecorded stores raw now secret' verified filled in
    let after = recorded p stores raw now secret' in
    let calm =
      Calm-reconcile_all stores c after raw (stores.written raw) (changes s.log) sound n s
        (deployed, refl) in
    rw⁻¹ same.0 (
      rw⁻¹ same.1 (
        calm.0.1,
        calm.1,
        ((Rests-reconcile stores c after raw (stores.written raw) (changes s.log) sound).at _
            calm).0,
      ))

-- On a gateway and a cluster that keep what they are given and answer everything, from every state
-- with a client, where the Secrets of the managed certificates make bundles with a leaf, for a Secret
-- that the cluster holds under the configured name, that is no managed certificate, and whose bytes
-- are not empty and recorded neither as applied nor as rejected, where the digest of their written
-- form is neither empty nor "pending": after one reconciliation of it and any number of further ones,
-- the gateway runs the bytes in their written form; the further ones have sent nothing but reads and
-- patched nothing; and one more asks to be repeated after the regular interval.
pub reconcile-Settles :
    {p : Platform} (stores : Stores p) (c : Client) (secret : Secret) (raw : Text) (s : State p)
    (n : ℕ)
    → raw ≢ []
    → IsNews p secret raw
    → IsReady p c secret raw s.reconciler
    → stores.held s.world secret.namespace secret.name ≡ secret
    → text_eq (p.sha256_hex (stores.written raw)) observed_hash_pending ≡ false
    → text_eq (p.sha256_hex (stores.written raw)) [] ≡ false
    → let once = (reconcile secret.namespace secret.name s).1 in
      let later = reconcile_all (again n secret.namespace secret.name) once in
      (stores.live later.world ≡ stores.written raw)
      × (changes later.log ≡ changes once.log)
      × ((reconcile secret.namespace secret.name later).0 ≡ requeue requeue_interval)
reconcile-Settles stores c secret raw s n filled news ready held verified digest =
    let delivered = (Ensures-delivery stores c secret raw filled news).at s (held, ready) in
    stays stores c secret delivered.1.0 raw delivered.1.2 _ n delivered.1.1 verified digest
      delivered.1.3
