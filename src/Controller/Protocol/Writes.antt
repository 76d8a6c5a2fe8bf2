-- ===== src/Controller/Protocol/Writes.antt =====
-- The patches that the operator sends are its own writes.
use haproxy_operator.Base.{
  and_left, and_right, Text, String, codes, Bool, true, false, ◌&&◌, ◌≡◌, refl, ◌∙◌, none, some,
  List, [], ◌∷◌, arith, inl, inr, ◌===◌, eq_iff, ◌++◌,
}
use haproxy_operator.Base.Map
use haproxy_operator.Base.Map.{Map, writes}
use haproxy_operator.Status.{sanitize_message}
use haproxy_operator.Platform.{Secret, Effect, Platform}
use haproxy_operator.Act.{State}
use haproxy_operator.Act.Keeps.{Keeps, Ensures-bind}
use haproxy_operator.Controller.Annotations.{
  is_operator_key, mutated, patch_annotations, fail_with_status, failed_status,
  last_applied_hash_annotation, last_observed_hash_annotation, last_failed_hash_annotation,
  status_annotation, status_message_annotation, last_update_time_annotation,
  last_applied_time_annotation, cert_sync_annotation, applied_status, applied_record,
}
use haproxy_operator.Controller.Protocol.{OwnWrite, refused, applied, Closed}
use haproxy_operator.Controller.Protocol.Primitives.{Keeps-pure, Keeps-gets, Keeps-patch_secret}

-- A mutation of annotations that leaves the keys of others alone.
abbrev pub OwnMutation : (Map Text → Map Text) → Type 0
OwnMutation f =
    (m : Map Text) (k : String) → is_operator_key k ≡ false → Map.lookup k (f m) ≡ Map.lookup k m

other_key :
    (k j : String) → is_operator_key k ≡ false → is_operator_key j ≡ true → (k === j) ≡ false
other_key k j h i = ground (arith, eq_iff k j)

own_keys : Map Text → Bool
own_keys [] = true
own_keys ((j, _) ∷ l) = is_operator_key j && own_keys l

-- Writes to keys of the operator are such a mutation.
OwnMutation-writes : (l : Map Text) → own_keys l ≡ true → OwnMutation (λ m. l ++ m)
unfolding Map.lookup own_keys
OwnMutation-writes [] own m k h = refl
OwnMutation-writes ((j, v) ∷ l) own m k h =
    rw (other_key k j h (and_left _ _ own)) (OwnMutation-writes l (and_right _ _ own) m k h)

-- A mutation that touches neither of the two hashes.
pub record LeavesHashes (f : Map Text → Map Text) : Type 0 where
  pub failed_kept :
      (m : Map Text)
      → Map.lookup last_failed_hash_annotation (f m) ≡ Map.lookup last_failed_hash_annotation m
  pub applied_kept :
      (m : Map Text)
      → Map.lookup last_applied_hash_annotation (f m) ≡ Map.lookup last_applied_hash_annotation m

module _ {p : Platform} (f : Map Text → Map Text) (secret : Secret) (log : List Effect) where
  OwnWrite-leaves : OwnMutation f → LeavesHashes f → OwnWrite p secret (mutated f secret) log
  unfolding mutated writes
  OwnWrite-leaves own kept = record {
    own = λ k h. own (writes secret.annotations) k h;
    namespace = refl;
    name = refl;
    labels = refl;
    contents = refl;
    suppression = inl (kept.failed_kept (writes secret.annotations));
    application = inl (kept.applied_kept (writes secret.annotations));
  }

abbrev unchanged : Map Text → Map Text
unchanged ann = ann

OwnMutation-failed_status :
    (status msg now : Text) (extra : Map Text → Map Text)
    → OwnMutation extra
    → OwnMutation (failed_status status msg now extra)
OwnMutation-failed_status status msg now extra own m k h =
    own _ k h
    ∙ OwnMutation-writes
        ((last_update_time_annotation, some now)
          ∷ (status_message_annotation, some (sanitize_message msg))
          ∷ (status_annotation, some status)
          ∷ [])
        (unfold own_keys in refl) m k h

LeavesHashes-failed_status :
    (status msg now : Text) → LeavesHashes (failed_status status msg now unchanged)
unfolding Map.lookup
LeavesHashes-failed_status status msg now = record {
  failed_kept = λ m. refl;
  applied_kept = λ m. refl;
}

module _ {p : Platform} {P : State p → Type 0} (k : Closed P) where
  -- A patch that touches neither hash.
  pub Keeps-patch_annotations :
      (secret : Secret) (f : Map Text → Map Text)
      → OwnMutation f
      → LeavesHashes f
      → Keeps P (patch_annotations secret f)
  unfolding patch_annotations
  Keeps-patch_annotations secret f own kept =
      Keeps-patch_secret k _ _ (λ s h. OwnWrite-leaves f secret s.log own kept)

  -- A status with no other change.
  pub Keeps-fail_with_status :
      (secret : Secret) (status msg : Text) → Keeps P (fail_with_status secret status msg unchanged)
  unfolding fail_with_status
  Keeps-fail_with_status secret status msg = Ensures-bind _ _ (Keeps-gets k _) λ now.
      Ensures-bind _ _
        (Keeps-patch_annotations secret _
          (OwnMutation-failed_status status msg now unchanged (λ m j h. refl))
          (LeavesHashes-failed_status status msg now))
        (λ r. Keeps-pure k _)

  OwnWrite-rejection :
      (secret : Secret) (status msg now raw : Text) (log : List Effect)
      → refused raw log ≡ true
      → OwnWrite p secret
          (mutated
            (failed_status status msg now
              (Map.insert last_failed_hash_annotation (p.sha256_hex raw)))
            secret)
          log
  unfolding mutated writes Map.lookup
  OwnWrite-rejection secret status msg now raw log h = record {
    own = λ j i.
        OwnMutation-failed_status status msg now
          (Map.insert last_failed_hash_annotation (p.sha256_hex raw))
          (OwnMutation-writes ((last_failed_hash_annotation, some (p.sha256_hex raw)) ∷ [])
            (unfold own_keys in refl))
          (writes secret.annotations) j i;
    namespace = refl;
    name = refl;
    labels = refl;
    contents = refl;
    suppression = inr (inr (raw, refl, h));
    application = inl refl;
  }

  -- A status with the hash of bytes that were refused.
  pub Keeps-fail_rejected :
      (secret : Secret) (status msg raw : Text)
      → ((s : State p) → P s → refused raw s.log ≡ true)
      → Keeps P (
          fail_with_status secret status msg
            (Map.insert last_failed_hash_annotation (p.sha256_hex raw)))
  unfolding fail_with_status patch_annotations
  Keeps-fail_rejected secret status msg raw refuse = Ensures-bind _ _ (Keeps-gets k _) λ now.
      Ensures-bind _ _
        (Keeps-patch_secret k _ _
          (λ s h. OwnWrite-rejection secret status msg now raw s.log (refuse s h)))
        (λ r. Keeps-pure k _)

  OwnWrite-applied :
      (secret : Secret) (raw seen now : Text) (log : List Effect)
      → applied raw log ≡ true
      → OwnWrite p secret (mutated (applied_record (p.sha256_hex raw) seen now) secret) log
  unfolding mutated writes Map.lookup
  OwnWrite-applied secret raw seen now log h = record {
    own = λ j i.
        OwnMutation-writes
          ((status_message_annotation, none)
            ∷ (last_failed_hash_annotation, none)
            ∷ (last_applied_time_annotation, some now)
            ∷ (status_annotation, some (codes "Applied"))
            ∷ (last_observed_hash_annotation, some seen)
            ∷ (last_applied_hash_annotation, some (p.sha256_hex raw))
            ∷ [])
          (unfold own_keys in refl) (writes secret.annotations) j i;
    namespace = refl;
    name = refl;
    labels = refl;
    contents = refl;
    suppression = inr (inl refl);
    application = inr (raw, refl, h);
  }

  -- The record of an application, after the log shows it.
  pub Keeps-patch_applied :
      (secret : Secret) (raw seen now : Text)
      → ((s : State p) → P s → applied raw s.log ≡ true)
      → Keeps P (patch_annotations secret (applied_record (p.sha256_hex raw) seen now))
  unfolding patch_annotations
  Keeps-patch_applied secret raw seen now took =
      Keeps-patch_secret k _ _ (λ s h. OwnWrite-applied secret raw seen now s.log (took s h))

pub OwnMutation-applied_status : OwnMutation applied_status
OwnMutation-applied_status =
    OwnMutation-writes
      ((status_message_annotation, none) ∷ (status_annotation, some (codes "Applied")) ∷ [])
      (unfold own_keys in refl)

pub LeavesHashes-applied_status : LeavesHashes applied_status
unfolding Map.lookup
LeavesHashes-applied_status = record { failed_kept = λ m. refl; applied_kept = λ m. refl }

pub OwnMutation-cert_sync : (raw : Text) → OwnMutation (Map.insert cert_sync_annotation raw)
OwnMutation-cert_sync raw =
    OwnMutation-writes ((cert_sync_annotation, some raw) ∷ []) (unfold own_keys in refl)

pub LeavesHashes-cert_sync : (raw : Text) → LeavesHashes (Map.insert cert_sync_annotation raw)
unfolding Map.lookup
LeavesHashes-cert_sync raw = record { failed_kept = λ m. refl; applied_kept = λ m. refl }

abbrev pub baseline : Text → Map Text → Map Text
baseline live ann = applied_status (Map.insert last_observed_hash_annotation live ann)

pub OwnMutation-baseline : (live : Text) → OwnMutation (baseline live)
OwnMutation-baseline live =
    OwnMutation-writes
      ((status_message_annotation, none)
        ∷ (status_annotation, some (codes "Applied"))
        ∷ (last_observed_hash_annotation, some live)
        ∷ [])
      (unfold own_keys in refl)

pub LeavesHashes-baseline : (live : Text) → LeavesHashes (baseline live)
unfolding Map.lookup
LeavesHashes-baseline live = record { failed_kept = λ m. refl; applied_kept = λ m. refl }
