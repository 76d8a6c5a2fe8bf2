-- ===== src/Controller/Annotations.antt =====
-- The annotations of the configuration Secret: the operator's keys, patchAnnotations,
-- failWithStatus and the event filter of internal/controller/secret_controller.go.
use haproxy_operator.Base.{
  String, Text, codes, text_eq, not, Bool, true, false, ◌&&◌, Option, none, some, [], ◌∷◌,
  starts_with, if◌then◌else◌,
}
use haproxy_operator.Base.Map
use haproxy_operator.Base.Map.{Map, writes, is_empty}
use haproxy_operator.Haproxy.Errors.{Error, is_conflict}
use haproxy_operator.Platform.{Secret, Platform}
use haproxy_operator.Act.{Act, pure, gets, ◌>>=◌, patch_secret}
use haproxy_operator.Status.{sanitize_message}

abbrev pub last_applied_hash_annotation : String
last_applied_hash_annotation = "haproxy.operator/last-applied-hash"

abbrev pub last_observed_hash_annotation : String
last_observed_hash_annotation = "haproxy.operator/last-observed-hash"

abbrev pub last_failed_hash_annotation : String
last_failed_hash_annotation = "haproxy.operator/last-failed-hash"

abbrev pub status_annotation : String
status_annotation = "haproxy.operator/status"

abbrev pub status_message_annotation : String
status_message_annotation = "haproxy.operator/status-message"

abbrev pub last_update_time_annotation : String
last_update_time_annotation = "haproxy.operator/last-update-time"

abbrev pub last_applied_time_annotation : String
last_applied_time_annotation = "haproxy.operator/last-applied-time"

abbrev pub cert_sync_annotation : String
cert_sync_annotation = "haproxy.operator/cert-sync"

abbrev pub observed_hash_pending : Text
observed_hash_pending = codes "pending"

-- `m[k]` of a map of strings: the empty string on a missing key.
abbrev value_or_empty : Option Text → Text
value_or_empty none = []
value_or_empty (some v) = v

-- `secret.Annotations[k]`
abbrev pub annotation : String → Secret → Text
annotation k secret = value_or_empty (Map.lookup k (writes secret.annotations))

-- `delete(secret.Annotations, k)`, in memory only
unfoldable pub forget : String → Secret → Secret
forget k secret = record secret {
  annotations = elim secret.annotations [ none ↦ none | some m ↦ some (Map.delete k m) ];
}

-- The Secret as `patchAnnotations` changes it before it sends the patch.
unfoldable pub mutated : (Map Text → Map Text) → Secret → Secret
mutated mutate secret = record secret { annotations = some (mutate (writes secret.annotations)) }

-- The mutation that `failWithStatus` makes, with its extra one.
abbrev pub failed_status : Text → Text → Text → (Map Text → Map Text) → Map Text → Map Text
failed_status status msg now extra ann = extra (
    Map.insert last_update_time_annotation now (
      Map.insert status_message_annotation (sanitize_message msg)
        (Map.insert status_annotation status ann)))

-- The mutation that ends a recovered outage: status Applied, and no message.
abbrev pub applied_status : Map Text → Map Text
applied_status ann =
    Map.delete status_message_annotation (Map.insert status_annotation (codes "Applied") ann)

-- The mutation that records an application.
abbrev pub applied_record : Text → Text → Text → Map Text → Map Text
applied_record hash seen now ann = Map.delete status_message_annotation (
    Map.delete last_failed_hash_annotation (
      Map.insert last_applied_time_annotation now (
        Map.insert status_annotation (codes "Applied") (
          Map.insert last_observed_hash_annotation seen
            (Map.insert last_applied_hash_annotation hash ann)))))

abbrev conflicts : Option Error → Bool
conflicts none = false
conflicts (some e) = is_conflict e

module _ {p : Platform} where
  -- `patchAnnotations`, with the Secret that it leaves
  unfoldable pub patch_annotations : Secret → (Map Text → Map Text) → Act p (Option Error × Secret)
  patch_annotations secret mutate = patch_secret secret (mutated mutate secret)

  -- `failWithStatus`
  unfoldable pub fail_with_status :
      Secret → Text → Text → (Map Text → Map Text) → Act p (Option Error)
  fail_with_status secret status msg extra = do
    now ← gets (λ s. p.timestamp s.world)
    (e, _) ← patch_annotations secret (failed_status status msg now extra)
    pure (if conflicts e then none else e)

-- A key that the operator owns.
abbrev pub is_operator_key : String → Bool
is_operator_key k = starts_with k "haproxy.operator/"

-- The writes to the keys that the operator does not own.
unfoldable pub foreign_writes : Map Text → Map Text
foreign_writes [] = []
foreign_writes ((k, v) ∷ m) =
    let rest = foreign_writes m in if is_operator_key k then rest else (k, v) ∷ rest

-- `stripOperatorAnnotations`
unfoldable pub strip_operator_annotations : Option (Map Text) → Option (Map Text)
unfolding foreign_writes
strip_operator_annotations none = none
strip_operator_annotations (some m) =
    if is_empty m
    then none
    else if is_empty (foreign_writes m)
    then none
    else some (foreign_writes m)

unfoldable pub same_value : Option Text → Option Text → Bool
same_value none none = true
same_value none (some v) = false
same_value (some u) none = false
same_value (some u) (some v) = text_eq u v

-- Whether both maps hold the same at every key of the list.
abbrev pub agree_on : Map Text → Map Text → Map Text → Bool
agree_on [] a b = true
agree_on ((k, _) ∷ keys) a b = same_value (Map.lookup k a) (Map.lookup k b) && agree_on keys a b

-- `reflect.DeepEqual` of two maps: a nil map equals a nil map only.
unfoldable pub deep_equal : Option (Map Text) → Option (Map Text) → Bool
unfolding same_value
deep_equal none none = true
deep_equal none (some b) = false
deep_equal (some a) none = false
deep_equal (some a) (some b) = agree_on a a b && agree_on b a b

-- `isRelevantUpdate` of two Secrets that are not nil.
unfoldable pub is_relevant_update : Secret → Secret → Bool
is_relevant_update old new =
    if not (deep_equal old.labels new.labels)
    then true
    else if not (deep_equal old.contents new.contents)
    then true
    else if not (
        deep_equal (strip_operator_annotations old.annotations)
          (strip_operator_annotations new.annotations))
    then true
    else false
