-- ===== src/Controller/Noticed.antt =====
-- The event filter isRelevantUpdate of internal/controller/secret_controller.go drops no change
-- that is not the operator's.
use haproxy_operator.Base.{
  Text, String, true, false, ◌≡◌, refl, sym, ap, ◌∙◌, Option, none, some, [], ◌∷◌, ◌⊎◌, inl, inr,
  ◌===◌, eq_iff, if◌then◌else◌, arith, Bool-cases, eq_of_text_eq, and_left, and_right,
}
use haproxy_operator.Base.Map
use haproxy_operator.Base.Map.{Map, writes, is_empty}
use haproxy_operator.Platform.{Secret}
use haproxy_operator.Controller.Annotations.{
  is_operator_key, foreign_writes, strip_operator_annotations, same_value, agree_on, deep_equal,
  is_relevant_update,
}
use haproxy_operator.Controller.Events.{lookup-foreign_writes, is_empty_at, strip_lem}
use haproxy_operator.Controller.Protocol.{note_at}

same_value_lem : (a b : Option Text) → same_value a b ≡ true → a ≡ b
unfolding same_value
same_value_lem none none h = refl
same_value_lem none (some v) h = cc
same_value_lem (some u) none h = cc
same_value_lem (some u) (some v) h = ap some (eq_of_text_eq u v h)

-- A key that is written is one on which the maps agree.
agree_at :
    (keys a b : Map Text) (k : String)
    → agree_on keys a b ≡ true
    → (Map.lookup k keys ≡ none) ⊎ (Map.lookup k a ≡ Map.lookup k b)
unfolding Map.lookup
agree_at [] a b k h = inl refl
agree_at ((j, v) ∷ keys) a b k h = elim (Bool-cases (k === j)) [
  | inl e ↦ inr (
      ap (λ i. Map.lookup i a) ((eq_iff k j).0 e)
      ∙ same_value_lem (Map.lookup j a) (Map.lookup j b) (and_left _ _ h)
      ∙ ap (λ i. Map.lookup i b) (sym ((eq_iff k j).0 e)))
  | inr e ↦ rw e (agree_at keys a b k (and_right _ _ h))
]

deep_equal_at :
    (a b : Option (Map Text)) (k : String)
    → deep_equal a b ≡ true
    → Map.lookup k (writes a) ≡ Map.lookup k (writes b)
unfolding deep_equal writes
deep_equal_at none none k h = refl
deep_equal_at none (some b) k h = cc
deep_equal_at (some a) none k h = cc
deep_equal_at (some a) (some b) k h = elim (agree_at a a b k (and_left _ _ h)) [
  | inr e ↦ e
  | inl e ↦ elim (agree_at b a b k (and_right _ _ h)) [ inr f ↦ f | inl f ↦ e ∙ sym f ]
]

-- What is left of the annotations has every foreign one.
strip_at :
    (o : Option (Map Text)) (k : String)
    → is_operator_key k ≡ false
    → Map.lookup k (writes (strip_operator_annotations o)) ≡ Map.lookup k (writes o)
unfolding writes Map.lookup
strip_at o k foreign = rw (strip_lem o) (left (Bool-cases (is_empty (foreign_writes (writes o)))))
  where
    kept : Map.lookup k (foreign_writes (writes o)) ≡ Map.lookup k (writes o)
    kept = rw (lookup-foreign_writes k (writes o), foreign)

    left :
        ((is_empty (foreign_writes (writes o)) ≡ true)
          ⊎ (is_empty (foreign_writes (writes o)) ≡ false))
        → Map.lookup k (
            writes (
              if is_empty (foreign_writes (writes o))
              then none
              else some (foreign_writes (writes o))))
          ≡ Map.lookup k (writes o)
    left (inl e) = rw e (sym (is_empty_at (foreign_writes (writes o)) k e) ∙ kept)
    left (inr e) = rw e kept

-- For all Secrets: if `isRelevantUpdate` drops the update from one to the other, then they have the
-- same labels, the same data and the same annotations outside haproxy.operator/, key by key.
pub is_relevant_update-misses_nothing :
    (old new : Secret)
    → is_relevant_update old new ≡ false
    → (k : String)
    → (Map.lookup k (writes new.labels) ≡ Map.lookup k (writes old.labels))
      × (Map.lookup k (writes new.contents) ≡ Map.lookup k (writes old.contents))
      × (is_operator_key k ≡ false → note_at k new ≡ note_at k old)
unfolding is_relevant_update
is_relevant_update-misses_nothing old new h k = (
  sym (deep_equal_at old.labels new.labels k (ground arith)),
  sym (deep_equal_at old.contents new.contents k (ground arith)),
  λ foreign.
      sym (strip_at new.annotations k foreign)
      ∙ sym (
          deep_equal_at (strip_operator_annotations old.annotations)
            (strip_operator_annotations new.annotations) k (ground arith))
      ∙ strip_at old.annotations k foreign,
)
