-- ===== src/Controller/Events.antt =====
-- The operator's own writes wake nobody: the event filter of SetupWithManager drops them.
use haproxy_operator.Base.{
  and_left, and_right, Text, String, true, false, ◌≡◌, refl, sym, ap, ◌∙◌, Option, none, some, List,
  [], ◌∷◌, ◌⊎◌, inl, inr, ◌===◌, eq_iff, if◌then◌else◌, arith, Bool-cases, text_eq_refl,
}
use haproxy_operator.Base.Map
use haproxy_operator.Base.Map.{Map, writes, absent, all_absent, is_empty}
use haproxy_operator.Platform.{Secret, Effect, Platform}
use haproxy_operator.Act.{State}
use haproxy_operator.Controller.Annotations.{
  is_operator_key, foreign_writes, strip_operator_annotations, same_value, agree_on, deep_equal,
  is_relevant_update,
}
use haproxy_operator.Controller.Reconcile.{reconcile}
use haproxy_operator.Controller.Protocol.{OwnWrite, note_at}
use haproxy_operator.Controller.Safety.{EachPatch, EachPatch-of, reconcile-AllJustified}

-- Two maps that hold the same under every key.
abbrev SameMap : Map Text → Map Text → Type 0
SameMap a b = (k : String) → Map.lookup k a ≡ Map.lookup k b

pub lookup-foreign_writes :
    (k : String) (m : Map Text)
    → Map.lookup k (foreign_writes m) ≡ (if is_operator_key k then none else Map.lookup k m)
unfolding foreign_writes Map.lookup
lookup-foreign_writes k [] = ground arith
lookup-foreign_writes k ((j, v) ∷ m) = ground (arith, eq_iff k j, lookup-foreign_writes k m)

pub same_value_refl : (o : Option Text) → same_value o o ≡ true
unfolding same_value
same_value_refl none = refl
same_value_refl (some t) = text_eq_refl t

agree_on-SameMap : (keys a b : Map Text) → SameMap a b → agree_on keys a b ≡ true
agree_on-SameMap [] a b h = refl
agree_on-SameMap ((k, _) ∷ keys) a b h =
    rw (h k, same_value_refl (Map.lookup k b)) (agree_on-SameMap keys a b h)

absent_lem : (o : Option Text) → absent o ≡ true → o ≡ none
unfolding absent
absent_lem none h = refl
absent_lem (some v) h = cc

-- A key that the first map writes is absent from the second, if they all are.
all_absent_at :
    (keys m : Map Text) (k : String)
    → all_absent keys m ≡ true
    → (Map.lookup k keys ≡ none) ⊎ (Map.lookup k m ≡ none)
unfolding all_absent Map.lookup
all_absent_at [] m k h = inl refl
all_absent_at ((j, v) ∷ keys) m k h = elim (Bool-cases (k === j)) [
  | inl e ↦
      inr
        (ap (λ i. Map.lookup i m) ((eq_iff k j).0 e) ∙ absent_lem (Map.lookup j m) (and_left _ _ h))
  | inr e ↦ rw e (all_absent_at keys m k (and_right _ _ h))
]

pub is_empty_at : (m : Map Text) (k : String) → is_empty m ≡ true → Map.lookup k m ≡ none
is_empty_at m k h = elim (all_absent_at m m k h) [ inl e ↦ e | inr e ↦ e ]

all_absent_of :
    (keys m : Map Text) → ((k : String) → Map.lookup k m ≡ none) → all_absent keys m ≡ true
unfolding all_absent absent
all_absent_of [] m h = refl
all_absent_of ((k, _) ∷ keys) m h = rw (h k) (all_absent_of keys m h)

-- Only the writes to foreign keys count.
pub strip_lem :
    (o : Option (Map Text))
    → strip_operator_annotations o
      ≡ (if is_empty (foreign_writes (writes o)) then none else some (foreign_writes (writes o)))
unfolding strip_operator_annotations writes all_absent
strip_lem none = refl
strip_lem (some m) = elim (Bool-cases (is_empty m)) [
  | inl e ↦ rw (e, all_absent_of (foreign_writes m) (foreign_writes m) (none_foreign e))
  | inr e ↦ rw e
]
  where
    none_foreign : is_empty m ≡ true → (k : String) → Map.lookup k (foreign_writes m) ≡ none
    none_foreign e k = ground (arith, lookup-foreign_writes k m, is_empty_at m k e)

deep_equal_refl : (o : Option (Map Text)) → deep_equal o o ≡ true
unfolding deep_equal
deep_equal_refl none = refl
deep_equal_refl (some m) = rw (agree_on-SameMap m m m (λ k. refl))

deep_equal-some : (a b : Map Text) → SameMap a b → deep_equal (some a) (some b) ≡ true
unfolding deep_equal
deep_equal-some a b h = rw (agree_on-SameMap a a b h, agree_on-SameMap b a b h)

-- Two foreign parts that hold the same are equal as `reflect.DeepEqual` sees them.
deep_equal-SameMap :
    (a b : Map Text)
    → SameMap a b
    → deep_equal (if is_empty a then none else some a) (if is_empty b then none else some b) ≡ true
deep_equal-SameMap a b h = elim (Bool-cases (is_empty a)) [
  | inl e ↦ rw (e, all_absent_of b b (λ k. sym (h k) ∙ is_empty_at a k e)) (deep_equal_refl none)
  | inr e ↦ elim (Bool-cases (is_empty b)) [
    | inl e' ↦ absurd (contradiction (sym e ∙ all_absent_of a a (λ k. h k ∙ is_empty_at b k e')))
    | inr e' ↦ rw (e, e') (deep_equal-some a b h)
  ]
]
  where
    contradiction : ¬ (false ≡ true)
    contradiction h = cc

strip-deep_equal :
    (before after : Secret)
    → ((k : String) → is_operator_key k ≡ false → note_at k after ≡ note_at k before)
    → deep_equal
        (strip_operator_annotations before.annotations)
        (strip_operator_annotations after.annotations)
      ≡ true
strip-deep_equal before after own =
    rw (strip_lem before.annotations, strip_lem after.annotations)
      (deep_equal-SameMap _ _ λ k.
        rw
          (
            lookup-foreign_writes k (writes before.annotations),
            lookup-foreign_writes k (writes after.annotations),
          )
          (elim (Bool-cases (is_operator_key k)) [ inl e ↦ rw e | inr e ↦ rw e (sym (own k e)) ]))

-- The filter of update events drops the change of the Secret.
abbrev pub WakesNobody : Secret → Secret → List Effect → Type 0
WakesNobody before after log = is_relevant_update before after ≡ false

pub OwnWrite-WakesNobody :
    (p : Platform) (before after : Secret) (log : List Effect)
    → OwnWrite p before after log
    → WakesNobody before after log
unfolding is_relevant_update
OwnWrite-WakesNobody p before after log own = rw (
  own.labels,
  own.contents,
  deep_equal_refl before.labels,
  deep_equal_refl before.contents,
  strip-deep_equal before after own.own,
)

-- In a reconciliation that starts with an empty log, every patch that the operator sends turns its
-- Secret into one that `isRelevantUpdate` does not tell from the old one: the operator never
-- triggers itself, and never changes labels, data or the annotations of others.
pub reconcile-WakesNobody :
    {p : Platform} (namespace name : String) (s : State p)
    → s.log ≡ []
    → EachPatch WakesNobody (reconcile namespace name s).1.log
reconcile-WakesNobody {p} namespace name s fresh =
    EachPatch-of p WakesNobody (OwnWrite-WakesNobody p) _
      (reconcile-AllJustified namespace name s fresh)
