-- ===== src/Controller/Series.antt =====
-- The exported series of the configuration hash.
use haproxy_operator.Base.{
  Text, String, Bool, true, false, not, ◌&&◌, ◌||◌, ◌≡◌, refl, sym, ap, subst, ◌∙◌, ◌≢◌, List, [],
  ◌∷◌, inl, inr, ◌===◌, eq_iff, if◌then◌else◌, arith, Bool-cases, text_eq, text_eq_refl,
  eq_of_text_eq,
}
use haproxy_operator.Platform.{Series, config_hash, Effect, gauged, dropped, Platform}
use haproxy_operator.Act.{State}
use haproxy_operator.Controller.Reconcile.{reconcile}
use haproxy_operator.Controller.Protocol.{
  is_note, SameSeries, stale, Step, quiet, noted, asked, applying, annotating, exporting,
}
use haproxy_operator.Controller.Protocol.Run.{Keeps-reconcile}

-- Whether the registry shows the series of a hash in a state, after the effects of a log.
abbrev is_series : Text → String → Series → Bool
is_series hash state (config_hash h t) = text_eq h hash && t === state
is_series hash state _ = false

abbrev pub is_exported : Text → String → List Effect → Bool
is_exported hash state [] = false
is_exported hash state (gauged x n ∷ log) =
    if is_series hash state x then true else is_exported hash state log
is_exported hash state (dropped x ∷ log) =
    if is_series hash state x then false else is_exported hash state log
is_exported hash state (_ ∷ log) = is_exported hash state log

-- Whatever is exported is what the reconciler remembers, and has a hash.
abbrev OnlyRemembered : {p : Platform} → State p → Type 0
OnlyRemembered s =
    (hash : Text) (state : String)
    → is_exported hash state s.log ≡ true
    → (hash ≡ s.reconciler.last_metric_hash)
      × (state ≡ s.reconciler.last_metric_state)
      × (hash ≢ [])

is_exported-note :
    (hash : Text) (state : String) (e : Effect) (log : List Effect)
    → is_note e ≡ true
    → is_exported hash state (e ∷ log) ≡ is_exported hash state log
unfolding is_note
is_exported-note hash state e log h = ground arith

OnlyRemembered-same :
    {p : Platform} (s t : State p)
    → ((hash : Text) (state : String) → is_exported hash state t.log ≡ is_exported hash state s.log)
    → SameSeries s t
    → OnlyRemembered s
    → OnlyRemembered t
OnlyRemembered-same s t e same h hash state x =
    let old = h hash state (sym (e hash state) ∙ x) in
    (old.0 ∙ sym same.hash, old.1 ∙ sym same.state, old.2)

is_series_self :
    (hash : Text) (state : String) → is_series hash state (config_hash hash state) ≡ true
is_series_self hash state = rw (text_eq_refl hash, (eq_iff state state).1 refl)

not_stale :
    (l hash : Text) (m state : String)
    → l ≢ []
    → (not (text_eq l []) && (not (text_eq l hash) || not (m === state))) ≡ false
    → (l ≡ hash) × (m ≡ state)
not_stale l hash m state full h =
    ground (arith, eq_of_text_eq l [], eq_of_text_eq l hash, eq_iff m state)

-- A series that both names describe is the same one.
is_series-eq :
    (hash hash' : Text) (state state' : String)
    → hash' ≡ hash
    → state' ≡ state
    → is_series hash' state' (config_hash hash state) ≡ true
is_series-eq hash hash' state state' e f = rw (e, f) (is_series_self hash state)

-- With no series of its own in the log, one is not brought in by the drop of another.
export_gone :
    {p : Platform} (s : State p) (hash hash' : Text) (state state' : String)
    → is_exported hash' state' s.log ≡ false
    → is_exported hash' state' (
        if stale hash state s
        then dropped (config_hash s.reconciler.last_metric_hash s.reconciler.last_metric_state)
          ∷ s.log
        else s.log)
      ≡ false
export_gone s hash hash' state state' gone = ground arith

-- What the export leaves: the new series, or an old one that was not stale.
export_cases :
    {p : Platform} (s : State p) (hash hash' : Text) (state state' : String)
    → OnlyRemembered s
    → is_series hash' state' (config_hash hash state) ≡ false
    → is_exported hash' state' (
        if stale hash state s
        then dropped (config_hash s.reconciler.last_metric_hash s.reconciler.last_metric_state)
          ∷ s.log
        else s.log)
      ≡ true
    → ⊥
export_cases s hash hash' state state' h new x =
    elim (Bool-cases (is_exported hash' state' s.log)) [
      | inr gone ↦ cc (export_gone s hash hash' state state' gone, x)
      | inl old ↦ elim (Bool-cases (stale hash state s)) [
        | inl dead ↦
            cc (rw (dead, is_series-eq _ _ _ _ (h hash' state' old).0 (h hash' state' old).1) at x)
        | inr alive ↦
            let same =
              not_stale s.reconciler.last_metric_hash hash s.reconciler.last_metric_state state
                (full old) alive in
            cc (
              new,
              is_series-eq hash hash' state state' ((h hash' state' old).0 ∙ same.0)
                  ((h hash' state' old).1 ∙ same.1),
            )
      ]
    ]
  where
    full : is_exported hash' state' s.log ≡ true → s.reconciler.last_metric_hash ≢ []
    full old e = (h hash' state' old).2 ((h hash' state' old).0 ∙ e)

is_series-inv :
    (hash hash' : Text) (state state' : String)
    → is_series hash' state' (config_hash hash state) ≡ true
    → (hash' ≡ hash) × (state' ≡ state)
is_series-inv hash hash' state state' h =
    ground (arith, eq_of_text_eq hash hash', eq_iff state state')

OnlyRemembered-export :
    {p : Platform} (filled : (t : Text) → p.sha256_hex t ≢ []) (s t : State p) (hash : Text)
    (state : String)
    → ((raw : Text) × (hash ≡ p.sha256_hex raw))
    → t.log
      ≡ gauged (config_hash hash state) 1
        ∷ (if stale hash state s
            then dropped (config_hash s.reconciler.last_metric_hash s.reconciler.last_metric_state)
              ∷ s.log
            else s.log)
    → t.reconciler.last_metric_hash ≡ hash
    → t.reconciler.last_metric_state ≡ state
    → OnlyRemembered s
    → OnlyRemembered t
OnlyRemembered-export filled s t hash state digest e f g h hash' state' x =
    elim (Bool-cases (is_series hash' state' (config_hash hash state))) [
      | inl new ↦
          let equal = is_series-inv hash hash' state state' new in
          (
            equal.0 ∙ sym f,
            equal.1 ∙ sym g,
            λ gone. filled digest.0 (sym digest.1 ∙ sym equal.0 ∙ gone),
          )
      | inr old ↦ absurd (
          export_cases s hash hash' state state' h old (
            trimmed
              (if stale hash state s
                then dropped
                    (config_hash s.reconciler.last_metric_hash s.reconciler.last_metric_state)
                  ∷ s.log
                else s.log)
              old (subst (λ log. is_exported hash' state' log ≡ true) e x)))
    ]
  where
    trimmed :
        (log : List Effect)
        → is_series hash' state' (config_hash hash state) ≡ false
        → is_exported hash' state' (gauged (config_hash hash state) 1 ∷ log) ≡ true
        → is_exported hash' state' log ≡ true
    trimmed log old x = ground arith

OnlyRemembered-Step :
    {p : Platform} (filled : (t : Text) → p.sha256_hex t ≢ []) (s t : State p)
    → Step s t
    → OnlyRemembered s
    → OnlyRemembered t
OnlyRemembered-Step filled s t (quiet e same) =
    OnlyRemembered-same s t (λ h x. ap (is_exported h x) e) same
OnlyRemembered-Step filled s t (noted x n e same) =
    OnlyRemembered-same s t (λ h y. ap (is_exported h y) e ∙ is_exported-note h y x s.log n) same
OnlyRemembered-Step filled s t (asked r a _ e same) =
    OnlyRemembered-same s t (λ h x. ap (is_exported h x) e) same
OnlyRemembered-Step filled s t (applying r a _ e same) =
    OnlyRemembered-same s t (λ h x. ap (is_exported h x) e) same
OnlyRemembered-Step filled s t (annotating b a f _ e same) =
    OnlyRemembered-same s t (λ h x. ap (is_exported h x) e) same
OnlyRemembered-Step filled s t (exporting hash state digest e f g) =
    OnlyRemembered-export filled s t hash state digest e f g

-- The reconciliations of a run, in their order; the log and the remembered series go on.
abbrev pub reconcile_all : {p : Platform} → List (String × String) → State p → State p
reconcile_all [] s = s
reconcile_all ((namespace, name) ∷ requests) s =
    reconcile_all requests (reconcile namespace name s).1

OnlyRemembered-empty : {p : Platform} (s : State p) → s.log ≡ [] → OnlyRemembered s
OnlyRemembered-empty s e hash state x = absurd (nothing (sym (ap (is_exported hash state) e) ∙ x))
  where
    nothing : ¬ (false ≡ true)
    nothing h = cc

OnlyRemembered-all :
    {p : Platform} (filled : (t : Text) → p.sha256_hex t ≢ []) (requests : List (String × String))
    (s : State p)
    → OnlyRemembered s
    → OnlyRemembered (reconcile_all requests s)
OnlyRemembered-all filled [] s h = h
OnlyRemembered-all filled ((namespace, name) ∷ requests) s h =
    OnlyRemembered-all filled requests _
      ((Keeps-reconcile (record { step = OnlyRemembered-Step filled }) namespace name).at s h)

-- Where a digest is never the empty text, and the log is empty at first: after any sequence of
-- reconciliations, two series of haproxy_config_hash that the registry exports are the same one, so
-- a dashboard never shows two configurations as applied.
pub reconcile_all-exports_one :
    {p : Platform} (filled : (t : Text) → p.sha256_hex t ≢ []) (requests : List (String × String))
    (s : State p)
    → s.log ≡ []
    → (hash hash' : Text) (state state' : String)
    → is_exported hash state (reconcile_all requests s).log ≡ true
    → is_exported hash' state' (reconcile_all requests s).log ≡ true
    → (hash ≡ hash') × (state ≡ state')
reconcile_all-exports_one filled requests s fresh hash hash' state state' x y =
    let kept = OnlyRemembered-all filled requests s (OnlyRemembered-empty s fresh) in
    (
      (kept hash state x).0 ∙ sym (kept hash' state' y).0,
      (kept hash state x).1 ∙ sym (kept hash' state' y).1,
    )
