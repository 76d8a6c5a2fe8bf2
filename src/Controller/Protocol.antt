-- ===== src/Controller/Protocol.antt =====
-- The protocol that a reconciliation follows, as a step relation on states. A step says what was
-- done and why it was allowed; `Closed` is what an invariant of the protocol has to satisfy.
pub mod Primitives
pub mod Client
pub mod Verdict
pub mod Writes
pub mod Certs
pub mod Run
use haproxy_operator.Base.{
  codes, String, Text, text_eq, Bool, true, false, ◌&&◌, ◌||◌, ◌≡◌, ◌⊎◌, Option, none, some, List,
  [], ◌∷◌, ◌===◌, ◌==◌, leb, ltb, any, not, if◌then◌else◌, arith,
}
use haproxy_operator.Base.Map
use haproxy_operator.Base.Map.{writes}
use haproxy_operator.Haproxy.Errors.{Cause}
use haproxy_operator.Haproxy.Client.{raw_configuration}
use haproxy_operator.Platform.{
  Method, post, HttpRequest, Answer, unreachable, answered, Secret, config_hash, Effect, exchanged,
  patched, emitted, increased, gauged, dropped, Platform,
}
use haproxy_operator.Act.{State}
use haproxy_operator.Controller.Annotations.{
  is_operator_key, last_applied_hash_annotation, last_failed_hash_annotation,
}

abbrev pub is_post : Method → Bool
is_post post = true
is_post _ = false

-- The parameter is not there, or something else than "true".
abbrev pub is_off : Option Text → Bool
is_off none = true
is_off (some v) = not (text_eq v (codes "true"))

-- A write of the raw configuration, for validation only or for good.
abbrev pub is_raw_post : HttpRequest → Bool
is_raw_post r = is_post r.method && r.endpoint.path === raw_configuration

abbrev pub is_application : HttpRequest → Bool
is_application r = is_raw_post r && is_off (Map.lookup "only_validate" r.endpoint.query)

abbrev pub succeeded : Answer → Bool
succeeded (unreachable t c) = false
succeeded (answered resp) = leb 200 resp.status && ltb resp.status 300

abbrev pub rejected : Answer → Bool
rejected (unreachable t c) = false
rejected (answered resp) = resp.status == 400 || resp.status == 422

-- A successful validation, a successful application and a refusal of these very bytes.
unfoldable pub is_validated : Text → Effect → Bool
is_validated raw (exchanged r a) =
    (is_raw_post r && not (is_application r)) && (text_eq r.body raw && succeeded a)
is_validated raw _ = false

unfoldable pub is_applied : Text → Effect → Bool
is_applied raw (exchanged r a) = is_application r && (text_eq r.body raw && succeeded a)
is_applied raw _ = false

unfoldable pub is_refused : Text → Effect → Bool
is_refused raw (exchanged r a) = is_raw_post r && (text_eq r.body raw && rejected a)
is_refused raw _ = false

abbrev pub is_nil : Text → Bool
is_nil [] = true
is_nil (b ∷ s) = false

-- What the log shows about the bytes; empty ones are refused with no request.
abbrev pub validated : Text → List Effect → Bool
validated raw log = any (is_validated raw) log

abbrev pub applied : Text → List Effect → Bool
applied raw log = any (is_applied raw) log

abbrev pub refused : Text → List Effect → Bool
refused raw log = is_nil raw || any (is_refused raw) log

-- Metrics and Events, but for the series of the configuration hash.
unfoldable pub is_note : Effect → Bool
is_note (exchanged r a) = false
is_note (patched before after f) = false
is_note (emitted obj type reason msg) = true
is_note (increased (config_hash h state)) = false
is_note (increased _) = true
is_note (gauged (config_hash h state) n) = false
is_note (gauged _ n) = true
is_note (dropped series) = false

-- The value of an annotation before and after a patch.
abbrev pub note_at : String → Secret → Option Text
note_at k s = Map.lookup k (writes s.annotations)

-- What a patch of the operator may change, after what the log shows: annotations of its own; a
-- suppressed hash is new only if the gateway refused those bytes, and an applied one only if it
-- took them.
pub record OwnWrite (p : Platform) (before after : Secret) (log : List Effect) : Type 0 where
  pub own : (k : String) → is_operator_key k ≡ false → note_at k after ≡ note_at k before
  pub namespace : after.namespace ≡ before.namespace
  pub name : after.name ≡ before.name
  pub labels : after.labels ≡ before.labels
  pub contents : after.contents ≡ before.contents
  pub suppression :
      (note_at last_failed_hash_annotation after ≡ note_at last_failed_hash_annotation before)
      ⊎ (note_at last_failed_hash_annotation after ≡ none)
      ⊎ ((raw : Text) × (note_at last_failed_hash_annotation after ≡ some (p.sha256_hex raw))
          × (refused raw log ≡ true))
  pub application :
      (note_at last_applied_hash_annotation after ≡ note_at last_applied_hash_annotation before)
      ⊎ ((raw : Text) × (note_at last_applied_hash_annotation after ≡ some (p.sha256_hex raw))
          × (applied raw log ≡ true))

-- The exported series of the configuration hash is left alone.
pub record SameSeries {p : Platform} (s t : State p) : Type 0 where
  pub hash : t.reconciler.last_metric_hash ≡ s.reconciler.last_metric_hash
  pub state : t.reconciler.last_metric_state ≡ s.reconciler.last_metric_state

abbrev pub stale : {p : Platform} → Text → String → State p → Bool
stale hash state s =
    not (text_eq s.reconciler.last_metric_hash [])
    && (not (text_eq s.reconciler.last_metric_hash hash)
        || not (s.reconciler.last_metric_state === state))

pub data Step {p : Platform} (s t : State p) : Type 0 where
  quiet : t.log ≡ s.log → SameSeries s t → Step s t
  noted : (e : Effect) → is_note e ≡ true → t.log ≡ e ∷ s.log → SameSeries s t → Step s t
  asked :
      (r : HttpRequest) (a : Answer)
      → is_application r ≡ false
      → t.log ≡ exchanged r a ∷ s.log
      → SameSeries s t
      → Step s t
  applying :
      (r : HttpRequest) (a : Answer)
      → validated r.body s.log ≡ true
      → t.log ≡ exchanged r a ∷ s.log
      → SameSeries s t
      → Step s t
  annotating :
      (before after : Secret) (f : Option Cause)
      → OwnWrite p before after s.log
      → t.log ≡ patched before after f ∷ s.log
      → SameSeries s t
      → Step s t
  exporting :
      (hash : Text) (state : String)
      → ((raw : Text) × (hash ≡ p.sha256_hex raw))
      → t.log
        ≡ gauged (config_hash hash state) 1
          ∷ (if stale hash state s
              then dropped
                  (config_hash s.reconciler.last_metric_hash s.reconciler.last_metric_state)
                ∷ s.log
              else s.log)
      → t.reconciler.last_metric_hash ≡ hash
      → t.reconciler.last_metric_state ≡ state
      → Step s t

-- An invariant of the protocol.
pub record Closed {p : Platform} (P : State p → Type 0) : Type 0 where
  pub step : (s t : State p) → Step s t → P s → P t

-- What the log shows it goes on to show.
any-grows :
    {p : Platform} (b : Bool) (test : Effect → Bool) (s t : State p)
    → Step s t
    → (b || any test s.log) ≡ true
    → (b || any test t.log) ≡ true
any-grows b test s t (quiet e _) h = rw e h
any-grows b test s t (noted x _ e _) h = rw e (ground arith)
any-grows b test s t (asked r a _ e _) h = rw e (ground arith)
any-grows b test s t (applying r a _ e _) h = rw e (ground arith)
any-grows b test s t (annotating x a f _ e _) h = rw e (ground arith)
any-grows b test s t (exporting hash state _ e _ _) h = rw e (ground arith)

pub Closed-any :
    {p : Platform} (b : Bool) (test : Effect → Bool)
    → Closed {p = p} (λ s. (b || any test s.log) ≡ true)
Closed-any b test = record { step = any-grows b test }

-- The invariant that says nothing.
pub Closed-Unit : {p : Platform} → Closed {p = p} (λ _. Unit {0})
Closed-Unit = record { step = λ s t st h. tt }

pub Closed-× :
    {p : Platform} {P Q : State p → Type 0} → Closed P → Closed Q → Closed (λ s. P s × Q s)
Closed-× k l = record { step = λ s t st (h, i). (k.step s t st h, l.step s t st i) }

pub Closed-→ : {p : Platform} (F : Type 0) {Q : State p → Type 0} → Closed Q → Closed (λ s. F → Q s)
Closed-→ F k = record { step = λ s t st h f. k.step s t st (h f) }
