-- ===== src/Controller/Stable.antt =====
-- Predicates of the state that the bookkeeping of internal/controller/secret_controller.go leaves
-- alone: the log, the counters, reads of the cluster, waits, and the requests that are allowed.
use haproxy_operator.Base.{
  ℕ, zero, suc, String, Text, Bool, true, false, ◌≡◌, refl, [], none, some, Option, ◌∷◌, ◌⊎◌, ltb,
}
use haproxy_operator.Haproxy.Errors.{Cause, Error}
use haproxy_operator.Haproxy.Client.{
  build, observe, request, post_plain, get_config_version, poll_ready, wait_for_ready,
  get_raw_configuration, raw_configuration, raw_body, bare, ready_poll_interval, no_body,
}
use haproxy_operator.Platform.{
  Client, Method, get, Endpoint, HttpRequest, Response, unreachable, answered, Effect, exchanged,
  patched, Platform,
}
use haproxy_operator.Act.{
  Reconciler, State, Act, pure, gets, perform, modify, exchange, pause, get_secret, when,
}
use haproxy_operator.Act.Keeps.{
  Ensures, Keeps, Ensures-bind, Ensures-or_error, Ensures-on_error, Ensures-if, Ensures-pure,
}
use haproxy_operator.Status.{emit_event}
use haproxy_operator.Controller.Reconcile.{export_config_hash}

-- Metrics and Events.
unfoldable pub is_report : Effect → Bool
is_report (exchanged r a) = false
is_report (patched before after f) = false
is_report _ = true

-- The fields that a reconciliation reads and no counter of it.
pub record SameSettings (r r' : Reconciler) : Type 0 where
  pub name : r'.secret_name ≡ r.secret_name
  pub key : r'.secret_key ≡ r.secret_key
  pub certs : r'.certs_secret_names ≡ r.certs_secret_names
  pub client : r'.haproxy_client ≡ r.haproxy_client
  pub remediate : r'.drift_remediate ≡ r.drift_remediate

-- Left alone, as long as the requests are allowed ones.
pub record Stable {p : Platform} (allowed : HttpRequest → Bool) (P : State p → Type 0)
    : Type 0 where
  pub reported :
      (e : Effect) (s : State p) → is_report e ≡ true → P s → P (record s { log = e ∷ s.log })
  pub counted :
      (r : Reconciler) (s : State p)
      → SameSettings s.reconciler r
      → P s
      → P (record s { reconciler = r })
  pub fetched : (namespace name : String) (s : State p) → P s → P (get_secret namespace name s).1
  pub waited : (ms : ℕ) (s : State p) → P s → P (pause ms s).1
  pub asked :
      (c : Client) (r : HttpRequest) (s : State p) → allowed r ≡ true → P s → P (exchange c r s).1

pub Stable-Unit :
    {p : Platform} (allowed : HttpRequest → Bool) → Stable {p = p} allowed (λ _. Unit {0})
Stable-Unit allowed = record {
  reported = λ e s n h. tt;
  counted = λ r s same h. tt;
  fetched = λ namespace name s h. tt;
  waited = λ ms s h. tt;
  asked = λ c r s a h. tt;
}

module _ {p : Platform} {allowed : HttpRequest → Bool} {P : State p → Type 0}
    (st : Stable allowed P) where
  pub Stable-perform : (e : Effect) → is_report e ≡ true → Keeps P (perform e)
  unfolding perform
  Stable-perform e n = record { at = λ s h. st.reported e s n h }

  pub Stable-modify :
      (f : Reconciler → Reconciler) → ((r : Reconciler) → SameSettings r (f r)) → Keeps P (modify f)
  unfolding modify
  Stable-modify f same = record { at = λ s h. st.counted (f s.reconciler) s (same s.reconciler) h }

  pub Stable-get_secret : (namespace name : String) → Keeps P (get_secret namespace name)
  Stable-get_secret namespace name = record { at = λ s h. st.fetched namespace name s h }

  Stable-exchange : (c : Client) (r : HttpRequest) → allowed r ≡ true → Keeps P (exchange c r)
  Stable-exchange c r may = record { at = λ s h. st.asked c r s may h }

  pub Stable-pause : (ms : ℕ) → Keeps P (pause ms)
  Stable-pause ms = record { at = λ s h. st.waited ms s h }

  pub Stable-gets : {A : Type 0} (f : State p → A) → Keeps P (gets f)
  unfolding gets
  Stable-gets f = record { at = λ s h. h }

  pub Stable-when : (b : Bool) (m : Act p (Unit {0})) → Keeps P m → Keeps P (when b m)
  unfolding when pure
  Stable-when true m h = h
  Stable-when false m h = record { at = λ s h. h }

  pub Stable-emit_event :
      (obj reason : String) (message : Text) → Keeps P (emit_event obj reason message)
  unfolding emit_event is_report
  Stable-emit_event obj reason message = Ensures-bind _ _ (Stable-gets _) λ recorder.
      Ensures-if recorder _ _ (λ _. Stable-perform _ refl) (λ _. Ensures-pure _ (λ s h. h))

  pub Stable-export_config_hash :
      (hash : Text) (state : String) → Keeps P (export_config_hash hash state)
  unfolding export_config_hash is_report
  Stable-export_config_hash hash state = Ensures-bind _ _ (Stable-gets _) λ r.
      Ensures-bind _ _ (Stable-when _ _ (Stable-perform _ refl)) λ _.
        Ensures-bind _ _ (Stable-perform _ refl) λ _.
          Stable-modify _
            λ r'. record { name = refl; key = refl; certs = refl; client = refl; remediate = refl }

  pub Stable-observe : (c : Client) (o : Option ℕ) → Keeps P (observe c o)
  unfolding observe is_report
  Stable-observe c none = Ensures-pure _ (λ s h. h)
  Stable-observe c (some n) = Stable-perform _ refl

  -- What comes of an answer leaves the predicate alone.
  pub Ensures-request :
      {A : Type 0} {Q : State p → Type 0} (c : Client) (m : Method) (e : Endpoint) (body : Text)
      (t : String) (empty : A) (decode : Response → Cause ⊎ A)
      → Ensures Q (exchange c (build c m e body t)) (λ _ s. P s)
      → Ensures Q (request c m e body t empty decode) (λ _ s. P s)
  unfolding request
  Ensures-request c m e body t empty decode asked = Ensures-bind _ _ asked (elim [
    | unreachable u cause ↦ Ensures-pure _ (λ s h. h)
    | answered resp ↦
        Ensures-bind _ _ (Stable-observe c resp.peer_not_after) (λ _. Ensures-pure _ (λ s h. h))
  ])

  pub Stable-request :
      {A : Type 0} (c : Client) (m : Method) (e : Endpoint) (body : Text) (t : String) (empty : A)
      (decode : Response → Cause ⊎ A)
      → allowed (build c m e body t) ≡ true
      → Keeps P (request c m e body t empty decode)
  Stable-request c m e body t empty decode may =
      Ensures-request c m e body t empty decode (Stable-exchange c _ may)

  pub Stable-post_plain :
      (c : Client) (m : Method) (e : Endpoint) (body : Text)
      → allowed (build c m e body "text/plain") ≡ true
      → Keeps P (post_plain c m e body)
  unfolding post_plain
  Stable-post_plain c m e body may =
      Ensures-bind _ _ (Stable-request c m e body _ tt no_body may) (λ r. Ensures-pure _ (λ s h. h))

  pub Stable-get_raw_configuration :
      (c : Client)
      → allowed (build c get (bare raw_configuration) [] "text/plain") ≡ true
      → Keeps P (get_raw_configuration c)
  unfolding get_raw_configuration
  Stable-get_raw_configuration c may = Stable-request c _ _ _ _ [] raw_body may

-- Where every read is allowed.
module _ {p : Platform} {allowed : HttpRequest → Bool} {P : State p → Type 0}
    (st : Stable allowed P)
    (may : (c : Client) (e : Endpoint) (t : String) → allowed (build c get e [] t) ≡ true) where
  pub Stable-get_config_version : (c : Client) → Keeps P (get_config_version c)
  unfolding get_config_version
  Stable-get_config_version c =
      Ensures-bind _ _ (Stable-request st c get _ [] _ 0 _ (may c _ _)) λ r.
        Ensures-or_error r _ _ (λ e _. Ensures-pure _ (λ s h. h)) (λ n _. Ensures-pure _ (λ s h. h))

  Stable-poll_ready :
      (rounds : ℕ) (c : Client) (deadline : ℕ) (last : Option Error)
      → Keeps P (poll_ready rounds c deadline last)
  unfolding poll_ready
  Stable-poll_ready zero c deadline last = Ensures-pure _ (λ s h. h)
  Stable-poll_ready (suc rounds) c deadline last = Ensures-bind _ _ (Stable-gets st _) λ now.
      Ensures-if (ltb now deadline) _ _
        (λ _. Ensures-bind _ _ (Stable-get_config_version c) λ r.
          Ensures-or_error r _ _
            (λ e _. Ensures-bind _ _ (Stable-pause st ready_poll_interval) λ ended.
              Ensures-on_error ended _ _ (λ done _. Ensures-pure _ (λ s h. h))
                (λ _. Stable-poll_ready rounds c deadline (some e)))
            (λ n _. Ensures-pure _ (λ s h. h)))
        (λ _. Ensures-pure _ (λ s h. h))

  pub Stable-wait_for_ready : (c : Client) (timeout : ℕ) → Keeps P (wait_for_ready c timeout)
  unfolding wait_for_ready
  Stable-wait_for_ready c timeout =
      Ensures-bind _ _ (Stable-gets st _) (λ start. Stable-poll_ready _ c _ none)

pub Stable-× :
    {p : Platform} {allowed : HttpRequest → Bool} {P Q : State p → Type 0}
    → Stable allowed P
    → Stable allowed Q
    → Stable allowed (λ s. P s × Q s)
Stable-× st tu = record {
  reported = λ e s n (h, i). (st.reported e s n h, tu.reported e s n i);
  counted = λ r s same (h, i). (st.counted r s same h, tu.counted r s same i);
  fetched =
      λ namespace name s (h, i). (st.fetched namespace name s h, tu.fetched namespace name s i);
  waited = λ ms s (h, i). (st.waited ms s h, tu.waited ms s i);
  asked = λ c r s may (h, i). (st.asked c r s may h, tu.asked c r s may i);
}

-- Fewer requests may be allowed.
pub Stable-weaken :
    {p : Platform} {allowed fewer : HttpRequest → Bool} {P : State p → Type 0}
    → ((r : HttpRequest) → fewer r ≡ true → allowed r ≡ true)
    → Stable allowed P
    → Stable fewer P
Stable-weaken within st = record {
  reported = st.reported;
  counted = st.counted;
  fetched = st.fetched;
  waited = st.waited;
  asked = λ c r s may h. st.asked c r s (within r may) h;
}

-- What only depends on the settings.
pub Stable-settings :
    {p : Platform} (allowed : HttpRequest → Bool) (F : Reconciler → Type 0)
    → ((r r' : Reconciler) → SameSettings r r' → F r → F r')
    → Stable {p = p} allowed (λ s. F s.reconciler)
unfolding get_secret pause exchange
Stable-settings allowed F same = record {
  reported = λ e s n h. h;
  counted = λ r s same' h. same s.reconciler r same' h;
  fetched = λ namespace name s h. h;
  waited = λ ms s h. h;
  asked = λ c r s may h. h;
}

-- No request is allowed.
abbrev pub no_request : HttpRequest → Bool
no_request r = false
