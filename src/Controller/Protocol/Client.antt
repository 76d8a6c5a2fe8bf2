-- ===== src/Controller/Protocol/Client.antt =====
-- The client's calls keep every invariant of the protocol, and what their results say of the log.
use haproxy_operator.Base.{
  ℕ, zero, suc, Text, String, Bool, true, false, ◌≡◌, refl, subst, ◌≢◌, ◌||◌, if◌then◌else◌, Option,
  none, some, [], arith, ◌⊎◌, inl, inr, ap, any, leb, ltb, ◌==◌,
}
use haproxy_operator.Haproxy.Errors.{
  Cause, Error, version_check, url, wrap, foreign, Result, ok, err, classify, config_rejected,
  is_local_rejection, as_version_check, as_api_error,
}
use haproxy_operator.Haproxy.Errors.Laws.{classify-eq_iff}
use haproxy_operator.Haproxy.Client.{
  new_api_error, conclude, no_body, failure, build, observe, request, post_plain,
  get_config_version, poll_ready, wait_for_ready, get_raw_configuration, raw_body, not_ready,
  ready_poll_interval,
}
use haproxy_operator.Platform.{
  Client, Method, get, Endpoint, HttpRequest, Response, Answer, unreachable, answered, Effect,
  exchanged, Platform,
}
use haproxy_operator.Act.{State, exchange, pause, lifted, caused}
use haproxy_operator.Act.Keeps.{
  Ensures, Keeps, Ensures-pure, Ensures-given, Ensures-bind, Ensures-on_error, Ensures-or_error,
  Ensures-if, Ensures-weaken,
}
use haproxy_operator.Controller.Protocol.{is_note, Closed, Closed-any, Closed-×}
use haproxy_operator.Controller.Protocol.Primitives.{
  MayAsk, Keeps-pure, Keeps-gets, Keeps-perform, Keeps-exchange, Keeps-pause,
}

-- Every test that the effect passes is passed by an effect of the log.
abbrev pub Seen : {p : Platform} → Effect → State p → Type 0
Seen x s = (test : Effect → Bool) → test x ≡ true → any test s.log ≡ true

pub Closed-Seen : {p : Platform} (x : Effect) → Closed {p = p} (Seen x)
Closed-Seen x = record {
  step = λ s t st seen test e. (Closed-any false test).step s t st (seen test e);
}

-- What a call makes of an answer.
abbrev pub result_of : {A : Type 0} → A → (Response → Cause ⊎ A) → Answer → Result A
result_of empty decode (unreachable t c) = err (url t c)
result_of empty decode (answered resp) = conclude empty decode resp

abbrev pub responded : Answer → Option Error
responded a = failure (result_of tt no_body a)

abbrev NotLocal : {A : Type 0} → Result A → Type 0
NotLocal (ok a) = Unit {0}
NotLocal (err e) = is_local_rejection e ≡ false

NotLocal-if :
    {A : Type 0} (b : Bool) (r r' : Result A)
    → NotLocal r
    → NotLocal r'
    → NotLocal (if b then r else r')
NotLocal-if true r r' h h' = h
NotLocal-if false r r' h h' = h'

NotLocal-lifted : {A : Type 0} (v : Cause ⊎ A) → NotLocal (lifted v)
unfolding is_local_rejection
NotLocal-lifted (inl c) = refl
NotLocal-lifted (inr a) = tt

conclude-NotLocal :
    {A : Type 0} (empty : A) (decode : Response → Cause ⊎ A) (resp : Response)
    → NotLocal (conclude empty decode resp)
unfolding conclude is_local_rejection new_api_error
conclude-NotLocal empty decode resp =
    NotLocal-if (ltb resp.status 200 || leb 300 resp.status) (err (new_api_error resp)) _ refl (
      NotLocal-if (resp.status == 204) (ok empty) (lifted (decode resp)) tt
        (NotLocal-lifted (decode resp)))

-- The error of a result suppresses no configuration.
abbrev pub IsTransient : {A : Type 0} → Result A → Type 0
IsTransient (ok a) = Unit {0}
IsTransient (err e) = classify e ≢ config_rejected

version_check-IsTransient :
    (e : Error) → is_local_rejection e ≡ false → classify (version_check e) ≢ config_rejected
unfolding is_local_rejection as_version_check
version_check-IsTransient e local h = ground (arith, (classify-eq_iff (version_check e)).0 h)

-- An error that may be there suppresses no configuration.
abbrev pub NoRejection : Option Error → Type 0
NoRejection none = Unit {0}
NoRejection (some e) = classify e ≢ config_rejected

foreign-NoRejection : (c : Cause) → NoRejection (some (foreign c))
unfolding is_local_rejection as_version_check as_api_error
foreign-NoRejection c h = ground (arith, (classify-eq_iff (foreign c)).0 h)

caused-NoRejection : (o : Option Cause) → NoRejection (caused o)
caused-NoRejection none = tt
caused-NoRejection (some c) = foreign-NoRejection c

not_ready-NoRejection :
    (last : Option Error) → NoRejection last → NoRejection (some (not_ready last))
not_ready-NoRejection none h = foreign-NoRejection _
not_ready-NoRejection (some e) h = h

-- Wrapping an error does not make it a rejection.
pub wrap-NoRejection :
    (before : String) (e : Error) (after : Text)
    → NoRejection (some e)
    → NoRejection (some (wrap before e after))
unfolding is_local_rejection as_version_check as_api_error
wrap-NoRejection before e after h i =
    h ((classify-eq_iff e).1 ((classify-eq_iff (wrap before e after)).0 i))

module _ {p : Platform} {P : State p → Type 0} (k : Closed P) where
  pub Keeps-observe : (c : Client) (o : Option ℕ) → Keeps P (observe c o)
  unfolding observe is_note
  Keeps-observe c none = Keeps-pure k tt
  Keeps-observe c (some n) = Keeps-perform k _ refl

module _ {p : Platform} {P : State p → Type 0} (k : Closed P) where
  Ensures-exchange :
      (c : Client) (r : HttpRequest)
      → MayAsk P r
      → Ensures P (exchange c r) (λ a s. P s × Seen (exchanged r a) s)
  unfolding exchange
  Ensures-exchange c r may = record {
    at = λ s h. ((Keeps-exchange k c r may).at s h, λ test e. rw e);
  }

  Ensures-pause : (ms : ℕ) → Ensures P (pause ms) (λ o s. P s × NoRejection o)
  unfolding pause
  Ensures-pause ms = record {
    at = λ s h. ((Keeps-pause k ms).at s h, caused-NoRejection (p.pause ms s.world).0);
  }

  -- A request's error is never a local rejection.
  Ensures-request :
      {A : Type 0} (c : Client) (m : Method) (e : Endpoint) (body : Text) (t : String) (empty : A)
      (decode : Response → Cause ⊎ A)
      → MayAsk P (build c m e body t)
      → Ensures P (request c m e body t empty decode) (λ r s. P s × NotLocal r)
  unfolding request
  Ensures-request c m e body t empty decode may =
      Ensures-bind _ _ (Keeps-exchange k c _ may) (elim [
        | unreachable u cause ↦ Ensures-pure _ (λ s h. (h, unfold is_local_rejection in refl))
        | answered resp ↦
            Ensures-bind _ _ (Keeps-observe k c resp.peer_not_after)
              (λ _. Ensures-pure _ (λ s h. (h, conclude-NotLocal empty decode resp)))
      ])

  pub Keeps-request :
      {A : Type 0} (c : Client) (m : Method) (e : Endpoint) (body : Text) (t : String) (empty : A)
      (decode : Response → Cause ⊎ A)
      → MayAsk P (build c m e body t)
      → Keeps P (request c m e body t empty decode)
  Keeps-request c m e body t empty decode may = record {
    at = λ s h. ((Ensures-request c m e body t empty decode may).at s h).0;
  }

  -- The answer that a call was given is in the log.
  pub Ensures-ask :
      {A : Type 0} (c : Client) (m : Method) (e : Endpoint) (body : Text) (t : String) (empty : A)
      (decode : Response → Cause ⊎ A)
      → MayAsk P (build c m e body t)
      → Ensures P (request c m e body t empty decode) (λ r s.
        P s
        × ((a : Answer) × Seen (exchanged (build c m e body t) a) s
            × (r ≡ result_of empty decode a)))
  unfolding request
  Ensures-ask c m e body t empty decode may = Ensures-bind _ _ (Ensures-exchange c _ may) (elim [
    | unreachable u cause ↦ Ensures-pure _ (λ s h. (h.0, (unreachable u cause, h.1, refl)))
    | answered resp ↦
        Ensures-bind _ _ (Keeps-observe (Closed-× k (Closed-Seen _)) c resp.peer_not_after)
          (λ _. Ensures-pure _ (λ s h. (h.0, (answered resp, h.1, refl))))
  ])

  pub Ensures-write :
      (c : Client) (m : Method) (e : Endpoint) (body : Text) (t : String)
      → MayAsk P (build c m e body t)
      → Ensures P (request c m e body t tt no_body) (λ r s.
        P s
        × ((a : Answer) × Seen (exchanged (build c m e body t) a) s × (failure r ≡ responded a)))
  Ensures-write c m e body t may =
      Ensures-weaken _ (λ s h. h) (λ r s (h, (a, seen, q)). (h, (a, seen, ap failure q)))
        (Ensures-ask c m e body t tt no_body may)

  pub Ensures-post_plain :
      (c : Client) (m : Method) (e : Endpoint) (body : Text)
      → MayAsk P (build c m e body "text/plain")
      → Ensures P (post_plain c m e body) (λ r s.
        P s
        × ((a : Answer) × Seen (exchanged (build c m e body "text/plain") a) s × (r ≡ responded a)))
  unfolding post_plain
  Ensures-post_plain c m e body may =
      Ensures-bind _ _ (Ensures-write c m e body _ may) (λ r. Ensures-pure _ (λ s h. h))

  -- The version read: its errors reject nothing.
  pub Ensures-get_config_version :
      (c : Client) → Ensures P (get_config_version c) (λ r s. P s × IsTransient r)
  unfolding get_config_version
  Ensures-get_config_version c =
      Ensures-bind _ _ (Ensures-request c get _ [] _ 0 _ (inl (unfold build in refl))) λ r.
        Ensures-or_error r _ _
          (λ e q. Ensures-pure _ (λ s h. (h.0, version_check-IsTransient e (rw q at h.1))))
          (λ n q. Ensures-pure _ (λ s h. (h.0, tt)))

  -- A wait for the API ends with an error that rejects nothing, if with one.
  pub Ensures-poll_ready :
      (rounds : ℕ) (c : Client) (deadline : ℕ) (last : Option Error)
      → NoRejection last
      → Ensures P (poll_ready rounds c deadline last) (λ o s. P s × NoRejection o)
  unfolding poll_ready
  Ensures-poll_ready zero c deadline last h =
      Ensures-pure _ (λ s i. (i, not_ready-NoRejection last h))
  Ensures-poll_ready (suc rounds) c deadline last h = Ensures-bind _ _ (Keeps-gets k _) λ now.
      Ensures-if (ltb now deadline) _ _
        (λ _. Ensures-bind _ _ (Ensures-get_config_version c) λ r.
          Ensures-or_error r _ _
            (λ e q. Ensures-given _ λ t.
              Ensures-bind _ _ (Ensures-pause ready_poll_interval) λ ended. Ensures-given _ λ u.
                Ensures-on_error ended _ _
                  (λ done q'. Ensures-pure _ (λ s i. (i, subst NoRejection q' u)))
                  (λ q'. Ensures-poll_ready rounds c deadline (some e) (subst IsTransient q t)))
            (λ n q. Ensures-pure _ (λ s i. (i.0, tt))))
        (λ _. Ensures-pure _ (λ s i. (i, not_ready-NoRejection last h)))

  pub Ensures-wait_for_ready :
      (c : Client) (timeout : ℕ) → Ensures P (wait_for_ready c timeout) (λ o s. P s × NoRejection o)
  unfolding wait_for_ready
  Ensures-wait_for_ready c timeout =
      Ensures-bind _ _ (Keeps-gets k _) (λ start. Ensures-poll_ready _ c _ none tt)

  pub Keeps-get_raw_configuration : (c : Client) → Keeps P (get_raw_configuration c)
  unfolding get_raw_configuration
  Keeps-get_raw_configuration c =
      Keeps-request c get _ [] _ [] raw_body (inl (unfold build in refl))
