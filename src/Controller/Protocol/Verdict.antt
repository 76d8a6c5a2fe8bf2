-- ===== src/Controller/Protocol/Verdict.antt =====
-- What the results of validating and of applying a configuration say of the log.
use haproxy_operator.Base.{
  text_eq, ℕ, Text, Bool, true, false, ◌≡◌, refl, Option, none, some, [], ◌∷◌, arith, inl, inr, any,
  ◌||◌, text_eq_refl, codes, sym, ◌∙◌, subst,
}
use mathlib.Core.Option.{some-injective}
use haproxy_operator.Base.Map
use haproxy_operator.Haproxy.Errors.{
  Error, classify, config_rejected, is_local_rejection, as_version_check, as_api_error,
}
use haproxy_operator.Haproxy.Errors.Laws.{classify-eq_iff, classify-url}
use haproxy_operator.Haproxy.Client.{
  new_api_error, conclude, add_or_replace_query, build, versioned, apply_raw,
  apply_raw_configuration_validated, validate_raw_configuration,
}
use haproxy_operator.Platform.{
  Client, post, Endpoint, HttpRequest, Answer, unreachable, answered, Effect, exchanged, Platform,
}
use haproxy_operator.Act.{State}
use haproxy_operator.Act.Keeps.{
  Ensures, Ensures-pure, Ensures-given, Ensures-weaken, Ensures-bind, Ensures-on_error,
  Ensures-or_error,
}
use haproxy_operator.Config.{validate}
use haproxy_operator.Controller.Protocol.{
  is_application, validated, refused, is_validated, is_applied, is_refused, succeeded, rejected,
  Closed,
}
use haproxy_operator.Controller.Protocol.Client.{
  responded, Seen, NoRejection, IsTransient, wrap-NoRejection, Ensures-post_plain,
  Ensures-get_config_version, Ensures-wait_for_ready,
}

pub responded-none : (a : Answer) → responded a ≡ none → succeeded a ≡ true
unfolding conclude
responded-none (unreachable t c) h = cc
responded-none (answered resp) h = ground arith

responded-rejected :
    (a : Answer) {e : Error}
    → responded a ≡ some e
    → classify e ≡ config_rejected
    → rejected a ≡ true
unfolding conclude new_api_error is_local_rejection as_version_check as_api_error
responded-rejected (unreachable t c) h i = ground (arith, classify-url t c)
responded-rejected (answered resp) {e} h i = ground (arith, (classify-eq_iff e).0 i)

-- A result of a write of these bytes: it is nil only if the log shows that they were taken, and a
-- deterministic rejection only if it shows that they were refused.
pub record Verdict {p : Platform} (taken : Text → Effect → Bool) (raw : Text) (r : Option Error)
    (s : State p) : Type 0 where
  pub took : r ≡ none → any (taken raw) s.log ≡ true
  pub spurned : (e : Error) → r ≡ some e → classify e ≡ config_rejected → refused raw s.log ≡ true

or_right : (a b : Bool) → b ≡ true → (a || b) ≡ true
or_right a b h = ground arith

Verdict-answer :
    {p : Platform} (taken : Text → Effect → Bool) (raw : Text) (q : HttpRequest) (a : Answer)
    (r : Option Error) (s : State p)
    → (succeeded a ≡ true → taken raw (exchanged q a) ≡ true)
    → (rejected a ≡ true → is_refused raw (exchanged q a) ≡ true)
    → Seen (exchanged q a) s
    → r ≡ responded a
    → Verdict taken raw r s
Verdict-answer taken raw q a r s good bad seen e = record {
  took = λ h. seen (taken raw) (good (responded-none a (sym e ∙ h)));
  spurned =
      λ x h i. or_right _ _ (seen (is_refused raw) (bad (responded-rejected a (sym e ∙ h) i)));
}

-- An error that rejects nothing is a verdict.
Verdict-transient :
    {p : Platform} (taken : Text → Effect → Bool) (raw : Text) (e : Error) (s : State p)
    → NoRejection (some e)
    → Verdict taken raw (some e) s
Verdict-transient taken raw e s h = record {
  took = λ i. cc;
  spurned = λ x i c.
      absurd (h (subst (λ y. classify y ≡ config_rejected) (some-injective _ _ (sym i)) c));
}

abbrev pub validation : ℕ → Endpoint
validation n = add_or_replace_query (versioned n) "only_validate" (codes "true")

pub validation_harmless :
    (c : Client) (n : ℕ) (raw : Text)
    → is_application (build c post (validation n) raw "text/plain") ≡ false
unfolding build add_or_replace_query Map.lookup text_eq
validation_harmless c n raw = refl

is_validated-validation :
    (c : Client) (n : ℕ) (raw : Text) (a : Answer)
    → succeeded a ≡ true
    → is_validated raw (exchanged (build c post (validation n) raw "text/plain") a) ≡ true
unfolding is_validated build add_or_replace_query Map.lookup text_eq
is_validated-validation c n raw a h = rw (text_eq_refl raw, h)

is_refused-raw :
    (c : Client) (n : ℕ) (raw : Text) (a : Answer)
    → rejected a ≡ true
    → (is_refused raw (exchanged (build c post (validation n) raw "text/plain") a) ≡ true)
      × (is_refused raw (exchanged (build c post (versioned n) raw "text/plain") a) ≡ true)
unfolding is_refused build add_or_replace_query
is_refused-raw c n raw a h = (rw (text_eq_refl raw, h), rw (text_eq_refl raw, h))

is_applied-application :
    (c : Client) (n : ℕ) (raw : Text) (a : Answer)
    → succeeded a ≡ true
    → is_applied raw (exchanged (build c post (versioned n) raw "text/plain") a) ≡ true
unfolding is_applied build add_or_replace_query Map.lookup
is_applied-application c n raw a h = rw (text_eq_refl raw, h)

module _ {p : Platform} {P : State p → Type 0} (k : Closed P) where
  pub Ensures-validate_raw :
      (c : Client) (raw : Text)
      → Ensures P (validate_raw_configuration c raw) (λ r s. P s × Verdict is_validated raw r s)
  unfolding validate_raw_configuration
  Ensures-validate_raw c raw = Ensures-bind _ _ (Ensures-get_config_version k c) λ r.
      Ensures-or_error r _ _
        (λ e q.
          Ensures-pure _ (λ s h. (h.0, Verdict-transient _ raw e s (subst IsTransient q h.1))))
        (λ n q.
          Ensures-weaken _ (λ s h. h.0)
            (λ o s h. (
              h.0,
              Verdict-answer is_validated raw _ h.1.0 o s (is_validated-validation c n raw h.1.0)
                  (λ b. (is_refused-raw c n raw h.1.0 b).0) h.1.1 h.1.2,
            ))
            (Ensures-post_plain k c post _ raw (inl (validation_harmless c n raw))))

  -- The validator's verdict; empty bytes are rejected with no request.
  pub Ensures-validate :
      (c : Client) (raw : Text)
      → Ensures P (validate c raw) (λ r s. P s × Verdict is_validated raw r s)
  unfolding validate
  Ensures-validate c [] =
      Ensures-pure _ (λ s h. (h, record { took = λ i. cc; spurned = λ e i j. refl }))
  Ensures-validate c (b ∷ raw) = Ensures-validate_raw c (b ∷ raw)

  pub Ensures-apply_raw :
      (c : Client) (raw : Text)
      → ((s : State p) → P s → validated raw s.log ≡ true)
      → Ensures P (apply_raw c raw) (λ r s. P s × Verdict is_applied raw r s)
  unfolding apply_raw
  Ensures-apply_raw c raw valid = Ensures-bind _ _ (Ensures-get_config_version k c) λ r.
      Ensures-or_error r _ _
        (λ e q.
          Ensures-pure _ (λ s h. (h.0, Verdict-transient _ raw e s (subst IsTransient q h.1))))
        (λ n q.
          Ensures-weaken _ (λ s h. h.0)
            (λ o s h. (
              h.0,
              Verdict-answer is_applied raw _ h.1.0 o s (is_applied-application c n raw h.1.0)
                  (λ b. (is_refused-raw c n raw h.1.0 b).1) h.1.1 h.1.2,
            ))
            (Ensures-post_plain k c post _ raw (inr (unfold build in valid))))

  -- Validated bytes are applied, and the result is a verdict on them.
  pub Ensures-apply :
      (c : Client) (raw : Text)
      → ((s : State p) → P s → validated raw s.log ≡ true)
      → Ensures P
          (apply_raw_configuration_validated c raw)
          (λ r s. P s × Verdict is_applied raw r s)
  unfolding apply_raw_configuration_validated
  Ensures-apply c raw valid = Ensures-bind _ _ (Ensures-wait_for_ready k c _) λ o.
      Ensures-given _ λ t.
        Ensures-on_error o _ _
          (λ e q. Ensures-pure _ (λ s h.
            (h, Verdict-transient _ raw _ s (wrap-NoRejection _ e _ (subst NoRejection q t)))))
          (λ q. Ensures-apply_raw c raw valid)
