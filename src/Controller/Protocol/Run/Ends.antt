-- ===== src/Controller/Protocol/Run/Ends.antt =====
-- The ends of a reconciliation keep every invariant of the protocol.
use haproxy_operator.Base.{Text, String, Bool, true, false, ◌≡◌, refl, ap, ◌∷◌, if◌then◌else◌}
use haproxy_operator.Haproxy.Errors.{
  Error, message, classify, config_rejected, is_config_rejected, ErrorClass,
}
use haproxy_operator.Platform.{Secret, Effect, gauged, dropped, Platform, config_hash}
use haproxy_operator.Act.{State, Act, ◌>>=◌, when, perform, modify}
use haproxy_operator.Act.Keeps.{
  Ensures, Keeps, Ensures-weaken, Ensures-bind, Ensures-on_error, Ensures-if,
}
use haproxy_operator.Controller.Reconcile.{
  Outcome, export_config_hash, back_off, with_status, transient_failure, rejection,
  refused as refused_end, unchanged,
}
use haproxy_operator.Controller.Protocol.{
  refused, is_nil, is_refused, is_note, stale, Step, exporting, Closed, Closed-any, Closed-×,
  Closed-→,
}
use haproxy_operator.Controller.Protocol.Primitives.{
  Keeps-pure, Keeps-gets, Keeps-perform, Keeps-modify, Keeps-when, Keeps-emit_event,
}
use haproxy_operator.Controller.Protocol.Writes.{Keeps-fail_with_status, Keeps-fail_rejected}

log-when :
    {p : Platform} (b : Bool) (e : Effect) (s : State p)
    → (when b (perform e) s).1.log ≡ (if b then e ∷ s.log else s.log)
unfolding when perform
log-when true e s = refl
log-when false e s = refl

export-Step :
    {p : Platform} (raw : Text) (state : String) (s : State p)
    → Step s (export_config_hash (p.sha256_hex raw) state s).1
unfolding export_config_hash ◌>>=◌ modify perform
export-Step {p} raw state s =
    let hash = p.sha256_hex raw in
    exporting hash state (raw, refl)
      (ap (λ l. gauged (config_hash hash state) 1 ∷ l)
        (unfold perform in
          log-when (stale hash state s)
            (dropped (config_hash s.reconciler.last_metric_hash s.reconciler.last_metric_state)) s))
      refl refl

module _ {p : Platform} {P : State p → Type 0} (k : Closed P) where
  pub Keeps-export_config_hash :
      (raw : Text) (state : String) → Keeps P (export_config_hash (p.sha256_hex raw) state)
  Keeps-export_config_hash raw state = record {
    at = λ s h.
        k.step s (export_config_hash (p.sha256_hex raw) state s).1 (export-Step raw state s) h;
  }

  pub Keeps-back_off : Keeps P back_off
  unfolding back_off
  Keeps-back_off = Ensures-bind _ _ (Keeps-modify k _ (λ r. refl) (λ r. refl)) λ _.
      Ensures-bind _ _ (Keeps-gets k (λ s. s.reconciler.transient_failures)) (λ n. Keeps-pure k _)

  pub Keeps-with_status :
      (secret : Secret) (status : Text) (e : Error) (rest : Act p Outcome)
      → Keeps P rest
      → Keeps P (with_status secret status e unchanged rest)
  unfolding with_status
  Keeps-with_status secret status e rest kr =
      Ensures-bind _ _ (Keeps-fail_with_status k secret status (message e))
        λ u. Ensures-on_error u _ _ (λ e' _. Keeps-pure k _) (λ _. kr)

  pub Keeps-transient_failure :
      (secret : Secret) (stage : String) (event : Bool) (e : Error)
      → Keeps P (transient_failure secret stage event e)
  unfolding transient_failure is_note
  Keeps-transient_failure secret stage event e = Ensures-bind _ _ (Keeps-perform k _ refl) λ _.
      Ensures-bind _ _ (Keeps-when k event _ (Keeps-emit_event k _ _ _))
        λ _. Keeps-with_status secret _ e back_off Keeps-back_off

  -- A rejection follows a refusal of these bytes.
  pub Keeps-rejection :
      (secret : Secret) (raw : Text) (e : Error)
      → ((s : State p) → P s → refused raw s.log ≡ true)
      → Keeps P (rejection secret (p.sha256_hex raw) e)
  unfolding rejection with_status
  Keeps-rejection secret raw e refuse = Ensures-bind _ _ (Keeps-emit_event k _ _ _) λ _.
      Ensures-bind _ _ (Keeps-export_config_hash raw _) λ _.
        Ensures-bind _ _ (Keeps-fail_rejected k secret _ (message e) raw refuse)
          λ u. Ensures-on_error u _ _ (λ e' _. Keeps-pure k _) (λ _. Keeps-pure k _)

is_config_rejected-eq : (c : ErrorClass) → is_config_rejected c ≡ true → c ≡ config_rejected
unfolding is_config_rejected
is_config_rejected-eq config_rejected h = refl
is_config_rejected-eq _ h = cc

module _ {p : Platform} {P : State p → Type 0} (k : Closed P) where
  -- A failed stage, given that a deterministic rejection comes from a refusal of these bytes.
  pub Keeps-refused :
      (secret : Secret) (raw : Text) (stage : String) (e : Error)
      → Ensures
          (λ s. P s × (classify e ≡ config_rejected → refused raw s.log ≡ true))
          (refused_end secret (p.sha256_hex raw) stage e)
          (λ _. P)
  unfolding refused_end is_note
  Keeps-refused secret raw stage e =
      let k' =
        Closed-× k
          (Closed-→ (classify e ≡ config_rejected) (Closed-any (is_nil raw) (is_refused raw))) in
      Ensures-weaken _ (λ s h. h) (λ a s h. h.0)
        (Ensures-bind _ _ (Keeps-perform k' _ refl) λ _.
          Ensures-if (is_config_rejected (classify e)) _ _
            (λ c. Keeps-rejection k' secret raw e (λ s h. h.1 (is_config_rejected-eq _ c)))
            (λ _. Keeps-transient_failure k' secret stage true e))
