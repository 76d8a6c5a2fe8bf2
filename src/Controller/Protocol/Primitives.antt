-- ===== src/Controller/Protocol/Primitives.antt =====
-- The primitive actions keep every invariant of the protocol.
use haproxy_operator.Base.{Text, String, Bool, true, false, ◌≡◌, refl, ◌⊎◌, inl, inr}
use haproxy_operator.Platform.{Client, HttpRequest, Secret, Effect, Platform}
use haproxy_operator.Act.{
  Reconciler, State, Act, pure, gets, when, perform, modify, exchange, get_secret, patch_secret,
  pause, open_source, close_source, sleep, until_done, new_watcher, add_watch,
}
use haproxy_operator.Act.Keeps.{Keeps, Ensures-bind, Ensures-if}
use haproxy_operator.Status.{emit_event}
use haproxy_operator.Controller.Protocol.{
  is_application, validated, is_note, OwnWrite, quiet, noted, asked, applying, annotating, Closed,
}

-- A request is no application, or its bytes have been validated.
abbrev pub MayAsk : {p : Platform} → (State p → Type 0) → HttpRequest → Type 0
MayAsk P r = (is_application r ≡ false) ⊎ ((s : State _) → P s → validated r.body s.log ≡ true)

module _ {p : Platform} {P : State p → Type 0} (k : Closed P) where
  pub Keeps-pure : {A : Type 0} (a : A) → Keeps P (pure a)
  unfolding pure
  Keeps-pure a = record { at = λ s h. h }

  pub Keeps-gets : {A : Type 0} (f : State p → A) → Keeps P (gets f)
  unfolding gets
  Keeps-gets f = record { at = λ s h. h }

  pub Keeps-perform : (e : Effect) → is_note e ≡ true → Keeps P (perform e)
  unfolding perform
  Keeps-perform e note = record {
    at = λ s h.
        k.step s (perform e s).1 (noted e note refl (record { hash = refl; state = refl })) h;
  }

  pub Keeps-modify :
      (f : Reconciler → Reconciler)
      → ((r : Reconciler) → (f r).last_metric_hash ≡ r.last_metric_hash)
      → ((r : Reconciler) → (f r).last_metric_state ≡ r.last_metric_state)
      → Keeps P (modify f)
  unfolding modify
  Keeps-modify f hash state = record {
    at = λ s h.
        k.step s _ (quiet refl (record { hash = hash s.reconciler; state = state s.reconciler })) h;
  }

  pub Keeps-when : (b : Bool) (m : Act p (Unit {0})) → Keeps P m → Keeps P (when b m)
  unfolding when
  Keeps-when true m km = km
  Keeps-when false m km = record { at = λ s h. h }

  -- An application wants the validation of its bytes.
  pub Keeps-exchange : (c : Client) (r : HttpRequest) → MayAsk P r → Keeps P (exchange c r)
  unfolding exchange
  Keeps-exchange c r (inl harmless) = record {
    at = λ s h.
        k.step s (exchange c r s).1 (asked r _ harmless refl (record { hash = refl; state = refl }))
          h;
  }
  Keeps-exchange c r (inr valid) = record {
    at = λ s h.
        k.step s (exchange c r s).1
          (applying r _ (valid s h) refl (record { hash = refl; state = refl })) h;
  }

  pub Keeps-get_secret : (namespace name : String) → Keeps P (get_secret namespace name)
  unfolding get_secret
  Keeps-get_secret namespace name = record {
    at = λ s h.
        k.step s (get_secret namespace name s).1 (quiet refl (record { hash = refl; state = refl }))
          h;
  }

  pub Keeps-patch_secret :
      (before after : Secret)
      → ((s : State p) → P s → OwnWrite p before after s.log)
      → Keeps P (patch_secret before after)
  unfolding patch_secret
  Keeps-patch_secret before after own = record {
    at = λ s h.
        k.step s (patch_secret before after s).1
          (annotating before after _ (own s h) refl (record { hash = refl; state = refl })) h;
  }

  pub Keeps-pause : (ms : _) → Keeps P (pause ms)
  unfolding pause
  Keeps-pause ms = record {
    at = λ s h. k.step s (pause ms s).1 (quiet refl (record { hash = refl; state = refl })) h;
  }

  pub Keeps-open_source : (path : String) → Keeps P (open_source path)
  unfolding open_source
  Keeps-open_source path = record {
    at = λ s h.
        k.step s (open_source path s).1 (quiet refl (record { hash = refl; state = refl })) h;
  }

  pub Keeps-close_source : Keeps P close_source
  unfolding close_source
  Keeps-close_source = record {
    at = λ s h. k.step s (close_source s).1 (quiet refl (record { hash = refl; state = refl })) h;
  }

  pub Keeps-emit_event :
      (obj reason : String) (message : Text) → Keeps P (emit_event obj reason message)
  unfolding emit_event is_note
  Keeps-emit_event obj reason message =
      Ensures-bind _ _ (Keeps-gets _)
        λ recorder. Ensures-if recorder _ _ (λ _. Keeps-perform _ refl) (λ _. Keeps-pure tt)

  pub Keeps-sleep : (ms : _) → Keeps P (sleep ms)
  unfolding sleep
  Keeps-sleep ms = record {
    at = λ s h. k.step s (sleep ms s).1 (quiet refl (record { hash = refl; state = refl })) h;
  }

  pub Keeps-until_done : Keeps P until_done
  unfolding until_done
  Keeps-until_done = record {
    at = λ s h. k.step s (until_done s).1 (quiet refl (record { hash = refl; state = refl })) h;
  }

  pub Keeps-new_watcher : Keeps P new_watcher
  unfolding new_watcher
  Keeps-new_watcher = record {
    at = λ s h. k.step s (new_watcher s).1 (quiet refl (record { hash = refl; state = refl })) h;
  }

  pub Keeps-add_watch : (path : String) → Keeps P (add_watch path)
  unfolding add_watch
  Keeps-add_watch path = record {
    at = λ s h. k.step s (add_watch path s).1 (quiet refl (record { hash = refl; state = refl })) h;
  }
