-- ===== src/Local/Keeps.antt =====
-- The local mode follows the protocol, and remembers the hash of what the gateway took.
use haproxy_operator.Base.{
  ℕ, zero, suc, ◌*◌, String, Text, text_eq, not, true, false, ◌≡◌, refl, subst, Option, none, some,
  List, [], ◌∷◌, ◌==◌, ◌===◌, ◌⊎◌, inl, inr,
}
use haproxy_operator.Haproxy.Errors.{Cause, Error, Result, ok, err}
use haproxy_operator.Haproxy.Client.{apply_raw_configuration}
use haproxy_operator.Platform.{Client, Platform}
use haproxy_operator.Act.{State, pure, caused}
use haproxy_operator.Act.Keeps.{
  Ensures, Keeps, Ensures-bind, Ensures-or_error, Ensures-on_error, Ensures-if, Ensures-given,
  Ensures-weaken, Ensures-pure,
}
use haproxy_operator.Config.{load_from_file}
use haproxy_operator.Controller.Protocol.{
  Closed, Closed-any, Closed-×, applied, is_validated, is_applied,
}
use haproxy_operator.Controller.Protocol.Primitives.{
  Keeps-pure, Keeps-gets, Keeps-when, Keeps-sleep, Keeps-until_done, Keeps-new_watcher,
  Keeps-add_watch,
}
use haproxy_operator.Controller.Protocol.Client.{Ensures-wait_for_ready}
use haproxy_operator.Controller.Protocol.Verdict.{Ensures-validate_raw, Ensures-apply_raw}
use haproxy_operator.Local.{
  Runner, Op, Notice, done, event, watch_error, Exit, returned, running, is_change, kept,
  apply_once, apply_attempts, apply_with_retry, file_hash, on_change, on_event, run_loop,
  add_watches, run_watch, run,
}

-- The hash is that of bytes whose application the gateway took.
abbrev pub Taken : {p : Platform} → Text → State p → Type 0
Taken {p} h s = (raw : Text) × (h ≡ p.sha256_hex raw) × (applied raw s.log ≡ true)

abbrev pub TakenIf : {p : Platform} → Result Text → State p → Type 0
TakenIf (ok h) s = Taken h s
TakenIf (err e) s = Unit {0}

-- After the run, if it is still watching, the remembered hash is of that kind.
abbrev pub Remembers : {p : Platform} → Exit → State p → Type 0
Remembers (returned e) s = Unit {0}
Remembers (running h) s = Taken h s

Closed-Taken : {p : Platform} (h : Text) → Closed {p = p} (Taken h)
Closed-Taken h = record {
  step = λ s t st taken.
      (taken.0, taken.1, (Closed-any false (is_applied taken.0)).step s t st taken.2);
}

module _ {p : Platform} {P : State p → Type 0} (k : Closed P) where
  pub Ensures-apply_raw_configuration :
      (c : Client) (raw : Text)
      → Ensures P
          (apply_raw_configuration c raw)
          (λ r s. P s × (r ≡ none → applied raw s.log ≡ true))
  unfolding apply_raw_configuration
  Ensures-apply_raw_configuration c raw =
      let kv = Closed-× k (Closed-any false (is_validated raw)) in
      Ensures-bind _ _ (Ensures-wait_for_ready k c _) λ o. Ensures-given _ λ t.
        Ensures-on_error o _ _ (λ e _. Ensures-pure _ (λ s h. (h, λ q. cc)))
          (λ _. Ensures-bind _ _ (Ensures-validate_raw k c raw) λ v.
            Ensures-on_error v _ _ (λ e _. Ensures-pure _ (λ s h. (h.0, λ q. cc)))
              (λ q.
                Ensures-weaken _ (λ s h. (h.0, h.1.took q)) (λ a s h. (h.0.0, h.1.took))
                  (Ensures-apply_raw kv c raw (λ s h. h.1))))

  Keeps-load_from_file : (path : String) → Keeps P (load_from_file path)
  unfolding load_from_file
  Keeps-load_from_file path =
      Ensures-if (path === "") _ _ (λ _. Keeps-pure k _)
        (λ _.
          Ensures-bind {A = Cause ⊎ Text} _ _ (Keeps-gets k (λ s. p.read_file path s.world))
            (elim [ inl c ↦ Keeps-pure k _ | inr b ↦ Keeps-pure k _ ]))

  Ensures-apply_once : (r : Runner) → Ensures P (apply_once r) (λ a s. P s × TakenIf a s)
  unfolding apply_once
  Ensures-apply_once r = Ensures-bind _ _ (Keeps-load_from_file r.cfg_path) λ file.
      Ensures-or_error file _ _ (λ e _. Ensures-pure _ (λ s h. (h, tt)))
        (λ b _. Ensures-bind _ _ (Ensures-apply_raw_configuration r.client b) λ failure.
          Ensures-on_error failure _ _ (λ e _. Ensures-pure _ (λ s h. (h.0, tt)))
            (λ q. Ensures-pure _ (λ s h. (h.0, (b, refl, h.1 q)))))

  -- One attempt, and what the later ones give.
  Ensures-attempt :
      (left : ℕ) (r : Runner) (backoff : ℕ) (last : Option Error)
      → ((e : Error)
          → Ensures P (apply_attempts left r (backoff * 2) (some e)) (λ a s. P s × TakenIf a s))
      → Ensures P (apply_attempts (suc left) r backoff last) (λ a s. P s × TakenIf a s)
  unfolding apply_attempts
  Ensures-attempt left r backoff last later =
      Ensures-bind _ _ (Keeps-gets k (λ s. p.ended s.world)) λ stop.
        Ensures-on_error (caused stop) _ _ (λ e _. Ensures-pure _ (λ s h. (h, tt)))
          (λ _. Ensures-bind _ _ (Ensures-apply_once r) λ a.
            Ensures-or_error a _ _
              (λ e _.
                Ensures-bind {R = λ _ s. P s} _ _
                  (Ensures-weaken _ (λ s h. h.0) (λ _ s h. h)
                    (Keeps-when k (not (left == 0)) _ (Keeps-sleep k backoff)))
                  (λ _. later e))
              (λ h q. Ensures-pure _ (λ s i. (i.0, subst (λ x. TakenIf x s) q i.1))))

  Ensures-attempts :
      (left : ℕ) (r : Runner) (backoff : ℕ) (e : Error)
      → Ensures P (apply_attempts left r backoff (some e)) (λ a s. P s × TakenIf a s)
  unfolding apply_attempts
  Ensures-attempts zero r backoff e = Ensures-pure _ (λ s h. (h, tt))
  Ensures-attempts (suc left) r backoff e =
      Ensures-attempt left r backoff (some e) (λ e'. Ensures-attempts left r (backoff * 2) e')

  Ensures-apply_with_retry :
      (r : Runner) → Ensures P (apply_with_retry r) (λ a s. P s × TakenIf a s)
  unfolding apply_with_retry
  Ensures-apply_with_retry r = Ensures-attempt 4 r 200 none (λ e. Ensures-attempts 4 r 400 e)

-- A change of the file keeps the invariants, whatever the hash was.
module _ {p : Platform} {P : State p → Type 0} (k : Closed P) where
  pub Keeps-on_change : (r : Runner) (last : Text) → Keeps P (on_change r last)
  unfolding on_change file_hash
  Keeps-on_change r last = Ensures-bind _ _ (Keeps-sleep k _) λ _.
      Ensures-bind _ _
        (Ensures-bind _ _ (Keeps-load_from_file k r.cfg_path)
          λ file. Ensures-or_error file _ _ (λ e _. Keeps-pure k _) (λ b _. Keeps-pure k _))
        λ seen.
          Ensures-or_error seen _ _ (λ e _. Keeps-pure k _)
            (λ h _.
              Ensures-if (text_eq h last) _ _ (λ _. Keeps-pure k _)
                (λ _.
                  Ensures-bind _ _
                    (Ensures-weaken _ (λ s i. i) (λ a s i. i.0) (Ensures-apply_with_retry k r))
                    (λ new. Keeps-pure k _)))

-- The loop starts with a hash of that kind, and goes on with one.
module _ {p : Platform} {P : State p → Type 0} (k : Closed P) where
  Ensures-on_change :
      (r : Runner) (last : Text)
      → Ensures (λ s. P s × Taken last s) (on_change r last) (λ h s. P s × Taken h s)
  unfolding on_change file_hash
  Ensures-on_change r last =
      let kt = Closed-× k (Closed-Taken last) in
      Ensures-bind _ _ (Keeps-sleep kt _) λ _.
        Ensures-bind _ _
          (Ensures-bind _ _ (Keeps-load_from_file kt r.cfg_path)
            λ file. Ensures-or_error file _ _ (λ e _. Keeps-pure kt _) (λ b _. Keeps-pure kt _))
          λ seen.
            Ensures-or_error seen _ _ (λ e _. Ensures-pure _ (λ s i. i))
              (λ h _.
                Ensures-if (text_eq h last) _ _ (λ _. Ensures-pure _ (λ s i. i))
                  (λ _. Ensures-bind _ _ (Ensures-apply_with_retry kt r) (λ new. next new)))
    where
      next :
          (new : Result Text)
          → Ensures {p = p}
              (λ s. (P s × Taken last s) × TakenIf new s)
              (pure (kept last new))
              (λ h s. P s × Taken h s)
      next (ok h) = Ensures-pure _ (λ s i. (i.0.0, i.1))
      next (err e) = Ensures-pure _ (λ s i. i.0)

  Ensures-on_event :
      (r : Runner) (last : Text) (name : String) (op : Op)
      → Ensures (λ s. P s × Taken last s) (on_event r last name op) (λ h s. P s × Taken h s)
  unfolding on_event
  Ensures-on_event r last name op =
      Ensures-if (is_change r name op) _ _ (λ _. Ensures-on_change r last)
        (λ _. Ensures-pure _ (λ s h. h))

  Ensures-run_loop :
      (r : Runner) (last : Text) (notices : List Notice)
      → Ensures (λ s. P s × Taken last s) (run_loop r last notices) (λ x s. P s × Remembers x s)
  unfolding run_loop
  Ensures-run_loop r last [] = Ensures-pure _ (λ s h. h)
  Ensures-run_loop r last (done c ∷ notices) = Ensures-pure _ (λ s h. (h.0, tt))
  Ensures-run_loop r last (event name op ∷ notices) =
      Ensures-bind _ _ (Ensures-on_event r last name op) (λ next. Ensures-run_loop r next notices)
  Ensures-run_loop r last (watch_error c ∷ notices) = Ensures-run_loop r last notices

  Ensures-run_watch :
      (r : Runner) (h : Text) (notices : List Notice)
      → Ensures (λ s. P s × Taken h s) (run_watch r h notices) (λ x s. P s × Remembers x s)
  unfolding run_watch add_watches
  Ensures-run_watch r h notices =
      let kt = Closed-× k (Closed-Taken h) in
      Ensures-if (not r.watch) _ _
        (λ _. Ensures-bind _ _ (Keeps-until_done kt) (λ c. Ensures-pure _ (λ s i. (i.0, tt))))
        (λ _. Ensures-bind _ _ (Keeps-new_watcher kt) λ unwatched.
          Ensures-on_error unwatched _ _ (λ e _. Ensures-pure _ (λ s i. (i.0, tt)))
            (λ _.
              Ensures-bind _ _
                (Ensures-bind _ _ (Keeps-add_watch kt r.cfg_path) λ file_error.
                  Ensures-bind _ _ (Keeps-add_watch kt _) (λ dir_error. Keeps-pure kt _))
                λ failure.
                  Ensures-on_error failure _ _ (λ e _. Ensures-pure _ (λ s i. (i.0, tt)))
                    (λ _. Ensures-run_loop r h notices)))

  pub Ensures-run :
      (r : Runner) (notices : List Notice) → Ensures P (run r notices) (λ x s. P s × Remembers x s)
  unfolding run
  Ensures-run r notices = Ensures-bind _ _ (Ensures-apply_with_retry k r) λ first.
      Ensures-or_error first _ _ (λ e _. Ensures-pure _ (λ s i. (i.0, tt)))
        (λ h q.
          Ensures-weaken _ (λ s i. (i.0, subst (λ x. TakenIf x s) q i.1)) (λ x s i. i)
            (Ensures-run_watch r h notices))
