-- ===== src/Local/Stops.antt =====
-- What a run of internal/local/runner.go ends with, when nobody ends it.
use haproxy_operator.Base.{
  arith, ℕ, zero, suc, ◌*◌, String, Text, not, ◌||◌, ltb, leb, ◌==◌, ◌===◌, true, false, Bool, ◌≡◌,
  refl, Option, none, some, List, [], ◌∷◌, inl, inr, if◌then◌else◌,
}
use haproxy_operator.Haproxy.Errors.{Cause, Error, foreign, is_canceled, Result, ok, err}
use haproxy_operator.Haproxy.Client.{
  new_api_error, conclude, no_body, failure, request, post_plain, get_config_version, apply_raw,
  apply_raw_configuration,
}
use haproxy_operator.Platform.{Client, Method, Endpoint, Response, unreachable, answered, Platform}
use haproxy_operator.Act.{gets, caused, new_watcher}
use haproxy_operator.Act.Keeps.{
  Ensures-or_error, Ensures-on_error, Ensures-if, Ensures-pure, Yields, Yields-then, Yields-any,
}
use haproxy_operator.Config.{load_from_file}
use haproxy_operator.Local.{
  Runner, Notice, done, event, watch_error, Exit, returned, running, gave_up, watch_failure,
  apply_once, apply_attempts, apply_with_retry, on_event, run_loop, add_watches, run_watch, run,
}

-- The context goes on, and a watcher that cannot be made says something else than that.
pub record IsUninterrupted (p : Platform) : Type 0 where
  pub ended : (w : p.World) → p.ended w ≡ none
  pub watcher :
      (w : p.World) (c : Cause) → (p.new_watcher w).0 ≡ some c → is_canceled (foreign c) ≡ false

-- No notice says that it is done.
abbrev pub NoneEnds : List Notice → Type 0
NoneEnds [] = Unit {0}
NoneEnds (done c ∷ notices) = ⊥
NoneEnds (_ ∷ notices) = NoneEnds notices

abbrev pub Other : {A : Type 0} → Result A → Type 0
Other (ok a) = Unit {0}
Other (err e) = is_canceled e ≡ false

abbrev pub OtherIf : Option Error → Type 0
OtherIf none = Unit {0}
OtherIf (some e) = is_canceled e ≡ false

abbrev pub OtherEnd : Exit → Type 0
OtherEnd (returned e) = is_canceled e ≡ false
OtherEnd (running h) = Unit {0}

-- An error that a response makes is one of the API.
concluded : (resp : Response) → OtherIf (failure (conclude tt no_body resp))
unfolding conclude new_api_error is_canceled
concluded resp = by_status (ltb resp.status 200 || leb 300 resp.status) (resp.status == 204)
  where
    by_status :
        (bad empty : Bool)
        → OtherIf
            (failure (if bad then err (new_api_error resp) else if empty then ok tt else ok tt))
    by_status true empty = refl
    by_status false true = tt
    by_status false false = tt

module _ {p : Platform} where
  Other-get_config_version : (c : Client) → Yields {p = p} (get_config_version c) Other
  unfolding get_config_version is_canceled
  Other-get_config_version c = Yields-then _ _ (Yields-any _) λ r _.
      Ensures-or_error r _ _ (λ e _. Ensures-pure _ (λ s h. refl))
        (λ n _. Ensures-pure _ (λ s h. tt))

  Other-post_plain :
      (c : Client) (m : Method) (e : Endpoint) (body : Text)
      → Yields {p = p} (post_plain c m e body) OtherIf
  unfolding post_plain request is_canceled
  Other-post_plain c m e body =
      Yields-then {R = λ r. OtherIf (failure r)} _ _
        (Yields-then _ _ (Yields-any _) (elim [
          | unreachable t cause ↦ (λ _. Ensures-pure _ (λ s h. refl))
          | answered resp ↦
              (λ _. Yields-then _ _ (Yields-any _) (λ _ _. Ensures-pure _ (λ s h. concluded resp)))
        ]))
        (λ r h. Ensures-pure _ (λ s _. h))

  Other-apply_raw_configuration :
      (c : Client) (raw : Text) → Yields {p = p} (apply_raw_configuration c raw) OtherIf
  unfolding apply_raw_configuration apply_raw is_canceled
  Other-apply_raw_configuration c raw = Yields-then _ _ (Yields-any _) λ ready _.
      Ensures-on_error ready _ _ (λ e _. Ensures-pure _ (λ s h. refl))
        λ _. Yields-then _ _ (Yields-any _) λ invalid _.
          Ensures-on_error invalid _ _ (λ e _. Ensures-pure _ (λ s h. refl))
            λ _. Yields-then _ _ (Other-get_config_version c) λ r h.
              Ensures-or_error r _ _ (λ e q. Ensures-pure _ (λ s _. rw q at h))
                (λ n _. Other-post_plain c _ _ raw)

  Other-load_from_file : (path : String) → Yields {p = p} (load_from_file path) Other
  unfolding load_from_file is_canceled
  Other-load_from_file path =
      Ensures-if (path === "") _ _ (λ _. Ensures-pure _ (λ s h. refl))
        λ _. Yields-then _ _ (Yields-any _) (elim [
          | inl c ↦ (λ _. Ensures-pure _ (λ s h. refl))
          | inr b ↦ (λ _. Ensures-pure _ (λ s h. tt))
        ])

  Other-apply_once : (r : Runner) → Yields {p = p} (apply_once r) Other
  unfolding apply_once
  Other-apply_once r = Yields-then _ _ (Other-load_from_file r.cfg_path) λ file h.
      Ensures-or_error file _ _ (λ e q. Ensures-pure _ (λ s _. rw q at h))
        λ b _. Yields-then _ _ (Other-apply_raw_configuration r.client b) λ failure h'.
          Ensures-on_error failure _ _ (λ e q. Ensures-pure _ (λ s _. rw q at h'))
            (λ _. Ensures-pure _ (λ s _. tt))

Other-gave_up : (o : Option Error) → OtherIf o → Other (gave_up o)
Other-gave_up none h = tt
Other-gave_up (some e) h = h

-- The error of an answer that is no cancellation.
OtherIf-caused :
    (o : Option Cause)
    → ((c : Cause) → o ≡ some c → is_canceled (foreign c) ≡ false)
    → OtherIf (caused o)
OtherIf-caused none give = tt
OtherIf-caused (some c) give = give c refl

OtherIf-watch_failure :
    (path dir : String) (first second : Option Error)
    → OtherIf (watch_failure path dir first second)
unfolding watch_failure is_canceled
OtherIf-watch_failure path dir none second = tt
OtherIf-watch_failure path dir (some e) none = tt
OtherIf-watch_failure path dir (some e) (some d) = refl

module _ {p : Platform} (uninterrupted : IsUninterrupted p) where
  Other-apply_attempts :
      (left : ℕ) (r : Runner) (backoff : ℕ) (last : Option Error)
      → OtherIf last
      → Yields {p = p} (apply_attempts left r backoff last) Other
  unfolding apply_attempts gets
  Other-apply_attempts zero r backoff last h = Ensures-pure _ (λ s _. Other-gave_up last h)
  Other-apply_attempts (suc left) r backoff last h =
      Yields-then {R = λ stop. OtherIf (caused stop)} _ _
        (record { at = λ s _. rw (uninterrupted.ended s.world) tt })
        λ stop i.
          Ensures-on_error (caused stop) _ _ (λ e q. Ensures-pure _ (λ s _. rw q at i))
            λ _. Yields-then _ _ (Other-apply_once r) λ applied j.
              Ensures-or_error applied _ _
                (λ e q.
                  Yields-then _ _ (Yields-any _)
                    λ _ _. Other-apply_attempts left r (backoff * 2) (some e) (rw q at j))
                (λ h _. Ensures-pure _ (λ s _. tt))

  Other-apply_with_retry : (r : Runner) → Yields {p = p} (apply_with_retry r) Other
  unfolding apply_with_retry
  Other-apply_with_retry r = Other-apply_attempts _ r _ none tt

  -- Without a cancellation among the notices, the loop ends with none.
  OtherEnd-run_loop :
      (r : Runner) (last : Text) (notices : List Notice)
      → NoneEnds notices
      → Yields {p = p} (run_loop r last notices) OtherEnd
  unfolding run_loop
  OtherEnd-run_loop r last [] h = Ensures-pure _ (λ s _. tt)
  OtherEnd-run_loop r last (done c ∷ notices) h = absurd h
  OtherEnd-run_loop r last (event name op ∷ notices) h =
      Yields-then _ _ (Yields-any (on_event r last name op))
        λ next _. OtherEnd-run_loop r next notices h
  OtherEnd-run_loop r last (watch_error c ∷ notices) h = OtherEnd-run_loop r last notices h

  OtherIf-add_watches : (r : Runner) → Yields {p = p} (add_watches r) OtherIf
  unfolding add_watches
  OtherIf-add_watches r = Yields-then _ _ (Yields-any _) λ file_error _.
      Yields-then _ _ (Yields-any _) λ dir_error _.
        Ensures-pure _ (λ s _. OtherIf-watch_failure r.cfg_path _ file_error dir_error)

  OtherEnd-run_watch :
      (r : Runner) (h : Text) (notices : List Notice)
      → NoneEnds notices
      → r.watch ≡ true
      → Yields {p = p} (run_watch r h notices) OtherEnd
  unfolding run_watch new_watcher
  OtherEnd-run_watch r h notices still watches =
      Ensures-if (not r.watch) _ _ (λ e. absurd (both r.watch watches e))
        (λ _.
          Yields-then {R = OtherIf} _ _
            (record { at = λ s _. OtherIf-caused _ (uninterrupted.watcher s.world) })
            λ unwatched i.
              Ensures-on_error unwatched _ _ (λ e q. Ensures-pure _ (λ s _. rw q at i))
                λ _. Yields-then _ _ (OtherIf-add_watches r) λ failure j.
                  Ensures-on_error failure _ _ (λ e q. Ensures-pure _ (λ s _. rw q at j))
                    (λ _. OtherEnd-run_loop r h notices still))
    where
      both : (b : Bool) → b ≡ true → not b ≡ true → ⊥
      both b i e = ground (arith, i, e)

  pub OtherEnd-run :
      (r : Runner) (notices : List Notice)
      → NoneEnds notices
      → r.watch ≡ true
      → Yields {p = p} (run r notices) OtherEnd
  unfolding run
  OtherEnd-run r notices still watches = Yields-then _ _ (Other-apply_with_retry r) λ first h.
      Ensures-or_error first _ _ (λ e q. Ensures-pure _ (λ s _. rw q at h))
        (λ hash _. OtherEnd-run_watch r hash notices still watches)
