-- ===== src/Local/Serves.antt =====
-- The loop of internal/local/runner.go on a gateway that answers everything, for a file that stays as
-- it is.
use haproxy_operator.Base.{
  String, Text, text_eq, eq_of_text_eq, true, false, Bool, Bool-cases, ◌≡◌, refl, ap, sym, none,
  List, [], ◌∷◌, inl, inr, ◌===◌, arith, ◌||◌, ◌⊎◌, ◌&&◌,
}
use haproxy_operator.Haproxy.Errors.{Result, ok}
use haproxy_operator.Haproxy.Client.{apply_raw_configuration, dataplane_ready_timeout}
use haproxy_operator.Haproxy.Healthy.{
  IsHealthy, IsHealthy-IsOpen, Yields-on_error, Yields-wait_for_ready, Yields-validate_raw,
  Yields-apply_raw,
}
use haproxy_operator.Platform.{Client, Platform}
use haproxy_operator.Act.{State, gets, caused, or_error}
use haproxy_operator.Act.Keeps.{
  Ensures, Keeps, Ensures-bind, Ensures-given, Ensures-both, Ensures-weaken, Ensures-on_error,
  Ensures-if, Ensures-pure, Yields, Yields-then, Yields-any,
}
use haproxy_operator.Controller.Protocol.{Closed-Unit, Closed-any, applied, is_applied}
use haproxy_operator.Local.Keeps.{Ensures-apply_raw_configuration, Keeps-on_change}
use haproxy_operator.Local.Laws.{renews, is_change-eq}
use haproxy_operator.Config.{load_from_file}
use haproxy_operator.Local.{
  Runner, Notice, done, event, watch_error, running, is_change, apply_once, apply_attempts,
  apply_with_retry, file_hash, on_change, on_event, run_loop,
}

-- The context goes on, and the file holds these bytes.
pub record IsServed (p : Platform) (path : String) (b : Text) : Type 0 where
  pub healthy : IsHealthy p
  pub goes_on : (w : p.World) → p.ended w ≡ none
  pub named : (path === "") ≡ false
  pub holds : (w : p.World) → p.read_file path w ≡ inr b

-- The loop is not left.
abbrev pub NoneDone : List Notice → Type 0
NoneDone [] = Unit {0}
NoneDone (done c ∷ notices) = ⊥
NoneDone (_ ∷ notices) = NoneDone notices

-- There is an event of the file itself that creates, renames or writes it.
abbrev pub has_change : Runner → List Notice → Bool
has_change r [] = false
has_change r (event name op ∷ notices) = (name === r.cfg_path && renews op) || has_change r notices
has_change r (_ ∷ notices) = has_change r notices

module _ {p : Platform} (r : Runner) (b : Text) (served : IsServed p r.cfg_path b) where
  Serves-load : Yields {p = p} (load_from_file r.cfg_path) (λ file. file ≡ ok b)
  unfolding load_from_file gets
  Serves-load =
      Ensures-if (r.cfg_path === "") _ _
        (λ e. record { at = λ s h. absurd (ground (arith, served.named)) })
        (λ _.
          Yields-then {R = λ file. file ≡ inr b} _ _ (record { at = λ s h. served.holds s.world })
            λ file e. rw e (Ensures-pure _ (λ s h. refl)))

  Yields-apply_raw_configuration :
      (c : Client) → Yields {p = p} (apply_raw_configuration c b) (λ o. o ≡ none)
  unfolding apply_raw_configuration
  Yields-apply_raw_configuration c =
      Yields-then _ _
        (Yields-wait_for_ready (IsHealthy-IsOpen served.healthy) c dataplane_ready_timeout
          (omega arith))
        λ o h. Yields-on_error o _ _ h (
          Yields-then _ _ (Yields-validate_raw served.healthy c b)
            λ o' h'. Yields-on_error o' _ _ h' (Yields-apply_raw served.healthy c b))

  -- It is applied, and the log says so.
  Serves-apply :
      (c : Client)
      → Ensures {p = p}
          (λ _. Unit {0})
          (apply_raw_configuration c b)
          (λ o s. (o ≡ none) × (applied b s.log ≡ true))
  Serves-apply c =
      Ensures-weaken _ (λ s h. h) (λ o s (fine, (_, shown)). (fine, shown fine))
        (Ensures-both _ (Yields-apply_raw_configuration c)
          (Ensures-apply_raw_configuration Closed-Unit c b))

  -- The hash of the bytes, which the log shows as applied.
  abbrev pub AppliedAs : Result Text → State p → Type 0
  AppliedAs h s = (applied b s.log ≡ true) × (h ≡ ok (p.sha256_hex b))

  Serves-apply_once : Ensures {p = p} (λ _. Unit {0}) (apply_once r) AppliedAs
  unfolding apply_once or_error
  Serves-apply_once =
      Ensures-bind {R = λ file _. Unit {0} × (file ≡ ok b)} _ _
        (record { at = λ s h. (tt, Serves-load.at s h) })
        λ file. Ensures-given _ λ e. rw e (
          Ensures-bind {R = λ o s. (applied b s.log ≡ true) × (o ≡ none)} _ _
            (Ensures-weaken _ (λ s h. h) (λ o s h. (h.1, h.0)) (Serves-apply r.client))
            λ o. Ensures-given _ λ fine.
              Ensures-on_error o _ _ (λ e' q. record { at = λ s h. cc })
                (λ _. Ensures-pure _ (λ s h. (h, refl))))

  -- The first attempt succeeds.
  Serves-apply_with_retry : Ensures {p = p} (λ _. Unit {0}) (apply_with_retry r) AppliedAs
  unfolding apply_with_retry apply_attempts gets or_error
  Serves-apply_with_retry =
      Ensures-bind {R = λ stop _. Unit {0} × (stop ≡ none)} _ _
        (record { at = λ s h. (tt, served.goes_on s.world) })
        λ stop. Ensures-given _ λ e. rw e (
          Ensures-on_error (caused none) _ _ (λ e' q. record { at = λ s h. cc })
            (λ _.
              Ensures-bind _ _ Serves-apply_once
                λ h. Ensures-given _ λ q. rw q (Ensures-pure _ (λ s i. (i, refl)))))

  Serves-file_hash : Yields {p = p} (file_hash r.cfg_path) (λ h. h ≡ ok (p.sha256_hex b))
  unfolding file_hash or_error
  Serves-file_hash = Yields-then _ _ Serves-load λ file e. rw e (Ensures-pure _ (λ s _. refl))

  -- The hash was there before, or the log shows the bytes as applied.
  abbrev pub UpToDate : Text → State p → Type 0
  UpToDate last s = (last ≡ p.sha256_hex b) ⊎ (applied b s.log ≡ true)

  Serves-on_change :
      (last : Text)
      → Ensures {p = p}
          (λ _. Unit {0})
          (on_change r last)
          (λ h s. UpToDate last s × (h ≡ p.sha256_hex b))
  unfolding on_change or_error
  Serves-on_change last = Ensures-bind _ _ (Yields-any _) λ _.
      Ensures-bind {R = λ seen _. Unit {0} × (seen ≡ ok (p.sha256_hex b))} _ _
        (Ensures-weaken _ (λ s h. tt) (λ seen s h. (tt, h)) Serves-file_hash)
        λ seen. Ensures-given _ λ e. rw e (
          Ensures-if (text_eq (p.sha256_hex b) last) _ _
            (λ same.
              let there = sym (eq_of_text_eq (p.sha256_hex b) last same) in
              Ensures-pure _ (λ s _. (inl there, there)))
            (λ _.
              Ensures-bind _ _ Serves-apply_with_retry
                λ new. Ensures-given _ λ q. rw q (Ensures-pure _ (λ s i. (inr i, refl)))))

  -- What holds of an old hash goes on to hold.
  Keeps-UpToDate : (old last : Text) → Keeps {p = p} (UpToDate old) (on_change r last)
  Keeps-UpToDate old last = record {
    at = λ s. elim [
      | inl there ↦ inl there
      | inr shown ↦ inr ((Keeps-on_change (Closed-any false (is_applied b)) r last).at s shown)
    ];
  }

  -- The hash that is there already stays.
  Serves-run_loop :
      (old last : Text) (notices : List Notice)
      → NoneDone notices
      → last ≡ p.sha256_hex b
      → Ensures {p = p}
          (UpToDate old)
          (run_loop r last notices)
          (λ x s. UpToDate old s × (x ≡ running (p.sha256_hex b)))
  unfolding run_loop on_event
  Serves-run_loop old last [] goes same = Ensures-pure _ (λ s h. (h, ap running same))
  Serves-run_loop old last (done c ∷ notices) goes same = absurd goes
  Serves-run_loop old last (event name op ∷ notices) goes same =
      Ensures-bind {R = λ h s. UpToDate old s × (h ≡ p.sha256_hex b)} _ _
        (Ensures-if (is_change r name op) _ _
          (λ _.
            Ensures-weaken _ (λ s h. h) (λ a s h. h)
              (record {
                at = λ s h. ((Keeps-UpToDate old last).at s h, ((Serves-on_change last).at s tt).1);
              }))
          (λ _. Ensures-pure _ (λ s h. (h, same))))
        λ next. Ensures-given _ (λ e. Serves-run_loop old next notices goes e)
  Serves-run_loop old last (watch_error c ∷ notices) goes same =
      Serves-run_loop old last notices goes same

  Catches-run_loop :
      (last : Text) (notices : List Notice)
      → NoneDone notices
      → has_change r notices ≡ true
      → Ensures {p = p}
          (λ _. Unit {0})
          (run_loop r last notices)
          (λ x s. UpToDate last s × (x ≡ running (p.sha256_hex b)))
  unfolding run_loop on_event
  Catches-run_loop last [] goes change = cc
  Catches-run_loop last (done c ∷ notices) goes change = absurd goes
  Catches-run_loop last (event name op ∷ notices) goes change =
      elim (Bool-cases (is_change r name op)) [
        | inl now ↦
            Ensures-bind _ _ (rw now (Serves-on_change last))
              λ next. Ensures-given _ (λ e. Serves-run_loop last next notices goes e)
        | inr other ↦
            Ensures-bind {R = λ h _. Unit {0} × (h ≡ last)} _ _
              (rw other (Ensures-pure _ (λ s _. (tt, refl))))
              λ next. Ensures-given _ λ e. rw e (Catches-run_loop last notices goes (later other))
      ]
    where
      later : is_change r name op ≡ false → has_change r notices ≡ true
      later other = ground (arith, is_change-eq r name op, other, change)
  Catches-run_loop last (watch_error c ∷ notices) goes change =
      Catches-run_loop last notices goes change

-- On a healthy gateway, while the context goes on and the file holds the same bytes: from every state
-- of the loop, whatever hash it has, for every sequence of notices in which an event of the file
-- itself creates, renames or writes it, the loop is still watching after them, with the hash of what
-- the file holds; and unless it had that hash before, the log shows a POST of these bytes for good
-- with a 2xx answer.
pub run_loop-catches_up :
    {p : Platform} (r : Runner) (b last : Text) (notices : List Notice) (s : State p)
    → IsServed p r.cfg_path b
    → NoneDone notices
    → has_change r notices ≡ true
    → ((last ≡ p.sha256_hex b) ⊎ (applied b (run_loop r last notices s).1.log ≡ true))
      × ((run_loop r last notices s).0 ≡ running (p.sha256_hex b))
run_loop-catches_up r b last notices s served goes change =
    (Catches-run_loop r b served last notices goes change).at s tt
