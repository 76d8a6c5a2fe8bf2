-- ===== src/Controller/Ledger/Refines.antt =====
-- The reconciler of internal/controller/secret_controller.go implements the ledger.
use haproxy_operator.Base.{
  String, Text, text_eq_refl, Bool, true, false, ◌||◌, ◌≡◌, refl, sym, subst, Option, none, some,
  List, [], ◌∷◌, inl, inr, ◌⊎◌, if◌then◌else◌,
}
use haproxy_operator.Platform.{Effect, dropped, config_hash, Platform}
use haproxy_operator.Act.{State}
use haproxy_operator.Controller.Annotations.{
  same_value, last_applied_hash_annotation, last_failed_hash_annotation,
}
use haproxy_operator.Controller.Protocol.{
  is_raw_post, is_application, succeeded, rejected, applied, refused, note_at, stale, Closed, Step,
  quiet, noted, asked, applying, annotating, exporting,
}
use haproxy_operator.Controller.Ledger.{
  Ledger, member, is_blank, check, refuse, deploy, stamp, suppress, Reach, start, move,
}
use haproxy_operator.Controller.Ledger.View.{
  add_answer, add_note, ledger, ledger-checked, ledger-deployed, ledger-refused, ledger-note,
}
use haproxy_operator.Controller.Series.{reconcile_all}
use haproxy_operator.Controller.Protocol.Run.{Keeps-reconcile}

module _ (digest : Text → Text) (first : Ledger) where
  -- An answer moves the ledger at most, where an application was checked.
  Reach-answer :
      (post app good bad : Bool) (body : Text) (l : Ledger)
      → (app ≡ true → member body l.checked ≡ true)
      → Reach digest first l
      → Reach digest first (add_answer post app good bad body l)
  unfolding add_answer
  Reach-answer false app good bad body l valid r = r
  Reach-answer true true true bad body l valid r = move r (deploy body (valid refl))
  Reach-answer true false true bad body l valid r = move r (check body)
  Reach-answer true app false true body l valid r = move r (refuse body)
  Reach-answer true app false false body l valid r = r

  same_value_refl : (o : Option Text) → same_value o o ≡ true
  unfolding same_value
  same_value_refl none = refl
  same_value_refl (some t) = text_eq_refl t

  add_note_same :
      (before : Option Text) (hashes : List Text) → add_note before before hashes ≡ hashes
  unfolding add_note
  add_note_same before hashes = rw (same_value_refl before)

  add_note-none : (before : Option Text) (hashes : List Text) → add_note before none hashes ≡ hashes
  unfolding add_note
  add_note-none before hashes = by_test (same_value before none)
    where
      by_test : (b : Bool) → (if b then hashes else hashes) ≡ hashes
      by_test true = refl
      by_test false = refl

  -- A digest that a patch changes is put on record, or was there.
  add_note-some :
      (before : Option Text) (h : Text) (hashes : List Text)
      → (add_note before (some h) hashes ≡ hashes) ⊎ (add_note before (some h) hashes ≡ h ∷ hashes)
  unfolding add_note
  add_note-some before h hashes = by_test (same_value before (some h))
    where
      by_test :
          (b : Bool)
          → ((if b then hashes else h ∷ hashes) ≡ hashes)
            ⊎ ((if b then hashes else h ∷ hashes) ≡ h ∷ hashes)
      by_test true = inl refl
      by_test false = inr refl

  Reach-stamped :
      (before after : Option Text) (l : Ledger)
      → (after ≡ before)
        ⊎ ((raw : Text) × (after ≡ some (digest raw)) × (member raw l.deployed ≡ true))
      → Reach digest first l
      → Reach digest first (record l { stamped = add_note before after l.stamped })
  Reach-stamped before after l (inl same) r = rw (same, add_note_same before l.stamped) r
  Reach-stamped before after l (inr (raw, e, took)) r =
      rw e (elim (add_note-some before (digest raw) l.stamped) [
        | inl q ↦ rw q r
        | inr q ↦ rw q (move r (stamp raw took))
      ])

  Reach-suppressed :
      (before after : Option Text) (l : Ledger)
      → (after ≡ before)
        ⊎ (after ≡ none)
        ⊎ ((raw : Text) × (after ≡ some (digest raw))
            × ((is_blank raw || member raw l.refused) ≡ true))
      → Reach digest first l
      → Reach digest first (record l { suppressed = add_note before after l.suppressed })
  Reach-suppressed before after l (inl same) r = rw (same, add_note_same before l.suppressed) r
  Reach-suppressed before after l (inr (inl gone)) r =
      rw (gone, add_note-none before l.suppressed) r
  Reach-suppressed before after l (inr (inr (raw, e, spurned))) r =
      rw e (elim (add_note-some before (digest raw) l.suppressed) [
        | inl q ↦ rw q r
        | inr q ↦ rw q (move r (suppress raw spurned))
      ])

module _ (digest : Text → Text) (before after : Option Text) (log : List Effect) where
  -- What the log shows, the ledger holds.
  took_in :
      (after ≡ before) ⊎ ((raw : Text) × (after ≡ some (digest raw)) × (applied raw log ≡ true))
      → (after ≡ before)
        ⊎ ((raw : Text) × (after ≡ some (digest raw)) × (member raw (ledger log).deployed ≡ true))
  took_in (inl same) = inl same
  took_in (inr (raw, e, h)) = inr (raw, e, ledger-deployed raw log h)

  spurned_in :
      (after ≡ before)
        ⊎ (after ≡ none)
        ⊎ ((raw : Text) × (after ≡ some (digest raw)) × (refused raw log ≡ true))
      → (after ≡ before)
        ⊎ (after ≡ none)
        ⊎ ((raw : Text) × (after ≡ some (digest raw))
            × ((is_blank raw || member raw (ledger log).refused) ≡ true))
  spurned_in (inl same) = inl same
  spurned_in (inr (inl gone)) = inr (inl gone)
  spurned_in (inr (inr (raw, e, h))) = inr (inr (raw, e, ledger-refused raw log h))

-- The ledger of the state can be reached.
abbrev IsReached : {p : Platform} → Ledger → State p → Type 0
IsReached {p} first s = Reach p.sha256_hex first (ledger s.log)

IsReached-Step :
    {p : Platform} (first : Ledger) (s t : State p)
    → Step s t
    → IsReached first s
    → IsReached first t
unfolding ledger
IsReached-Step {p} first s t (quiet e _) r =
    subst (λ log. Reach p.sha256_hex first (ledger log)) (sym e) r
IsReached-Step {p} first s t (noted x n e _) r =
    subst (λ log. Reach p.sha256_hex first (ledger log)) (sym e) (rw (ledger-note x s.log n) r)
IsReached-Step {p} first s t (asked q a harmless e _) r =
    subst (λ log. Reach p.sha256_hex first (ledger log)) (sym e)
      (Reach-answer p.sha256_hex first (is_raw_post q) (is_application q) (succeeded a) (rejected a)
        q.body (ledger s.log) (λ applies. cc) r)
IsReached-Step {p} first s t (applying q a valid e _) r =
    subst (λ log. Reach p.sha256_hex first (ledger log)) (sym e)
      (Reach-answer p.sha256_hex first (is_raw_post q) (is_application q) (succeeded a) (rejected a)
        q.body (ledger s.log) (λ _. ledger-checked q.body s.log valid) r)
IsReached-Step {p} first s t (annotating b a f own e _) r =
    subst (λ log. Reach p.sha256_hex first (ledger log)) (sym e)
      (Reach-suppressed p.sha256_hex first (note_at last_failed_hash_annotation b) _ _
        (spurned_in p.sha256_hex _ _ s.log own.suppression)
        (Reach-stamped p.sha256_hex first (note_at last_applied_hash_annotation b) _ _
          (took_in p.sha256_hex _ _ s.log own.application) r))
IsReached-Step {p} first s t (exporting hash state _ e _ _) r =
    subst (λ log. Reach p.sha256_hex first (ledger log)) (sym e) (dropping (stale hash state s))
  where
    dropping :
        (b : Bool)
        → Reach p.sha256_hex first (
            ledger (
              if b
              then dropped
                  (config_hash s.reconciler.last_metric_hash s.reconciler.last_metric_state)
                ∷ s.log
              else s.log))
    dropping true = r
    dropping false = r

Closed-IsReached : {p : Platform} (first : Ledger) → Closed {p = p} (IsReached first)
Closed-IsReached first = record { step = IsReached-Step first }

IsReached-all :
    {p : Platform} (first : Ledger) (requests : List (String × String)) (s : State p)
    → IsReached first s
    → IsReached first (reconcile_all requests s)
IsReached-all first [] s h = h
IsReached-all first ((namespace, name) ∷ requests) s h =
    IsReached-all first requests _
      ((Keeps-reconcile (Closed-IsReached first) namespace name).at s h)

-- From every state, for every sequence of reconciliations: the ledger that the log then amounts to
-- is reached from the earlier one by moves of the specification, so the reconciler deploys, records
-- and suppresses only where the ledger lets it, over all of the reconciliations together.
pub reconcile_all-Reach :
    {p : Platform} (requests : List (String × String)) (s : State p)
    → Reach p.sha256_hex (ledger s.log) (ledger (reconcile_all requests s).log)
reconcile_all-Reach requests s = IsReached-all (ledger s.log) requests s start
