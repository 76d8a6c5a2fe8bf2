-- ===== src/Controller/Ledger/View.antt =====
-- The ledger that a log of effects amounts to, and what the tests on the log say of it.
use haproxy_operator.Base.{
  Text, text_eq, Bool, true, false, not, ◌&&◌, ◌||◌, ◌≡◌, refl, Option, none, some, List, [], ◌∷◌,
  any, arith, if◌then◌else◌,
}
use haproxy_operator.Base.Map
use haproxy_operator.Platform.{
  Answer, unreachable, answered, Effect, exchanged, patched, emitted, increased, gauged, dropped,
}
use haproxy_operator.Controller.Annotations.{
  same_value, last_applied_hash_annotation, last_failed_hash_annotation,
}
use haproxy_operator.Controller.Protocol.{
  is_raw_post, is_off, is_application, succeeded, rejected, validated, applied, refused,
  is_validated, is_applied, is_refused, is_note, note_at,
}
use haproxy_operator.Controller.Ledger.{Ledger, empty, member, is_blank}

-- What an answer adds, for a write of the raw configuration, of which kind, accepted or refused.
unfoldable pub add_answer : Bool → Bool → Bool → Bool → Text → Ledger → Ledger
add_answer false app good bad body l = l
add_answer true true true bad body l = record l { deployed = body ∷ l.deployed }
add_answer true false true bad body l = record l { checked = body ∷ l.checked }
add_answer true app false true body l = record l { refused = body ∷ l.refused }
add_answer true app false false body l = l

-- The digest that a patch puts on record, if it changes the annotation.
unfoldable pub add_note : Option Text → Option Text → List Text → List Text
unfolding same_value
add_note before after hashes =
    if same_value before after then hashes else elim after [ none ↦ hashes | some h ↦ h ∷ hashes ]

-- What the effects of a log amount to.
unfoldable pub ledger : List Effect → Ledger
unfolding add_answer add_note
ledger [] = empty
ledger (exchanged r a ∷ log) =
    add_answer (is_raw_post r) (is_application r) (succeeded a) (rejected a) r.body (ledger log)
ledger (patched before after f ∷ log) =
    let l = ledger log in
    record l {
      stamped =
          add_note (note_at last_applied_hash_annotation before)
            (note_at last_applied_hash_annotation after) l.stamped;
      suppressed =
          add_note (note_at last_failed_hash_annotation before)
            (note_at last_failed_hash_annotation after) l.suppressed;
    }
ledger (_ ∷ log) = ledger log

checked_by :
    (post app good bad : Bool) (body raw : Text) (l : Ledger) (earlier : Bool)
    → (earlier ≡ true → member raw l.checked ≡ true)
    → (((post && not app) && (text_eq body raw && good)) || earlier) ≡ true
    → member raw (add_answer post app good bad body l).checked ≡ true
unfolding add_answer
checked_by false app good bad body raw l earlier before h = before h
checked_by true true true bad body raw l earlier before h = before h
checked_by true false true bad body raw l earlier before h = ground (arith, before)
checked_by true true false true body raw l earlier before h = before h
checked_by true false false true body raw l earlier before h = ground (arith, before)
checked_by true true false false body raw l earlier before h = before h
checked_by true false false false body raw l earlier before h = ground (arith, before)

pub ledger-checked :
    (raw : Text) (log : List Effect)
    → validated raw log ≡ true
    → member raw (ledger log).checked ≡ true
unfolding ledger is_validated
ledger-checked raw [] h = cc
ledger-checked raw (exchanged r a ∷ log) h =
    checked_by (is_raw_post r) (is_application r) (succeeded a) (rejected a) r.body raw (ledger log)
      _ (ledger-checked raw log) h
ledger-checked raw (patched b a f ∷ log) h = ledger-checked raw log h
ledger-checked raw (emitted o t r m ∷ log) h = ledger-checked raw log h
ledger-checked raw (increased x ∷ log) h = ledger-checked raw log h
ledger-checked raw (gauged x n ∷ log) h = ledger-checked raw log h
ledger-checked raw (dropped x ∷ log) h = ledger-checked raw log h

deployed_by :
    (post bare good bad : Bool) (body raw : Text) (l : Ledger) (earlier : Bool)
    → (earlier ≡ true → member raw l.deployed ≡ true)
    → (((post && bare) && (text_eq body raw && good)) || earlier) ≡ true
    → member raw (add_answer post (post && bare) good bad body l).deployed ≡ true
unfolding add_answer
deployed_by false bare good bad body raw l earlier before h = before h
deployed_by true true true bad body raw l earlier before h = ground (arith, before)
deployed_by true false true bad body raw l earlier before h = before h
deployed_by true bare false true body raw l earlier before h = ground (arith, before)
deployed_by true bare false false body raw l earlier before h = ground (arith, before)

pub ledger-deployed :
    (raw : Text) (log : List Effect)
    → applied raw log ≡ true
    → member raw (ledger log).deployed ≡ true
unfolding ledger is_applied
ledger-deployed raw [] h = cc
ledger-deployed raw (exchanged r a ∷ log) h =
    deployed_by (is_raw_post r) (is_off (Map.lookup "only_validate" r.endpoint.query)) (succeeded a)
      (rejected a) r.body raw (ledger log) _ (ledger-deployed raw log) h
ledger-deployed raw (patched b a f ∷ log) h = ledger-deployed raw log h
ledger-deployed raw (emitted o t r m ∷ log) h = ledger-deployed raw log h
ledger-deployed raw (increased x ∷ log) h = ledger-deployed raw log h
ledger-deployed raw (gauged x n ∷ log) h = ledger-deployed raw log h
ledger-deployed raw (dropped x ∷ log) h = ledger-deployed raw log h

refused_by :
    (post app good bad : Bool) (body raw : Text) (l : Ledger) (earlier : Bool)
    → (good && bad) ≡ false
    → (earlier ≡ true → member raw l.refused ≡ true)
    → ((post && (text_eq body raw && bad)) || earlier) ≡ true
    → member raw (add_answer post app good bad body l).refused ≡ true
unfolding add_answer
refused_by false app good bad body raw l earlier one before h = before h
refused_by true true true bad body raw l earlier one before h = ground (arith, before)
refused_by true false true bad body raw l earlier one before h = ground (arith, before)
refused_by true app false true body raw l earlier one before h = ground (arith, before)
refused_by true app false false body raw l earlier one before h = ground (arith, before)

-- No status is both a success and a rejection.
not_both : (a : Answer) → (succeeded a && rejected a) ≡ false
not_both (unreachable t c) = refl
not_both (answered resp) = ground arith

any_refused :
    (raw : Text) (log : List Effect)
    → any (is_refused raw) log ≡ true
    → member raw (ledger log).refused ≡ true
unfolding ledger is_refused
any_refused raw [] h = cc
any_refused raw (exchanged r a ∷ log) h =
    refused_by (is_raw_post r) (is_application r) (succeeded a) (rejected a) r.body raw (ledger log)
      _ (not_both a) (any_refused raw log) h
any_refused raw (patched b a f ∷ log) h = any_refused raw log h
any_refused raw (emitted o t r m ∷ log) h = any_refused raw log h
any_refused raw (increased x ∷ log) h = any_refused raw log h
any_refused raw (gauged x n ∷ log) h = any_refused raw log h
any_refused raw (dropped x ∷ log) h = any_refused raw log h

pub ledger-refused :
    (raw : Text) (log : List Effect)
    → refused raw log ≡ true
    → (is_blank raw || member raw (ledger log).refused) ≡ true
ledger-refused [] log h = refl
ledger-refused (b ∷ raw) log h = any_refused (b ∷ raw) log h

pub ledger-note :
    (e : Effect) (log : List Effect) → is_note e ≡ true → ledger (e ∷ log) ≡ ledger log
unfolding ledger is_note
ledger-note (exchanged r a) log h = cc
ledger-note (patched b a f) log h = cc
ledger-note (emitted o t r m) log h = refl
ledger-note (increased x) log h = refl
ledger-note (gauged x n) log h = refl
ledger-note (dropped x) log h = refl
