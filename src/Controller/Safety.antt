-- ===== src/Controller/Safety.antt =====
-- What the log of a reconciliation never shows: a configuration that is applied without its
-- validation, and annotations that the gateway's answers do not justify.
use haproxy_operator.Base.{
  Text, String, Bool, true, false, ◌≡◌, sym, subst, none, some, List, [], ◌∷◌, ◌⊎◌, if◌then◌else◌,
}
use haproxy_operator.Platform.{
  Secret, Effect, exchanged, patched, emitted, increased, gauged, dropped, Platform,
}
use haproxy_operator.Act.{State}
use haproxy_operator.Controller.Annotations.{
  last_applied_hash_annotation, last_failed_hash_annotation,
}
use haproxy_operator.Controller.Reconcile.{reconcile}
use haproxy_operator.Controller.Protocol.{
  Closed, is_application, validated, applied, refused, note_at, is_note, OwnWrite, stale, Step,
  quiet, noted, asked, applying, annotating, exporting,
}
use haproxy_operator.Controller.Protocol.Run.{Keeps-reconcile}

-- What an effect has to find in the log before it.
abbrev pub Justified : Platform → Effect → List Effect → Type 0
Justified p (exchanged r a) earlier = is_application r ≡ true → validated r.body earlier ≡ true
Justified p (patched before after f) earlier = OwnWrite p before after earlier
Justified p _ earlier = Unit {0}

abbrev pub AllJustified : Platform → List Effect → Type 0
AllJustified p [] = Unit {0}
AllJustified p (e ∷ log) = Justified p e log × AllJustified p log

Justified-note :
    (p : Platform) (e : Effect) (log : List Effect) → is_note e ≡ true → Justified p e log
unfolding is_note
Justified-note p (exchanged r a) log h = cc
Justified-note p (patched b a f) log h = cc
Justified-note p (emitted o t r m) log h = tt
Justified-note p (increased s) log h = tt
Justified-note p (gauged s n) log h = tt
Justified-note p (dropped s) log h = tt

AllJustified-if :
    (p : Platform) (b : Bool) (l m : List Effect)
    → AllJustified p l
    → AllJustified p m
    → AllJustified p (if b then l else m)
AllJustified-if p true l m hl hm = hl
AllJustified-if p false l m hl hm = hm

AllJustified-Step :
    {p : Platform} (s t : State p) → Step s t → AllJustified p s.log → AllJustified p t.log
AllJustified-Step s t (quiet e _) h = subst (AllJustified _) (sym e) h
AllJustified-Step s t (noted x n e _) h =
    subst (AllJustified _) (sym e) (Justified-note _ x s.log n, h)
AllJustified-Step s t (asked r a harmless e _) h =
    subst (AllJustified _) (sym e) ((λ applies. cc), h)
AllJustified-Step s t (applying r a valid e _) h = subst (AllJustified _) (sym e) ((λ _. valid), h)
AllJustified-Step s t (annotating b a f own e _) h = subst (AllJustified _) (sym e) (own, h)
AllJustified-Step {p} s t (exporting hash state _ e _ _) h =
    subst (AllJustified _) (sym e)
      (tt, AllJustified-if p (stale hash state s) (_ ∷ s.log) s.log (tt, h) h)

pub Closed-AllJustified : (p : Platform) → Closed {p = p} (λ t. AllJustified p t.log)
Closed-AllJustified p = record { step = AllJustified-Step }

pub reconcile-AllJustified :
    {p : Platform} (namespace name : String) (s : State p)
    → s.log ≡ []
    → AllJustified p (reconcile namespace name s).1.log
reconcile-AllJustified {p} namespace name s fresh =
    (Keeps-reconcile {P = λ t. AllJustified p t.log} (Closed-AllJustified p) namespace name).at s
      (subst (AllJustified p) (sym fresh) tt)

-- Every application in the log has, before it, a successful validation of the same bytes.
abbrev pub ValidatedFirst : List Effect → Type 0
ValidatedFirst [] = Unit {0}
ValidatedFirst (exchanged r a ∷ log) =
    (is_application r ≡ true → validated r.body log ≡ true) × ValidatedFirst log
ValidatedFirst (_ ∷ log) = ValidatedFirst log

-- Every patch in the log satisfies the predicate, together with the log before it.
abbrev pub EachPatch : (Secret → Secret → List Effect → Type 0) → List Effect → Type 0
EachPatch Q [] = Unit {0}
EachPatch Q (patched before after f ∷ log) = Q before after log × EachPatch Q log
EachPatch Q (_ ∷ log) = EachPatch Q log

pub ValidatedFirst-of : (p : Platform) (log : List Effect) → AllJustified p log → ValidatedFirst log
ValidatedFirst-of p [] h = tt
ValidatedFirst-of p (exchanged r a ∷ log) h = (h.0, ValidatedFirst-of p log h.1)
ValidatedFirst-of p (patched b a f ∷ log) h = ValidatedFirst-of p log h.1
ValidatedFirst-of p (emitted o t r m ∷ log) h = ValidatedFirst-of p log h.1
ValidatedFirst-of p (increased x ∷ log) h = ValidatedFirst-of p log h.1
ValidatedFirst-of p (gauged x n ∷ log) h = ValidatedFirst-of p log h.1
ValidatedFirst-of p (dropped x ∷ log) h = ValidatedFirst-of p log h.1

pub EachPatch-of :
    (p : Platform) (Q : Secret → Secret → List Effect → Type 0)
    → ((before after : Secret) (log : List Effect)
        → OwnWrite p before after log
        → Q before after log)
    → (log : List Effect) → AllJustified p log
    → EachPatch Q log
EachPatch-of p Q give [] h = tt
EachPatch-of p Q give (exchanged r a ∷ log) h = EachPatch-of p Q give log h.1
EachPatch-of p Q give (patched b a f ∷ log) h = (give b a log h.0, EachPatch-of p Q give log h.1)
EachPatch-of p Q give (emitted o t r m ∷ log) h = EachPatch-of p Q give log h.1
EachPatch-of p Q give (increased x ∷ log) h = EachPatch-of p Q give log h.1
EachPatch-of p Q give (gauged x n ∷ log) h = EachPatch-of p Q give log h.1
EachPatch-of p Q give (dropped x ∷ log) h = EachPatch-of p Q give log h.1

-- In a reconciliation that starts with an empty log, every POST that applies a raw configuration
-- comes after a POST of the same bytes with only_validate=true, answered with a 2xx status.
pub reconcile-ValidatedFirst :
    {p : Platform} (namespace name : String) (s : State p)
    → s.log ≡ []
    → ValidatedFirst (reconcile namespace name s).1.log
reconcile-ValidatedFirst {p} namespace name s fresh =
    ValidatedFirst-of p _ (reconcile-AllJustified namespace name s fresh)

-- The last-failed hash stays, goes, or becomes that of bytes which are empty or which the gateway
-- answered with 400 or 422.
abbrev pub SuppressesRefused : Platform → Secret → Secret → List Effect → Type 0
SuppressesRefused p before after log =
    (note_at last_failed_hash_annotation after ≡ note_at last_failed_hash_annotation before)
    ⊎ (note_at last_failed_hash_annotation after ≡ none)
    ⊎ ((raw : Text) × (note_at last_failed_hash_annotation after ≡ some (p.sha256_hex raw))
        × (refused raw log ≡ true))

-- In a reconciliation that starts with an empty log, no patch sets the last-failed hash but to that
-- of bytes which are empty or whose POST the gateway answered with 400 or 422 earlier in the same
-- reconciliation: a transient failure never suppresses a configuration.
pub reconcile-SuppressesRefused :
    {p : Platform} (namespace name : String) (s : State p)
    → s.log ≡ []
    → EachPatch (SuppressesRefused p) (reconcile namespace name s).1.log
reconcile-SuppressesRefused {p} namespace name s fresh =
    EachPatch-of p (SuppressesRefused p) (λ b a l own. own.suppression) _
      (reconcile-AllJustified namespace name s fresh)

-- The last-applied hash stays, or becomes that of bytes whose application the gateway took.
abbrev pub RecordsApplied : Platform → Secret → Secret → List Effect → Type 0
RecordsApplied p before after log =
    (note_at last_applied_hash_annotation after ≡ note_at last_applied_hash_annotation before)
    ⊎ ((raw : Text) × (note_at last_applied_hash_annotation after ≡ some (p.sha256_hex raw))
        × (applied raw log ≡ true))

-- In a reconciliation that starts with an empty log, no patch changes the last-applied hash but to
-- that of bytes whose application the gateway answered with a 2xx status earlier in the same
-- reconciliation.
pub reconcile-RecordsApplied :
    {p : Platform} (namespace name : String) (s : State p)
    → s.log ≡ []
    → EachPatch (RecordsApplied p) (reconcile namespace name s).1.log
reconcile-RecordsApplied {p} namespace name s fresh =
    EachPatch-of p (RecordsApplied p) (λ b a l own. own.application) _
      (reconcile-AllJustified namespace name s fresh)
