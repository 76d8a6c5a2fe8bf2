-- ===== src/Controller/Ledger.antt =====
-- An abstract specification of the operator: which bytes the gateway has checked, refused and
-- deployed, and which digests are on record. It knows no requests, Secrets or metrics.
pub mod View
pub mod Refines
use haproxy_operator.Base.{Text, text_eq, Bool, true, false, ◌||◌, ◌≡◌, List, [], ◌∷◌, any}

pub record Ledger : Type 0 where
  pub checked : List Text
  pub refused : List Text
  pub deployed : List Text
  pub stamped : List Text  -- digests of what was deployed
  pub suppressed : List Text  -- digests of what was refused

abbrev pub empty : Ledger
empty = record { checked = []; refused = []; deployed = []; stamped = []; suppressed = [] }

abbrev pub member : Text → List Text → Bool
member raw raws = any (λ r. text_eq r raw) raws

abbrev pub is_blank : Text → Bool
is_blank [] = true
is_blank (b ∷ t) = false

-- What may happen, for a digest: bytes are deployed once they were checked, and go on record once
-- they were deployed; they are suppressed once they were refused, or when there are none.
pub data Move (digest : Text → Text) : Ledger → Ledger → Type 0 where
  check : {l : Ledger} (raw : Text) → Move digest l (record l { checked = raw ∷ l.checked })
  refuse : {l : Ledger} (raw : Text) → Move digest l (record l { refused = raw ∷ l.refused })
  deploy :
      {l : Ledger} (raw : Text)
      → member raw l.checked ≡ true
      → Move digest l (record l { deployed = raw ∷ l.deployed })
  stamp :
      {l : Ledger} (raw : Text)
      → member raw l.deployed ≡ true
      → Move digest l (record l { stamped = digest raw ∷ l.stamped })
  suppress :
      {l : Ledger} (raw : Text)
      → (is_blank raw || member raw l.refused) ≡ true
      → Move digest l (record l { suppressed = digest raw ∷ l.suppressed })

pub data Reach (digest : Text → Text) (l : Ledger) : Ledger → Type 0 where
  start : Reach digest l l
  move : {m n : Ledger} → Reach digest l m → Move digest m n → Reach digest l n

-- Every member of a list satisfies the predicate.
abbrev pub Each : (Text → Type 0) → List Text → Type 0
Each P [] = Unit {0}
Each P (x ∷ xs) = P x × Each P xs
