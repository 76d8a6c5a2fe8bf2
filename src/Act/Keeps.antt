-- ===== src/Act/Keeps.antt =====
-- Invariants of actions, one rule for each way to build an action.
use haproxy_operator.Base.{◌≡◌, refl, Bool, true, false, Option, none, some, if◌then◌else◌}
use haproxy_operator.Haproxy.Errors.{Error, Result, ok, err}
use haproxy_operator.Platform.{Platform}
use haproxy_operator.Act.{State, Act, pure, ◌>>=◌, on_error, or_error}

-- From a state with `P`, the action ends in one with `Q` of its result.
pub record Ensures {p : Platform} {A : Type 0} (P : State p → Type 0) (m : Act p A)
    (Q : A → State p → Type 0) : Type 0 where
  pub at : (s : State p) → P s → Q (m s).0 (m s).1

abbrev pub Keeps : {p : Platform} {A : Type 0} → (State p → Type 0) → Act p A → Type 0
Keeps P m = Ensures P m (λ _ s. P s)

module _ {p : Platform} {A B : Type 0} {P : State p → Type 0} {Q : B → State p → Type 0} where
  pub Ensures-bind :
      {R : A → State p → Type 0} (m : Act p A) (f : A → Act p B)
      → Ensures P m R
      → ((a : A) → Ensures (R a) (f a) Q)
      → Ensures P (m >>= f) Q
  unfolding ◌>>=◌
  Ensures-bind m f km kf = record { at = λ s h. (kf (m s).0).at (m s).1 (km.at s h) }

  pub Ensures-or_error :
      (r : Result A) (handler : Error → Act p B) (rest : A → Act p B)
      → ((e : Error) → r ≡ err e → Ensures P (handler e) Q)
      → ((a : A) → r ≡ ok a → Ensures P (rest a) Q)
      → Ensures P (or_error r handler rest) Q
  unfolding or_error
  Ensures-or_error (ok a) handler rest kh kr = kr a refl
  Ensures-or_error (err e) handler rest kh kr = kh e refl

module _ {p : Platform} {B : Type 0} {P : State p → Type 0} {Q : B → State p → Type 0} where
  pub Ensures-on_error :
      (o : Option Error) (handler : Error → Act p B) (rest : Act p B)
      → ((e : Error) → o ≡ some e → Ensures P (handler e) Q)
      → (o ≡ none → Ensures P rest Q)
      → Ensures P (on_error o handler rest) Q
  unfolding on_error
  Ensures-on_error none handler rest kh kr = kr refl
  Ensures-on_error (some e) handler rest kh kr = kh e refl

  pub Ensures-if :
      (b : Bool) (m n : Act p B)
      → (b ≡ true → Ensures P m Q)
      → (b ≡ false → Ensures P n Q)
      → Ensures P (if b then m else n) Q
  Ensures-if true m n km kn = km refl
  Ensures-if false m n km kn = kn refl

  -- A fact that does not depend on the state may be taken out of the precondition.
  pub Ensures-given : {F : Type 0} (m : Act p B) → (F → Ensures P m Q) → Ensures (λ s. P s × F) m Q
  Ensures-given m give = record { at = λ s h. (give h.1).at s h.0 }

  pub Ensures-weaken :
      {P' : State p → Type 0} {Q' : B → State p → Type 0} (m : Act p B)
      → ((s : State p) → P' s → P s)
      → ((a : B) (s : State p) → Q a s → Q' a s)
      → Ensures P m Q
      → Ensures P' m Q'
  Ensures-weaken m before after h = record {
    at = λ s i. after (m s).0 (m s).1 (h.at s (before s i));
  }

  pub Ensures-pure : (a : B) → ((s : State p) → P s → Q a s) → Ensures P (pure a) Q
  unfolding pure
  Ensures-pure a give = record { at = give }

-- What holds of an action's end for two reasons.
pub Ensures-both :
    {p : Platform} {A : Type 0} {P : State p → Type 0} {Q R : A → State p → Type 0} (m : Act p A)
    → Ensures P m Q
    → Ensures P m R
    → Ensures P m (λ a s. Q a s × R a s)
Ensures-both m hq hr = record { at = λ s h. (hq.at s h, hr.at s h) }

-- From every state, the result satisfies the predicate.
abbrev pub Yields : {p : Platform} {A : Type 0} → Act p A → (A → Type 0) → Type 0
Yields m Q = Ensures (λ _. Unit {0}) m (λ a _. Q a)

module _ {p : Platform} where
  pub Yields-then :
      {A B : Type 0} {Q : B → Type 0} {R : A → Type 0} (m : Act p A) (f : A → Act p B)
      → Yields m R
      → ((a : A) → R a → Yields (f a) Q)
      → Yields (m >>= f) Q
  Yields-then {R = R} m f km kf =
      Ensures-bind {R = λ a _. R a} m f km (λ a. record { at = λ s h. (kf a h).at s tt })

  pub Yields-any : {A : Type 0} (m : Act p A) → Yields m (λ _. Unit {0})
  Yields-any m = record { at = λ s h. tt }
