-- ===== src/Haproxy/Results.antt =====
-- Chains of calls that return a value or an error, where each error ends the chain.
use haproxy_operator.Base.{◌≡◌, refl, ◌⊎◌, inl, inr, Option, none, some}
use haproxy_operator.Haproxy.Errors.{Cause, Error, foreign, fail, wrap, Result, ok, err}
use haproxy_operator.Base.{String, [], ap}

unfoldable pub and_then {ℓ κ} : {A : Type ℓ} {B : Type κ} → Result A → (A → Result B) → Result B
and_then (ok a) next = next a
and_then (err e) next = err e

-- `fmt.Errorf("…: %w", err)` on a call of a library.
unfoldable pub wrapped {ℓ} : {A : Type ℓ} → String → Cause ⊎ A → Result A
wrapped before (inl c) = err (wrap before (foreign c) [])
wrapped before (inr a) = ok a

-- A check that returns an error only.
unfoldable pub passed : Option Error → Result (Unit {0})
passed none = ok tt
passed (some e) = err e

-- What a loop has found in the rounds that it was given; none is that it has not ended.
unfoldable pub settled : {A : Type 0} → Option (Result A) → Result A
settled none = err (fail "the rounds are used up")
settled (some r) = r

pub settled-eq_ok :
    {A : Type 0} (o : Option (Result A)) {a : A} → settled o ≡ ok a → o ≡ some (ok a)
unfolding settled
settled-eq_ok none h = cc
settled-eq_ok (some r) h = ap (λ x. some x) h

pub and_then-eq_ok {ℓ κ} :
    {A : Type ℓ} {B : Type κ} (m : Result A) (next : A → Result B) {b : B}
    → and_then m next ≡ ok b
    → (a : A) × (m ≡ ok a) × (next a ≡ ok b)
unfolding and_then
and_then-eq_ok (ok a) next h = (a, refl, h)
and_then-eq_ok (err e) next h = cc

pub wrapped-eq_ok {ℓ} :
    {A : Type ℓ} (before : String) (x : Cause ⊎ A) {a : A} → wrapped before x ≡ ok a → x ≡ inr a
unfolding wrapped
wrapped-eq_ok before (inl c) h = cc
wrapped-eq_ok before (inr a) h = cc
