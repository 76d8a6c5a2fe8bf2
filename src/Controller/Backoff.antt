-- ===== src/Controller/Backoff.antt =====
-- `backoffForFailure` of internal/controller/secret_controller.go. Durations are in nanoseconds.
use haproxy_operator.Base.{ℕ, zero, suc, ◌*◌, ◌^◌, ◌%◌, ◌≤◌, ◌≡◌, refl, arith, ltb, if◌then◌else◌}
use Prim.Native.Nat.{min}

-- Go's `int`: `negsuc n` is -(n + 1).
pub data ℤ : Type 0 where
  pos : ℕ → ℤ
  negsuc : ℕ → ℤ

abbrev pub requeue_interval : ℕ
requeue_interval = 300000000000

abbrev pub base_retry_interval : ℕ
base_retry_interval = 30000000000

abbrev pub max_retry_interval : ℕ
max_retry_interval = 300000000000

-- The delay for a count that is not negative; the shift is one of 64-bit words.
unfoldable pub shifted : ℕ → ℕ
shifted failures =
    if ltb 7 failures
    then max_retry_interval
    else let d : ℕ = (base_retry_interval * 2 ^ failures) % 2 ^ 64 in
      if ltb max_retry_interval d then max_retry_interval else d

unfoldable pub backoff_for_failure : ℤ → ℕ
unfolding shifted
backoff_for_failure (negsuc n) = shifted 0
backoff_for_failure (pos n) = shifted n

shifted_bounds : (n : ℕ) → (base_retry_interval ≤ shifted n) × (shifted n ≤ max_retry_interval)
unfolding shifted
shifted_bounds zero = omega arith
shifted_bounds (suc zero) = omega arith
shifted_bounds (suc (suc zero)) = omega arith
shifted_bounds (suc (suc (suc zero))) = omega arith
shifted_bounds (suc (suc (suc (suc zero)))) = omega arith
shifted_bounds (suc (suc (suc (suc (suc zero))))) = omega arith
shifted_bounds (suc (suc (suc (suc (suc (suc zero)))))) = omega arith
shifted_bounds (suc (suc (suc (suc (suc (suc (suc zero))))))) = omega arith
shifted_bounds (suc (suc (suc (suc (suc (suc (suc (suc n)))))))) = ground arith

-- Every delay lies between the floor and the cap.
pub backoff_bounds :
    (f : ℤ)
    → (base_retry_interval ≤ backoff_for_failure f) × (backoff_for_failure f ≤ max_retry_interval)
unfolding backoff_for_failure
backoff_bounds (pos n) = shifted_bounds n
backoff_bounds (negsuc n) = shifted_bounds 0

-- The delay without its cut-off and without word arithmetic: doubled at each failure, and capped.
abbrev pub doubled : ℕ → ℕ
doubled zero = base_retry_interval
doubled (suc n) = min max_retry_interval (2 * doubled n)

doubled_cap : (n : ℕ) → doubled (suc (suc (suc (suc n)))) ≡ max_retry_interval
doubled_cap zero = refl
doubled_cap (suc n) = rw (doubled_cap n)

-- For every failure count, the delay is the floor of 30 s doubled once for each failure and capped
-- at 300 s: neither the cut-off at seven failures nor 64-bit wrap-around changes it.
pub backoff_for_failure-eq : (n : ℕ) → backoff_for_failure (pos n) ≡ doubled n
unfolding backoff_for_failure shifted
backoff_for_failure-eq zero = refl
backoff_for_failure-eq (suc zero) = refl
backoff_for_failure-eq (suc (suc zero)) = refl
backoff_for_failure-eq (suc (suc (suc zero))) = refl
backoff_for_failure-eq (suc (suc (suc (suc zero)))) = refl
backoff_for_failure-eq (suc (suc (suc (suc (suc zero))))) = refl
backoff_for_failure-eq (suc (suc (suc (suc (suc (suc zero)))))) = refl
backoff_for_failure-eq (suc (suc (suc (suc (suc (suc (suc zero))))))) = refl
backoff_for_failure-eq (suc (suc (suc (suc (suc (suc (suc (suc n)))))))) =
    rw (doubled_cap (suc (suc (suc (suc n))))) (ground arith)
