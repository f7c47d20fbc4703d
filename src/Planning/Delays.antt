-- ===== src/Planning/Delays.antt =====
-- `retry_delay` and `deferred_job_delay` of src/application/service.rs.
use pulse.Prelude.{
  ℕ, zero, suc, ◌+◌, ◌-◌, ◌*◌, ◌/◌, ◌%◌, ◌^◌, ◌≤◌, arith, String, List, [], ◌∷◌, min, Duration,
  from_millis, u64_max,
}
use pulse.Domain.Contracts.{ScenarioJob}
use pulse.Planning.Text.{as_bytes}

-- The largest Duration, in nanoseconds: u64::MAX seconds and 999,999,999 ns.
abbrev pub duration_max : Duration
duration_max = 18446744073709551615999999999

unfoldable pub mix_bytes : ℕ → List ℕ → ℕ
mix_bytes state [] = state
mix_bytes state (byte ∷ bytes) =
    mix_bytes ((state * 1099511628211 + byte) % 18446744073709551616) bytes

-- The hash of the jitter, on u64.
unfoldable pub jitter_hash : ℕ → String → ℕ
jitter_hash attempt entropy =
    mix_bytes ((attempt + 0x9e3779b9) % 18446744073709551616) (as_bytes entropy)

unfoldable pub retry_delay : Duration → Duration → ℕ → String → Duration
retry_delay base maximum attempt entropy =
    let exponential = min (min (base * 2 ^ min attempt 16) duration_max) maximum in
    let basis_points = 8000 + jitter_hash attempt entropy % 4001 in
    min (min (exponential * basis_points / 10000) u64_max) maximum

-- The arguments are milliseconds of u128, and the result saturates at u64 milliseconds.
unfoldable pub deferred_job_delay : {R : Type 0} → ScenarioJob R → ℕ → Duration
deferred_job_delay job now_unix_ms =
    from_millis (min (job.not_before_unix_ms - now_unix_ms) u64_max)

pow-pos : (k : ℕ) → 1 ≤ 2 ^ k
pow-pos zero = omega arith
pow-pos (suc k) = omega (arith, pow-pos k)

scaled-le : (x y m n : ℕ) → x ≤ y → m ≤ n → x * m ≤ y * n
scaled-le x y m n p q = grind arith

-- The delay before a retry is bounded by the configured maximum, and at least four fifths of the
-- base delay, or of the maximum where that is smaller; the maximum is below 2^64 nanoseconds.
pub retry_delay_bounds :
    (base maximum : Duration) (attempt : ℕ) (entropy : String)
    → maximum ≤ u64_max
    → (retry_delay base maximum attempt entropy ≤ maximum)
      × (min base maximum * 4 / 5 ≤ retry_delay base maximum attempt entropy)
unfolding retry_delay
retry_delay_bounds base maximum attempt entropy m =
    let grown =
      scaled-le base base 1 (2 ^ min attempt 16) (omega arith) (pow-pos (min attempt 16)) in
    let exponential = min (min (base * 2 ^ min attempt 16) duration_max) maximum in
    let jittered =
      scaled-le exponential exponential 8000 (8000 + jitter_hash attempt entropy % 4001)
        (omega arith) (omega arith) in
    (omega arith, omega (arith, grown, jittered, m))
