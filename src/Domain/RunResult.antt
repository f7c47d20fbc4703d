-- ===== src/Domain/RunResult.antt =====
-- `ScenarioRunResult::validate` and `validate_latency_buckets` of src/domain/contracts.rs.
pub mod Errors
pub mod Buckets
pub mod Valid
use pulse.Prelude.{
  ℕ, ◌+◌, String, List, [], ◌∷◌, Bool, true, false, not, ◌&&◌, ◌||◌, Option, none, some, ltb, leb,
  ◌==◌, str_eq, ◌<>◌, decimal, byte_len, if◌then◌else◌, length, is_empty, has_text, checked_add,
  Result, ok, ◌>>=◌, ◌>>◌, fail_if, ok_or,
}
use pulse.Domain.Error.{ContractError, invalid_result}
use pulse.Domain.Contracts.{
  max_contract_attempt, max_contract_id_bytes, max_contract_error_kinds,
  max_contract_error_kind_bytes, max_contract_exact_integer, max_contract_histogram_buckets,
  build_terminal_event_id, LatencyBucket, ErrorCount, ScenarioRunResult,
}
use pulse.Domain.Checks.{
  Check, validate_contract_version, validate_slice, require_non_empty, validate_identity_lengths,
}

-- `previous.is_some_and(|bound| upper_bound_ms <= bound)`
abbrev pub not_above : Option ℕ → ℕ → Bool
not_above none upper_bound_ms = false
not_above (some bound) upper_bound_ms = leb upper_bound_ms bound

-- The loop of `validate_latency_buckets`: the bound of the previous bucket, the count so far.
unfoldable pub count_buckets : Option ℕ → ℕ → List LatencyBucket → Result ContractError ℕ
count_buckets previous count [] = ok count
count_buckets previous count (bucket ∷ buckets) = do
  fail_if (not_above previous bucket.upper_bound_ms)
      (invalid_result "latency histogram bounds must be strictly increasing")
  count' ←
      ok_or (checked_add count bucket.count)
        (invalid_result "latency histogram count overflowed u64")
  count_buckets (some bucket.upper_bound_ms) count' buckets

unfoldable pub validate_latency_buckets : List LatencyBucket → ℕ → Check
validate_latency_buckets buckets expected_total = do
  fail_if (ltb max_contract_histogram_buckets (length buckets)) (
      invalid_result (
        "latency histogram has "
        <> decimal (length buckets)
        <> " buckets; maximum is "
        <> decimal max_contract_histogram_buckets))
  if is_empty buckets then ok tt else (do
    count ← count_buckets none 0 buckets
    fail_if (not (count == expected_total)) (
        invalid_result (
          "latency histogram count "
          <> decimal count
          <> " does not equal total "
          <> decimal expected_total)))

-- The loop over `error_breakdown`: the kinds seen so far and the sum of their counts.
unfoldable pub sum_errors : List String → ℕ → List ErrorCount → Result ContractError ℕ
sum_errors seen error_total [] = ok error_total
sum_errors seen error_total (error ∷ errors) = do
  require_non_empty "error_breakdown.kind" error.kind
  fail_if (ltb max_contract_error_kind_bytes (byte_len error.kind))
      (invalid_result ("error kind exceeds " <> decimal max_contract_error_kind_bytes <> " bytes"))
  fail_if (has_text error.kind seen)
      (invalid_result ("duplicate error kind '" <> error.kind <> "'"))
  error_total' ←
      ok_or (checked_add error_total error.count) (invalid_result "error counts overflowed u64")
  sum_errors (error.kind ∷ seen) error_total' errors

-- The loop over the named values that must stay in the exact integer range.
unfoldable pub check_exact : List (String × ℕ) → Check
check_exact [] = ok tt
check_exact ((field, value) ∷ fields) = do
  fail_if (ltb max_contract_exact_integer value)
      (invalid_result (field <> " exceeds the exact aggregation integer range"))
  check_exact fields

-- `latency_histogram.iter().any(|bucket| bucket.count > MAX_CONTRACT_EXACT_INTEGER)`
unfoldable pub any_above_exact : List LatencyBucket → Bool
any_above_exact [] = false
any_above_exact (bucket ∷ buckets) =
    ltb max_contract_exact_integer bucket.count || any_above_exact buckets

-- From `validate_contract_version` to the checks of version 2 on the event and the histogram.
unfoldable pub validate_identity : ScenarioRunResult → Check
validate_identity result = do
  validate_contract_version result.schema_version
  require_non_empty "scenario_id" result.scenario_id
  require_non_empty "run_id" result.run_id
  require_non_empty "execution_key" result.execution_key
  validate_identity_lengths (
      ("scenario_id", result.scenario_id)
      ∷ ("run_id", result.run_id)
      ∷ ("execution_key", result.execution_key)
      ∷ [])
  validate_slice result.slice
  fail_if (ltb max_contract_attempt result.attempt) (
      invalid_result (
        "attempt "
        <> decimal result.attempt
        <> " exceeds maximum "
        <> decimal max_contract_attempt))

unfoldable pub validate_event : ScenarioRunResult → Check
validate_event result =
    if leb 2 result.schema_version
    then (do
      require_non_empty "event_id" result.event_id
      fail_if (ltb max_contract_id_bytes (byte_len result.event_id))
          (invalid_result ("event_id exceeds " <> decimal max_contract_id_bytes <> " bytes"))
      fail_if
          (not (
            str_eq result.event_id
              (build_terminal_event_id result.execution_key result.attempt "result")))
          (invalid_result "event_id is not the deterministic result identity")
      fail_if (ltb 0 result.total && is_empty result.latency_histogram) (
          invalid_result
            "version 2 results with observations require a mergeable latency histogram"))
    else ok tt

-- The sum of the outcomes.
unfoldable pub validate_outcomes : ScenarioRunResult → Check
validate_outcomes result = do
  outcome_total ←
      ok_or (checked_add result.success result.failure)
        (invalid_result "success + failure overflowed u64")
  fail_if (not (outcome_total == result.total))
      (invalid_result "success + failure must equal total")

-- The relation of the error counts to the failures, by version.
unfoldable pub validate_error_total : ScenarioRunResult → ℕ → Check
validate_error_total result error_total =
    if leb 2 result.schema_version
    then (do
      check_exact (
          ("total", result.total)
          ∷ ("success", result.success)
          ∷ ("failure", result.failure)
          ∷ ("error count", error_total)
          ∷ [])
      fail_if (not (error_total == result.failure)) (
          invalid_result (
            "error count total "
            <> decimal error_total
            <> " does not equal failure count "
            <> decimal result.failure))
      fail_if (any_above_exact result.latency_histogram)
          (invalid_result "latency bucket count exceeds the exact aggregation integer range"))
    else fail_if (ltb result.failure error_total) (
        invalid_result (
          "error count total "
          <> decimal error_total
          <> " exceeds failure count "
          <> decimal result.failure))

unfoldable pub validate_errors : ScenarioRunResult → Check
validate_errors result = do
  fail_if (ltb max_contract_error_kinds (length result.error_breakdown)) (
      invalid_result (
        "error breakdown has "
        <> decimal (length result.error_breakdown)
        <> " kinds; maximum is "
        <> decimal max_contract_error_kinds))
  error_total ← sum_errors [] 0 result.error_breakdown
  validate_error_total result error_total

unfoldable pub validate : ScenarioRunResult → Check
validate result = do
  validate_identity result
  validate_event result
  validate_outcomes result
  validate_errors result
  fail_if (ltb result.finished_at_unix_ms result.started_at_unix_ms)
      (invalid_result "finished timestamp precedes started timestamp")
  validate_latency_buckets result.latency_histogram result.total
