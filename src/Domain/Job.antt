-- ===== src/Domain/Job.antt =====
-- `ScenarioJob::validate` and `ScenarioJob::validate_limits` of src/domain/contracts.rs.
pub mod Valid
use pulse.Prelude.{
  ℕ, [], ◌∷◌, Bool, not, ◌&&◌, ◌||◌, ltb, leb, ◌==◌, ◌<>◌, decimal, if◌then◌else◌, Duration,
  is_zero, ok, ◌>>◌, fail_if,
}
use pulse.Domain.Error.{invalid_load, invalid_attempt, safety_limit}
use pulse.Domain.Rate.{RateOps}
use pulse.Domain.Contracts.{max_contract_attempt, ScenarioJob}
use pulse.Domain.Checks.{
  Check, validate_contract_version, validate_slice, require_non_empty, validate_identity_lengths,
}

module _ {R : Type 0} (ops : RateOps R) where
  open ops use {zero_rate, is_finite, rate_le, rate_gt, show_rate, show_duration}

  -- From `validate_contract_version` to `validate_slice`.
  unfoldable pub validate_identity : ScenarioJob R → Check
  validate_identity job = do
    validate_contract_version job.schema_version
    require_non_empty "scenario_id" job.scenario_id
    require_non_empty "run_id" job.run_id
    require_non_empty "execution_key" job.execution_key
    if leb 2 job.schema_version
        then require_non_empty "plan_fingerprint" job.plan_fingerprint
        else ok tt
    validate_identity_lengths (
        ("scenario_id", job.scenario_id)
        ∷ ("run_id", job.run_id)
        ∷ ("execution_key", job.execution_key)
        ∷ ("plan_fingerprint", job.plan_fingerprint)
        ∷ [])
    validate_slice job.slice

  -- The checks of `job.load`.
  unfoldable pub validate_load : ScenarioJob R → Check
  validate_load job = do
    fail_if
        (not (is_finite job.load.scenarios_per_sec) || rate_le job.load.scenarios_per_sec zero_rate)
        (invalid_load "scenarios_per_sec must be finite and > 0")
    fail_if (is_zero job.load.duration) (invalid_load "duration must be greater than zero")
    fail_if (job.load.max_concurrency == 0)
        (invalid_load "max_concurrency must be greater than zero")
    fail_if (ltb job.load.max_concurrency job.load.startup_burst) (
        invalid_load (
          "startup_burst "
          <> decimal job.load.startup_burst
          <> " exceeds slice max_concurrency "
          <> decimal job.load.max_concurrency))

  -- The checks of `attempt`, `max_retries` and `not_before_unix_ms`.
  unfoldable pub validate_attempt : ScenarioJob R → Check
  validate_attempt job = do
    fail_if (ltb job.max_retries job.attempt) (invalid_attempt job.attempt job.max_retries)
    fail_if (ltb max_contract_attempt job.max_retries) (invalid_attempt job.attempt job.max_retries)
    fail_if (leb 2 job.schema_version && ltb 0 job.attempt && job.not_before_unix_ms == 0)
        (invalid_attempt job.attempt job.max_retries)

  unfoldable pub validate : ScenarioJob R → Check
  validate job = do validate_identity job; validate_load job; validate_attempt job

  unfoldable pub validate_limits : ScenarioJob R → Duration → R → ℕ → Check
  validate_limits job max_duration max_rate max_concurrency = do
    validate job
    fail_if (ltb max_duration job.load.duration) (
        safety_limit (
          "duration "
          <> show_duration job.load.duration
          <> " exceeds maximum "
          <> show_duration max_duration))
    fail_if (rate_gt job.load.scenarios_per_sec max_rate) (
        safety_limit (
          "rate "
          <> show_rate job.load.scenarios_per_sec
          <> " exceeds maximum "
          <> show_rate max_rate))
    fail_if (ltb max_concurrency job.load.max_concurrency) (
        safety_limit (
          "concurrency "
          <> decimal job.load.max_concurrency
          <> " exceeds maximum "
          <> decimal max_concurrency))
