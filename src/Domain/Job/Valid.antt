-- ===== src/Domain/Job/Valid.antt =====
-- Which jobs `ScenarioJob::validate` and `ScenarioJob::validate_limits` accept.
use pulse.Prelude.{ℕ, ◌≤◌, ◌<◌, ◌≡◌, ◌↔◌, false, true, arith, byte_len, is_blank, Duration, ok}
use pulse.Domain.Rate.{RateOps}
use pulse.Domain.Contracts.{JobSlice, ScenarioJob}
use pulse.Domain.Checks.{
  validate_contract_version, validate_slice, require_non_empty, validate_identity_lengths,
}
use pulse.Domain.Job.{validate, validate_identity, validate_load, validate_attempt, validate_limits}

pub record ValidSlice (slice : JobSlice) : Type 0 where
  pub in_range : slice.index < slice.total
  pub bounded : slice.total ≤ 4096

-- What a worker may rely on.
pub record ValidIdentity {R : Type 0} (job : ScenarioJob R) : Type 0 where
  pub known_version : (1 ≤ job.schema_version) × (job.schema_version ≤ 2)
  pub scenario_given : (is_blank job.scenario_id ≡ false) × (byte_len job.scenario_id ≤ 1024)
  pub run_given : (is_blank job.run_id ≡ false) × (byte_len job.run_id ≤ 1024)
  pub key_given : (is_blank job.execution_key ≡ false) × (byte_len job.execution_key ≤ 1024)
  pub plan_given : 2 ≤ job.schema_version → is_blank job.plan_fingerprint ≡ false
  pub plan_bounded : byte_len job.plan_fingerprint ≤ 1024
  pub slice_valid : ValidSlice job.slice

module _ {R : Type 0} (ops : RateOps R) where
  pub record ValidLoad (job : ScenarioJob R) : Type 0 where
    pub rate_finite : ops.is_finite job.load.scenarios_per_sec ≡ true
    pub rate_positive : ops.rate_le job.load.scenarios_per_sec ops.zero_rate ≡ false
    pub lasts : 0 < job.load.duration
    pub concurrent : 0 < job.load.max_concurrency
    pub burst_fits : job.load.startup_burst ≤ job.load.max_concurrency

pub record ValidAttempt {R : Type 0} (job : ScenarioJob R) : Type 0 where
  pub within_retries : job.attempt ≤ job.max_retries
  pub retries_bounded : job.max_retries ≤ 32
  pub retry_scheduled : 2 ≤ job.schema_version → 0 < job.attempt → 0 < job.not_before_unix_ms

module _ {R : Type 0} (ops : RateOps R) where
  pub validate_identity_sound :
      (job : ScenarioJob R) → validate_identity ops job ≡ ok tt → ValidIdentity job
  unfolding validate_identity validate_contract_version validate_slice require_non_empty
      validate_identity_lengths
  validate_identity_sound job h = ground arith

  pub validate_identity_complete :
      (job : ScenarioJob R) → ValidIdentity job → validate_identity ops job ≡ ok tt
  unfolding validate_identity validate_contract_version validate_slice require_non_empty
      validate_identity_lengths
  validate_identity_complete job h = ground arith

  pub validate_load_sound :
      (job : ScenarioJob R) → validate_load ops job ≡ ok tt → ValidLoad ops job
  unfolding validate_load
  validate_load_sound job h = ground arith

  pub validate_load_complete :
      (job : ScenarioJob R) → ValidLoad ops job → validate_load ops job ≡ ok tt
  unfolding validate_load
  validate_load_complete job h = ground arith

  pub validate_attempt_sound :
      (job : ScenarioJob R) → validate_attempt ops job ≡ ok tt → ValidAttempt job
  unfolding validate_attempt
  validate_attempt_sound job h = ground arith

  pub validate_attempt_complete :
      (job : ScenarioJob R) → ValidAttempt job → validate_attempt ops job ≡ ok tt
  unfolding validate_attempt
  validate_attempt_complete job h = ground arith

  -- All that `validate` asks for.
  pub record ValidJob (job : ScenarioJob R) : Type 0 where
    pub identity : ValidIdentity job
    pub load : ValidLoad ops job
    pub attempts : ValidAttempt job

  validate_sound : (job : ScenarioJob R) → validate ops job ≡ ok tt → ValidJob job
  unfolding validate
  validate_sound job h = record {
    identity = validate_identity_sound job (ground arith);
    load = validate_load_sound job (ground arith);
    attempts = validate_attempt_sound job (ground arith);
  }

  validate_complete : (job : ScenarioJob R) → ValidJob job → validate ops job ≡ ok tt
  unfolding validate
  validate_complete job v =
      rw (validate_identity_complete job v.identity, validate_load_complete job v.load)
        (validate_attempt_complete job v.attempts)

  -- `validate` accepts exactly the jobs with a known version, identities that are given and
  -- bounded, a slice in range, a finite positive rate, a positive duration and concurrency, a
  -- burst within the concurrency, and an attempt within the bounded retries that, from version 2
  -- on, carries its earliest start when it is a retry.
  pub validate_job_iff : (job : ScenarioJob R) → (validate ops job ≡ ok tt) ↔ ValidJob job
  validate_job_iff job = (validate_sound job, validate_complete job)

  -- What the worker's safety limits add.
  pub record WithinLimits (job : ScenarioJob R) (max_duration : Duration) (max_rate : R)
      (max_concurrency : ℕ) : Type 0 where
    pub valid : ValidJob job
    pub short : job.load.duration ≤ max_duration
    pub slow : ops.rate_gt job.load.scenarios_per_sec max_rate ≡ false
    pub narrow : job.load.max_concurrency ≤ max_concurrency

  -- `validate_limits` accepts exactly the valid jobs whose duration, rate and concurrency do not
  -- exceed the limits.
  pub validate_limits-ok_iff :
      (job : ScenarioJob R) (max_duration : Duration) (max_rate : R) (max_concurrency : ℕ)
      → (validate_limits ops job max_duration max_rate max_concurrency ≡ ok tt)
        ↔ WithinLimits job max_duration max_rate max_concurrency
  unfolding validate_limits
  validate_limits-ok_iff job max_duration max_rate max_concurrency = (
    λ h. record {
      valid = validate_sound job (ground arith);
      short = ground arith;
      slow = ground arith;
      narrow = ground arith;
    },
    λ w. rw (validate_complete job w.valid) (ground arith),
  )
