-- ===== src/Worker/Types.antt =====
-- The values of the worker in src/application/service.rs, and of src/application/runner.rs what it
-- reads of a finished run.
use pulse.Prelude.{ℕ, String, List, Option, Duration, Result}
use pulse.Domain.Error.{ContractError}
use pulse.Domain.Contracts.{ScenarioJob, PoisonMessageRecord, LatencyBucket}
use pulse.Domain.Scenario.{Scenario}

pub data JobDisposition : Type 0 where
  result_published retry_published dead_letter_published duplicate_completed : JobDisposition
  execution_lease_busy : Duration → JobDisposition
  retry_later : JobDisposition

-- The fields that the worker reads.
pub record NodeRuntimeConfig (R : Type 0) : Type 0 where
  pub worker_max_retries : ℕ
  pub worker_retry_base_delay : Duration
  pub worker_retry_max_delay : Duration
  pub execution_renew_interval : Duration
  pub max_processing_interval : Duration
  pub max_job_duration : Duration
  pub max_scenarios_per_sec : R
  pub max_concurrency : ℕ
  pub scenario_timeout : Option Duration
  pub startup_burst : ℕ

-- The ports of a plan are in the world that runs it.
pub record ScenarioExecutionPlan (R Step : Type 0) : Type 0 where
  pub scenario : Scenario R Step
  pub execution_semantics_fingerprint : String

-- What `PulseRunner::run_once` measured of the job's scenario.
pub record ScenarioMetrics : Type 0 where
  pub success : ℕ
  pub failure : ℕ
  pub latency_p50_ms : ℕ
  pub latency_p95_ms : ℕ
  pub latency_p99_ms : ℕ
  pub latency_buckets : List LatencyBucket

pub record RunReport : Type 0 where
  pub started : ℕ
  pub finished : ℕ
  pub error_counts : List (String × ℕ)
  pub scenario_metrics : List (String × ScenarioMetrics)

-- A record of the job topic: its offset, its decoded job, and the poison record that it makes.
pub record JobRecord (R : Type 0) : Type 0 where
  pub offset : ℕ
  pub job : Result ContractError (ScenarioJob R)
  pub poison_record : String → PoisonMessageRecord
