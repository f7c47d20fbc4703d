-- ===== src/Worker/Refusal.antt =====
-- Why `process_once` of src/application/service.rs refuses a job: its checks before the claim.
use pulse.Prelude.{
  ℕ, String, List, Bool, not, ◌||◌, ◌&&◌, ltb, ◌==◌, ◌<>◌, decimal, if◌then◌else◌, Option, none,
  some, Result, ok, err, as_millis, str_eq, lookup,
}
use pulse.Domain.Error.{ContractError, contract_message}
use pulse.Domain.Contracts.{JobLoadConfig, ScenarioJob}
use pulse.Domain.Job.{validate_limits}
use pulse.Planning.Slices.{PlanOps, slice_load}
use pulse.Planning.Text.{scenario_plan_fingerprint}
use pulse.Planning.Delays.{deferred_job_delay}
use pulse.Worker.Types.{NodeRuntimeConfig, ScenarioExecutionPlan}

module _ {R Step : Type 0} (ops : PlanOps R Step) (config : NodeRuntimeConfig R) where
  unfoldable pub execution_plan_fingerprint : ScenarioExecutionPlan R Step → ℕ → ℕ → ℕ → String
  execution_plan_fingerprint plan slices global_startup_burst worker_max_retries =
      scenario_plan_fingerprint ops plan.scenario slices global_startup_burst worker_max_retries
        plan.execution_semantics_fingerprint

  abbrev pub load_differs : JobLoadConfig R → JobLoadConfig R → Bool
  load_differs load expected =
      not (ops.to_bits load.scenarios_per_sec == ops.to_bits expected.scenarios_per_sec)
      || not (load.duration == expected.duration)
      || not (load.max_concurrency == expected.max_concurrency)
      || not (load.startup_burst == expected.startup_burst)

  abbrev pub load_text : JobLoadConfig R → String
  load_text load =
      "rate="
      <> ops.rates.show_rate load.scenarios_per_sec
      <> " duration_ms="
      <> decimal (as_millis load.duration)
      <> " concurrency="
      <> decimal load.max_concurrency
      <> " startup_burst="
      <> decimal load.startup_burst

  -- The comparison of a job of contract version 2 with the local plan of its scenario.
  unfoldable pub plan_mismatch :
      ScenarioJob R → Option (ScenarioExecutionPlan R Step) → Option String
  unfolding execution_plan_fingerprint
  plan_mismatch job none = none
  plan_mismatch job (some plan) =
      let expected_load =
        slice_load ops plan.scenario job.slice.total job.slice.index config.startup_burst in
      let expected_fingerprint =
        execution_plan_fingerprint plan job.slice.total config.startup_burst
          config.worker_max_retries in
      if load_differs job.load expected_load
      then some (
          "job load does not match deterministic local slice plan: expected "
          <> load_text expected_load
          <> ", found "
          <> load_text job.load)
      else if not (str_eq job.plan_fingerprint expected_fingerprint)
      then some (
          "job plan fingerprint '" <> job.plan_fingerprint <> "' does not match local plan '"
          <> expected_fingerprint <> "'")
      else none

  unfoldable pub deterministic_job_plan_error :
      ScenarioJob R → List (String × ScenarioExecutionPlan R Step) → Option String
  unfolding plan_mismatch
  deterministic_job_plan_error job plans =
      if ltb config.worker_max_retries job.max_retries
      then some (
          "job max_retries "
          <> decimal job.max_retries
          <> " exceeds configured worker ceiling "
          <> decimal config.worker_max_retries)
      else if ltb job.schema_version 2
      then none
      else plan_mismatch job (lookup job.scenario_id plans)

  -- The checks after those of the plan: the deferral of a retry, and a load that starts nothing.
  abbrev pub load_error : ScenarioJob R → ℕ → Option String
  load_error job now_unix_ms =
      if ltb config.worker_retry_max_delay (deferred_job_delay job now_unix_ms)
      then some (
          "invalid retry deferral: remaining not-before delay "
          <> decimal (as_millis (deferred_job_delay job now_unix_ms))
          <> " ms exceeds configured maximum "
          <> decimal (as_millis config.worker_retry_max_delay)
          <> " ms")
      else if (job.load.startup_burst == 0)
          && ops.starts_nothing job.load.scenarios_per_sec job.load.duration
      then some
          "invalid load plan: no paced scenario can start inside this window without an explicit startup burst"
      else none

  abbrev pub or_else : {A : Type 0} → Option A → Option A → Option A
  or_else (some a) other = some a
  or_else none other = other

  abbrev pub limit_error : Result ContractError (Unit {0}) → Option String
  limit_error (ok _) = none
  limit_error (err e) = some ("invalid job contract: " <> contract_message e)

  -- Why a job is dead-lettered before it is claimed: the first of the checks of `process_once` that
  -- fails.
  unfoldable pub refusal :
      ScenarioJob R → List (String × ScenarioExecutionPlan R Step) → ℕ → Option String
  unfolding deterministic_job_plan_error
  refusal job plans now_unix_ms =
      or_else
        (limit_error (
          validate_limits ops.rates job config.max_job_duration config.max_scenarios_per_sec
            config.max_concurrency))
        (or_else (deterministic_job_plan_error job plans) (load_error job now_unix_ms))
