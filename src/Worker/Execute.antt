-- ===== src/Worker/Execute.antt =====
-- `execute_with_lease`, `execute_and_publish`, `settle_infrastructure_failure` and
-- `publish_and_complete_dlq` of src/application/service.rs. The renewal that runs beside the
-- settlement is the world's `lease_lost`.
use pulse.Prelude.{
  ℕ, String, true, false, ltb, leb, ◌<>◌, decimal, if◌then◌else◌, Option, none, some, Result, ok,
  err,
}
use pulse.Domain.Contracts.{ScenarioJob, key_for}
use pulse.Coordination.Types.{
  TerminalOutcome, result_published, retry_published, dead_letter_published, ExecutionLease,
}
use pulse.Planning.Delays.{retry_delay}
use pulse.Worker.Types
use pulse.Worker.Types.{
  JobDisposition, execution_lease_busy, retry_later, duplicate_completed, NodeRuntimeConfig,
  ScenarioExecutionPlan, ScenarioMetrics, RunReport,
}
use pulse.Worker.Ports.{
  ran, Ports, Run, Outcome, done, halted, dropped, lease_gone, panicked, State, ◌>>=◌, return, call,
  at_now, note,
}
use pulse.Worker.Publish.{
  publish_retry_with_retry, publish_result_with_retry, publish_leased_failed_with_retry,
  complete_until_acknowledged,
}
use pulse.Worker.Reports.{
  failed_job, error_count, permanent_failures, run_result, completion, next_attempt,
}

module _ {R Step W : Type 0} (ports : Ports R Step W) (config : NodeRuntimeConfig R) where
  -- After a publication: its error leaves the job, else the lease is completed.
  unfoldable pub settle :
      ExecutionLease → TerminalOutcome → Result String (Unit {0}) → Run R W JobDisposition
  settle lease outcome (err e) = return retry_later
  settle lease outcome (ok _) =
      complete_until_acknowledged ports config lease outcome >>= completion outcome

  unfoldable pub publish_and_complete_dlq :
      ScenarioJob R → ExecutionLease → String → Run R W JobDisposition
  unfolding settle
  publish_and_complete_dlq job lease reason = at_now ports λ now.
      publish_leased_failed_with_retry ports config (failed_job job reason now) lease
      >>= settle lease dead_letter_published

  abbrev pub retry_partition_key : Option (ScenarioExecutionPlan R Step) → ScenarioJob R → String
  retry_partition_key none retry_job = retry_job.execution_key
  retry_partition_key (some plan) retry_job =
      key_for plan.scenario.config.partition_key_strategy retry_job

  unfoldable pub settle_infrastructure_failure :
      ScenarioJob R
      → Option (ScenarioExecutionPlan R Step)
      → ExecutionLease
      → String
      → Run R W JobDisposition
  unfolding publish_and_complete_dlq settle next_attempt
  settle_infrastructure_failure job plan lease reason =
      if leb job.max_retries job.attempt
      then publish_and_complete_dlq job lease (
          "automatic retry attempts exhausted at attempt "
          <> decimal job.attempt
          <> "/"
          <> decimal job.max_retries
          <> ": "
          <> reason)
      else at_now ports λ now.
        let retry_job =
          next_attempt job
            (retry_delay config.worker_retry_base_delay config.worker_retry_max_delay job.attempt
              job.execution_key)
            now in
        publish_retry_with_retry ports config (retry_partition_key plan retry_job) retry_job lease
        >>= settle lease retry_published

  -- What follows the run of the scenario.
  unfoldable pub settle_report :
      ScenarioJob R
      → ScenarioExecutionPlan R Step
      → ExecutionLease
      → ℕ
      → RunReport
      → Run R W JobDisposition
  unfolding settle_infrastructure_failure publish_and_complete_dlq settle
  settle_report job plan lease started_at report = at_now ports λ finished_at.
      if ltb 0 (error_count "invariant_violation" report.error_counts)
      then return retry_later
      else if ltb 0 (error_count "pulse_infrastructure" report.error_counts)
      then settle_infrastructure_failure job (some plan) lease (
          "scenario attempt measured "
          <> decimal (error_count "pulse_infrastructure" report.error_counts)
          <> " transient Pulse infrastructure failure(s)")
      else if ltb 0 (permanent_failures report.error_counts)
      then publish_and_complete_dlq job lease (
          "scenario attempt measured "
          <> decimal (permanent_failures report.error_counts)
          <> " permanent Pulse processing failure(s)")
      else publish_result_with_retry ports config (run_result job report started_at finished_at)
          lease
        >>= settle lease result_published

  -- A run that starts is logged whether or not it ends.
  abbrev pub run_scenario : ScenarioJob R → ScenarioExecutionPlan R Step → Run R W RunReport
  run_scenario job plan s = call ports true (ports.run_once plan job.load) (note (ran job) s)

  unfoldable pub execute_and_publish :
      ScenarioJob R
      → Option (ScenarioExecutionPlan R Step)
      → ExecutionLease
      → Run R W JobDisposition
  unfolding settle_report publish_and_complete_dlq
  execute_and_publish job none lease = publish_and_complete_dlq job lease "unknown scenario"
  execute_and_publish job (some plan) lease =
      at_now ports λ started_at. run_scenario job plan >>= settle_report job plan lease started_at

  -- The branch of `select!` that the renewal wins.
  abbrev pub unless_lease_gone :
      State R W × Outcome JobDisposition → State R W × Outcome JobDisposition
  unless_lease_gone (s, done d) = (s, done d)
  unless_lease_gone (s, halted lease_gone) = (s, done retry_later)
  unless_lease_gone (s, halted dropped) = (s, halted dropped)
  unless_lease_gone (s, halted panicked) = (s, halted panicked)

  -- The lease of a job that stays unsettled is given back; an error of that is only logged.
  unfoldable pub release_unsettled : ExecutionLease → JobDisposition → Run R W JobDisposition
  release_unsettled lease retry_later =
      call ports false (ports.release lease) >>= λ _. return retry_later
  release_unsettled lease Types.result_published = return Types.result_published
  release_unsettled lease Types.retry_published = return Types.retry_published
  release_unsettled lease Types.dead_letter_published = return Types.dead_letter_published
  release_unsettled lease duplicate_completed = return duplicate_completed
  release_unsettled lease (execution_lease_busy d) = return (execution_lease_busy d)

  unfoldable pub execute_with_lease :
      ScenarioJob R
      → Option (ScenarioExecutionPlan R Step)
      → ExecutionLease
      → Run R W JobDisposition
  unfolding execute_and_publish release_unsettled
  execute_with_lease job plan lease =
      (λ s. unless_lease_gone (execute_and_publish job plan lease s)) >>= release_unsettled lease
