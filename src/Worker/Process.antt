-- ===== src/Worker/Process.antt =====
-- `process_once` and `process_until_terminal` of src/application/service.rs.
use pulse.Prelude.{
  ℕ, zero, suc, ◌-◌, String, List, Bool, true, false, leb, if◌then◌else◌, Option, none, some, min,
  Result, ok, err, Duration, is_zero, lookup,
}
use pulse.Domain.Error.{ContractError, contract_message}
use pulse.Domain.Contracts.{ScenarioJob, PoisonMessageRecord}
use pulse.Coordination.Types.{
  CoordinationError, ExecutionClaim, ClaimOutcome, lease_acquired, already_completed, busy,
}
use pulse.Planning.Slices.{PlanOps}
use pulse.Planning.Delays.{deferred_job_delay}
use pulse.Worker.Types.{
  JobDisposition, result_published, retry_published, dead_letter_published, duplicate_completed,
  execution_lease_busy, retry_later, NodeRuntimeConfig, ScenarioExecutionPlan, JobRecord,
}
use pulse.Worker.Ports.{
  found_completed, Ports, Run, done, panicked, dropped, ◌>>=◌, return, halt, call, wait, at_now,
  note,
}
use pulse.Worker.Publish.{
  publish_failed_with_retry, publish_poison_with_retry, lease_response_has_safe_budget,
}
use pulse.Worker.Execute.{execute_with_lease}
use pulse.Worker.Reports.{failed_job}
use pulse.Worker.Refusal.{refusal}

module _ {R Step : Type 0} (ops : PlanOps R Step) (config : NodeRuntimeConfig R) {W : Type 0}
    (ports : Ports R Step W) (plans : List (String × ScenarioExecutionPlan R Step)) where
  -- A dead letter that needs no lease.
  abbrev pub dead_lettered : Result String (Unit {0}) → Run R W JobDisposition
  dead_lettered (ok _) = return dead_letter_published
  dead_lettered (err e) = return retry_later

  -- What follows the reply to a claim that was made at `claim_started`.
  unfoldable pub claimed :
      ScenarioJob R
      → ExecutionClaim
      → ℕ
      → Result CoordinationError ClaimOutcome
      → Run R W JobDisposition
  claimed job attempted claim_started (err e) = return retry_later
  claimed job attempted claim_started (ok (already_completed completed)) =
      λ s. (note (found_completed attempted completed) s, done duplicate_completed)
  claimed job attempted claim_started (ok (busy retry_after)) =
      return (execution_lease_busy retry_after)
  claimed job attempted claim_started (ok (lease_acquired lease)) = λ s.
      if lease_response_has_safe_budget claim_started lease.ttl config.execution_renew_interval
        (ports.instant s.world)
      then execute_with_lease ports config job (lookup job.scenario_id plans) lease s
      else (s, done retry_later)

  unfoldable pub claim_and_execute : ScenarioJob R → Run R W JobDisposition
  unfolding claimed
  claim_and_execute job s =
      let attempted : ExecutionClaim = record {
        execution_key = job.execution_key;
        attempt = job.attempt;
      } in
      (call ports false (ports.claim attempted) >>= claimed job attempted (ports.instant s.world)) s

  -- A job, after the checks.
  unfoldable pub admitted : ScenarioJob R → ℕ → Option String → Run R W JobDisposition
  unfolding claim_and_execute
  admitted job now none = claim_and_execute job
  admitted job now (some reason) =
      publish_failed_with_retry ports config (failed_job job reason now) >>= dead_lettered

  unfoldable pub process_job :
      (String → PoisonMessageRecord) → Result ContractError (ScenarioJob R) → Run R W JobDisposition
  unfolding admitted refusal
  process_job poison_record (err e) =
      publish_poison_with_retry ports config (poison_record (contract_message e)) >>= dead_lettered
  process_job poison_record (ok job) =
      at_now ports λ now. admitted job now (refusal ops config job plans now)

  unfoldable pub process_once : JobRecord R → Run R W JobDisposition
  unfolding process_job
  process_once received = process_job received.poison_record received.job

  -- Whether the node shut down while this waited; a shutdown within the time wins.
  unfoldable pub wait_or_shutdown : Duration → Run R W Bool
  wait_or_shutdown duration s =
      if ports.shutdown_requested s.world
      then (s, done true)
      else (wait ports false duration >>= λ _ t. (t, done (ports.shutdown_requested t.world))) s

  -- The wait before a busy lease is looked at again.
  abbrev pub recheck_delay : Duration → Duration
  recheck_delay retry_after =
      if is_zero retry_after
      then config.worker_retry_base_delay
      else min retry_after config.worker_retry_max_delay

  -- What follows a wait, unless the node shut down.
  abbrev pub unless_stopped :
      Run R W (Option JobDisposition) → Bool → Run R W (Option JobDisposition)
  unless_stopped rest true = return none
  unless_stopped rest false = rest

  -- What follows one `process_once`. `budget` is what the waits may still use of
  -- `max_processing_interval`: the timeout around the loop fires in a wait that is longer.
  unfoldable pub after_once :
      Duration
      → (Duration → Run R W (Option JobDisposition))
      → JobDisposition
      → Run R W (Option JobDisposition)
  unfolding wait_or_shutdown
  after_once budget rest (execution_lease_busy retry_after) =
      if leb budget (recheck_delay retry_after)
      then halt dropped
      else wait_or_shutdown (recheck_delay retry_after)
        >>= unless_stopped (rest (budget - recheck_delay retry_after))
  after_once budget rest retry_later = return none
  after_once budget rest result_published = return (some result_published)
  after_once budget rest retry_published = return (some retry_published)
  after_once budget rest dead_letter_published = return (some dead_letter_published)
  after_once budget rest duplicate_completed = return (some duplicate_completed)

  -- The loop of `process_until_terminal`, on fuel.
  unfoldable pub until_terminal : ℕ → Duration → JobRecord R → Run R W (Option JobDisposition)
  unfolding process_once after_once
  until_terminal zero budget received = halt panicked
  until_terminal (suc n) budget received =
      process_once received >>= after_once budget (λ left. until_terminal n left received)

  -- How long a deferred job waits before it is claimed, where that is not too long.
  abbrev pub initial_delay : Result ContractError (ScenarioJob R) → ℕ → Duration
  initial_delay (err e) now = 0
  initial_delay (ok job) now =
      let delay = deferred_job_delay job now in
      if leb delay config.worker_retry_max_delay then delay else 0

  unfoldable pub process_until_terminal : JobRecord R → Run R W (Option JobDisposition)
  unfolding until_terminal wait_or_shutdown
  process_until_terminal received = at_now ports λ now.
      let delay = initial_delay received.job now in
      let rest =
        until_terminal (suc config.max_processing_interval) config.max_processing_interval
          received in
      if is_zero delay then rest else wait_or_shutdown delay >>= unless_stopped rest
