-- ===== src/Tests/Replays.antt =====
-- A replay of the failed_record job of a scenario that the worker knows.
use pulse.Prelude.{
  is_blank, byte_len, false, ◌≤◌, ℕ, ◌≡◌, refl, arith, String, true, none, some, Result, ok, lookup,
}
use pulse.Domain.Contracts.{ScenarioJob, FailedScenarioJob}
use pulse.Worker.Reports.{failed_job}
use pulse.Worker.Refusal.{deterministic_job_plan_error}
use pulse.Coordination.Types.{DispatchWindow}
use pulse.Scheduler.Dispatch.{dispatch_spec, dispatch_job}
use pulse.Replay.Build.{ReplaySource, ReplayOptions, replay_run_id, replay_job, build_replay_job}
use pulse.Replay.Agreement.{dispatch_job-agrees, build_replay_job-agrees}
use pulse.Domain.Contracts.{build_terminal_event_id, max_contract_id_bytes}
use pulse.Domain.Job.Valid.{ValidJob, validate_job_iff}
use pulse.Replay.Records.{validate_failed_job}
use pulse.Replay.RoundTrip.{validate_failed_job-failed_job}
use pulse.Tests.Jobs.{rates, job}
use pulse.Tests.Workers.{ops, config, plan, plans}
use pulse.Tests.Schedulers.{window}

abbrev spec_window : DispatchWindow
spec_window = record window {
  total_slices = (dispatch_spec ops config "checkout" plan).total_slices;
  plan_fingerprint = (dispatch_spec ops config "checkout" plan).plan_fingerprint;
}

dispatch_job-agrees_example :
    deterministic_job_plan_error ops config
      (dispatch_job ops config "checkout" plan spec_window 0 "v2:checkout:0:slice-0-of-1")
      plans
    ≡ none
dispatch_job-agrees_example =
    dispatch_job-agrees ops config "checkout" plan spec_window 0 "v2:checkout:0:slice-0-of-1" plans
      (unfold lookup in refl) refl refl

abbrev failed_record : FailedScenarioJob
failed_record = failed_job job "unknown scenario" 1000

abbrev source : ReplaySource
source = record { topic = "dlq"; partition = 0; offset = 3 }

abbrev options : ReplayOptions
options = record {
  scale_is_one = true;
  worker_max_retries = 3;
  execution_semantics_fingerprint = "fnv128:0";
}

abbrev encode : String → String
encode topic = topic

abbrev replayed : ScenarioJob ℕ
replayed =
    replay_job ops encode failed_record plan.scenario 2 options
      (replay_run_id encode failed_record source)

build_replay_job-agrees_example :
    (deterministic_job_plan_error ops config replayed plans ≡ none)
    × (replayed.slice.total ≡ 1)
    × (replayed.slice.index ≡ 0)
    × (replayed.attempt ≡ 0)
    × (replayed.run_id ≡ replay_run_id encode failed_record source)
unfolding pulse.Prelude.decimal pulse.Planning.Text.hex pulse.Planning.Text.hex_digit
    pulse.Planning.Text.fnv1a_128 pulse.Planning.Text.fnv_fold pulse.Planning.Text.as_bytes
    failed_job pulse.Domain.Contracts.build_terminal_event_id pulse.Planning.Text.utf8
build_replay_job-agrees_example =
    build_replay_job-agrees ops config encode failed_record source plan options plans replayed
      (unfold lookup failed_job in refl) refl refl refl (unfold build_replay_job in refl)

job_valid : ValidJob rates job
unfolding pulse.Domain.Job.validate pulse.Domain.Job.validate_identity
    pulse.Domain.Checks.validate_contract_version pulse.Domain.Checks.require_non_empty is_blank
    pulse.Domain.Checks.validate_identity_lengths pulse.Domain.Checks.validate_slice
    pulse.Domain.Job.validate_load pulse.Domain.Job.validate_attempt
job_valid = (validate_job_iff rates job).0 refl

event_bounded :
    byte_len (build_terminal_event_id job.execution_key job.attempt "dlq") ≤ max_contract_id_bytes
unfolding build_terminal_event_id pulse.Prelude.decimal
event_bounded = omega arith

reason_given : is_blank "unknown scenario" ≡ false
unfolding is_blank
reason_given = refl

validate_failed_job-failed_job_example :
    validate_failed_job (failed_job job "unknown scenario" 1000) ≡ ok tt
validate_failed_job-failed_job_example =
    validate_failed_job-failed_job job "unknown scenario" 1000 job_valid.identity job_valid.attempts
      reason_given event_bounded
