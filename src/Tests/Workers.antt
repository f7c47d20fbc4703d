-- ===== src/Tests/Workers.antt =====
-- A worker in a world that only counts time, with the plan of one scenario.
use pulse.Prelude.{
  ℕ, ◌+◌, ◌*◌, ◌/◌, ◌≡◌, ◌≤◌, arith, refl, String, List, [], ◌∷◌, ◌++◌, false, ltb, none, ok, err,
  min, max, length, sum, All, map, byte_len, is_blank, lookup,
}
use pulse.Domain.Error.{missing_field}
use pulse.Domain.Contracts.{
  ScenarioJob, by_execution_key, PoisonMessageRecord, max_contract_id_bytes,
}
use pulse.Domain.Scenario.{once}
use pulse.Coordination.Types.{lease_acquired, released}
use pulse.Planning.Slices.{PlanOps, calculate_slices, planned_slice_loads}
use pulse.Planning.Delays.{retry_delay, retry_delay_bounds}
use pulse.Planning.Text.{bounded_failure_reason}
use pulse.Planning.Reasons.{bounded_failure_reason_bounds}
use pulse.Planning.Shares.{Usable, planned_slice_loads-sum}
use pulse.Worker.Types.{NodeRuntimeConfig, ScenarioExecutionPlan, JobRecord}
use pulse.Worker.Ports.{Ports, running, State, done}
use pulse.Worker.Log.{commit_points, runs}
use pulse.Worker.Works.{Works, offsets, offsets_of, rev_onto}
use pulse.Worker.Loop.{worker_loop}
use pulse.Worker.Safety.{worker_loop-Works, worker_loop_commits}
use pulse.Worker.Process
use pulse.Worker.Publish.{
  lease_response_has_safe_budget, conservative_lease_deadline, publish_result_with_retry,
  with_retry, local_settlement_attempt_limit, checked_round, complete_until_acknowledged,
}
use pulse.Worker.Execute.{execute_with_lease}
use pulse.Worker.Reports.{error_count, permanent_failures, run_result, no_metrics}
use pulse.Planning.Delays.{deferred_job_delay}
use pulse.Domain.Job.{validate_limits, validate, validate_identity, validate_load, validate_attempt}
use pulse.Domain.Checks.{
  validate_contract_version, require_non_empty, validate_identity_lengths, validate_slice,
}
use pulse.Tests.Jobs.{rates, job}

abbrev pub ops : PlanOps ℕ ℕ
ops = record {
  rates = rates;
  share = λ rate slices. rate / slices;
  slices_by_rate = λ rate. max (rate / 50) 1;
  slices_by_concurrency = λ c. (c + 24) / 25;
  expected_start_cap = λ rate duration. max (rate * duration / 1000000000) 1;
  starts_nothing = λ rate duration. ltb (rate * duration) 1000000000;
  to_bits = λ rate. rate;
  fingerprint_material = λ step. "step";
}

abbrev pub plan : ScenarioExecutionPlan ℕ ℕ
plan = record {
  scenario = record {
    name = "checkout";
    steps = 1 ∷ [];
    config = record {
      endpoint = "http://target";
      scenarios_per_sec = 10;
      max_concurrency = 20;
      duration = 60000000000;
      repeat = once;
      partition_key_strategy = by_execution_key;
    };
  };
  execution_semantics_fingerprint = "fnv128:0";
}

abbrev pub config : NodeRuntimeConfig ℕ
config = record {
  worker_max_retries = 3;
  worker_retry_base_delay = 100000000;
  worker_retry_max_delay = 5000000000;
  execution_renew_interval = 10000000000;
  max_processing_interval = 300000000000;
  max_job_duration = 60000000000;
  max_scenarios_per_sec = 100;
  max_concurrency = 100;
  scenario_timeout = none;
  startup_burst = 2;
}

-- Every operation succeeds and takes one nanosecond; a renewal keeps the lease.
abbrev ports : Ports ℕ ℕ ℕ
ports = record {
  interrupted = λ w. running;
  shutdown_requested = λ w. false;
  now_unix_ms = λ w. 1000;
  instant = λ w. w;
  sleep = λ d w. w + d;
  publish_job = λ key next w. (w + 1, ok tt);
  publish_result = λ result w. (w + 1, ok tt);
  publish_failed_job = λ key failed w. (w + 1, ok tt);
  publish_poison = λ poison w. (w + 1, ok tt);
  claim = λ claim w. (
    w + 1,
    ok (
        lease_acquired (record {
          execution_key = claim.execution_key;
          attempt = claim.attempt;
          owner_token = "owner";
          expires_at_unix_ms = 0;
          ttl = 30000000000;
          recovered = false;
        })),
  );
  renew = λ lease w. (w + 1, ok lease);
  complete =
      λ lease outcome w. (w + 1, ok (record { outcome = outcome; completed_at_unix_ms = 1000 }));
  release = λ lease w. (w + 1, ok released);
  run_once = λ plan load w.
      (w + 1, record { started = 1; finished = 1; error_counts = []; scenario_metrics = [] });
  commit = λ offset w. (w + 1, ok tt);
}

abbrev pub poison : String → PoisonMessageRecord
poison reason = record {
  schema_version = 2;
  event_id = "poison:jobs:0:7";
  failed_at_unix_ms = 1000;
  source_topic = "jobs";
  source_partition = 0;
  source_offset = 7;
  source_key_base64 = none;
  source_key_original_bytes = none;
  source_key_truncated = false;
  payload_base64 = none;
  payload_original_bytes = none;
  payload_truncated = false;
  reason = reason;
}

abbrev old_job : ScenarioJob ℕ
old_job = record job { schema_version = 1 }

-- A record that does not decode, and a job of the first contract version.
abbrev records : List (JobRecord ℕ)
records =
    record { offset = 7; job = err (missing_field "run_id"); poison_record = poison }
    ∷ record { offset = 8; job = ok old_job; poison_record = poison }
    ∷ []

abbrev pub plans : List (String × ScenarioExecutionPlan ℕ ℕ)
plans = ("checkout", plan) ∷ []

abbrev start : State ℕ ℕ
start = record { world = 0; log = [] }

worker_loop-Works_example :
    Works records start.log (worker_loop ops config ports plans records start).0.log
    × ((worker_loop ops config ports plans records start).1 ≡ done tt)
worker_loop-Works_example =
    worker_loop-Works ops config ports plans (omega arith) (omega arith) records start

worker_loop_commits_example :
    ((handled : List (JobRecord ℕ)) × (rest : List (JobRecord ℕ)) × (records ≡ handled ++ rest)
      × (offsets (worker_loop ops config ports plans records start).0.log
          ≡ rev_onto (offsets_of handled) []))
    × (runs (worker_loop ops config ports plans records start).0.log
        ≤ 1 + length (commit_points (worker_loop ops config ports plans records start).0.log))
worker_loop_commits_example =
    worker_loop_commits ops config ports plans (omega arith) (omega arith) records 0

retry_delay_bounds_example :
    (retry_delay 100000000 5000000000 2 "run:slice-0-of-2" ≤ 5000000000)
    × (min 100000000 5000000000 * 4 / 5 ≤ retry_delay 100000000 5000000000 2 "run:slice-0-of-2")
retry_delay_bounds_example =
    retry_delay_bounds 100000000 5000000000 2 "run:slice-0-of-2" (omega arith)

bounded_failure_reason_bounds_example :
    (byte_len (bounded_failure_reason "unknown scenario") ≤ max_contract_id_bytes)
    × (byte_len "unknown scenario" ≤ max_contract_id_bytes
        → bounded_failure_reason "unknown scenario" ≡ "unknown scenario")
bounded_failure_reason_bounds_example = bounded_failure_reason_bounds "unknown scenario"

-- What does not decode is committed after its poison record.
poison_commits :
    offsets
      (worker_loop ops config ports plans
        (record { offset = 7; job = err (missing_field "run_id"); poison_record = poison } ∷ [])
        start).0.log
    ≡ 7 ∷ []
unfolding commit_points worker_loop pulse.Worker.Process.process_until_terminal
    pulse.Worker.Publish.publish_poison_with_retry pulse.Worker.Publish.with_retry
    pulse.Worker.Publish.local_settlement_attempt_limit
poison_commits = refl

planned_slice_loads-sum_example :
    (sum (map (λ l. l.max_concurrency) (planned_slice_loads ops plan.scenario 2)) ≡ 20)
    × (sum (map (λ l. l.startup_burst) (planned_slice_loads ops plan.scenario 2)) ≡ 2)
    × (length (planned_slice_loads ops plan.scenario 2) ≡ calculate_slices ops 10 20 60000000000)
    × All (Usable ops) (planned_slice_loads ops plan.scenario 2)
planned_slice_loads-sum_example =
    planned_slice_loads-sum ops plan.scenario 2 (omega arith) (omega arith) (omega arith)

-- A job that is executed is committed.
job_commits :
    offsets
      (worker_loop ops config ports plans
        (record { offset = 8; job = ok old_job; poison_record = poison } ∷ [])
        start).0.log
    ≡ 8 ∷ []
unfolding commit_points worker_loop Process.process_until_terminal deferred_job_delay
    validate_limits validate validate_identity validate_contract_version require_non_empty is_blank
    validate_identity_lengths validate_slice validate_load validate_attempt
    lease_response_has_safe_budget conservative_lease_deadline execute_with_lease
    publish_result_with_retry with_retry local_settlement_attempt_limit checked_round
    complete_until_acknowledged error_count permanent_failures lookup run_result no_metrics
job_commits = refl
