-- ===== src/Worker/Reports.antt =====
-- The messages that src/application/service.rs makes of a job and of the report of its run.
use Prim.Native.Nat.{Ordering}
use Prim.Native.String
use pulse.Prelude.{
  ℕ, ◌+◌, String, List, [], ◌∷◌, ◌++◌, ◌&&◌, ltb, ◌==◌, if◌then◌else◌, none, some, map, min, Result,
  ok, err, Duration, as_millis, u32_max, u64_max, wrapping_add, lookup,
}
use pulse.Domain.Contracts.{
  current_contract_version, ScenarioJob, build_terminal_event_id, success, failed, ErrorCount,
  ScenarioRunResult, FailedScenarioJob,
}
use pulse.Coordination.Types.{
  CoordinationError, TerminalOutcome, result_published, retry_published, dead_letter_published,
}
use pulse.Planning.Text.{bounded_failure_reason}
use pulse.Worker.Types
use pulse.Worker.Types.{
  JobDisposition, execution_lease_busy, retry_later, duplicate_completed, NodeRuntimeConfig,
  ScenarioExecutionPlan, ScenarioMetrics, RunReport,
}
use pulse.Worker.Ports.{Run, return}

unfoldable pub failed_job : {R : Type 0} → ScenarioJob R → String → ℕ → FailedScenarioJob
failed_job job reason now_unix_ms = record {
  schema_version = current_contract_version;
  event_id = build_terminal_event_id job.execution_key job.attempt "dlq";
  scenario_id = job.scenario_id;
  run_id = job.run_id;
  execution_key = job.execution_key;
  slice = job.slice;
  failed_at_unix_ms = now_unix_ms;
  attempt = job.attempt;
  max_retries = job.max_retries;
  reason = bounded_failure_reason reason;
}

-- error_counts.get(kind).copied().unwrap_or(0)
unfoldable pub error_count : String → List (String × ℕ) → ℕ
error_count kind counts = elim (lookup kind counts) [ none ↦ 0 | some count ↦ count ]

-- The sum on u64 over the three kinds that no retry can mend.
unfoldable pub permanent_failures : List (String × ℕ) → ℕ
permanent_failures counts =
    wrapping_add
      (wrapping_add (error_count "permanent_processing" counts)
        (error_count "invalid_scenario" counts))
      (error_count "missing_context_var" counts)

insert_by_kind : ErrorCount → List ErrorCount → List ErrorCount
insert_by_kind e [] = e ∷ []
insert_by_kind e (x ∷ xs) = elim (String.compare e.kind x.kind) [
  | Ordering.gt ↦ x ∷ insert_by_kind e xs
  | _ ↦ e ∷ x ∷ xs
]

-- error_breakdown.sort_by(|left, right| left.kind.cmp(&right.kind))
unfoldable pub sort_by_kind : List (String × ℕ) → List ErrorCount
unfolding insert_by_kind
sort_by_kind [] = []
sort_by_kind ((kind, count) ∷ counts) =
    insert_by_kind (record { kind = kind; count = count }) (sort_by_kind counts)

abbrev pub latency_bucket_bounds_ms : List ℕ
latency_bucket_bounds_ms =
    1 ∷ 2 ∷ 5 ∷ 10 ∷ 25 ∷ 50 ∷ 100 ∷ 250 ∷ 500 ∷ 1000 ∷ 2500 ∷ 5000 ∷ 10000 ∷ 30000 ∷ 60000 ∷ 120000
    ∷ []

-- MetricsBucket::new(), and its buckets: all are empty.
unfoldable pub no_metrics : ScenarioMetrics
no_metrics = record {
  success = 0;
  failure = 0;
  latency_p50_ms = 0;
  latency_p95_ms = 0;
  latency_p99_ms = 0;
  latency_buckets =
      map (λ bound. record { upper_bound_ms = bound; count = 0 }) latency_bucket_bounds_ms
      ++ (record { upper_bound_ms = u64_max; count = 0 } ∷ []);
}

abbrev pub metrics_of : String → RunReport → ScenarioMetrics
metrics_of scenario_id report = elim (lookup scenario_id report.scenario_metrics) [
  | none ↦ no_metrics
  | some metrics ↦ metrics
]

unfoldable pub run_result : {R : Type 0} → ScenarioJob R → RunReport → ℕ → ℕ → ScenarioRunResult
unfolding sort_by_kind
run_result job report started_at finished_at =
    let metrics = metrics_of job.scenario_id report in
    record {
      schema_version = current_contract_version;
      scenario_id = job.scenario_id;
      run_id = job.run_id;
      execution_key = job.execution_key;
      event_id = build_terminal_event_id job.execution_key job.attempt "result";
      attempt = job.attempt;
      slice = job.slice;
      started_at_unix_ms = started_at;
      finished_at_unix_ms = finished_at;
      status =
          if (report.started == report.finished) && (metrics.failure == 0) && ltb 0 report.finished
          then success
          else failed;
      total = report.finished;
      success = metrics.success;
      failure = metrics.failure;
      scenario_latency_p50_ms = metrics.latency_p50_ms;
      scenario_latency_p95_ms = metrics.latency_p95_ms;
      scenario_latency_p99_ms = metrics.latency_p99_ms;
      latency_histogram = metrics.latency_buckets;
      error_breakdown = sort_by_kind report.error_counts;
    }

abbrev pub disposition_of : TerminalOutcome → JobDisposition
disposition_of result_published = Types.result_published
disposition_of retry_published = Types.retry_published
disposition_of dead_letter_published = Types.dead_letter_published

abbrev pub completion :
    {R W : Type 0} → TerminalOutcome → Result CoordinationError (Unit {0}) → Run R W JobDisposition
completion outcome (ok _) = return (disposition_of outcome)
completion outcome (err e) = return retry_later

-- u128::MAX
abbrev pub u128_max : ℕ
u128_max = 340282366920938463463374607431768211455

unfoldable pub next_attempt : {R : Type 0} → ScenarioJob R → Duration → ℕ → ScenarioJob R
next_attempt job delay now_unix_ms = record job {
  attempt = min (job.attempt + 1) u32_max;
  not_before_unix_ms = min (now_unix_ms + as_millis delay) u128_max;
}
