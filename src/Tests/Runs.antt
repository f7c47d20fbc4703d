-- ===== src/Tests/Runs.antt =====
-- Two slices of a run, merged.
use mathlib.Core.List.{Perm}
use pulse.Prelude.{
  ℕ, ◌+◌, ◌*◌, ◌/◌, ◌<◌, String, List, [], ◌∷◌, ◌≡◌, ◌↔◌, ◌⊎◌, refl, true, false, ok, err, arith,
  Option, some, none, length, has, lookup, u64_max, is_blank, decimal, put, saturating_add,
}
use pulse.Domain.Contracts.{ScenarioRunResult, success, build_terminal_event_id}
use pulse.Domain.Checks.{
  validate_contract_version, require_non_empty, validate_identity_lengths, validate_slice,
}
use pulse.Domain.RunResult.{
  validate, validate_identity, validate_event, validate_outcomes, validate_errors, any_above_exact,
  check_exact, count_buckets, sum_errors, validate_error_total, validate_latency_buckets,
}
use pulse.Domain.RunResult.Valid.{ValidResult, validate_result_iff}
use pulse.Aggregation.State.{
  absorb, add_buckets, add_errors, entry_add, is_compatible, merge, same_bounds,
  validate_compatible, RunState, from_first, AggregationError, capacity,
}
use pulse.Aggregation.Summary.{RankOf, p50, p95, p99, histogram_quantile, missing_from}
use pulse.Aggregation.Aggregator.{
  RunAggregator, new, ingest, ingest_entry, settle, state_for, ingest_state, finalize_expired,
}
use pulse.Aggregation.Coverage.{length-missing_from}
use pulse.Aggregation.Represents.{
  Represents, from_first-Represents, ingest_state-counted, ingest_state-finalizes, finalizes,
}
use pulse.Aggregation.Ingest.{Inv, ingest_error_unchanged}
use pulse.Aggregation.History.{
  Call, ingests, expires, cancels, step, run, Ingested, run-Inv, run_conserved,
}
use pulse.Aggregation.Quantiles.{histogram_quantile_lem}
use pulse.Aggregation.Expiry.{marked, due_summaries, finalize_expired_lem}

-- The ranks in whole numbers, rounded up.
abbrev ranks : RankOf
ranks p50 n = (n * 50 + 99) / 100
ranks p95 n = (n * 95 + 99) / 100
ranks p99 n = (n * 99 + 99) / 100

abbrev pub first : ScenarioRunResult
first = record {
  schema_version = 2;
  scenario_id = "checkout";
  run_id = "run";
  execution_key = "run:slice-0-of-2";
  event_id = "run:slice-0-of-2:attempt-0:result";
  attempt = 0;
  slice = record { index = 0; total = 2 };
  started_at_unix_ms = 1000;
  finished_at_unix_ms = 2000;
  status = success;
  total = 3;
  success = 2;
  failure = 1;
  scenario_latency_p50_ms = 10;
  scenario_latency_p95_ms = 20;
  scenario_latency_p99_ms = 20;
  latency_histogram =
      record { upper_bound_ms = 10; count = 2 } ∷ record { upper_bound_ms = 20; count = 1 } ∷ [];
  error_breakdown = record { kind = "timeout"; count = 1 } ∷ [];
}

abbrev second : ScenarioRunResult
second = record first {
  execution_key = "run:slice-1-of-2";
  event_id = "run:slice-1-of-2:attempt-0:result";
  slice = record { index = 1; total = 2 };
}

abbrev open_run : RunState
open_run = record {
  schema_version = 2;
  scenario_id = "checkout";
  run_id = "run";
  expected_slices = 2;
  received_execution_keys = "run:slice-0-of-2" ∷ [];
  received_slice_indexes = 0 ∷ [];
  total = 3;
  success = 2;
  failure = 1;
  histogram = (10, 2) ∷ (20, 1) ∷ [];
  errors = ("timeout", 1) ∷ [];
  first_result_at_unix_ms = 5000;
  last_result_at_unix_ms = 5000;
  finalized_status = none;
}

abbrev aggregator : RunAggregator
aggregator = record { runs = ("run", open_run) ∷ []; max_runs = 1 }

abbrev empty_aggregator : RunAggregator
empty_aggregator = record { runs = []; max_runs = 1 }

validate_result_iff_example : (validate first ≡ ok tt) ↔ ValidResult first
validate_result_iff_example = validate_result_iff first (omega arith)

open_run-Represents : Represents open_run (first ∷ [])
unfolding ingest_state pulse.Aggregation.State.validate_compatible from_first
    pulse.Aggregation.State.merge pulse.Aggregation.Aggregator.settle pulse.Prelude.saturating_add
    pulse.Aggregation.State.add_buckets pulse.Aggregation.State.add_errors
    pulse.Aggregation.State.entry_add
open_run-Represents =
    ingest_state-counted ranks (from_first first 5000) first 5000 []
      (from_first-Represents first 5000) (omega arith) refl

ingest_state-counted_example :
    Represents (ingest_state ranks open_run second 6000).0 (second ∷ first ∷ [])
unfolding ingest_state pulse.Aggregation.State.validate_compatible pulse.Aggregation.State.merge
    pulse.Aggregation.State.same_bounds pulse.Aggregation.Aggregator.settle
ingest_state-counted_example =
    ingest_state-counted ranks open_run second 6000 (first ∷ []) open_run-Represents (omega arith)
      refl

ingest_state-finalizes_example :
    (finalizes ranks (ingest_state ranks open_run second 6000).1 ≡ true) ↔ (
      missing_from
        (ingest_state ranks open_run second 6000).0.expected_slices
        0
        (ingest_state ranks open_run second 6000).0.received_slice_indexes
      ≡ [])
unfolding ingest_state pulse.Aggregation.State.validate_compatible pulse.Aggregation.State.merge
    pulse.Aggregation.State.same_bounds pulse.Aggregation.Aggregator.settle
ingest_state-finalizes_example =
    ingest_state-finalizes ranks open_run second 6000 (first ∷ []) open_run-Represents (omega arith)
      refl

calls : List Call
calls =
    ingests first 5000
    ∷ ingests first 5500
    ∷ ingests second 6000
    ∷ expires 9000 1000
    ∷ cancels "run" 9000
    ∷ []

run-Inv_example : Inv (λ r. Ingested r calls) (run ranks empty_aggregator calls)
unfolding new
run-Inv_example = run-Inv ranks 1 empty_aggregator calls refl

some_calls : List Call
some_calls = ingests first 5000 ∷ ingests first 5500 ∷ []

first_counted : lookup "run" (run ranks empty_aggregator some_calls).runs ≡ some open_run
unfolding some_calls run step validate validate_identity validate_contract_version require_non_empty
    is_blank validate_identity_lengths validate_slice validate_event build_terminal_event_id decimal
    validate_outcomes validate_errors any_above_exact check_exact count_buckets sum_errors
    validate_error_total validate_latency_buckets ingest ingest_entry ingest_state settle state_for
    absorb add_buckets add_errors entry_add from_first is_compatible merge same_bounds
    validate_compatible lookup put saturating_add
first_counted = refl

run_conserved_example :
    (open_run.total ≡ u64_max) ⊎ (open_run.success + open_run.failure ≡ open_run.total)
run_conserved_example =
    run_conserved ranks 1 empty_aggregator some_calls "run" open_run (unfold new in refl)
      first_counted

other_run : ScenarioRunResult
other_run = record first { run_id = "other" }

no_room : (ingest ranks aggregator other_run 7000).1 ≡ err (capacity 1)
unfolding other_run validate validate_identity validate_contract_version require_non_empty is_blank
    validate_identity_lengths validate_slice validate_event build_terminal_event_id decimal
    validate_outcomes validate_errors any_above_exact check_exact count_buckets sum_errors
    validate_error_total validate_latency_buckets ingest lookup
no_room = refl

ingest_error_unchanged_example : (ingest ranks aggregator other_run 7000).0 ≡ aggregator
ingest_error_unchanged_example =
    ingest_error_unchanged ranks aggregator other_run 7000 (capacity 1) no_room

finalize_expired_lem_example :
    ((finalize_expired ranks aggregator 9000 1000000000).0
      ≡ record aggregator { runs = ("run", marked open_run) ∷ [] })
    × Perm
        (finalize_expired ranks aggregator 9000 1000000000).1
        (due_summaries ranks 9000 1000 aggregator.runs)
    × (finalize_expired ranks (finalize_expired ranks aggregator 9000 1000000000).0 9000 1000000000
        ≡ ((finalize_expired ranks aggregator 9000 1000000000).0, []))
finalize_expired_lem_example = finalize_expired_lem ranks aggregator 9000 1000000000

length-missing_from_example : length (missing_from 4 0 (3 ∷ 0 ∷ [])) + 2 ≡ 4
length-missing_from_example =
    length-missing_from 4 (3 ∷ 0 ∷ []) (refl, (refl, tt)) (omega arith, (omega arith, tt))

histogram_quantile_lem_example :
    histogram_quantile ranks
      (record { upper_bound_ms = 10; count = 2 } ∷ record { upper_bound_ms = 20; count = 1 } ∷ [])
      p95
    ≡ 20
histogram_quantile_lem_example =
    histogram_quantile_lem ranks p95 (record { upper_bound_ms = 10; count = 2 } ∷ [])
      (record { upper_bound_ms = 20; count = 1 }) [] 3 3 refl refl (omega arith) (omega arith)
      (omega arith) (omega arith)
