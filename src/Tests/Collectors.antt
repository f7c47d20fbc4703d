-- ===== src/Tests/Collectors.antt =====
-- An aggregator whose store refuses an inconsistent result.
use pulse.Prelude.{ℕ, ◌+◌, ◌≡◌, refl, [], ◌∷◌, false, true, ok, err}
use pulse.Domain.Contracts.{complete}
use pulse.Collector.Types.{
  inconsistent_result, acknowledged, store_message, DurableRunSummary, ResultRecord, poison_sent,
  commit_issued, Ports, State,
}
use pulse.Collector.Records.{
  AggregationRuntimeConfig, summary_event, publish_one, process_record, dead_letter_and_commit,
  commit_record, process_result, after_ingest,
}
use pulse.Collector.Settles.{Processed, process_record-Processed}
use pulse.Collector.Publication.{Flushed, publish_one-Flushed}
use pulse.Tests.Workers.{poison}
use pulse.Tests.Runs.{first}

abbrev ports : Ports ℕ
ports = record {
  now_unix_ms = λ w. 1000;
  deadline_passed = λ w. false;
  ingest = λ result now w. (w + 1, err (inconsistent_result "slice 0"));
  acknowledge_summary = λ run revision w. (w + 1, ok acknowledged);
  publish_summary = λ event w. (w + 1, ok tt);
  publish_poison = λ poison w. (w + 1, ok tt);
  commit = λ offset w. (w + 1, ok tt);
}

abbrev config : AggregationRuntimeConfig
config = record { max_processing_interval = 299000000000 }

abbrev received : ResultRecord
received = record { offset = 5; result = ok first; poison_record = poison }

abbrev start : State ℕ
start = record { world = 0; log = [] }

process_record-Processed_example :
    Processed ports received []
      (process_record ports config received start).1
      (process_record ports config received start).0.log
process_record-Processed_example = process_record-Processed ports config received start

conflict_is_poison :
    (process_record ports config received start).0.log
    ≡ commit_issued 5 ∷ poison_sent (poison (store_message (inconsistent_result "slice 0"))) ∷ []
unfolding process_record process_result after_ingest dead_letter_and_commit commit_record
conflict_is_poison = refl

abbrev durable : DurableRunSummary
durable = record {
  revision = 1;
  event_id = "e";
  pending_publication = true;
  summary = record {
    schema_version = 2;
    scenario_id = "checkout";
    run_id = "run";
    status = complete;
    expected_slices = 1;
    received_slices = 1;
    missing_slices = [];
    total = 1;
    success = 1;
    failure = 0;
    scenario_latency_p50_ms = 1;
    scenario_latency_p95_ms = 1;
    scenario_latency_p99_ms = 1;
    latency_histogram = [];
    error_breakdown = [];
    first_result_at_unix_ms = 1;
    finalized_at_unix_ms = 2;
  };
}

publish_one-Flushed_example :
    Flushed ports
      (summary_event durable)
      start
      (publish_one ports config "periodic" durable start).1
      (publish_one ports config "periodic" durable start).0.log
publish_one-Flushed_example = publish_one-Flushed ports config "periodic" durable start
