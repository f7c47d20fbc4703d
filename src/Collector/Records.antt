-- ===== src/Collector/Records.antt =====
-- `process_record`, `dead_letter_and_commit` and `publish_one` of
-- src/application/aggregation_service.rs.
use pulse.Prelude.{String, ◌<>◌, decimal, Duration, as_millis, Result, ok, err}
use pulse.Domain.Error.{ContractError, contract_message}
use pulse.Domain.Contracts.{current_contract_version, ScenarioRunResult, ScenarioRunSummaryEvent}
use pulse.Collector.Types.{
  RunAggregationUpdate, DurableRunSummary, SummaryAcknowledgement, acknowledged,
  already_acknowledged, stale, missing, RunAggregationStoreError, contract, unavailable, timeout,
  invalid_state, inconsistent_result, error_kind_capacity, active_run_capacity, store_message,
  ResultRecord, ingested, poison_sent, commit_issued, summary_sent, ack_issued, Ports, Run, ◌>>=◌,
  note, call,
}

-- The field that these read.
pub record AggregationRuntimeConfig : Type 0 where
  pub max_processing_interval : Duration

-- The event of a durable summary.
unfoldable pub summary_event : DurableRunSummary → ScenarioRunSummaryEvent
summary_event durable = record {
  schema_version = current_contract_version;
  event_id = durable.event_id;
  revision = durable.revision;
  summary = durable.summary;
}

module _ {W : Type 0} (ports : Ports W) (config : AggregationRuntimeConfig) where
  abbrev pub late_record : String
  late_record =
      "result processing exceeded its "
      <> decimal (as_millis config.max_processing_interval)
      <> " ms Kafka-safe bound; source offset remains unsettled"

  -- A reply is the last word of a body.
  abbrev pub reply_of : String → Result String (Unit {0}) → Run W (Unit {0})
  reply_of message (ok _) s = (s, ok tt)
  reply_of message (err e) s = (s, err (message <> e))

  unfoldable pub commit_record : String → ResultRecord → Run W (Unit {0})
  commit_record message received s =
      (call ports late_record (ports.commit received.offset) >>= reply_of message)
        (note (commit_issued received.offset) s)

  abbrev pub after_poison : ResultRecord → String → Result String (Unit {0}) → Run W (Unit {0})
  after_poison received reason (err e) s =
      (s, err ("result poison DLQ publication failed; source offset remains uncommitted: " <> e))
  after_poison received reason (ok _) s =
      commit_record "result poison was published but synchronous source commit failed: " received
        (note (poison_sent (received.poison_record reason)) s)

  unfoldable pub dead_letter_and_commit : ResultRecord → String → Run W (Unit {0})
  unfolding commit_record
  dead_letter_and_commit received reason =
      call ports late_record (ports.publish_poison (received.poison_record reason))
      >>= after_poison received reason

  abbrev pub not_accepted : RunAggregationStoreError → Run W (Unit {0})
  not_accepted error s = (
    s,
    err (
        "result aggregation failed before durable acceptance; source offset remains uncommitted: "
        <> store_message error),
  )

  unfoldable pub after_ingest :
      ResultRecord
      → ScenarioRunResult
      → Result RunAggregationStoreError RunAggregationUpdate
      → Run W (Unit {0})
  unfolding dead_letter_and_commit commit_record
  after_ingest received result (ok update) s =
      commit_record
        "result was durably aggregated but synchronous source commit failed; duplicate redelivery is safe: "
        received (note (ingested result update) s)
  after_ingest received result (err (contract e)) s =
      dead_letter_and_commit received (store_message (contract e)) s
  after_ingest received result (err (inconsistent_result message)) s =
      dead_letter_and_commit received (store_message (inconsistent_result message)) s
  after_ingest received result (err (error_kind_capacity n)) s =
      dead_letter_and_commit received (store_message (error_kind_capacity n)) s
  after_ingest received result (err (unavailable operation message)) s =
      not_accepted (unavailable operation message) s
  after_ingest received result (err (timeout operation)) s = not_accepted (timeout operation) s
  after_ingest received result (err (invalid_state operation message)) s =
      not_accepted (invalid_state operation message) s
  after_ingest received result (err (active_run_capacity n)) s =
      not_accepted (active_run_capacity n) s

  -- `process_record` under its deadline.
  unfoldable pub process_result :
      ResultRecord → Result ContractError ScenarioRunResult → Run W (Unit {0})
  unfolding dead_letter_and_commit after_ingest
  process_result received (err error) s =
      dead_letter_and_commit received ("invalid result contract: " <> contract_message error) s
  process_result received (ok result) s =
      (call ports late_record (ports.ingest result (ports.now_unix_ms s.world))
          >>= after_ingest received result)
        s

  unfoldable pub process_record : ResultRecord → Run W (Unit {0})
  unfolding process_result
  process_record received = process_result received received.result

  abbrev pub late_maintenance : String → String
  late_maintenance phase =
      "aggregation "
      <> phase
      <> " maintenance exceeded its "
      <> decimal (as_millis config.max_processing_interval)
      <> " ms Kafka-safe bound"

  abbrev pub after_ack :
      String → Result RunAggregationStoreError SummaryAcknowledgement → Run W (Unit {0})
  after_ack event_id (ok acknowledged) s = (s, ok tt)
  after_ack event_id (ok already_acknowledged) s = (s, ok tt)
  after_ack event_id (ok (stale current_revision)) s = (s, ok tt)
  after_ack event_id (ok missing) s =
      (s, err ("summary '" <> event_id <> "' was published but its durable run disappeared"))
  after_ack event_id (err e) s = (
    s,
    err (
        "summary '"
        <> event_id
        <> "' was published but its Redis outbox acknowledgement failed: "
        <> store_message e),
  )

  abbrev pub after_summary :
      String → ScenarioRunSummaryEvent → Result String (Unit {0}) → Run W (Unit {0})
  after_summary late event (err e) s = (
    s,
    err (
        "summary '" <> event.event_id <> "' publication failed; Redis outbox remains pending: "
        <> e),
  )
  after_summary late event (ok _) s =
      (call ports late (ports.acknowledge_summary event.summary.run_id event.revision)
          >>= after_ack event.event_id)
        (note (ack_issued event.summary.run_id event.revision) (note (summary_sent event) s))

  unfoldable pub publish_one : String → DurableRunSummary → Run W (Unit {0})
  unfolding summary_event
  publish_one phase durable =
      let event = summary_event durable in
      call ports (late_maintenance phase) (ports.publish_summary event)
      >>= after_summary (late_maintenance phase) event
