-- ===== src/Collector/Types.antt =====
-- The store's values of src/application/aggregation.rs, and the world of
-- src/application/aggregation_service.rs with the log of what it did.
use pulse.Prelude.{
  ℕ, String, List, ◌∷◌, ◌<>◌, decimal, Bool, if◌then◌else◌, Option, Result, ok, err,
}
use pulse.Domain.Error.{ContractError, contract_message}
use pulse.Domain.Contracts.{
  ScenarioRunResult, ScenarioRunSummary, ScenarioRunSummaryStatus, ScenarioRunSummaryEvent,
  PoisonMessageRecord,
}

pub data RunAggregationUpdate : Type 0 where
  accepted late_accepted : ℕ → ℕ → RunAggregationUpdate
  duplicate : ℕ → ℕ → Option ScenarioRunSummaryStatus → RunAggregationUpdate
  completed late_completed : ScenarioRunSummary → RunAggregationUpdate

pub record DurableRunSummary : Type 0 where
  pub revision : ℕ
  pub event_id : String
  pub pending_publication : Bool
  pub summary : ScenarioRunSummary

pub data SummaryAcknowledgement : Type 0 where
  acknowledged already_acknowledged : SummaryAcknowledgement
  stale : ℕ → SummaryAcknowledgement
  missing : SummaryAcknowledgement

pub data RunAggregationStoreError : Type 0 where
  contract : ContractError → RunAggregationStoreError
  unavailable : String → String → RunAggregationStoreError
  timeout : String → RunAggregationStoreError
  invalid_state : String → String → RunAggregationStoreError
  inconsistent_result : String → RunAggregationStoreError
  error_kind_capacity active_run_capacity : ℕ → RunAggregationStoreError

-- Display
unfoldable pub store_message : RunAggregationStoreError → String
store_message (contract error) = "invalid result contract: " <> contract_message error
store_message (unavailable operation message) =
    "aggregation operation '" <> operation <> "' is unavailable: " <> message
store_message (timeout operation) = "aggregation operation '" <> operation <> "' timed out"
store_message (invalid_state operation message) =
    "aggregation operation '" <> operation <> "' found invalid state: " <> message
store_message (inconsistent_result message) = "inconsistent aggregate result: " <> message
store_message (error_kind_capacity max_error_kinds) =
    "aggregation error-kind capacity of " <> decimal max_error_kinds <> " was exceeded"
store_message (active_run_capacity max_active_runs) =
    "aggregation active-run capacity of " <> decimal max_active_runs <> " was exhausted"

-- A record of the result topic.
pub record ResultRecord : Type 0 where
  pub offset : ℕ
  pub result : Result ContractError ScenarioRunResult
  pub poison_record : String → PoisonMessageRecord

-- Acknowledged effects; a commit and an acknowledgement of a summary stand here when they start.
pub data Event : Type 0 where
  ingested : ScenarioRunResult → RunAggregationUpdate → Event
  poison_sent : PoisonMessageRecord → Event
  commit_issued : ℕ → Event
  summary_sent : ScenarioRunSummaryEvent → Event
  ack_issued : String → ℕ → Event

pub record Ports (W : Type 0) : Type 0 where
  pub now_unix_ms : W → ℕ
  -- The Kafka-safe bound around the running task has passed.
  pub deadline_passed : W → Bool
  pub ingest : ScenarioRunResult → ℕ → W → W × Result RunAggregationStoreError RunAggregationUpdate
  pub acknowledge_summary :
      String → ℕ → W → W × Result RunAggregationStoreError SummaryAcknowledgement
  pub publish_summary : ScenarioRunSummaryEvent → W → W × Result String (Unit {0})
  pub publish_poison : PoisonMessageRecord → W → W × Result String (Unit {0})
  pub commit : ℕ → W → W × Result String (Unit {0})

pub record State (W : Type 0) : Type 0 where
  pub world : W
  pub log : List Event

abbrev pub Run : Type 0 → Type 0 → Type 0
Run W A = State W → State W × Result String A

abbrev pub and_then :
    {W A B : Type 0} → (A → Run W B) → State W × Result String A → State W × Result String B
and_then f (s, ok a) = f a s
and_then f (s, err e) = (s, err e)

infixl 5 ◌>>=◌
-- `.await?` followed by the rest of the body
abbrev pub ◌>>=◌ : {W A B : Type 0} → Run W A → (A → Run W B) → Run W B
(m >>= f) s = and_then f (m s)

abbrev pub note : {W : Type 0} → Event → State W → State W
note e s = record s { log = e ∷ s.log }

-- One operation of the world, awaited; past the bound the task is dropped with the error `late`.
abbrev pub call : {W A : Type 0} → Ports W → String → (W → W × A) → Run W A
call ports late operation s =
    let (w, a) = operation s.world in
    (record s { world = w }, (if ports.deadline_passed w then err late else ok a))
