-- ===== src/Domain/Contracts.antt =====
-- The messages of src/domain/contracts.rs and its constants. An integer field is a number: `u16`,
-- `u32`, `u64`, `u128` and `usize` values are below the bound of their type, which is stated
-- where a property depends on it. `f64` is the parameter `R`.
use pulse.Prelude.{ℕ, String, List, Option, Bool, ◌<>◌, decimal, Duration}

abbrev pub current_contract_version : ℕ
current_contract_version = 2

abbrev pub min_supported_contract_version : ℕ
min_supported_contract_version = 1

abbrev pub max_contract_id_bytes : ℕ
max_contract_id_bytes = 1024

abbrev pub max_contract_slices : ℕ
max_contract_slices = 4096

abbrev pub max_contract_attempt : ℕ
max_contract_attempt = 32

abbrev pub max_contract_error_kinds : ℕ
max_contract_error_kinds = 64

abbrev pub max_contract_error_kind_bytes : ℕ
max_contract_error_kind_bytes = 256

abbrev pub max_contract_histogram_buckets : ℕ
max_contract_histogram_buckets = 128

abbrev pub max_contract_exact_integer : ℕ
max_contract_exact_integer = 9007199254740991

pub record JobSlice : Type 0 where
  pub index : ℕ
  pub total : ℕ

pub record JobLoadConfig (R : Type 0) : Type 0 where
  pub scenarios_per_sec : R
  pub duration : Duration
  pub max_concurrency : ℕ
  pub startup_burst : ℕ

pub record ScenarioJob (R : Type 0) : Type 0 where
  pub schema_version : ℕ
  pub scenario_id : String
  pub run_id : String
  pub execution_key : String
  pub plan_fingerprint : String
  pub scheduled_at_unix_ms : ℕ
  pub not_before_unix_ms : ℕ
  pub slice : JobSlice
  pub load : JobLoadConfig R
  pub attempt : ℕ
  pub max_retries : ℕ

pub data PartitionKeyStrategy : Type 0 where
  by_scenario_id by_execution_key : PartitionKeyStrategy

unfoldable pub key_for : {R : Type 0} → PartitionKeyStrategy → ScenarioJob R → String
key_for by_scenario_id job = job.scenario_id
key_for by_execution_key job = job.execution_key

unfoldable pub build_execution_key : String → ℕ → JobSlice → String
build_execution_key scenario_id window_start slice =
    scenario_id
    <> ":"
    <> decimal window_start
    <> ":slice-"
    <> decimal slice.index
    <> "-of-"
    <> decimal slice.total

unfoldable pub build_versioned_execution_key : ℕ → String → ℕ → JobSlice → String
build_versioned_execution_key contract_version scenario_id window_start slice =
    "v"
    <> decimal contract_version
    <> ":"
    <> scenario_id
    <> ":"
    <> decimal window_start
    <> ":slice-"
    <> decimal slice.index
    <> "-of-"
    <> decimal slice.total

unfoldable pub build_run_id : ℕ → String → ℕ → String
build_run_id contract_version scenario_id window_start =
    "v" <> decimal contract_version <> ":" <> scenario_id <> ":" <> decimal window_start

unfoldable pub build_terminal_event_id : String → ℕ → String → String
build_terminal_event_id execution_key attempt kind =
    execution_key <> ":attempt-" <> decimal attempt <> ":" <> kind

pub data ScenarioRunStatus : Type 0 where
  success failed : ScenarioRunStatus

pub record LatencyBucket : Type 0 where
  pub upper_bound_ms : ℕ
  pub count : ℕ

pub record ErrorCount : Type 0 where
  pub kind : String
  pub count : ℕ

pub record ScenarioRunResult : Type 0 where
  pub schema_version : ℕ
  pub scenario_id : String
  pub run_id : String
  pub execution_key : String
  pub event_id : String
  pub attempt : ℕ
  pub slice : JobSlice
  pub started_at_unix_ms : ℕ
  pub finished_at_unix_ms : ℕ
  pub status : ScenarioRunStatus
  pub total : ℕ
  pub success : ℕ
  pub failure : ℕ
  pub scenario_latency_p50_ms : ℕ
  pub scenario_latency_p95_ms : ℕ
  pub scenario_latency_p99_ms : ℕ
  pub latency_histogram : List LatencyBucket
  pub error_breakdown : List ErrorCount

pub data ScenarioRunSummaryStatus : Type 0 where
  complete partial timed_out cancelled : ScenarioRunSummaryStatus

pub record ScenarioRunSummary : Type 0 where
  pub schema_version : ℕ
  pub scenario_id : String
  pub run_id : String
  pub status : ScenarioRunSummaryStatus
  pub expected_slices : ℕ
  pub received_slices : ℕ
  pub missing_slices : List ℕ
  pub total : ℕ
  pub success : ℕ
  pub failure : ℕ
  pub scenario_latency_p50_ms : ℕ
  pub scenario_latency_p95_ms : ℕ
  pub scenario_latency_p99_ms : ℕ
  pub latency_histogram : List LatencyBucket
  pub error_breakdown : List ErrorCount
  pub first_result_at_unix_ms : ℕ
  pub finalized_at_unix_ms : ℕ

pub record FailedScenarioJob : Type 0 where
  pub schema_version : ℕ
  pub event_id : String
  pub scenario_id : String
  pub run_id : String
  pub execution_key : String
  pub slice : JobSlice
  pub failed_at_unix_ms : ℕ
  pub attempt : ℕ
  pub max_retries : ℕ
  pub reason : String

-- The partition and the offset are numbers that Kafka hands out, which are not negative.
pub record PoisonMessageRecord : Type 0 where
  pub schema_version : ℕ
  pub event_id : String
  pub failed_at_unix_ms : ℕ
  pub source_topic : String
  pub source_partition : ℕ
  pub source_offset : ℕ
  pub source_key_base64 : Option String
  pub source_key_original_bytes : Option ℕ
  pub source_key_truncated : Bool
  pub payload_base64 : Option String
  pub payload_original_bytes : Option ℕ
  pub payload_truncated : Bool
  pub reason : String

pub record ScenarioRunSummaryEvent : Type 0 where
  pub schema_version : ℕ
  pub event_id : String
  pub revision : ℕ
  pub summary : ScenarioRunSummary
