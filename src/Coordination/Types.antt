-- ===== src/Coordination/Types.antt =====
-- The messages of src/domain/coordination.rs. A `Duration` is a number of nanoseconds.
use pulse.Prelude.{
  ℕ, String, List, Bool, ltb, Option, some, none, ◌<>◌, decimal, if◌then◌else◌, str_eq, Duration,
  Result, ok, err,
}
use pulse.Domain.Scenario.{RepeatPolicy}

pub data CoordinationError : Type 0 where
  unavailable : String → String → CoordinationError
  timeout : String → CoordinationError
  invalid_state : String → String → CoordinationError
  stale_owner : String → CoordinationError

pub record LeaderLease : Type 0 where
  pub lock_key : String
  pub node_id : String
  pub owner_token : String
  pub fencing_token : ℕ
  pub expires_at_unix_ms : ℕ
  pub ttl : Duration

pub data LeadershipOutcome : Type 0 where
  acquired renewed : LeaderLease → LeadershipOutcome
  follower : Duration → LeadershipOutcome

pub record DispatchSpec : Type 0 where
  pub scenario_id : String
  pub contract_version : ℕ
  pub total_slices : ℕ
  pub repeat : RepeatPolicy
  pub plan_fingerprint : String

pub record DispatchWindow : Type 0 where
  pub scenario_id : String
  pub window_id : String
  pub run_id : String
  pub scheduled_at_unix_ms : ℕ
  pub contract_version : ℕ
  pub total_slices : ℕ
  pub plan_fingerprint : String
  pub missing_slices : List ℕ

unfoldable pub execution_key : DispatchWindow → ℕ → Option String
execution_key window slice_index =
    if ltb slice_index window.total_slices
    then some (
        window.window_id
        <> ":slice-"
        <> decimal slice_index
        <> "-of-"
        <> decimal window.total_slices)
    else none

pub data DispatchOutcome : Type 0 where
  ready : DispatchWindow → DispatchOutcome
  not_due : Duration → DispatchOutcome
  finished : DispatchOutcome

pub data DispatchProgress : Type 0 where
  pending : ℕ → DispatchProgress
  complete : DispatchProgress

pub data TerminalOutcome : Type 0 where
  result_published retry_published dead_letter_published : TerminalOutcome

unfoldable pub as_str : TerminalOutcome → String
as_str result_published = "completed"
as_str retry_published = "retry_published"
as_str dead_letter_published = "dlq_published"

-- TerminalOutcome::from_str
unfoldable pub parse_outcome : String → Result String TerminalOutcome
parse_outcome value =
    if str_eq value "completed"
    then ok result_published
    else if str_eq value "retry_published"
    then ok retry_published
    else if str_eq value "dlq_published"
    then ok dead_letter_published
    else err ("unknown terminal outcome '" <> value <> "'")

pub record CompletedOutcome : Type 0 where
  pub outcome : TerminalOutcome
  pub completed_at_unix_ms : ℕ

pub record ExecutionClaim : Type 0 where
  pub execution_key : String
  pub attempt : ℕ

pub record ExecutionLease : Type 0 where
  pub execution_key : String
  pub attempt : ℕ
  pub owner_token : String
  pub expires_at_unix_ms : ℕ
  pub ttl : Duration
  pub recovered : Bool

pub data ClaimOutcome : Type 0 where
  lease_acquired : ExecutionLease → ClaimOutcome
  already_completed : CompletedOutcome → ClaimOutcome
  busy : Duration → ClaimOutcome

pub data ReleaseOutcome : Type 0 where
  released already_absent : ReleaseOutcome

-- Display
unfoldable pub coordination_message : CoordinationError → String
coordination_message (unavailable operation message) =
    "coordination operation '" <> operation <> "' is unavailable: " <> message
coordination_message (timeout operation) = "coordination operation '" <> operation <> "' timed out"
coordination_message (invalid_state operation message) =
    "coordination operation '" <> operation <> "' found invalid state: " <> message
coordination_message (stale_owner operation) =
    "coordination operation '" <> operation <> "' rejected a stale owner"
