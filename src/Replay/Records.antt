-- ===== src/Replay/Records.antt =====
-- The checks and filters of src/application/dlq_replay.rs.
use pulse.Prelude.{
  ℕ, String, List, Bool, true, false, not, ◌&&◌, ◌||◌, ltb, leb, ◌==◌, ◌<>◌, decimal, byte_len,
  is_blank, is_empty, has_text, str_eq, if◌then◌else◌, Option, none, some, Result, ok, ◌>>◌,
  fail_if, map_err,
}
use pulse.Domain.Error.{contract_message}
use pulse.Domain.Contracts.{
  max_contract_id_bytes, max_contract_slices, max_contract_attempt, JobSlice, FailedScenarioJob,
  build_terminal_event_id,
}
use pulse.Domain.Checks.{validate_contract_version}

-- Result<(), String>
abbrev pub Check : Type 0
Check = Result String (Unit {0})

unfoldable pub validate_text : String → String → Check
validate_text field value = do
  fail_if (is_blank value) ("DLQ " <> field <> " must not be empty")
  fail_if (ltb max_contract_id_bytes (byte_len value))
      ("DLQ " <> field <> " exceeds " <> decimal max_contract_id_bytes <> " bytes")

unfoldable pub validate_slice : JobSlice → Check
validate_slice slice =
    fail_if
      ((slice.total == 0) || ltb max_contract_slices slice.total || leb slice.total slice.index)
      ("invalid failed-job slice " <> decimal slice.index <> " of " <> decimal slice.total)

unfoldable pub validate_event : FailedScenarioJob → Check
unfolding validate_text
validate_event job = do
  validate_text "event_id" job.event_id
  fail_if (not (str_eq job.event_id (build_terminal_event_id job.execution_key job.attempt "dlq")))
      "failed-job event_id is not the deterministic terminal identity"

unfoldable pub validate_failed_job : FailedScenarioJob → Check
unfolding validate_text validate_slice validate_event
validate_failed_job job = do
  map_err (λ error. "invalid failed-job contract: " <> contract_message error)
      (validate_contract_version job.schema_version)
  validate_text "scenario_id" job.scenario_id
  validate_text "run_id" job.run_id
  validate_text "execution_key" job.execution_key
  if leb 2 job.schema_version then validate_event job else ok tt
  validate_text "reason" job.reason
  validate_slice job.slice
  fail_if (ltb job.max_retries job.attempt || ltb max_contract_attempt job.max_retries) (
      "invalid failed-job attempt metadata: attempt="
      <> decimal job.attempt
      <> ", max_retries="
      <> decimal job.max_retries)

-- The set of the scenarios is a list.
pub record ReplayFilters : Type 0 where
  pub scenario_ids : List String
  pub reason_contains : Option String
  pub since_unix_ms : Option ℕ
  pub until_unix_ms : Option ℕ

abbrev pub before : ℕ → Option ℕ → Bool
before at none = false
before at (some since) = ltb at since

abbrev pub after : ℕ → Option ℕ → Bool
after at none = false
after at (some until) = ltb until at

-- `contains` is str::contains on the texts in lower case.
abbrev pub mentions : (String → String → Bool) → String → Option String → Bool
mentions contains reason none = true
mentions contains reason (some needle) = contains reason needle

unfoldable pub matches : (String → String → Bool) → ReplayFilters → FailedScenarioJob → Bool
matches contains filters job =
    if not (is_empty filters.scenario_ids) && not (has_text job.scenario_id filters.scenario_ids)
    then false
    else if before job.failed_at_unix_ms filters.since_unix_ms
    then false
    else if after job.failed_at_unix_ms filters.until_unix_ms
    then false
    else mentions contains job.reason filters.reason_contains
