-- ===== src/Replay/Build.antt =====
-- `build_replay_job` of src/application/dlq_replay.rs.
use pulse.Prelude.{
  ℕ, String, Bool, not, ltb, str_eq, ◌<>◌, decimal, byte_len, if◌then◌else◌, Result, ok, err,
}
use pulse.Domain.Contracts.{
  current_contract_version, max_contract_id_bytes, ScenarioJob, FailedScenarioJob,
  build_terminal_event_id,
}
use pulse.Domain.Scenario.{Scenario}
use pulse.Planning.Slices.{PlanOps}
use pulse.Planning.Text.{as_bytes, fnv1a_128, hex, scenario_plan_fingerprint}

-- The coordinates that `ReplaySource::new` has checked.
pub record ReplaySource : Type 0 where
  pub topic : String
  pub partition : ℕ
  pub offset : ℕ

-- The fields that `build_replay_job` reads; `scale_is_one` is the test `scale == 1.0`.
pub record ReplayOptions : Type 0 where
  pub scale_is_one : Bool
  pub worker_max_retries : ℕ
  pub execution_semantics_fingerprint : String

-- A record of the first version has no event identity of its own.
unfoldable pub failed_event_identity : FailedScenarioJob → String
failed_event_identity failed =
    if str_eq failed.event_id ""
    then build_terminal_event_id failed.execution_key failed.attempt "dlq"
    else failed.event_id

-- `encode` is URL_SAFE_NO_PAD on the bytes of a text.
unfoldable pub replay_run_id : (String → String) → FailedScenarioJob → ReplaySource → String
unfolding failed_event_identity
replay_run_id encode failed source =
    "v"
    <> decimal current_contract_version
    <> ":replay:t"
    <> encode source.topic
    <> ":p"
    <> decimal source.partition
    <> ":o"
    <> decimal source.offset
    <> ":e"
    <> hex 32 (fnv1a_128 (as_bytes (failed_event_identity failed)))

abbrev pub too_long : String → String
too_long field =
    field <> " exceeds the " <> decimal max_contract_id_bytes <> "-byte contract identity bound"

module _ {R Step : Type 0} (ops : PlanOps R Step) (encode : String → String) where
  unfoldable pub replay_job :
      FailedScenarioJob → Scenario R Step → ℕ → ReplayOptions → String → ScenarioJob R
  replay_job failed scenario global_startup_burst options run_id = record {
    schema_version = current_contract_version;
    scenario_id = failed.scenario_id;
    run_id = run_id;
    execution_key = run_id <> ":slice-0-of-1";
    plan_fingerprint =
        scenario_plan_fingerprint ops scenario 1 global_startup_burst options.worker_max_retries
          options.execution_semantics_fingerprint;
    scheduled_at_unix_ms = failed.failed_at_unix_ms;
    not_before_unix_ms = 0;
    slice = record { index = 0; total = 1 };
    load = record {
      scenarios_per_sec = scenario.config.scenarios_per_sec;
      duration = scenario.config.duration;
      max_concurrency = scenario.config.max_concurrency;
      startup_burst = global_startup_burst;
    };
    attempt = 0;
    max_retries = options.worker_max_retries;
  }

  unfoldable pub build_replay_job :
      FailedScenarioJob
      → ReplaySource
      → Scenario R Step
      → ℕ
      → ReplayOptions
      → Result String (ScenarioJob R)
  unfolding replay_job replay_run_id
  build_replay_job failed source scenario global_startup_burst options =
      let run_id = replay_run_id encode failed source in
      if not options.scale_is_one
      then err "v2 replay scale must be exactly 1.0 so the job matches the deterministic local plan"
      else if ltb scenario.config.max_concurrency global_startup_burst
      then err (
          "startup burst "
          <> decimal global_startup_burst
          <> " exceeds scenario concurrency "
          <> decimal scenario.config.max_concurrency)
      else if ltb max_contract_id_bytes (byte_len run_id)
      then err (too_long "replay run_id")
      else if ltb max_contract_id_bytes (byte_len (run_id <> ":slice-0-of-1"))
      then err (too_long "replay execution_key")
      else ok (replay_job failed scenario global_startup_burst options run_id)
