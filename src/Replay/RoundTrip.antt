-- ===== src/Replay/RoundTrip.antt =====
-- A dead letter of the worker passes the checks of the replay in src/application/dlq_replay.rs.
use Prim.Native.String.append
use pulse.Prelude.{
  ℕ, ◌≡◌, ◌≤◌, refl, ap, arith, eq_refl, String, false, ◌&&◌, leb, Bool-cases, inl, inr, ◌<>◌,
  byte_len, is_blank, ok,
}
use pulse.Domain.Contracts.{ScenarioJob, max_contract_id_bytes, build_terminal_event_id}
use pulse.Domain.Checks.{validate_contract_version}
use pulse.Domain.Job.Valid.{ValidIdentity, ValidAttempt}
use pulse.Planning.Text.{bounded_failure_reason, truncate, floor_boundary, truncation_marker}
use pulse.Planning.Reasons.{bounded_failure_reason_bounds}
use pulse.Worker.Reports.{failed_job}
use pulse.Replay.Records.{validate_text, validate_slice, validate_event, validate_failed_job}

is_blank-append : (s t : String) → is_blank (s <> t) ≡ (is_blank s && is_blank t)
unfolding is_blank
is_blank-append String.[] t = ap is_blank (append.nil t)
is_blank-append (String.◌∷◌ c s) t = rw (append.cons c s t, is_blank-append s t) (ground arith)

marker_given : is_blank truncation_marker ≡ false
unfolding is_blank
marker_given = refl

bounded_failure_reason-given :
    (reason : String) → is_blank reason ≡ false → is_blank (bounded_failure_reason reason) ≡ false
unfolding bounded_failure_reason
bounded_failure_reason-given reason h =
    elim (Bool-cases (leb (byte_len reason) max_contract_id_bytes)) [
      | inl short ↦ rw short h
      | inr long ↦
          rw
            (
              long,
              is_blank-append (truncate reason (floor_boundary reason 1010)) truncation_marker,
              marker_given,
            )
            (ground arith)
    ]

event_id_given :
    (key : String) (attempt : ℕ) (kind : String)
    → is_blank key ≡ false
    → is_blank (build_terminal_event_id key attempt kind) ≡ false
unfolding build_terminal_event_id
event_id_given key attempt kind h = rw (is_blank-append key _, h) refl

validate_text-ok :
    (field value : String)
    → is_blank value ≡ false
    → byte_len value ≤ 1024
    → validate_text field value ≡ ok tt
unfolding validate_text
validate_text-ok field value given bounded = ground arith

-- The dead letter that the worker makes of a valid job, with a reason that is not blank, passes the
-- checks of the replay, where the event identity of the dead letter is within the bound of identities.
pub validate_failed_job-failed_job :
    {R : Type 0} (job : ScenarioJob R) (reason : String) (now_unix_ms : ℕ)
    → ValidIdentity job
    → ValidAttempt job
    → is_blank reason ≡ false
    → byte_len (build_terminal_event_id job.execution_key job.attempt "dlq") ≤ max_contract_id_bytes
    → validate_failed_job (failed_job job reason now_unix_ms) ≡ ok tt
unfolding validate_failed_job validate_event failed_job validate_slice validate_contract_version
validate_failed_job-failed_job job reason now_unix_ms identity attempts given bounded =
    let text = bounded_failure_reason reason in
    let event = build_terminal_event_id job.execution_key job.attempt "dlq" in
    ground (
      arith,
      identity,
      attempts,
      bounded,
      eq_refl event,
      validate_text-ok "scenario_id" job.scenario_id,
      validate_text-ok "run_id" job.run_id,
      validate_text-ok "execution_key" job.execution_key,
      validate_text-ok "event_id" event
          (event_id_given job.execution_key job.attempt "dlq" identity.key_given.0) bounded,
      validate_text-ok "reason" text (bounded_failure_reason-given reason given)
          (bounded_failure_reason_bounds reason).0,
    )
