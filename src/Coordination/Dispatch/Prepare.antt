-- ===== src/Coordination/Dispatch/Prepare.antt =====
-- `prepare_window` of src/infrastructure/redis/mod.rs.
use pulse.Prelude.{
  ℕ, ◌-◌, String, List, [], ◌∷◌, Bool, not, ◌&&◌, ◌||◌, Option, none, some, ltb, ◌==◌, str_eq, ◌<>◌,
  decimal, byte_len, is_blank, is_empty, if◌then◌else◌, Result, ok, err,
}
use pulse.Domain.Scenario.{RepeatPolicy, once, every}
use pulse.Coordination.Types.{
  CoordinationError, invalid_state, stale_owner, LeaderLease, DispatchSpec, DispatchOutcome, ready,
  not_due, finished,
}
use pulse.Coordination.Redis.{
  Field, named, Value, text, num, is_value, number_or, number_of, Redis, now_ms, hset_all,
}
use pulse.Coordination.Client.{
  Link, Script, invoke, duration_ms, duration_from_nonnegative_ms, fence_arg, with_number,
  after_args, with_reply, max_dispatch_slices,
}
use pulse.Coordination.Execution.Store.{text_of}
use pulse.Coordination.Dispatch.Store.{
  DueStateStore, key_for, leader_is_current, missing_in, acked_in, indexes, parse_missing_slices,
}

-- The checks of `prepare_window` on its argument, in order.
unfoldable pub check_spec : String → DispatchSpec → Result CoordinationError (Unit {0})
check_spec operation spec =
    if is_blank spec.scenario_id
    then err (invalid_state operation "scenario id must not be empty")
    else if spec.contract_version == 0
    then err (invalid_state operation "contract version must be positive")
    else if (spec.total_slices == 0) || ltb max_dispatch_slices spec.total_slices
    then err (invalid_state operation "total slices must be between 1 and 4096")
    else if is_blank spec.plan_fingerprint
    then err (invalid_state operation "plan fingerprint must not be empty")
    else ok tt

abbrev pub repeat_args : String → RepeatPolicy → Result CoordinationError (String × ℕ)
repeat_args operation once = ok ("once", 0)
repeat_args operation (every interval) = elim (duration_ms operation interval) [
  | ok ms ↦ ok ("every", ms)
  | err e ↦ err e
]

-- 'v' .. contract_version .. ':s' .. string.len(scenario_id) .. ':' .. scenario_id .. ...
unfoldable pub window_id : ℕ → String → ℕ → ℕ → String
window_id contract_version scenario_id scheduled_at total_slices =
    "v"
    <> decimal contract_version
    <> ":s"
    <> decimal (byte_len scenario_id)
    <> ":"
    <> scenario_id
    <> ":w"
    <> decimal scheduled_at
    <> ":n"
    <> decimal total_slices

-- The fields of a new window.
abbrev pub window_fields : DispatchSpec → String → ℕ → ℕ → List (Field × Value)
window_fields spec repeat_kind repeat_ms scheduled_at =
    (
      named "active_window_id",
      text (window_id spec.contract_version spec.scenario_id scheduled_at spec.total_slices),
    )
    ∷ (named "active_scheduled_at", num scheduled_at)
    ∷ (named "active_contract_version", num spec.contract_version)
    ∷ (named "active_total_slices", num spec.total_slices)
    ∷ (named "active_repeat_kind", text repeat_kind)
    ∷ (named "active_repeat_ms", num repeat_ms)
    ∷ (named "active_plan_fingerprint", text spec.plan_fingerprint)
    ∷ (named "active_ack_count", num 0)
    ∷ []

-- The reply: code, window, scheduled time, missing slices, retry, message.
abbrev pub PrepareReply : Type 0
PrepareReply = ℕ × String × ℕ × List ℕ × ℕ × String

-- A reply table ends at its first `nil`, and is then of another type than the client reads.
abbrev pub replying :
    {S : Type 0} → S → Option ℕ → (ℕ → PrepareReply) → S × Result String PrepareReply
replying s (some at) f = (s, ok (f at))
replying s none f = (s, err "Response was of incompatible type")

unfoldable pub prepare_outcome :
    DispatchSpec → PrepareReply → Result CoordinationError DispatchOutcome
prepare_outcome spec (code, window, scheduled_at, missing_raw, retry_after, message) =
    if code == 1
    then elim (parse_missing_slices "dispatch_prepare_window" missing_raw spec.total_slices) [
      | err e ↦ err e
      | ok missing ↦
          if is_empty missing
          then err (
              invalid_state "dispatch_prepare_window"
                "active window has no missing slices but is not complete")
          else ok (
              ready (record {
                scenario_id = spec.scenario_id;
                run_id = window;
                window_id = window;
                scheduled_at_unix_ms = scheduled_at;
                contract_version = spec.contract_version;
                total_slices = spec.total_slices;
                plan_fingerprint = spec.plan_fingerprint;
                missing_slices = missing;
              }))
    ]
    else if code == 2
    then ok (not_due (duration_from_nonnegative_ms retry_after))
    else if code == 3
    then ok finished
    else if code == 4
    then err (stale_owner "dispatch_prepare_window")
    else if code == 5
    then err (invalid_state "dispatch_prepare_window" message)
    else err
        (invalid_state "dispatch_prepare_window" ("unknown Redis response code " <> decimal code))

module _ {S : Type 0} (r : Redis S) where
  -- Whether the active window was opened with this spec.
  unfoldable pub same_spec : String → DispatchSpec → String → ℕ → S → Bool
  same_spec k spec repeat_kind repeat_ms s =
      is_value (r.hget k (named "active_contract_version") s) (num spec.contract_version)
      && is_value (r.hget k (named "active_total_slices") s) (num spec.total_slices)
      && is_value (r.hget k (named "active_repeat_kind") s) (text repeat_kind)
      && is_value (r.hget k (named "active_repeat_ms") s) (num repeat_ms)
      && is_value (r.hget k (named "active_plan_fingerprint") s) (text spec.plan_fingerprint)

  -- The branch of the script for a window that is active.
  unfoldable pub resume_script : String → DispatchSpec → String → ℕ → Value → Script S PrepareReply
  resume_script k spec repeat_kind repeat_ms active_window s =
      if not (same_spec k spec repeat_kind repeat_ms s)
      then (s, ok (5, "", 0, [], 0, "active window metadata does not match current dispatch spec"))
      else if not (
          is_value (r.hget k (named "active_ack_count") s)
            (num (acked_in r k s 0 spec.total_slices)))
      then (s, ok (5, "", 0, [], 0, "active acknowledgement count is inconsistent"))
      else replying s (number_of (r.hget k (named "active_scheduled_at") s))
          (λ at. (1, text_of (some active_window), at, missing_in r k s 0 spec.total_slices, 0, ""))

  -- The branch for none, which opens a window that is due.
  unfoldable pub open_script : String → DispatchSpec → String → ℕ → Script S PrepareReply
  open_script k spec repeat_kind repeat_ms s =
      if str_eq repeat_kind "once" && is_value (r.hget k (named "once_done") s) (num 1)
      then (s, ok (3, "", 0, [], 0, ""))
      else with_number s (number_or (now_ms r s) (r.hget k (named "next_at") s)) (λ next_at.
        if ltb (now_ms r s) next_at then (s, ok (2, "", 0, [], next_at - now_ms r s, "")) else (
          hset_all r k (window_fields spec repeat_kind repeat_ms next_at) s,
          ok (
            1,
            window_id spec.contract_version spec.scenario_id next_at spec.total_slices,
            next_at,
            indexes 0 spec.total_slices,
            0,
            "",
          ),
        ))

  unfoldable pub prepare_script :
      String → String → String → ℕ → DispatchSpec → String → ℕ → Script S PrepareReply
  unfolding open_script resume_script
  prepare_script lock k owner fence spec repeat_kind repeat_ms s =
      if not (leader_is_current r lock owner fence s)
      then (s, ok (4, "", 0, [], 0, "leader lease is stale"))
      else elim (r.hget k (named "active_window_id") s) [
        | some active_window ↦ resume_script k spec repeat_kind repeat_ms active_window s
        | none ↦ open_script k spec repeat_kind repeat_ms s
      ]

  unfoldable pub prepare_window :
      DueStateStore
      → Link
      → DispatchSpec
      → LeaderLease
      → S
      → S × Result CoordinationError DispatchOutcome
  prepare_window store link spec leader s =
      after_args s (check_spec "dispatch_prepare_window" spec) (λ _.
        after_args s (repeat_args "dispatch_prepare_window" spec.repeat) (λ (kind, ms).
          after_args s (fence_arg "dispatch_prepare_window" leader.fencing_token) (λ fence.
            with_reply
              (invoke "dispatch_prepare_window" link
                (prepare_script leader.lock_key (key_for store spec.scenario_id) leader.owner_token
                  fence spec kind ms)
                s)
              (prepare_outcome spec))))
