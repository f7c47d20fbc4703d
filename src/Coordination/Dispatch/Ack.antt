-- ===== src/Coordination/Dispatch/Ack.antt =====
-- `ack_slice` of src/infrastructure/redis/mod.rs.
use pulse.Prelude.{
  ℕ, ◌-◌, ◌+◌, String, List, [], ◌∷◌, not, ◌||◌, Option, none, some, ltb, leb, ◌==◌, ◌<>◌, decimal,
  if◌then◌else◌, Result, ok, err, map, is_some,
}
use pulse.Coordination.Types.{
  CoordinationError, invalid_state, stale_owner, LeaderLease, DispatchWindow, DispatchProgress,
  pending, complete,
}
use pulse.Coordination.Redis.{
  Field, named, ack, Value, text, num, is_value, number_or, number_of, Redis, now_ms, hset_all,
  hdel_all,
}
use pulse.Coordination.Client.{
  Link, Script, invoke, fence_arg, with_number, after_args, with_reply, max_dispatch_slices,
}
use pulse.Coordination.Dispatch.Store.{DueStateStore, key_for, leader_is_current, indexes}

-- The reply: code, remaining slices, message.
abbrev pub AckReply : Type 0
AckReply = ℕ × ℕ × String

-- The conversion of `remaining` to u32 cannot fail below 2^32.
unfoldable pub ack_outcome : AckReply → Result CoordinationError DispatchProgress
ack_outcome (code, remaining, message) =
    if code == 1
    then (if ltb 4294967295 remaining
        then err (invalid_state "dispatch_ack_slice" "remaining slice count is out of range")
        else ok (pending remaining))
    else if code == 2
    then ok complete
    else if code == 4
    then err (stale_owner "dispatch_ack_slice")
    else if code == 5
    then err (invalid_state "dispatch_ack_slice" message)
    else err (invalid_state "dispatch_ack_slice" ("unknown Redis response code " <> decimal code))

-- The fields of a window that its completion removes after the acknowledgements.
abbrev pub active_fields : List Field
active_fields =
    named "active_window_id"
    ∷ named "active_scheduled_at"
    ∷ named "active_contract_version"
    ∷ named "active_total_slices"
    ∷ named "active_repeat_kind"
    ∷ named "active_repeat_ms"
    ∷ named "active_plan_fingerprint"
    ∷ named "active_ack_count"
    ∷ []

-- HINCRBY by one, on a field that the script has found to be a number or missing.
abbrev incremented : Option Value → Value
incremented none = num 1
incremented (some (num n)) = num (n + 1)
incremented (some (text t)) = text t

module _ {S : Type 0} (r : Redis S) where
  -- HSETNX of the acknowledgement, and HINCRBY of the count where it is new.
  unfoldable pub record_ack : String → ℕ → S → S
  record_ack k slice_index s =
      if is_some (r.hget k (ack slice_index) s)
      then s
      else r.hset k (named "active_ack_count")
          (incremented (r.hget k (named "active_ack_count") (r.hset k (ack slice_index) (num 1) s)))
          (r.hset k (ack slice_index) (num 1) s)

  -- `once_done` and `next_at` of a completed window; `repeat_ms` is 0 where it is not read.
  unfoldable pub schedule_next : String → Option Value → ℕ → ℕ → S → S
  schedule_next k repeat_kind scheduled_at repeat_ms s =
      if is_value repeat_kind (text "once")
      then r.hdel k (named "next_at") (r.hset k (named "once_done") (num 1) s)
      else r.hset k (named "next_at") (num (scheduled_at + repeat_ms)) s

  unfoldable pub complete_window : String → Value → Option Value → ℕ → ℕ → ℕ → S → S
  complete_window k active_window repeat_kind scheduled_at repeat_ms total_slices s =
      hdel_all r k active_fields (
        hdel_all r k (map ack (indexes 0 total_slices)) (
          hset_all r k
            ((named "last_completed_window", active_window)
              ∷ (named "last_completed_at", num (now_ms r s))
              ∷ [])
            (schedule_next k repeat_kind scheduled_at repeat_ms s)))

  -- The script after its guards: the acknowledgement, and the completion at the last one.
  unfoldable pub settle_ack : String → Value → Option Value → ℕ → ℕ → ℕ → ℕ → Script S AckReply
  settle_ack k active_window repeat_kind scheduled_at repeat_ms total_slices slice_index s =
      let acked = record_ack k slice_index s in
      with_number acked (number_or 0 (r.hget k (named "active_ack_count") acked)) (λ ack_count.
        if ltb ack_count total_slices
        then (acked, ok (1, total_slices - ack_count, ""))
        else if ltb total_slices ack_count
        then (acked, ok (5, 0, "acknowledgement count exceeds slice count"))
        else (
          complete_window k active_window repeat_kind scheduled_at repeat_ms total_slices acked,
          ok (2, 0, ""),
        ))

  -- The guards on the schedule's fields, once `repeat_ms` has been read.
  unfoldable pub checked_ack : String → Value → Option Value → ℕ → ℕ → ℕ → Script S AckReply
  unfolding settle_ack
  checked_ack k active_window repeat_kind repeat_ms total_slices slice_index s =
      elim (number_of (r.hget k (named "active_scheduled_at") s)) [
        | none ↦ (s, ok (5, 0, "active schedule timestamp is invalid"))
        | some scheduled_at ↦ elim (r.hget k (named "active_ack_count") s) [
          | none ↦ (s, ok (5, 0, "acknowledgement count is invalid"))
          | some count ↦ with_number s (number_or 0 (some count)) (λ previous_ack_count.
              if ltb total_slices previous_ack_count
              then (s, ok (5, 0, "acknowledgement count is invalid"))
              else settle_ack k active_window repeat_kind scheduled_at repeat_ms total_slices
                  slice_index s)
        ]
      ]

  -- `repeat_ms` is compared only where the policy is 'every'.
  unfoldable pub active_ack : String → DispatchWindow → Value → ℕ → Script S AckReply
  unfolding checked_ack
  active_ack k window active_window slice_index s =
      let repeat_kind = r.hget k (named "active_repeat_kind") s in
      if not (is_value (r.hget k (named "active_total_slices") s) (num window.total_slices))
      then (s, ok (5, 0, "dispatch slice count changed"))
      else if not
          (is_value (r.hget k (named "active_plan_fingerprint") s) (text window.plan_fingerprint))
      then (s, ok (5, 0, "dispatch plan fingerprint changed"))
      else if leb window.total_slices slice_index
      then (s, ok (5, 0, "slice index is outside the active window"))
      else if is_value repeat_kind (text "once")
      then checked_ack k active_window repeat_kind 0 window.total_slices slice_index s
      else if not (is_value repeat_kind (text "every"))
      then (s, ok (5, 0, "active repeat policy is invalid"))
      else with_number s (number_or 0 (r.hget k (named "active_repeat_ms") s)) (λ repeat_ms.
        if repeat_ms == 0
        then (s, ok (5, 0, "active repeat policy is invalid"))
        else checked_ack k active_window repeat_kind repeat_ms window.total_slices slice_index s)

  unfoldable pub ack_script : String → String → String → ℕ → DispatchWindow → ℕ → Script S AckReply
  unfolding active_ack
  ack_script lock k owner fence window slice_index s =
      if not (leader_is_current r lock owner fence s)
      then (s, ok (4, 0, "leader lease is stale"))
      else elim (r.hget k (named "active_window_id") s) [
        | none ↦
            if is_value (r.hget k (named "last_completed_window") s) (text window.window_id)
            then (s, ok (2, 0, ""))
            else (s, ok (5, 0, "dispatch window is not active"))
        | some active_window ↦
            if not (is_value (some active_window) (text window.window_id))
            then (s, ok (5, 0, "a different dispatch window is active"))
            else active_ack k window active_window slice_index s
      ]

  unfoldable pub ack_slice :
      DueStateStore
      → Link
      → DispatchWindow
      → ℕ
      → LeaderLease
      → S
      → S × Result CoordinationError DispatchProgress
  ack_slice store link window slice_index leader s =
      if leb window.total_slices slice_index
      then (
        s,
        err (invalid_state "dispatch_ack_slice" "slice index is outside the dispatch window"),
      )
      else if (window.total_slices == 0) || ltb max_dispatch_slices window.total_slices
      then (
        s,
        err (invalid_state "dispatch_ack_slice" "dispatch window has an invalid slice count"),
      )
      else after_args s (fence_arg "dispatch_ack_slice" leader.fencing_token) (λ fence.
        with_reply
          (invoke "dispatch_ack_slice" link
            (ack_script leader.lock_key (key_for store window.scenario_id) leader.owner_token fence
              window slice_index)
            s)
          ack_outcome)
