-- ===== src/Coordination/Execution/Settle.antt =====
-- `renew`, `complete` and `release` of `RedisIdempotencyStore`, src/infrastructure/redis/mod.rs.
use pulse.Prelude.{
  ℕ, ◌+◌, String, [], ◌∷◌, not, leb, ◌==◌, ◌<>◌, decimal, if◌then◌else◌, Result, ok, err,
}
use pulse.Coordination.Types.{
  CoordinationError, invalid_state, stale_owner, TerminalOutcome, as_str, CompletedOutcome,
  ExecutionLease, ReleaseOutcome, released, already_absent,
}
use pulse.Coordination.Redis.{named, text, num, is_value, number_or, Redis, now_ms, hset_all}
use pulse.Coordination.Client.{
  Link, Script, invoke, duration_ms, with_number, after_args, with_reply,
}
use pulse.Coordination.Execution.Store.{
  ExecutionStore, key_for, running_retention, is_terminal, same_identity,
}

-- A reply with a code, a number and a message.
abbrev pub Reply : Type 0
Reply = ℕ × ℕ × String

unfoldable pub renew_outcome :
    ExecutionStore → ExecutionLease → Reply → Result CoordinationError ExecutionLease
renew_outcome store lease (code, expires_at, message) =
    if code == 1
    then ok (record lease { expires_at_unix_ms = expires_at; ttl = store.lease_ttl })
    else if code == 2
    then err (stale_owner "execution_renew")
    else if code == 3
    then err (invalid_state "execution_renew" message)
    else err (invalid_state "execution_renew" ("unknown Redis response code " <> decimal code))

unfoldable pub complete_outcome :
    TerminalOutcome → Reply → Result CoordinationError CompletedOutcome
complete_outcome outcome (code, completed_at, message) =
    if code == 1
    then ok (record { outcome = outcome; completed_at_unix_ms = completed_at })
    else if code == 2
    then err (stale_owner "execution_complete")
    else if code == 3
    then err (invalid_state "execution_complete" message)
    else err (invalid_state "execution_complete" ("unknown Redis response code " <> decimal code))

unfoldable pub release_outcome : ℕ × String → Result CoordinationError ReleaseOutcome
release_outcome (code, message) =
    if code == 0
    then ok already_absent
    else if code == 1
    then ok released
    else if code == 2
    then err (stale_owner "execution_release")
    else if code == 3
    then err (invalid_state "execution_release" message)
    else err (invalid_state "execution_release" ("unknown Redis response code " <> decimal code))

module _ {S : Type 0} (r : Redis S) where
  unfoldable pub renew_script : String → String → String → ℕ → ℕ → ℕ → Script S Reply
  renew_script k owner execution_key attempt lease_ttl_ms retention_ms s =
      if not (r.exists k s)
      then (s, ok (2, 0, "execution record is absent"))
      else if not (same_identity r k execution_key attempt s)
      then (s, ok (3, 0, "execution identity does not match record"))
      else if not (is_value (r.hget k (named "state") s) (text "running"))
      then (s, ok (3, 0, "execution is no longer running"))
      else if not (is_value (r.hget k (named "owner") s) (text owner))
      then (s, ok (2, 0, "execution owner changed"))
      else with_number s (number_or 0 (r.hget k (named "lease_until") s)) (λ current_until.
        if leb current_until (now_ms r s) then (s, ok (2, 0, "execution lease expired")) else (
          r.pexpire k retention_ms
              (r.hset k (named "lease_until") (num (now_ms r s + lease_ttl_ms)) s),
          ok (1, now_ms r s + lease_ttl_ms, ""),
        ))

  unfoldable pub renew :
      ExecutionStore → Link → ExecutionLease → S → S × Result CoordinationError ExecutionLease
  renew store link lease s =
      after_args s (duration_ms "execution_renew" store.lease_ttl) (λ lease_ttl_ms.
        after_args s (duration_ms "execution_renew" (running_retention store)) (λ retention_ms.
          with_reply
            (invoke "execution_renew" link
              (renew_script (key_for store lease.execution_key lease.attempt) lease.owner_token
                lease.execution_key lease.attempt lease_ttl_ms retention_ms)
              s)
            (renew_outcome store lease)))

  unfoldable pub complete_script : String → String → String → ℕ → String → ℕ → Script S Reply
  complete_script k owner execution_key attempt outcome terminal_ttl_ms s =
      if not (r.exists k s)
      then (s, ok (2, 0, "execution record is absent"))
      else if not (same_identity r k execution_key attempt s)
      then (s, ok (3, 0, "execution identity does not match record"))
      else if not (is_value (r.hget k (named "owner") s) (text owner))
      then (s, ok (2, 0, "execution owner changed"))
      else if is_terminal (r.hget k (named "state") s)
      then (if not (is_value (r.hget k (named "state") s) (text outcome))
          then (s, ok (3, 0, "execution already has a different terminal outcome"))
          else with_number s (number_or 0 (r.hget k (named "completed_at") s))
              (λ completed_at. (s, ok (1, completed_at, ""))))
      else if not (is_value (r.hget k (named "state") s) (text "running"))
      then (s, ok (3, 0, "execution state is unknown"))
      else with_number s (number_or 0 (r.hget k (named "lease_until") s)) (λ lease_until.
        if leb lease_until (now_ms r s) then (s, ok (2, 0, "execution lease expired")) else (
          r.pexpire k terminal_ttl_ms (
              r.hdel k (named "lease_until") (
                hset_all r k
                  ((named "state", text outcome) ∷ (named "completed_at", num (now_ms r s)) ∷ [])
                  s)),
          ok (1, now_ms r s, ""),
        ))

  unfoldable pub complete :
      ExecutionStore
      → Link
      → ExecutionLease
      → TerminalOutcome
      → S
      → S × Result CoordinationError CompletedOutcome
  complete store link lease outcome s =
      after_args s (duration_ms "execution_complete" store.terminal_ttl) (λ terminal_ttl_ms.
        with_reply
          (invoke "execution_complete" link
            (complete_script (key_for store lease.execution_key lease.attempt) lease.owner_token
              lease.execution_key lease.attempt (as_str outcome) terminal_ttl_ms)
            s)
          (complete_outcome outcome))

  unfoldable pub release_script : String → String → String → ℕ → Script S (ℕ × String)
  release_script k owner execution_key attempt s =
      if not (r.exists k s)
      then (s, ok (0, ""))
      else if not (same_identity r k execution_key attempt s)
      then (s, ok (3, "execution identity does not match record"))
      else if not (is_value (r.hget k (named "state") s) (text "running"))
      then (s, ok (3, "execution is no longer running"))
      else if not (is_value (r.hget k (named "owner") s) (text owner))
      then (s, ok (2, "execution owner changed"))
      else with_number s (number_or 0 (r.hget k (named "lease_until") s)) (λ lease_until.
        if leb lease_until (now_ms r s)
        then (s, ok (2, "execution lease expired"))
        else (r.del k s, ok (1, "")))

  unfoldable pub release :
      ExecutionStore → Link → ExecutionLease → S → S × Result CoordinationError ReleaseOutcome
  release store link lease s =
      with_reply
        (invoke "execution_release" link
          (release_script (key_for store lease.execution_key lease.attempt) lease.owner_token
            lease.execution_key lease.attempt)
          s)
        release_outcome
