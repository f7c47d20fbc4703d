-- ===== src/Coordination/Execution/Claim.antt =====
-- `RedisIdempotencyStore::claim` of src/infrastructure/redis/mod.rs.
use pulse.Prelude.{
  ℕ, ◌+◌, ◌-◌, String, List, [], ◌∷◌, not, none, some, leb, ◌==◌, ◌<>◌, decimal, is_blank,
  if◌then◌else◌, Result, ok, err,
}
use pulse.Coordination.Types.{
  CoordinationError, invalid_state, parse_outcome, ExecutionClaim, ClaimOutcome, lease_acquired,
  already_completed, busy,
}
use pulse.Coordination.Redis.{
  Field, named, Value, text, num, is_value, number_or, Redis, now_ms, hset_all,
}
use pulse.Coordination.Client.{
  Link, Script, invoke, duration_ms, duration_from_nonnegative_ms, with_number, after_args,
  with_reply,
}
use pulse.Coordination.Execution.Store.{
  ExecutionStore, key_for, running_retention, is_terminal, text_of, same_identity,
}

-- The fields that a first claim writes.
abbrev pub running_fields : String → String → ℕ → ℕ → List (Field × Value)
running_fields owner execution_key attempt lease_until =
    (named "state", text "running")
    ∷ (named "owner", text owner)
    ∷ (named "execution_key", text execution_key)
    ∷ (named "attempt", num attempt)
    ∷ (named "lease_until", num lease_until)
    ∷ (named "recovery_count", num 0)
    ∷ []

-- What a recovery writes, by one HSET and, when that is done, by HINCRBY.
abbrev pub recovery_fields : String → ℕ → ℕ → List (Field × Value)
recovery_fields owner lease_until now =
    (named "owner", text owner)
    ∷ (named "lease_until", num lease_until)
    ∷ (named "recovered_at", num now)
    ∷ []

abbrev pub counted_recovery : String → ℕ → ℕ → ℕ → List (Field × Value)
counted_recovery owner lease_until now recoveries =
    (named "owner", text owner)
    ∷ (named "lease_until", num lease_until)
    ∷ (named "recovered_at", num now)
    ∷ (named "recovery_count", num (recoveries + 1))
    ∷ []

-- The reply of the claim script: code, lease or retry, recovered, state, completion, message.
abbrev pub ClaimReply : Type 0
ClaimReply = ℕ × ℕ × ℕ × String × ℕ × String

unfoldable pub claim_outcome :
    ExecutionStore → String → ExecutionClaim → ClaimReply → Result CoordinationError ClaimOutcome
claim_outcome store owner claim (code, lease_or_retry, recovered, state, completed_at, message) =
    if code == 1
    then ok (
        lease_acquired (record {
          execution_key = claim.execution_key;
          attempt = claim.attempt;
          owner_token = owner;
          expires_at_unix_ms = lease_or_retry;
          ttl = store.lease_ttl;
          recovered = recovered == 1;
        }))
    else if code == 2
    then elim (parse_outcome state) [
      | err e ↦ err (invalid_state "execution_claim" e)
      | ok outcome ↦
          ok (already_completed (record { outcome = outcome; completed_at_unix_ms = completed_at }))
    ]
    else if code == 3
    then ok (busy (duration_from_nonnegative_ms lease_or_retry))
    else if code == 4
    then err (invalid_state "execution_claim" message)
    else err (invalid_state "execution_claim" ("unknown Redis response code " <> decimal code))

module _ {S : Type 0} (r : Redis S) where
  unfoldable pub claim_script : String → String → String → ℕ → ℕ → ℕ → Script S ClaimReply
  claim_script k owner execution_key attempt lease_ttl_ms retention_ms s =
      let now = now_ms r s in
      let lease_until = now + lease_ttl_ms in
      if not (r.exists k s)
      then (
        r.pexpire k retention_ms
            (hset_all r k (running_fields owner execution_key attempt lease_until) s),
        ok (1, lease_until, 0, "", 0, ""),
      )
      else if not (same_identity r k execution_key attempt s)
      then (s, ok (4, 0, 0, "", 0, "execution identity does not match record"))
      else if is_terminal (r.hget k (named "state") s)
      then with_number s (number_or 0 (r.hget k (named "completed_at") s)) (λ completed_at.
        (s, ok (2, 0, 0, text_of (r.hget k (named "state") s), completed_at, "")))
      else if not (is_value (r.hget k (named "state") s) (text "running"))
      then (s, ok (4, 0, 0, "", 0, "execution state is unknown"))
      else with_number s (number_or 0 (r.hget k (named "lease_until") s)) (λ current_until.
        if leb current_until now
        then elim (number_or 0 (r.hget k (named "recovery_count") s)) [
          | none ↦ (
            hset_all r k (recovery_fields owner lease_until now) s,
            err "ERR hash value is not an integer",
          )
          | some recoveries ↦ (
            r.pexpire k retention_ms
                (hset_all r k (counted_recovery owner lease_until now recoveries) s),
            ok (1, lease_until, 1, "", 0, ""),
          )
        ]
        else (s, ok (3, current_until - now, 0, "", 0, "")))

  -- `owner` is the fresh uuid of this claim.
  unfoldable pub claim :
      ExecutionStore
      → String
      → Link
      → ExecutionClaim
      → S
      → S × Result CoordinationError ClaimOutcome
  claim store owner link c s =
      if is_blank c.execution_key
      then (s, err (invalid_state "execution_claim" "execution key must not be empty"))
      else after_args s (duration_ms "execution_claim" store.lease_ttl) (λ lease_ttl_ms.
        after_args s (duration_ms "execution_claim" (running_retention store)) (λ retention_ms.
          with_reply
            (invoke "execution_claim" link
              (claim_script (key_for store c.execution_key c.attempt) owner c.execution_key
                c.attempt lease_ttl_ms retention_ms)
              s)
            (claim_outcome store owner c)))
