-- ===== src/Coordination/Leader.antt =====
-- `RedisLeaderElector` of src/infrastructure/redis/mod.rs.
pub mod Records
pub mod Renewal
pub mod Exclusion
pub mod Fences
use pulse.Prelude.{
  ℕ, suc, ◌+◌, String, List, [], ◌∷◌, Bool, not, ◌&&◌, ◌||◌, Option, none, some, ◌==◌, str_eq, ◌<>◌,
  decimal, if◌then◌else◌, Duration, from_millis, Result, ok, err,
}
use pulse.Coordination.Types.{
  CoordinationError, invalid_state, stale_owner, LeaderLease, LeadershipOutcome, acquired, renewed,
  follower,
}
use pulse.Coordination.Redis.{
  named, Value, text, num, Ttl, absent, persistent, left, is_value, Redis, now_ms, hset_all,
}
use pulse.Coordination.Client.{
  Link, Script, invoke, duration_ms, fence_arg, duration_from_nonnegative_ms, after_args,
  with_reply,
}

-- The elector's configuration.
pub record Elector : Type 0 where
  pub lock_key : String
  pub fence_key : String
  pub node_id : String
  pub lock_ttl : Duration

unfoldable pub new : String → String → ℕ → Elector
new lock_key node_id lock_ttl_ms = record {
  lock_key = lock_key;
  fence_key = lock_key <> ":fence";
  node_id = node_id;
  lock_ttl = from_millis lock_ttl_ms;
}

-- The reply of the acquisition: code, fence, expiry, retry, message.
abbrev pub AcquireReply : Type 0
AcquireReply = ℕ × ℕ × ℕ × ℕ × String

-- `owner` is `node_id:uuid` with a fresh uuid.
unfoldable pub acquire_outcome :
    Elector → String → AcquireReply → Result CoordinationError LeadershipOutcome
acquire_outcome e owner (code, fence, expires_at, retry_after, message) =
    if code == 1
    then ok (
        acquired (record {
          lock_key = e.lock_key;
          node_id = e.node_id;
          owner_token = owner;
          fencing_token = fence;
          expires_at_unix_ms = expires_at;
          ttl = e.lock_ttl;
        }))
    else if code == 2
    then ok (follower (duration_from_nonnegative_ms retry_after))
    else if code == 3
    then err (invalid_state "leader_acquire" message)
    else err (invalid_state "leader_acquire" ("unknown Redis response code " <> decimal code))

unfoldable pub renew_outcome :
    Elector → LeaderLease → ℕ × ℕ × String → Result CoordinationError LeadershipOutcome
renew_outcome e current (code, expires_at, message) =
    if code == 1
    then ok (renewed (record current { expires_at_unix_ms = expires_at; ttl = e.lock_ttl }))
    else if code == 2
    then err (stale_owner "leader_renew")
    else err (
        invalid_state "leader_renew"
          ("unknown Redis response code " <> decimal code <> ": " <> message))

unfoldable pub relinquish_outcome : ℕ → Result CoordinationError (Unit {0})
relinquish_outcome code =
    if code == 0 || code == 1
    then ok tt
    else if code == 2
    then err (stale_owner "leader_relinquish")
    else err (invalid_state "leader_relinquish" ("unknown Redis response code " <> decimal code))

-- `lease.lock_key != self.lock_key || lease.node_id != self.node_id`
abbrev pub foreign : Elector → LeaderLease → Bool
foreign e lease = not (str_eq lease.lock_key e.lock_key) || not (str_eq lease.node_id e.node_id)

module _ {S : Type 0} (r : Redis S) where
  -- The owner and the fence of the leader record against a lease.
  abbrev pub owned : String → String → ℕ → S → Bool
  owned k owner fence s =
      is_value (r.hget k (named "owner") s) (text owner)
      && is_value (r.hget k (named "fence") s) (num fence)

  -- `tonumber(now) + tonumber(ARGV[3])` over the state in which the record has been written.
  unfoldable pub acquire_script : String → String → String → String → ℕ → Script S AcquireReply
  acquire_script k fence_key owner node_id ttl_ms s =
      if not (r.exists k s)
      then (
        r.pexpire k ttl_ms (
            hset_all r k
              ((named "owner", text owner)
                ∷ (named "node_id", text node_id)
                ∷ (named "fence", num (r.counter fence_key (r.incr fence_key s)))
                ∷ [])
              (r.incr fence_key s)),
        ok (1, r.counter fence_key (r.incr fence_key s), now_ms r s + ttl_ms, 0, ""),
      )
      else elim (r.pttl k s) [
        | left n ↦ (s, ok (2, 0, 0, n, ""))
        | _ ↦ (s, ok (3, 0, 0, 0, "leader record has no expiry"))
      ]

  unfoldable pub acquire :
      Elector → String → Link → S → S × Result CoordinationError LeadershipOutcome
  acquire e owner link s = after_args s (duration_ms "leader_acquire" e.lock_ttl) (λ ttl_ms.
      with_reply
        (invoke "leader_acquire" link (acquire_script e.lock_key e.fence_key owner e.node_id ttl_ms)
          s)
        (acquire_outcome e owner))

  unfoldable pub renew_script : String → String → ℕ → ℕ → Script S (ℕ × ℕ × String)
  renew_script k owner fence ttl_ms s =
      if not (r.exists k s)
      then (s, ok (2, 0, "leader record is absent"))
      else if not (owned k owner fence s)
      then (s, ok (2, 0, "leader owner or fence changed"))
      else (r.pexpire k ttl_ms s, ok (1, now_ms r s + ttl_ms, ""))

  unfoldable pub renew :
      Elector → Link → LeaderLease → S → S × Result CoordinationError LeadershipOutcome
  renew e link current s =
      if foreign e current
      then (s, err (invalid_state "leader_renew" "lease belongs to a different elector"))
      else after_args s (duration_ms "leader_renew" e.lock_ttl) (λ ttl_ms.
        after_args s (fence_arg "leader_renew" current.fencing_token) (λ fence.
          with_reply
            (invoke "leader_renew" link (renew_script e.lock_key current.owner_token fence ttl_ms)
              s)
            (renew_outcome e current)))

  unfoldable pub acquire_or_renew :
      Elector
      → String
      → Link
      → Option LeaderLease
      → S
      → S × Result CoordinationError LeadershipOutcome
  acquire_or_renew e owner link none s = acquire e owner link s
  acquire_or_renew e owner link (some lease) s = renew e link lease s

  unfoldable pub relinquish_script : String → String → ℕ → Script S ℕ
  relinquish_script k owner fence s =
      if not (r.exists k s)
      then (s, ok 0)
      else if not (owned k owner fence s)
      then (s, ok 2)
      else (r.del k s, ok 1)

  unfoldable pub relinquish :
      Elector → Link → LeaderLease → S → S × Result CoordinationError (Unit {0})
  relinquish e link lease s =
      if foreign e lease
      then (s, err (invalid_state "leader_relinquish" "lease belongs to a different elector"))
      else after_args s (fence_arg "leader_relinquish" lease.fencing_token) (λ fence.
        with_reply
          (invoke "leader_relinquish" link (relinquish_script e.lock_key lease.owner_token fence) s)
          relinquish_outcome)
