-- ===== src/Coordination/Execution/Fencing.antt =====
-- A lease that ran out is recovered, and its former owner can settle nothing any more.
use pulse.Prelude.{
  ℕ, ◌+◌, ◌≤◌, ◌<◌, String, true, ◌≡◌, ◌≢◌, arith, eq_refl, eq_iff, as_millis, ok, err,
}
use pulse.Coordination.Types.{
  stale_owner, TerminalOutcome, as_str, ExecutionClaim, ExecutionLease, lease_acquired,
}
use pulse.Coordination.Redis.{Redis, RedisLaws, now_ms}
use pulse.Coordination.Client.{up, invoke, duration_ms}
use pulse.Coordination.Execution.Store.{ExecutionStore, running_retention}
use pulse.Coordination.Execution.Claim.{claim_outcome, claim}
use pulse.Coordination.Execution.Settle.{
  renew_script, renew_outcome, renew, complete_script, complete_outcome, complete, release_script,
  release_outcome, release,
}
use pulse.Coordination.Execution.Records.{Running}
use pulse.Coordination.Execution.Exclusion.{
  Granted, claim-Granted, Running-elapse, claim_script-recovers,
}

module _ {S : Type 0} (r : Redis S) (laws : RedisLaws r) where
  open laws use {now_elapse}

  -- A lease that has run out, of a record that is still kept, goes to the next claimant as a
  -- recovered lease of full length.
  pub claim_recovers :
      (store : ExecutionStore) (first second : String) (c : ExecutionClaim) (s s' : S)
      (lease : ExecutionLease) (d : ℕ)
      → claim r store first up c s ≡ (s', ok (lease_acquired lease))
      → as_millis store.lease_ttl ≤ d
      → d < as_millis (running_retention store)
      → (claim r store second up c (r.elapse d s')).1
        ≡ ok (
            lease_acquired (record {
              execution_key = c.execution_key;
              attempt = c.attempt;
              owner_token = second;
              expires_at_unix_ms = now_ms r s' + d + as_millis store.lease_ttl;
              ttl = store.lease_ttl;
              recovered = true;
            }))
  unfolding claim invoke claim_outcome
  claim_recovers store first second c s s' lease d h l k =
      let g : Granted r laws store first c s s' =
        rw h at (claim-Granted r laws store first c s lease (rw h)) in
      let later = Running-elapse r laws _ _ _ _ _ _ d s' g.held k in
      let granted =
        claim_script-recovers r laws _ _ _ _ _ _ (r.elapse d s') second (as_millis store.lease_ttl)
          (as_millis (running_retention store)) later (omega (arith, now_elapse d s', g.clock)) in
      ground (arith, g.named_key, g.lease_ok, g.keep_ok, granted, now_elapse d s')

  module _ (k ek : String) (attempt : ℕ) (owner : String) (until kept : ℕ) (s : S) (former : String)
      (held : Running r laws k ek attempt owner until kept s) (other : former ≢ owner) where
    renew_script-fenced :
        (ttl keep : ℕ)
        → renew_script r k former ek attempt ttl keep s ≡ (s, ok (2, 0, "execution owner changed"))
    unfolding renew_script
    renew_script-fenced ttl keep = ground (
      arith,
      eq_refl ek,
      eq_iff owner former,
      held.there,
      held.key_is,
      held.attempt_is,
      held.running,
      held.owner_is,
      other,
    )

    complete_script-fenced :
        (outcome : String) (ttl : ℕ)
        → complete_script r k former ek attempt outcome ttl s
          ≡ (s, ok (2, 0, "execution owner changed"))
    unfolding complete_script
    complete_script-fenced outcome ttl = ground (
      arith,
      eq_refl ek,
      eq_iff owner former,
      held.there,
      held.key_is,
      held.attempt_is,
      held.owner_is,
      other,
    )

    release_script-fenced :
        release_script r k former ek attempt s ≡ (s, ok (2, "execution owner changed"))
    unfolding release_script
    release_script-fenced = ground (
      arith,
      eq_refl ek,
      eq_iff owner former,
      held.there,
      held.key_is,
      held.attempt_is,
      held.running,
      held.owner_is,
      other,
    )

  -- While a lease is recorded, a lease of the same attempt with another owner token can neither
  -- renew, nor complete, nor release: each call is refused as stale and changes nothing. The first
  -- two need durations that Redis takes.
  pub other_owner_fenced :
      (store : ExecutionStore) (owner : String) (c : ExecutionClaim) (s s' : S)
      (lease former : ExecutionLease) (outcome : TerminalOutcome) (d t : ℕ)
      → claim r store owner up c s ≡ (s', ok (lease_acquired lease))
      → d < as_millis (running_retention store)
      → former.execution_key ≡ c.execution_key
      → former.attempt ≡ c.attempt
      → former.owner_token ≢ owner
      → duration_ms "execution_complete" store.terminal_ttl ≡ ok t
      → (renew r store up former (r.elapse d s')
          ≡ (r.elapse d s', err (stale_owner "execution_renew")))
        × (complete r store up former outcome (r.elapse d s')
            ≡ (r.elapse d s', err (stale_owner "execution_complete")))
        × (release r store up former (r.elapse d s')
            ≡ (r.elapse d s', err (stale_owner "execution_release")))
  unfolding renew complete release invoke renew_outcome complete_outcome release_outcome duration_ms
  other_owner_fenced store owner c s s' lease former outcome d t h l ek ea other keep =
      let g : Granted r laws store owner c s s' =
        rw h at (claim-Granted r laws store owner c s lease (rw h)) in
      let later = Running-elapse r laws _ _ _ _ _ _ d s' g.held l in
      (
        ground (
          arith,
          ek,
          ea,
          g.lease_ok,
          g.keep_ok,
          renew_script-fenced _ _ _ _ _ _ _ former.owner_token later other
              (as_millis store.lease_ttl) (as_millis (running_retention store)),
        ),
        ground (
          arith,
          ek,
          ea,
          keep,
          complete_script-fenced _ _ _ _ _ _ _ former.owner_token later other (as_str outcome) t,
        ),
        ground (arith, ek, ea, release_script-fenced _ _ _ _ _ _ _ former.owner_token later other),
      )
