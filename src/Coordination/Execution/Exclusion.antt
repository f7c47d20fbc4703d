-- ===== src/Coordination/Execution/Exclusion.antt =====
-- A lease excludes every other claim until it runs out, and then its owner is fenced off.
use pulse.Prelude.{
  ℕ, ◌+◌, ◌-◌, ◌≤◌, ◌<◌, String, false, ◌≡◌, arith, eq_refl, is_blank, as_millis, from_millis, ok,
}
use pulse.Coordination.Types.{ExecutionClaim, ExecutionLease, lease_acquired, busy}
use pulse.Coordination.Redis.{Redis, RedisLaws, now_ms}
use pulse.Coordination.Client.{up, invoke, duration_ms}
use pulse.Coordination.Execution.Store.{ExecutionStore, key_for, running_retention}
use pulse.Coordination.Execution.Claim.{claim_script, claim_outcome, claim}
use pulse.Coordination.Execution.Records.{Running, claim_script_cases}

module _ {S : Type 0} (r : Redis S) (laws : RedisLaws r) where
  open laws use {hget_elapse, exists_elapse, pttl_elapse, now_elapse}

  -- Time changes nothing but the time that the record is kept.
  pub Running-elapse :
      (k ek : String) (attempt : ℕ) (owner : String) (until kept d : ℕ) (s : S)
      → Running r laws k ek attempt owner until kept s
      → d < kept
      → Running r laws k ek attempt owner until (kept - d) (r.elapse d s)
  Running-elapse k ek attempt owner until kept d s h l = record {
    there = ground (arith, exists_elapse k d s);
    key_is = simp hget_elapse (ground arith);
    attempt_is = simp hget_elapse (ground arith);
    running = simp hget_elapse (ground arith);
    owner_is = simp hget_elapse (ground arith);
    until_is = simp hget_elapse (ground arith);
    recoveries = h.recoveries;
    recoveries_are = simp hget_elapse (ground (arith, h.recoveries_are));
    kept_for = simp pttl_elapse (ground arith);
  }

  pub claim_script-busy :
      (k ek : String) (attempt : ℕ) (owner : String) (until kept : ℕ) (s : S) (claimant : String)
      (ttl keep : ℕ)
      → Running r laws k ek attempt owner until kept s
      → now_ms r s < until
      → claim_script r k claimant ek attempt ttl keep s
        ≡ (s, ok (3, until - now_ms r s, 0, "", 0, ""))
  unfolding claim_script
  claim_script-busy k ek attempt owner until kept s claimant ttl keep h l =
      ground (arith, eq_refl ek, h.there, h.key_is, h.attempt_is, h.running, h.until_is)

  pub claim_script-recovers :
      (k ek : String) (attempt : ℕ) (owner : String) (until kept : ℕ) (s : S) (claimant : String)
      (ttl keep : ℕ)
      → Running r laws k ek attempt owner until kept s
      → until ≤ now_ms r s
      → (claim_script r k claimant ek attempt ttl keep s).1 ≡ ok (1, now_ms r s + ttl, 1, "", 0, "")
  unfolding claim_script
  claim_script-recovers k ek attempt owner until kept s claimant ttl keep h l =
      ground (
        arith,
        eq_refl ek,
        h.there,
        h.key_is,
        h.attempt_is,
        h.running,
        h.until_is,
        h.recoveries_are,
      )

  -- What a claim that handed out a lease has done.
  pub record Granted (store : ExecutionStore) (owner : String) (c : ExecutionClaim) (s s' : S)
      : Type 0 where
    pub named_key : is_blank c.execution_key ≡ false
    pub lease_ok : duration_ms "execution_claim" store.lease_ttl ≡ ok (as_millis store.lease_ttl)
    pub keep_ok :
        duration_ms "execution_claim" (running_retention store)
        ≡ ok (as_millis (running_retention store))
    pub held :
        Running r laws
          (key_for store c.execution_key c.attempt)
          c.execution_key
          c.attempt
          owner
          (now_ms r s + as_millis store.lease_ttl)
          (as_millis (running_retention store))
          s'
    pub longer : as_millis store.lease_ttl ≤ as_millis (running_retention store)
    pub clock : now_ms r s' ≡ now_ms r s
    pub positive : 0 < as_millis store.lease_ttl

  pub claim-Granted :
      (store : ExecutionStore) (owner : String) (c : ExecutionClaim) (s : S)
      (lease : ExecutionLease)
      → (claim r store owner up c s).1 ≡ ok (lease_acquired lease)
      → Granted store owner c s (claim r store owner up c s).0
  unfolding claim invoke duration_ms claim_outcome running_retention
  claim-Granted store owner c s lease h = record {
    named_key = ground arith;
    lease_ok = ground arith;
    keep_ok = ground arith;
    held = ground (
      arith,
      claim_script_cases r laws (key_for store c.execution_key c.attempt) owner c.execution_key
          c.attempt (as_millis store.lease_ttl) (as_millis (running_retention store)) s,
    );
    longer = ground arith;
    clock = ground (
      arith,
      claim_script_cases r laws (key_for store c.execution_key c.attempt) owner c.execution_key
          c.attempt (as_millis store.lease_ttl) (as_millis (running_retention store)) s,
    );
    positive = ground arith;
  }

  -- Once a claim has handed out a lease, every claim of the same attempt is told to wait for the
  -- rest of the lease and changes nothing, whatever its owner, as long as the lease has not run
  -- out.
  pub claim_excludes :
      (store : ExecutionStore) (first second : String) (c : ExecutionClaim) (s s' : S)
      (lease : ExecutionLease) (d : ℕ)
      → claim r store first up c s ≡ (s', ok (lease_acquired lease))
      → d < as_millis store.lease_ttl
      → claim r store second up c (r.elapse d s')
        ≡ (r.elapse d s', ok (busy (from_millis (as_millis store.lease_ttl - d))))
  unfolding claim invoke claim_outcome
  claim_excludes store first second c s s' lease d h l =
      let g : Granted store first c s s' = rw h at (claim-Granted store first c s lease (rw h)) in
      let later = Running-elapse _ _ _ _ _ _ d s' g.held (omega (arith, g.longer)) in
      let refused =
        claim_script-busy _ _ _ _ _ _ (r.elapse d s') second (as_millis store.lease_ttl)
          (as_millis (running_retention store)) later (omega (arith, now_elapse d s', g.clock)) in
      ground (arith, g.named_key, g.lease_ok, g.keep_ok, refused, now_elapse d s', g.clock)
