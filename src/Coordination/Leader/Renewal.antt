-- ===== src/Coordination/Leader/Renewal.antt =====
-- A renewal of the leader lease in src/infrastructure/redis/mod.rs prolongs the exclusion of rivals.
use pulse.Prelude.{
  ℕ, ◌+◌, ◌-◌, ◌<◌, ◌≤◌, String, ◌≡◌, ◌≢◌, arith, eq_refl, as_millis, from_millis, refl, ok,
}
use pulse.Coordination.Types.{LeaderLease, acquired, renewed, follower}
use pulse.Coordination.Redis.{Redis, RedisLaws, now_ms}
use pulse.Coordination.Client.{up, invoke, duration_ms, fence_arg, i64_max}
use pulse.Coordination.Leader.{
  Elector, acquire_script, acquire_outcome, acquire, renew_script, renew_outcome, renew,
}
use pulse.Coordination.Leader.Records.{Leads, Won, acquire-Won}
use pulse.Coordination.Leader.Exclusion.{Activity, Leads-Activity}

module _ {S : Type 0} (r : Redis S) (laws : RedisLaws r) where
  open laws use {hget_pexpire, exists_pexpire, pttl_pexpire}

  Leads-pexpire :
      (k owner node : String) (fence kept ttl : ℕ) (s : S)
      → Leads r laws k owner node fence kept s
      → 0 < ttl
      → Leads r laws k owner node fence ttl (r.pexpire k ttl s)
  Leads-pexpire k owner node fence kept ttl s h p = record {
    there = simp (exists_pexpire, p) h.there;
    owner_is = simp (hget_pexpire, p) h.owner_is;
    node_is = simp (hget_pexpire, p) h.node_is;
    fence_is = simp (hget_pexpire, p) h.fence_is;
    kept_for = simp (pttl_pexpire, eq_refl, p, h.there);
  }

  abbrev renewal : Elector → LeaderLease → S → LeaderLease
  renewal e lease s = record lease {
    expires_at_unix_ms = now_ms r s + as_millis e.lock_ttl;
    ttl = e.lock_ttl;
  }

  -- The elector that leads renews its lease.
  renew-Leads :
      (e : Elector) (owner : String) (kept : ℕ) (before after s : S) (lease : LeaderLease)
      → Won r laws e owner lease before after
      → Leads r laws e.lock_key owner e.node_id lease.fencing_token kept s
      → lease.fencing_token ≤ i64_max
      → renew r e up lease s
        ≡ (r.pexpire e.lock_key (as_millis e.lock_ttl) s, ok (renewed (renewal e lease s)))
  unfolding renew renew_script invoke renew_outcome fence_arg duration_ms
  renew-Leads e owner kept before after s lease w led small = ground (
    arith,
    w.owner_is,
    w.lock_is,
    w.node_is,
    w.positive,
    w.in_range,
    eq_refl e.lock_key,
    eq_refl e.node_id,
    eq_refl owner,
    led.there,
    led.owner_is,
    led.fence_is,
  )

  -- After an acquisition, whatever other electors of the lock do with leases of other tokens and
  -- over whatever network, and as long as less than the lease's time has passed in all: the
  -- leader renews its lease, if its fence is a number that Redis takes. From then on, while again
  -- less than the lease's time has passed amid any such activity, every acquisition by an elector
  -- of the lock, with a lease time that Redis takes, is told to come back when the full time of
  -- the renewal runs out, and changes nothing.
  pub leader_renews :
      (e : Elector) (owner : String) (s s' s'' t : S) (lease : LeaderLease) (d later : ℕ)
      (rival : Elector) (claimant : String) (n : ℕ)
      → acquire r e owner up s ≡ (s', ok (acquired lease))
      → Activity r laws e.lock_key e.fence_key (λ o. o ≢ owner) d s' s''
      → d < as_millis e.lock_ttl
      → lease.fencing_token ≤ i64_max
      → Activity r laws e.lock_key e.fence_key (λ o. o ≢ owner) later (renew r e up lease s'').0 t
      → later < as_millis e.lock_ttl
      → rival.lock_key ≡ e.lock_key
      → duration_ms "leader_acquire" rival.lock_ttl ≡ ok n
      → ((renew r e up lease s'').1
          ≡ ok (
              renewed (record lease {
                expires_at_unix_ms = now_ms r s'' + as_millis e.lock_ttl;
                ttl = e.lock_ttl;
              })))
        × (acquire r rival claimant up t
            ≡ (t, ok (follower (from_millis (as_millis e.lock_ttl - later)))))
  unfolding acquire acquire_script invoke acquire_outcome
  leader_renews e owner s s' s'' t lease d later rival claimant n h a l small b m same ok_ttl =
      let w : Won r laws e owner lease s s' = rw h at (acquire-Won r laws e owner s lease (rw h)) in
      let led = Leads-Activity r laws _ _ _ _ _ _ d s' s'' w.leads a l in
      let done = renew-Leads e owner _ s s' s'' lease w led small in
      let led' =
        Leads-Activity r laws _ _ _ _ _ _ later _ t (Leads-pexpire _ _ _ _ _ _ s'' led w.positive)
          (rw done at b) m in
      (rw done refl, ground (arith, same, ok_ttl, led'.there, led'.kept_for))
