-- ===== src/Coordination/Leader/Exclusion.antt =====
-- A leader lease of src/infrastructure/redis/mod.rs excludes every rival while it lasts.
use pulse.Prelude.{
  ℕ, ◌+◌, ◌-◌, ◌≤◌, ◌<◌, String, false, ◌≡◌, ◌≢◌, arith, eq_iff, as_millis, from_millis, ok, err,
}
use pulse.Coordination.Types.{stale_owner, LeaderLease, acquired, follower}
use pulse.Coordination.Redis.{Redis, RedisLaws}
use pulse.Coordination.Client.{Link, up, invoke, duration_ms, fence_arg, i64_max}
use pulse.Coordination.Leader.{
  Elector, acquire_script, acquire_outcome, acquire, renew_script, renew_outcome, renew,
  relinquish_script, relinquish_outcome, relinquish, foreign, owned,
}
use pulse.Coordination.Leader.Records.{Leads, Leads-elapse, Won, acquire-Won}

module _ {S : Type 0} (r : Redis S) (laws : RedisLaws r) where
  open laws use {
    hget_hset, hget_pexpire, hget_elapse, hget_del, hget_incr, exists_hset, exists_pexpire,
    exists_elapse, exists_del, exists_incr, pttl_hset, pttl_pexpire, pttl_elapse, counter_incr,
    counter_hset, counter_pexpire, counter_del, counter_elapse,
  }

  -- What electors of one lock do one after the other, over any network: `acquire`, `renew` and
  -- `relinquish` with leases whose tokens `Allowed` admits, and the passing of time, of which the
  -- index keeps the sum.
  pub data Activity (k fence_key : String) (Allowed : String → Type 0) : ℕ → S → S → Type 0 where
    idle : {s : S} → Activity k fence_key Allowed 0 s s
    acquiring :
        {d : ℕ} {s s' : S} (e : Elector) (owner : String) (link : Link)
        → e.lock_key ≡ k
        → e.fence_key ≡ fence_key
        → Activity k fence_key Allowed d (acquire r e owner link s).0 s'
        → Activity k fence_key Allowed d s s'
    renewing :
        {d : ℕ} {s s' : S} (e : Elector) (lease : LeaderLease) (link : Link)
        → e.lock_key ≡ k
        → Allowed lease.owner_token
        → Activity k fence_key Allowed d (renew r e link lease s).0 s'
        → Activity k fence_key Allowed d s s'
    relinquishing :
        {d : ℕ} {s s' : S} (e : Elector) (lease : LeaderLease) (link : Link)
        → e.lock_key ≡ k
        → Allowed lease.owner_token
        → Activity k fence_key Allowed d (relinquish r e link lease s).0 s'
        → Activity k fence_key Allowed d s s'
    waiting :
        {d : ℕ} {s s' : S} (n : ℕ)
        → Activity k fence_key Allowed d (r.elapse n s) s'
        → Activity k fence_key Allowed (n + d) s s'

  acquire-led :
      (k owner node : String) (fence kept : ℕ) (s : S)
      → Leads r laws k owner node fence kept s
      → (e : Elector) (claimant : String) (link : Link) → e.lock_key ≡ k
      → (acquire r e claimant link s).0 ≡ s
  unfolding acquire acquire_script invoke duration_ms
  acquire-led k owner node fence kept s h e claimant link same =
      ground (arith, same, h.there, h.kept_for)

  pub not_owned :
      (k owner node : String) (fence kept : ℕ) (s : S)
      → Leads r laws k owner node fence kept s
      → (other : String) (n : ℕ) → other ≢ owner
      → owned r k other n s ≡ false
  not_owned k owner node fence kept s h other n ne = ground (arith, h.owner_is, eq_iff owner other)

  renew-led :
      (k owner node : String) (fence kept : ℕ) (s : S)
      → Leads r laws k owner node fence kept s
      → (e : Elector) (lease : LeaderLease) (link : Link) → e.lock_key ≡ k
      → lease.owner_token ≢ owner
      → (renew r e link lease s).0 ≡ s
  unfolding renew renew_script invoke duration_ms fence_arg
  renew-led k owner node fence kept s h e lease link same ne =
      ground (
        arith,
        same,
        not_owned k owner node fence kept s h lease.owner_token lease.fencing_token ne,
      )

  relinquish-led :
      (k owner node : String) (fence kept : ℕ) (s : S)
      → Leads r laws k owner node fence kept s
      → (e : Elector) (lease : LeaderLease) (link : Link) → e.lock_key ≡ k
      → lease.owner_token ≢ owner
      → (relinquish r e link lease s).0 ≡ s
  unfolding relinquish relinquish_script invoke fence_arg
  relinquish-led k owner node fence kept s h e lease link same ne =
      ground (
        arith,
        same,
        not_owned k owner node fence kept s h lease.owner_token lease.fencing_token ne,
      )

  kept_as :
      (k owner node : String) (fence m n : ℕ) (s : S)
      → m ≡ n
      → Leads r laws k owner node fence m s
      → Leads r laws k owner node fence n s
  kept_as k owner node fence m n s e h = record {
    there = h.there;
    owner_is = h.owner_is;
    node_is = h.node_is;
    fence_is = h.fence_is;
    kept_for = ground (arith, h.kept_for);
  }

  pub Leads-Activity :
      (k fence_key owner node : String) (fence kept d : ℕ) (s s' : S)
      → Leads r laws k owner node fence kept s
      → Activity k fence_key (λ o. o ≢ owner) d s s'
      → d < kept
      → Leads r laws k owner node fence (kept - d) s'
  Leads-Activity k fence_key owner node fence kept d s s' h idle l =
      kept_as k owner node fence kept (kept - 0) s (omega arith) h
  Leads-Activity k fence_key owner node fence kept d s s' h (acquiring e claimant link same _ a) l =
      Leads-Activity k fence_key owner node fence kept d _ s'
        (rw (acquire-led k owner node fence kept s h e claimant link same) h) a l
  Leads-Activity k fence_key owner node fence kept d s s' h (renewing e lease link same ne a) l =
      Leads-Activity k fence_key owner node fence kept d _ s'
        (rw (renew-led k owner node fence kept s h e lease link same ne) h) a l
  Leads-Activity k fence_key owner node fence kept d s s' h (relinquishing e lease link same ne a)
        l =
      Leads-Activity k fence_key owner node fence kept d _ s'
        (rw (relinquish-led k owner node fence kept s h e lease link same ne) h) a l
  Leads-Activity k fence_key owner node fence kept d s s' h (waiting {d = d'} n a) l =
      kept_as k owner node fence (kept - n - d') (kept - (n + d')) s' (omega arith) (
        Leads-Activity k fence_key owner node fence (kept - n) d' (r.elapse n s) s'
          (Leads-elapse r laws k owner node fence kept n s h (omega (arith, l))) a
          (omega (arith, l)))

  -- After an acquisition, whatever other electors of the lock do with leases of other tokens and
  -- over whatever network, and as long as less than the lease's time has passed in all: every
  -- acquisition by an elector of the lock, with a lease time that Redis takes, finds a leader, is
  -- told to come back when the lease runs out, and changes nothing.
  pub leader_excludes :
      (e : Elector) (owner : String) (s s' s'' : S) (lease : LeaderLease) (d : ℕ) (rival : Elector)
      (claimant : String) (t : ℕ)
      → acquire r e owner up s ≡ (s', ok (acquired lease))
      → Activity e.lock_key e.fence_key (λ o. o ≢ owner) d s' s''
      → d < as_millis e.lock_ttl
      → rival.lock_key ≡ e.lock_key
      → duration_ms "leader_acquire" rival.lock_ttl ≡ ok t
      → acquire r rival claimant up s''
        ≡ (s'', ok (follower (from_millis (as_millis e.lock_ttl - d))))
  unfolding acquire acquire_script invoke acquire_outcome
  leader_excludes e owner s s' s'' lease d rival claimant t h a l same ok_ttl =
      let w : Won r laws e owner lease s s' = rw h at (acquire-Won r laws e owner s lease (rw h)) in
      let led = Leads-Activity _ _ _ _ _ _ d s' s'' w.leads a l in
      ground (arith, same, ok_ttl, led.there, led.kept_for)

  -- After an acquisition, whatever other electors of the lock do with leases of other tokens and
  -- over whatever network, and as long as less than the lease's time has passed in all: an
  -- elector of the lock that renews or relinquishes a lease of its own with another token is
  -- refused as stale, and changes nothing. Its fence and its time are ones that Redis takes.
  pub former_leader_fenced :
      (e : Elector) (owner : String) (s s' s'' : S) (lease : LeaderLease) (d : ℕ) (rival : Elector)
      (former : LeaderLease) (t : ℕ)
      → acquire r e owner up s ≡ (s', ok (acquired lease))
      → Activity e.lock_key e.fence_key (λ o. o ≢ owner) d s' s''
      → d < as_millis e.lock_ttl
      → rival.lock_key ≡ e.lock_key
      → foreign rival former ≡ false
      → former.owner_token ≢ owner
      → former.fencing_token ≤ i64_max
      → duration_ms "leader_renew" rival.lock_ttl ≡ ok t
      → (renew r rival up former s'' ≡ (s'', err (stale_owner "leader_renew")))
        × (relinquish r rival up former s'' ≡ (s'', err (stale_owner "leader_relinquish")))
  unfolding renew renew_script relinquish relinquish_script invoke renew_outcome relinquish_outcome
      fence_arg
  former_leader_fenced e owner s s' s'' lease d rival former t h a l same own ne small ok_ttl =
      let w : Won r laws e owner lease s s' = rw h at (acquire-Won r laws e owner s lease (rw h)) in
      let led = Leads-Activity _ _ _ _ _ _ d s' s'' w.leads a l in
      let no = not_owned _ _ _ _ _ s'' led former.owner_token former.fencing_token ne in
      (
        ground (arith, same, own, small, ok_ttl, led.there, no),
        ground (arith, same, own, small, led.there, no),
      )
