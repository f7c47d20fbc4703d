-- ===== src/Coordination/Leader/Fences.antt =====
-- Each acquisition of the leader lease of src/infrastructure/redis/mod.rs has a larger fence than
-- those before it.
use pulse.Prelude.{ℕ, ◌≤◌, ◌<◌, String, false, ◌≡◌, arith, eq_refl, str_eq, as_millis, ok}
use pulse.Coordination.Types.{LeaderLease, acquired}
use pulse.Coordination.Redis.{Redis, RedisLaws}
use pulse.Coordination.Client.{Link, up, invoke, duration_ms, fence_arg}
use pulse.Coordination.Leader.{
  Elector, acquire_script, acquire, renew_script, renew, relinquish_script, relinquish,
}
use pulse.Coordination.Leader.Records.{Won, acquire-Won, counter_written}
use pulse.Coordination.Leader.Exclusion.{
  Activity, idle, acquiring, renewing, relinquishing, waiting,
}

module _ {S : Type 0} (r : Redis S) (laws : RedisLaws r) where
  open laws use {
    hget_hset, hget_pexpire, hget_elapse, hget_del, hget_incr, exists_hset, exists_pexpire,
    exists_elapse, exists_del, exists_incr, pttl_hset, pttl_pexpire, pttl_elapse, counter_incr,
    counter_hset, counter_pexpire, counter_del, counter_elapse,
  }

  acquire-counter :
      (e : Elector) (owner : String) (link : Link) (s : S)
      → str_eq e.lock_key e.fence_key ≡ false
      → r.counter e.fence_key s ≤ r.counter e.fence_key (acquire r e owner link s).0
  unfolding acquire acquire_script invoke duration_ms
  acquire-counter e owner link s n = ground (
    arith,
    counter_incr e.fence_key e.fence_key s,
    eq_refl e.fence_key,
    counter_written r laws e.lock_key e.fence_key owner e.node_id
        (r.counter e.fence_key (r.incr e.fence_key s)) (as_millis e.lock_ttl) (r.incr e.fence_key s)
        n,
  )

  renew-counter :
      (e : Elector) (fence_key : String) (lease : LeaderLease) (link : Link) (s : S)
      → str_eq e.lock_key fence_key ≡ false
      → r.counter fence_key (renew r e link lease s).0 ≡ r.counter fence_key s
  unfolding renew renew_script invoke duration_ms fence_arg
  renew-counter e fence_key lease link s n =
      ground (arith, counter_pexpire fence_key e.lock_key (as_millis e.lock_ttl) s n)

  relinquish-counter :
      (e : Elector) (fence_key : String) (lease : LeaderLease) (link : Link) (s : S)
      → str_eq e.lock_key fence_key ≡ false
      → r.counter fence_key (relinquish r e link lease s).0 ≡ r.counter fence_key s
  unfolding relinquish relinquish_script invoke fence_arg
  relinquish-counter e fence_key lease link s n =
      ground (arith, counter_del fence_key e.lock_key s n)

  Activity-counter :
      (k fence_key : String) (Allowed : String → Type 0) (d : ℕ) (s s' : S)
      → str_eq k fence_key ≡ false
      → Activity r laws k fence_key Allowed d s s'
      → r.counter fence_key s ≤ r.counter fence_key s'
  Activity-counter k fence_key Allowed d s s' n idle = omega arith
  Activity-counter k fence_key Allowed d s s' n (acquiring e owner link p q a) =
      ground (
        arith,
        Activity-counter k fence_key Allowed d _ s' n a,
        acquire-counter e owner link s,
        p,
        q,
      )
  Activity-counter k fence_key Allowed d s s' n (renewing e lease link p _ a) = ground (
    arith,
    Activity-counter k fence_key Allowed d _ s' n a,
    renew-counter e fence_key lease link s,
    p,
  )
  Activity-counter k fence_key Allowed d s s' n (relinquishing e lease link p _ a) = ground (
    arith,
    Activity-counter k fence_key Allowed d _ s' n a,
    relinquish-counter e fence_key lease link s,
    p,
  )
  Activity-counter k fence_key Allowed d s s' n (waiting {d = d'} m a) =
      ground (arith, Activity-counter k fence_key Allowed d' _ s' n a, counter_elapse fence_key m s)

  -- Of two acquisitions of one lock with whatever the electors do in between, over whatever
  -- network and for however long, the later one has the larger fencing token. The lock and the
  -- fence are different keys.
  pub fences_increase :
      (e : Elector) (owner : String) (s s' t t' : S) (lease : LeaderLease) (d : ℕ) (rival : Elector)
      (rival_owner : String) (rival_lease : LeaderLease)
      → str_eq e.lock_key e.fence_key ≡ false
      → acquire r e owner up s ≡ (s', ok (acquired lease))
      → Activity r laws e.lock_key e.fence_key (λ _. Unit {0}) d s' t
      → rival.fence_key ≡ e.fence_key
      → acquire r rival rival_owner up t ≡ (t', ok (acquired rival_lease))
      → lease.fencing_token < rival_lease.fencing_token
  fences_increase e owner s s' t t' lease d rival rival_owner rival_lease n h a same h' =
      let w : Won r laws e owner lease s s' = rw h at (acquire-Won r laws e owner s lease (rw h)) in
      let w' : Won r laws rival rival_owner rival_lease t t' =
        rw h' at (acquire-Won r laws rival rival_owner t rival_lease (rw h')) in
      let more = Activity-counter _ _ _ d s' t n a in ground (arith, w.counted n, w'.fence_is, same)
