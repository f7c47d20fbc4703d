-- ===== src/Coordination/Leader/Records.antt =====
-- The leader record of src/infrastructure/redis/mod.rs, and what an acquisition does to it.
use pulse.Prelude.{
  ℕ, suc, ◌-◌, ◌≤◌, ◌<◌, String, [], ◌∷◌, true, false, ◌≡◌, arith, eq_refl, str_eq, as_millis, ok,
  some,
}
use pulse.Coordination.Types.{LeaderLease, acquired}
use pulse.Coordination.Redis.{named, text, num, Redis, RedisLaws, hset_all, left}
use pulse.Coordination.Client.{up, invoke, duration_ms, i64_max}
use pulse.Coordination.Leader.{Elector, acquire_script, acquire_outcome, acquire}

module _ {S : Type 0} (r : Redis S) (laws : RedisLaws r) where
  open laws use {
    hget_hset, hget_pexpire, hget_elapse, hget_del, hget_incr, exists_hset, exists_pexpire,
    exists_elapse, exists_del, exists_incr, pttl_hset, pttl_pexpire, pttl_elapse, counter_incr,
    counter_hset, counter_pexpire, counter_del, counter_elapse,
  }

  -- The leader record of `owner` with its fence, kept for `kept` more milliseconds.
  pub record Leads (k owner node : String) (fence kept : ℕ) (s : S) : Type 0 where
    pub there : r.exists k s ≡ true
    pub owner_is : r.hget k (named "owner") s ≡ some (text owner)
    pub node_is : r.hget k (named "node_id") s ≡ some (text node)
    pub fence_is : r.hget k (named "fence") s ≡ some (num fence)
    pub kept_for : r.pttl k s ≡ left kept

  pub Leads-elapse :
      (k owner node : String) (fence kept d : ℕ) (s : S)
      → Leads k owner node fence kept s
      → d < kept
      → Leads k owner node fence (kept - d) (r.elapse d s)
  Leads-elapse k owner node fence kept d s h l = record {
    there = ground (arith, exists_elapse k d s);
    owner_is = simp hget_elapse (ground arith);
    node_is = simp hget_elapse (ground arith);
    fence_is = simp hget_elapse (ground arith);
    kept_for = simp pttl_elapse (ground arith);
  }

  record_written :
      (k owner node : String) (fence ttl : ℕ) (s : S)
      → 0 < ttl
      → Leads k owner node fence ttl (
          r.pexpire k ttl (
            hset_all r k
              ((named "owner", text owner)
                ∷ (named "node_id", text node)
                ∷ (named "fence", num fence)
                ∷ [])
              s))
  record_written k owner node fence ttl s p = record {
    there = simp (exists_pexpire, exists_hset, eq_refl, p);
    owner_is = simp (hget_pexpire, hget_hset, eq_refl, p);
    node_is = simp (hget_pexpire, hget_hset, eq_refl, p);
    fence_is = simp (hget_pexpire, hget_hset, eq_refl, p);
    kept_for = simp (pttl_pexpire, exists_hset, eq_refl, p);
  }

  pub counter_written :
      (k other owner node : String) (fence ttl : ℕ) (s : S)
      → str_eq k other ≡ false
      → r.counter other (
          r.pexpire k ttl (
            hset_all r k
              ((named "owner", text owner)
                ∷ (named "node_id", text node)
                ∷ (named "fence", num fence)
                ∷ [])
              s))
        ≡ r.counter other s
  counter_written k other owner node fence ttl s n = simp (counter_pexpire, counter_hset, n)

  -- What an acquisition that succeeded has done.
  pub record Won (e : Elector) (owner : String) (lease : LeaderLease) (s s' : S) : Type 0 where
    pub free : r.exists e.lock_key s ≡ false
    pub owner_is : lease.owner_token ≡ owner
    pub fence_is : lease.fencing_token ≡ suc (r.counter e.fence_key s)
    pub lock_is : lease.lock_key ≡ e.lock_key
    pub node_is : lease.node_id ≡ e.node_id
    pub leads : Leads e.lock_key owner e.node_id lease.fencing_token (as_millis e.lock_ttl) s'
    pub counted :
        str_eq e.lock_key e.fence_key ≡ false → r.counter e.fence_key s' ≡ lease.fencing_token
    pub positive : 0 < as_millis e.lock_ttl
    pub in_range : as_millis e.lock_ttl ≤ i64_max

  pub acquire-Won :
      (e : Elector) (owner : String) (s : S) (lease : LeaderLease)
      → (acquire r e owner up s).1 ≡ ok (acquired lease)
      → Won e owner lease s (acquire r e owner up s).0
  unfolding acquire acquire_script invoke acquire_outcome duration_ms
  acquire-Won e owner s lease h = record {
    free = ground arith;
    owner_is = ground arith;
    fence_is = ground (arith, counter_incr e.fence_key e.fence_key s, eq_refl e.fence_key);
    lock_is = ground arith;
    node_is = ground arith;
    leads = ground (
      arith,
      record_written e.lock_key owner e.node_id (r.counter e.fence_key (r.incr e.fence_key s))
          (as_millis e.lock_ttl) (r.incr e.fence_key s),
    );
    counted = λ n. ground (
      arith,
      counter_written e.lock_key e.fence_key owner e.node_id
          (r.counter e.fence_key (r.incr e.fence_key s)) (as_millis e.lock_ttl)
          (r.incr e.fence_key s) n,
    );
    positive = ground arith;
    in_range = ground arith;
  }
