-- ===== src/Coordination/Execution/Records.antt =====
-- What an execution's hash says, and how the scripts establish it.
use pulse.Prelude.{
  ℕ, ◌+◌, ◌<◌, String, List, [], ◌∷◌, Bool, true, false, ◌≡◌, ◌∙◌, ◌⊎◌, Option, Option-cases, inl,
  inr, some, none, arith, eq_refl, eq_iff, ◌==◌, Result, ok, err,
}
use pulse.Coordination.Redis.{
  Field, named, Value, text, num, is_value, number_or, Redis, RedisLaws, now_ms, hset_all, left,
}
use pulse.Coordination.Execution.Store.{same_identity}
use pulse.Coordination.Execution.Claim.{ClaimReply, claim_script, running_fields, counted_recovery}

pub is_value-text : (o : Option Value) (t : String) → is_value o (text t) ≡ true → o ≡ some (text t)
is_value-text none t h = cc
is_value-text (some (text u)) t h = ground (arith, eq_iff u t)
is_value-text (some (num n)) t h = cc

pub is_value-num : (o : Option Value) (n : ℕ) → is_value o (num n) ≡ true → o ≡ some (num n)
is_value-num none n h = cc
is_value-num (some (text u)) n h = cc
is_value-num (some (num m)) n h = ground arith

module _ {S : Type 0} (r : Redis S) (laws : RedisLaws r) where
  open laws use {
    hget_hset, hget_pexpire, exists_hset, exists_pexpire, pttl_pexpire, pttl_hset, now_hset,
    now_pexpire,
  }

  -- The hash of a running attempt, held by `owner` until `until`; it is kept for `kept` more
  -- milliseconds.
  pub record Running (k execution_key : String) (attempt : ℕ) (owner : String) (until kept : ℕ)
      (s : S) : Type 0 where
    pub there : r.exists k s ≡ true
    pub key_is : r.hget k (named "execution_key") s ≡ some (text execution_key)
    pub attempt_is : r.hget k (named "attempt") s ≡ some (num attempt)
    pub running : r.hget k (named "state") s ≡ some (text "running")
    pub owner_is : r.hget k (named "owner") s ≡ some (text owner)
    pub until_is : r.hget k (named "lease_until") s ≡ some (num until)
    pub recoveries : ℕ
    pub recoveries_are : r.hget k (named "recovery_count") s ≡ some (num recoveries)
    pub kept_for : r.pttl k s ≡ left kept

  first_claim-Running :
      (k owner execution_key : String) (attempt until kept : ℕ) (s : S)
      → 0 < kept
      → Running k execution_key attempt owner until kept
          (r.pexpire k kept (hset_all r k (running_fields owner execution_key attempt until) s))
  first_claim-Running k owner execution_key attempt until kept s p = record {
    there = simp (exists_pexpire, exists_hset, eq_refl, p);
    key_is = simp (hget_pexpire, hget_hset, eq_refl, p);
    attempt_is = simp (hget_pexpire, hget_hset, eq_refl, p);
    running = simp (hget_pexpire, hget_hset, eq_refl, p);
    owner_is = simp (hget_pexpire, hget_hset, eq_refl, p);
    until_is = simp (hget_pexpire, hget_hset, eq_refl, p);
    recoveries = 0;
    recoveries_are = simp (hget_pexpire, hget_hset, eq_refl, p);
    kept_for = simp (pttl_pexpire, exists_hset, eq_refl, p);
  }

  recovered_claim-Running :
      (k owner execution_key : String) (attempt until now kept recoveries : ℕ) (s : S)
      → 0 < kept
      → r.exists k s ≡ true
      → same_identity r k execution_key attempt s ≡ true
      → is_value (r.hget k (named "state") s) (text "running") ≡ true
      → Running k execution_key attempt owner until kept
          (r.pexpire k kept (hset_all r k (counted_recovery owner until now recoveries) s))
  recovered_claim-Running k owner execution_key attempt until now kept recoveries s p e i t =
      record {
        there = simp (exists_pexpire, exists_hset, eq_refl, p);
        key_is =
            simp (hget_pexpire, hget_hset, eq_refl, p)
              (is_value-text (r.hget k (named "execution_key") s) execution_key (ground arith));
        attempt_is =
            simp (hget_pexpire, hget_hset, eq_refl, p)
              (is_value-num (r.hget k (named "attempt") s) attempt (ground arith));
        running =
            simp (hget_pexpire, hget_hset, eq_refl, p)
              (is_value-text (r.hget k (named "state") s) "running" t);
        owner_is = simp (hget_pexpire, hget_hset, eq_refl, p);
        until_is = simp (hget_pexpire, hget_hset, eq_refl, p);
        recoveries = recoveries + 1;
        recoveries_are = simp (hget_pexpire, hget_hset, eq_refl, p);
        kept_for = simp (pttl_pexpire, exists_hset, eq_refl, p);
      }

  -- Whether a reply of the claim script hands out a lease.
  abbrev pub acquires : Result String ClaimReply → Bool
  acquires (err e) = false
  acquires (ok reply) = reply.0 == 1

  now-hset_all :
      (k : String) (fs : List (Field × Value)) (kept : ℕ) (s : S)
      → now_ms r (r.pexpire k kept (hset_all r k fs s)) ≡ now_ms r s
  now-hset_all k [] kept s = now_pexpire k kept s
  now-hset_all k ((f, v) ∷ fs) kept s = now-hset_all k fs kept (r.hset k f v s) ∙ now_hset k f v s

  -- A claim that hands out a lease leaves the record running under the claimant, until the lease
  -- runs out.
  pub claim_script_cases :
      (k owner execution_key : String) (attempt ttl kept : ℕ) (s : S)
      → 0 < kept
      → ((acquires (claim_script r k owner execution_key attempt ttl kept s).1 ≡ true)
          × Running k execution_key attempt owner
              (now_ms r s + ttl)
              kept
              (claim_script r k owner execution_key attempt ttl kept s).0
          × (now_ms r (claim_script r k owner execution_key attempt ttl kept s).0 ≡ now_ms r s))
        ⊎ (acquires (claim_script r k owner execution_key attempt ttl kept s).1 ≡ false)
  unfolding claim_script
  claim_script_cases k owner execution_key attempt ttl kept s p =
      let now = now_ms r s in
      let first = first_claim-Running k owner execution_key attempt (now + ttl) kept s p in
      let clock = now-hset_all k (running_fields owner execution_key attempt (now + ttl)) kept s in
      elim (Option-cases (number_or 0 (r.hget k (named "recovery_count") s))) [
        | inl no_number ↦ ground (arith, no_number, first, clock)
        | inr (n, found) ↦ ground (
          arith,
          found,
          first,
          clock,
          recovered_claim-Running k owner execution_key attempt (now + ttl) now kept n s p,
          now-hset_all k (counted_recovery owner (now + ttl) now n) kept s,
        )
      ]
