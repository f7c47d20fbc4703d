-- ===== src/Coordination/Execution/Terminal.antt =====
-- The hash of an execution that is completed, in src/infrastructure/redis/mod.rs.
use pulse.Prelude.{
  ℕ, ◌<◌, String, [], ◌∷◌, Bool, true, false, ◌≡◌, ◌≢◌, refl, ◌∙◌, arith, eq_refl, eq_iff, str_eq,
  as_millis, Result, ok, err, some, ◌==◌,
}
use pulse.Coordination.Types.{
  TerminalOutcome, result_published, retry_published, dead_letter_published, as_str, parse_outcome,
  CompletedOutcome, ExecutionLease,
}
use pulse.Coordination.Redis.{
  named, text, num, is_value, number_or, Redis, RedisLaws, now_ms, survives, hset_all,
}
use pulse.Coordination.Client.{up, invoke, duration_ms}
use pulse.Coordination.Execution.Store.{ExecutionStore, key_for, is_terminal, same_identity}
use pulse.Coordination.Execution.Claim.{claim_script}
use pulse.Coordination.Execution.Settle.{Reply, complete_script, complete_outcome, complete}
use pulse.Coordination.Execution.Records.{is_value-text, is_value-num}

-- The stored name of an outcome is read back as that outcome.
pub parse_outcome-as_str : (o : TerminalOutcome) → parse_outcome (as_str o) ≡ ok o
unfolding parse_outcome as_str
parse_outcome-as_str result_published = refl
parse_outcome-as_str retry_published = refl
parse_outcome-as_str dead_letter_published = refl

as_str-is_terminal : (o : TerminalOutcome) → is_terminal (some (text (as_str o))) ≡ true
unfolding as_str
as_str-is_terminal result_published = refl
as_str-is_terminal retry_published = refl
as_str-is_terminal dead_letter_published = refl

as_str-injective : (o p : TerminalOutcome) → str_eq (as_str o) (as_str p) ≡ true → o ≡ p
as_str-injective o p h =
    ground (arith, parse_outcome-as_str o, parse_outcome-as_str p, eq_iff (as_str o) (as_str p))

module _ {S : Type 0} (r : Redis S) (laws : RedisLaws r) where
  open laws use {
    hget_hset, hget_hdel, hget_pexpire, hget_elapse, exists_hset, exists_hdel, exists_pexpire,
    exists_elapse, pttl_pexpire,
  }

  -- The hash of an attempt that its owner has completed.
  pub record Terminal (k ek : String) (attempt : ℕ) (owner : String) (outcome : TerminalOutcome)
      (at : ℕ) (s : S) : Type 0 where
    pub there : r.exists k s ≡ true
    pub key_is : r.hget k (named "execution_key") s ≡ some (text ek)
    pub attempt_is : r.hget k (named "attempt") s ≡ some (num attempt)
    pub owner_is : r.hget k (named "owner") s ≡ some (text owner)
    pub state_is : r.hget k (named "state") s ≡ some (text (as_str outcome))
    pub at_is : number_or 0 (r.hget k (named "completed_at") s) ≡ some at

  completed_fields : String → ℕ → String → S → S
  completed_fields outcome now k s =
      r.hdel k (named "lease_until")
        (hset_all r k ((named "state", text outcome) ∷ (named "completed_at", num now) ∷ []) s)

  fresh-Terminal :
      (k ek : String) (attempt : ℕ) (owner : String) (outcome : TerminalOutcome) (now ttl : ℕ)
      (s : S)
      → 0 < ttl
      → r.exists k s ≡ true
      → same_identity r k ek attempt s ≡ true
      → is_value (r.hget k (named "owner") s) (text owner) ≡ true
      → Terminal k ek attempt owner outcome now
          (r.pexpire k ttl (completed_fields (as_str outcome) now k s))
  unfolding completed_fields
  fresh-Terminal k ek attempt owner outcome now ttl s p e i o = record {
    there =
        exists_pexpire k k ttl _ p
        ∙ exists_hdel k k (named "lease_until") (named "state") (text (as_str outcome)) _
            (simp (hget_hset, eq_refl)) refl
        ∙ simp (exists_hset, eq_refl);
    key_is =
        simp (hget_pexpire, hget_hdel, hget_hset, eq_refl, p)
          (is_value-text (r.hget k (named "execution_key") s) ek (ground arith));
    attempt_is =
        simp (hget_pexpire, hget_hdel, hget_hset, eq_refl, p)
          (is_value-num (r.hget k (named "attempt") s) attempt (ground arith));
    owner_is =
        simp (hget_pexpire, hget_hdel, hget_hset, eq_refl, p)
          (is_value-text (r.hget k (named "owner") s) owner o);
    state_is = simp (hget_pexpire, hget_hdel, hget_hset, eq_refl, p);
    at_is = simp (hget_pexpire, hget_hdel, hget_hset, eq_refl, p);
  }

  -- A reply with code 1.
  abbrev completes : Result String Reply → Bool
  completes (err e) = false
  completes (ok reply) = reply.0 == 1

  abbrev time_of : Result String Reply → ℕ
  time_of (err e) = 0
  time_of (ok reply) = reply.1

  complete_script-Terminal :
      (k owner ek : String) (attempt : ℕ) (outcome : TerminalOutcome) (ttl : ℕ) (s : S)
      → 0 < ttl
      → completes (complete_script r k owner ek attempt (as_str outcome) ttl s).1 ≡ true
      → Terminal k ek attempt owner outcome
          (time_of (complete_script r k owner ek attempt (as_str outcome) ttl s).1)
          (complete_script r k owner ek attempt (as_str outcome) ttl s).0
  unfolding complete_script completed_fields
  complete_script-Terminal k owner ek attempt outcome ttl s p h = ground (
    arith,
    fresh-Terminal k ek attempt owner outcome (now_ms r s) ttl s p,
    is_value-text (r.hget k (named "execution_key") s) ek,
    is_value-num (r.hget k (named "attempt") s) attempt,
    is_value-text (r.hget k (named "owner") s) owner,
    is_value-text (r.hget k (named "state") s) (as_str outcome),
  )

  pub Terminal-elapse :
      (k ek : String) (attempt : ℕ) (owner : String) (outcome : TerminalOutcome) (at d : ℕ) (s : S)
      → Terminal k ek attempt owner outcome at s
      → survives d (r.pttl k s) ≡ true
      → Terminal k ek attempt owner outcome at (r.elapse d s)
  Terminal-elapse k ek attempt owner outcome at d s h l = record {
    there = ground (arith, exists_elapse k d s);
    key_is = simp hget_elapse (ground arith);
    attempt_is = simp hget_elapse (ground arith);
    owner_is = simp hget_elapse (ground arith);
    state_is = simp hget_elapse (ground arith);
    at_is = simp hget_elapse (ground arith);
  }

  module _ (k ek : String) (attempt : ℕ) (owner : String) (outcome : TerminalOutcome) (at : ℕ)
      (s : S) (h : Terminal k ek attempt owner outcome at s) where
    pub claim_script-completed :
        (claimant : String) (ttl keep : ℕ)
        → claim_script r k claimant ek attempt ttl keep s
          ≡ (s, ok (2, 0, 0, as_str outcome, at, ""))
    unfolding claim_script
    claim_script-completed claimant ttl keep = ground (
      arith,
      eq_refl ek,
      as_str-is_terminal outcome,
      h.there,
      h.key_is,
      h.attempt_is,
      h.state_is,
      h.at_is,
    )

    pub complete_script-again :
        (ttl : ℕ)
        → complete_script r k owner ek attempt (as_str outcome) ttl s ≡ (s, ok (1, at, ""))
    unfolding complete_script
    complete_script-again ttl = ground (
      arith,
      eq_refl ek,
      eq_refl owner,
      eq_refl (as_str outcome),
      as_str-is_terminal outcome,
      h.there,
      h.key_is,
      h.attempt_is,
      h.owner_is,
      h.state_is,
      h.at_is,
    )

    pub complete_script-other :
        (other : TerminalOutcome) (ttl : ℕ)
        → other ≢ outcome
        → complete_script r k owner ek attempt (as_str other) ttl s
          ≡ (s, ok (3, 0, "execution already has a different terminal outcome"))
    unfolding complete_script
    complete_script-other other ttl n = ground (
      arith,
      eq_refl ek,
      eq_refl owner,
      as_str-injective outcome other,
      as_str-is_terminal outcome,
      h.there,
      h.key_is,
      h.attempt_is,
      h.owner_is,
      h.state_is,
      h.at_is,
    )

  pub complete-Terminal :
      (store : ExecutionStore) (lease : ExecutionLease) (outcome : TerminalOutcome) (s s' : S)
      (done : CompletedOutcome)
      → complete r store up lease outcome s ≡ (s', ok done)
      → Terminal
          (key_for store lease.execution_key lease.attempt)
          lease.execution_key
          lease.attempt
          lease.owner_token
          outcome
          done.completed_at_unix_ms
          s'
  unfolding complete invoke complete_outcome duration_ms
  complete-Terminal store lease outcome s s' done e = ground (
    arith,
    complete_script-Terminal (key_for store lease.execution_key lease.attempt) lease.owner_token
        lease.execution_key lease.attempt outcome (as_millis store.terminal_ttl) s,
  )
