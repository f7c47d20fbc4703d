-- ===== src/Coordination/Execution/Completion.antt =====
-- A terminal outcome is final: it can be repeated and read, and nothing replaces it.
use pulse.Prelude.{ℕ, String, true, false, ◌≡◌, ◌≢◌, arith, as_millis, is_blank, ok, err}
use pulse.Coordination.Types.{
  invalid_state, TerminalOutcome, CompletedOutcome, ExecutionLease, already_completed,
}
use pulse.Coordination.Redis.{Redis, RedisLaws, survives}
use pulse.Coordination.Client.{up, invoke, duration_ms}
use pulse.Coordination.Execution.Store.{ExecutionStore, key_for, running_retention}
use pulse.Coordination.Execution.Claim.{claim_outcome, claim}
use pulse.Coordination.Execution.Settle.{complete_outcome, complete}
use pulse.Coordination.Execution.Terminal.{
  parse_outcome-as_str, Terminal, Terminal-elapse, claim_script-completed, complete_script-again,
  complete_script-other, complete-Terminal,
}

module _ {S : Type 0} (r : Redis S) (laws : RedisLaws r) where
  module _ (store : ExecutionStore) (lease : ExecutionLease) (outcome : TerminalOutcome) (s s' : S)
      (done : CompletedOutcome) (d : ℕ)
      (completed : complete r store up lease outcome s ≡ (s', ok done))
      (kept : survives d (r.pttl (key_for store lease.execution_key lease.attempt) s') ≡ true) where
    later :
        Terminal r laws
          (key_for store lease.execution_key lease.attempt)
          lease.execution_key
          lease.attempt
          lease.owner_token
          outcome
          done.completed_at_unix_ms
          (r.elapse d s')
    later =
        Terminal-elapse r laws _ _ _ _ _ _ d s'
          (complete-Terminal r laws store lease outcome s s' done completed) kept

    outcome-done : done.outcome ≡ outcome
    unfolding complete invoke complete_outcome duration_ms
    outcome-done = ground arith

    -- As long as Redis keeps the record of a completed attempt, every claim of it learns the
    -- outcome and the time of its completion, and changes nothing. The key is not blank, and the
    -- store's times are ones that Redis takes.
    pub claim_after_complete :
        (claimant : String)
        → is_blank lease.execution_key ≡ false
        → duration_ms "execution_claim" store.lease_ttl ≡ ok (as_millis store.lease_ttl)
        → duration_ms "execution_claim" (running_retention store)
          ≡ ok (as_millis (running_retention store))
        → claim r store claimant up
            (record { execution_key = lease.execution_key; attempt = lease.attempt })
            (r.elapse d s')
          ≡ (r.elapse d s', ok (already_completed done))
    unfolding claim invoke claim_outcome
    claim_after_complete claimant b l k = ground (
      arith,
      outcome-done,
      parse_outcome-as_str outcome,
      claim_script-completed r laws _ _ _ _ _ _ _ later claimant (as_millis store.lease_ttl)
          (as_millis (running_retention store)),
    )

    -- As long as Redis keeps the record of a completed attempt, its owner's completing again with
    -- the same outcome answers as the first time, and changes nothing.
    pub complete_again :
        complete r store up lease outcome (r.elapse d s') ≡ (r.elapse d s', ok done)
    unfolding complete invoke complete_outcome duration_ms
    complete_again = ground (
      arith,
      outcome-done,
      complete_script-again r laws _ _ _ _ _ _ _ later (as_millis store.terminal_ttl),
    )

    -- As long as Redis keeps the record of a completed attempt, its owner's completing with
    -- another outcome is refused, and changes nothing.
    pub complete_other :
        (other : TerminalOutcome)
        → other ≢ outcome
        → complete r store up lease other (r.elapse d s') ≡ (
          r.elapse d s',
          err (
              invalid_state "execution_complete"
                "execution already has a different terminal outcome"),
        )
    unfolding complete invoke complete_outcome duration_ms
    complete_other other n = ground (
      arith,
      outcome-done,
      complete_script-other r laws _ _ _ _ _ _ _ later other (as_millis store.terminal_ttl) n,
    )
