-- ===== src/Worker/Publish.antt =====
-- The bounded loops of src/application/service.rs that publish a disposition and complete a lease.
use pulse.Prelude.{
  ℕ, zero, suc, ◌+◌, ◌-◌, String, Bool, true, false, Duration, min, max, u32_max, leb, ltb, ◌<>◌,
  if◌then◌else◌, Result, ok, err, Option, none, some,
}
use pulse.Domain.Contracts.{ScenarioJob, ScenarioRunResult, FailedScenarioJob, PoisonMessageRecord}
use pulse.Coordination.Types.{
  CoordinationError, unavailable, timeout, invalid_state, stale_owner, coordination_message,
  TerminalOutcome, ExecutionLease,
}
use pulse.Planning.Delays.{retry_delay}
use pulse.Worker.Types.{NodeRuntimeConfig}
use pulse.Worker.Ports.{
  checked, job_sent, result_sent, failed_sent, poison_sent, completed, Ports, Run, ◌>>=◌, return,
  halt, panicked, call, wait, noted, note, done,
}

-- One round of a loop: acknowledged, refused with another round to come, or given up.
pub data Round (E : Type 0) : Type 0 where
  acknowledged : Round E
  refused given_up : E → Round E

abbrev pub round_of : {E A : Type 0} → Result E A → Round E
round_of (ok a) = acknowledged
round_of (err e) = refused e

-- `worker_max_retries.saturating_add(1).max(1)` on u32
unfoldable pub local_settlement_attempt_limit : {R : Type 0} → NodeRuntimeConfig R → ℕ
local_settlement_attempt_limit config = max (min (config.worker_max_retries + 1) u32_max) 1

-- Instant::checked_add does not overflow.
unfoldable pub conservative_lease_deadline : ℕ → Duration → Duration → ℕ
conservative_lease_deadline request_started ttl reserve = request_started + (ttl - reserve)

unfoldable pub lease_response_has_safe_budget : ℕ → Duration → Duration → ℕ → Bool
lease_response_has_safe_budget request_started ttl reserve now =
    ltb now (conservative_lease_deadline request_started ttl reserve)

-- A stale owner does not try again.
abbrev pub completion_round : {A : Type 0} → Result CoordinationError A → Round CoordinationError
completion_round (ok a) = acknowledged
completion_round (err (stale_owner operation)) = given_up (stale_owner operation)
completion_round (err (unavailable operation message)) = refused (unavailable operation message)
completion_round (err (timeout operation)) = refused (timeout operation)
completion_round (err (invalid_state operation message)) = refused (invalid_state operation message)

module _ {R Step W : Type 0} (ports : Ports R Step W) (config : NodeRuntimeConfig R) where
  -- The wait after a round that was refused.
  abbrev pub back_off : Bool → ℕ → String → Run R W (Unit {0})
  back_off leased attempt entropy =
      wait ports leased
        (retry_delay config.worker_retry_base_delay config.worker_retry_max_delay attempt entropy)

  -- What follows a round, where `rest` is the loop from the next one on.
  unfoldable pub after_round :
      {E : Type 0}
      → Bool
      → ℕ
      → ℕ
      → String
      → Run R W (Result E (Unit {0}))
      → Round E
      → Run R W (Result E (Unit {0}))
  after_round leased limit attempt entropy rest acknowledged = return (ok tt)
  after_round leased limit attempt entropy rest (given_up e) = return (err e)
  after_round leased limit attempt entropy rest (refused e) =
      if leb limit (attempt + 1)
      then return (err e)
      else back_off leased attempt entropy >>= λ _. rest

  -- `for attempt in 0..limit` with `n` rounds to come; it ends in `unreachable!`.
  unfoldable pub rounds :
      {E : Type 0} → Bool → ℕ → ℕ → ℕ → String → Run R W (Round E) → Run R W (Result E (Unit {0}))
  unfolding after_round
  rounds leased limit zero attempt entropy action = halt panicked
  rounds leased limit (suc n) attempt entropy action =
      action
      >>= after_round leased limit attempt entropy
          (rounds leased limit n (attempt + 1) entropy action)

  unfoldable pub with_retry :
      {E : Type 0} → Bool → String → Run R W (Round E) → Run R W (Result E (Unit {0}))
  unfolding rounds
  with_retry leased entropy action =
      let limit = local_settlement_attempt_limit config in
      rounds leased limit limit 0 entropy action

  -- What follows the reply to the renewal that was requested at `request_started`.
  unfoldable pub after_renewal :
      ExecutionLease
      → ℕ
      → Result CoordinationError ExecutionLease
      → Run R W (Result String (Unit {0}))
  after_renewal lease request_started (err error) s =
      return
        (err (
          "execution lease could not be owner-checked immediately before publication: "
          <> coordination_message error))
        s
  after_renewal lease request_started (ok renewed) s =
      if lease_response_has_safe_budget request_started renewed.ttl config.execution_renew_interval
        (ports.instant s.world)
      then (note (checked lease) s, done (ok tt))
      else (
        s,
        done (err "execution lease owner check exhausted its conservative local lease budget"),
      )

  -- The owner check right before a publication.
  unfoldable pub verify_publication_lease : ExecutionLease → Run R W (Result String (Unit {0}))
  unfolding after_renewal
  verify_publication_lease lease s =
      (call ports true (ports.renew lease) >>= after_renewal lease (ports.instant s.world)) s

  -- `verify_publication_lease(...).await?` and then one publication.
  abbrev pub publish_if_checked :
      Run R W (Result String (Unit {0})) → Result String (Unit {0}) → Run R W (Round String)
  publish_if_checked publication (err e) = return (given_up e)
  publish_if_checked publication (ok _) = publication >>= λ reply. return (round_of reply)

  unfoldable pub checked_round :
      ExecutionLease → Run R W (Result String (Unit {0})) → Run R W (Round String)
  unfolding verify_publication_lease
  checked_round lease publication =
      verify_publication_lease lease >>= publish_if_checked publication

  unfoldable pub publish_retry_with_retry :
      String → ScenarioJob R → ExecutionLease → Run R W (Result String (Unit {0}))
  publish_retry_with_retry partition_key retry_job lease = with_retry true retry_job.execution_key (
      checked_round lease (
        call ports true (ports.publish_job partition_key retry_job)
        >>= noted (job_sent partition_key retry_job)))

  unfoldable pub publish_result_with_retry :
      ScenarioRunResult → ExecutionLease → Run R W (Result String (Unit {0}))
  publish_result_with_retry result lease = with_retry true result.execution_key (
      checked_round lease
        (call ports true (ports.publish_result result) >>= noted (result_sent result)))

  unfoldable pub publish_failed_with_optional_lease :
      FailedScenarioJob → Option ExecutionLease → Run R W (Result String (Unit {0}))
  publish_failed_with_optional_lease failed none = with_retry false failed.execution_key (
      call ports false (ports.publish_failed_job failed.execution_key failed)
      >>= noted (failed_sent failed)
      >>= λ reply. return (round_of reply))
  publish_failed_with_optional_lease failed (some lease) = with_retry true failed.execution_key (
      checked_round lease (
        call ports true (ports.publish_failed_job failed.execution_key failed)
        >>= noted (failed_sent failed)))

  unfoldable pub publish_failed_with_retry : FailedScenarioJob → Run R W (Result String (Unit {0}))
  publish_failed_with_retry failed = publish_failed_with_optional_lease failed none

  unfoldable pub publish_leased_failed_with_retry :
      FailedScenarioJob → ExecutionLease → Run R W (Result String (Unit {0}))
  publish_leased_failed_with_retry failed lease =
      publish_failed_with_optional_lease failed (some lease)

  unfoldable pub publish_poison_with_retry :
      PoisonMessageRecord → Run R W (Result String (Unit {0}))
  publish_poison_with_retry poison = with_retry false poison.event_id (
      call ports false (ports.publish_poison poison) >>= noted (poison_sent poison) >>= λ reply.
      return (round_of reply))

  unfoldable pub complete_until_acknowledged :
      ExecutionLease → TerminalOutcome → Run R W (Result CoordinationError (Unit {0}))
  complete_until_acknowledged lease outcome = with_retry true lease.execution_key (
      call ports true (ports.complete lease outcome)
      >>= noted (completed lease outcome)
      >>= λ reply. return (completion_round reply))
