-- ===== src/Worker/Terminal.antt =====
-- `process_once` starts at most one run, and reaches a terminal disposition only when the
-- log ends in the events that justify it.
use pulse.Prelude.{
  ℕ, ◌≡◌, refl, String, List, ◌∷◌, true, false, Bool-cases, inl, inr, Option, none, some, Result,
  ok, err, lookup,
}
use pulse.Domain.Error.{ContractError, contract_message}
use pulse.Domain.Contracts.{ScenarioJob}
use pulse.Coordination.Types.{
  CoordinationError, ExecutionClaim, ExecutionLease, ClaimOutcome, lease_acquired,
  already_completed, busy,
}
use pulse.Planning.Slices.{PlanOps}
use pulse.Worker.Types
use pulse.Worker.Types.{
  JobDisposition, execution_lease_busy, retry_later, duplicate_completed, NodeRuntimeConfig,
  ScenarioExecutionPlan, RunReport, JobRecord,
}
use pulse.Worker.Ports.{
  Event, failed_sent, poison_sent, ran, Outcome, done, halted, dropped, lease_gone, panicked, Ports,
  State, ◌>>=◌, return, call, noted, note,
}
use pulse.Worker.Publish.{
  round_of, lease_response_has_safe_budget, publish_failed_with_retry,
  publish_failed_with_optional_lease, publish_poison_with_retry,
}
use pulse.Worker.Execute.{
  settle_report, run_scenario, execute_and_publish, unless_lease_gone, release_unsettled,
  execute_with_lease,
}
use pulse.Worker.Reports.{failed_job}
use pulse.Worker.Process.{
  dead_lettered, claimed, claim_and_execute, admitted, process_job, process_once,
}
use pulse.Worker.Refusal.{refusal}
use pulse.Worker.Log.{
  Ends, Last, last, Acknowledged, Silent, Settled, by_duplicate, by_refusal, by_poison, Disposed,
}
use pulse.Worker.Rules.{Ends-and_then, Ends-mono, Ends-call}
use pulse.Worker.Retries.{Ends-round_of, Ends-with_retry}
use pulse.Worker.Settlement.{Ends-publish_and_complete_dlq, Ends-settle_report}

-- `B` holds of the log before the run of the scenario, and `K` from then on.
module _ {R Step W : Type 0} (ops : PlanOps R Step) (config : NodeRuntimeConfig R)
    (ports : Ports R Step W) (plans : List (String × ScenarioExecutionPlan R Step))
    (B K : List (Event R) → Type 0)
    (silent : (e : Event R) → Silent e → (log : List (Event R)) → K log → K (e ∷ log))
    (run : (job : ScenarioJob R) (log : List (Event R)) → B log → K (ran job ∷ log))
    (weaken : (log : List (Event R)) → B log → K log) (received : JobRecord R) where
  Ends-dead_lettered :
      (e : Event R)
      → ((log : List (Event R)) → K log → Settled received K Types.dead_letter_published (e ∷ log))
      → (reply : Result String (Unit {0})) (s : State R W) → Acknowledged K (Last e K) reply s.log
      → Ends K (Disposed received K B) (dead_lettered ops config ports plans reply s)
  Ends-dead_lettered e settled (err x) s k = k
  Ends-dead_lettered e settled (ok _) s k = from_last e settled s.log k
    where
      from_last :
          (e : Event R)
          → ((log : List (Event R))
              → K log
              → Settled received K Types.dead_letter_published (e ∷ log))
          → (log : List (Event R)) → Last e K log
          → Settled received K Types.dead_letter_published log
      from_last e settled log (last {log = l} k) = settled l k

  module _ (job : ScenarioJob R) (its_job : received.job ≡ ok job) where
    Ends-execute_and_publish :
        (plan : Option (ScenarioExecutionPlan R Step)) (lease : ExecutionLease) (s : State R W)
        → B s.log
        → Ends K (Disposed received K B) (execute_and_publish ports config job plan lease s)
    unfolding execute_and_publish
    Ends-execute_and_publish none lease s b =
        Ends-publish_and_complete_dlq ports config K silent received B job its_job lease
          "unknown scenario" s (weaken s.log b)
    Ends-execute_and_publish (some plan) lease s b =
        let started_at = ports.now_unix_ms s.world in
        Ends-and_then K (λ _. K) (Disposed received K B)
          (settle_report ports config job plan lease started_at)
          (run_scenario ports config job plan s)
          (Ends-call ports K true (ports.run_once plan job.load) (note (ran job) s)
            (run job s.log b))
          (λ report t k.
            Ends-settle_report ports config K silent received B job its_job plan lease started_at
              report t k)

    Ends-unless_lease_gone :
        (x : State R W × Outcome JobDisposition)
        → Ends K (Disposed received K B) x
        → Ends K (Disposed received K B) (unless_lease_gone ports config x)
    Ends-unless_lease_gone (s, done d) p = p
    Ends-unless_lease_gone (s, halted dropped) p = p
    Ends-unless_lease_gone (s, halted lease_gone) p = p
    Ends-unless_lease_gone (s, halted panicked) p = p

    Ends-release_unsettled :
        (lease : ExecutionLease) (d : JobDisposition) (s : State R W)
        → Disposed received K B d s.log
        → Ends K (Disposed received K B) (release_unsettled ports config lease d s)
    unfolding release_unsettled
    Ends-release_unsettled lease retry_later s p =
        Ends-and_then K (λ _. K) (Disposed received K B) (λ _. return retry_later)
          (call ports false (ports.release lease) s)
          (Ends-call ports K false (ports.release lease) s p) (λ _ t q. q)
    Ends-release_unsettled lease Types.result_published s p = p
    Ends-release_unsettled lease Types.retry_published s p = p
    Ends-release_unsettled lease Types.dead_letter_published s p = p
    Ends-release_unsettled lease duplicate_completed s p = p
    Ends-release_unsettled lease (execution_lease_busy d) s p = p

    Ends-execute_with_lease :
        (plan : Option (ScenarioExecutionPlan R Step)) (lease : ExecutionLease) (s : State R W)
        → B s.log
        → Ends K (Disposed received K B) (execute_with_lease ports config job plan lease s)
    unfolding execute_with_lease
    Ends-execute_with_lease plan lease s b =
        let x = execute_and_publish ports config job plan lease s in
        Ends-and_then K (Disposed received K B) (Disposed received K B)
          (release_unsettled ports config lease) (unless_lease_gone ports config x)
          (Ends-unless_lease_gone x (Ends-execute_and_publish plan lease s b))
          (λ d t p. Ends-release_unsettled lease d t p)

    Ends-claimed :
        (started : ℕ) (reply : Result CoordinationError ClaimOutcome) (s : State R W)
        → B s.log
        → Ends K (Disposed received K B) (
            claimed ops config ports plans job
              (record { execution_key = job.execution_key; attempt = job.attempt })
              started
              reply
              s)
    unfolding claimed
    Ends-claimed started (err e) s b = weaken s.log b
    Ends-claimed started (ok (already_completed outcome)) s b =
        by_duplicate job outcome its_job (weaken s.log b)
    Ends-claimed started (ok (busy retry_after)) s b = b
    Ends-claimed started (ok (lease_acquired lease)) s b =
        elim (Bool-cases (
          lease_response_has_safe_budget started lease.ttl config.execution_renew_interval
            (ports.instant s.world))) [
              | inl safe ↦
                  rw safe (Ends-execute_with_lease (lookup job.scenario_id plans) lease s b)
              | inr late ↦ rw late (weaken s.log b)
            ]

    Ends-claim_and_execute :
        (s : State R W)
        → B s.log
        → Ends K (Disposed received K B) (claim_and_execute ops config ports plans job s)
    unfolding claim_and_execute
    Ends-claim_and_execute s b =
        let attempted : ExecutionClaim = record {
          execution_key = job.execution_key;
          attempt = job.attempt;
        } in
        let started = ports.instant s.world in
        Ends-and_then K (λ _. B) (Disposed received K B)
          (claimed ops config ports plans job attempted started)
          (call ports false (ports.claim attempted) s)
          (Ends-mono B K (λ _. B) (λ _. B) (call ports false (ports.claim attempted) s)
            (Ends-call ports B false (ports.claim attempted) s b) weaken (λ _ log p. p))
          (λ reply t p. Ends-claimed started reply t p)

    Ends-admitted :
        (now : ℕ) (reason : Option String) (s : State R W)
        → B s.log
        → Ends K (Disposed received K B) (admitted ops config ports plans job now reason s)
    unfolding admitted publish_failed_with_retry publish_failed_with_optional_lease
    Ends-admitted now none s b = Ends-claim_and_execute s b
    Ends-admitted now (some reason) s b =
        let message = failed_job job reason now in
        let e = failed_sent message in
        let operation = ports.publish_failed_job message.execution_key message in
        Ends-and_then K (Acknowledged K (Last e K)) (Disposed received K B)
          (dead_lettered ops config ports plans) (publish_failed_with_retry ports config message s)
          (Ends-with_retry ports config K (Last e K) false message.execution_key
            (call ports false operation >>= noted e >>= λ reply. return (round_of reply))
            (λ t k. Ends-round_of ports config K e false operation t k) s (weaken s.log b))
          (λ reply t k.
            Ends-dead_lettered e (λ log l. by_refusal job reason now its_job l) reply t k)

  Ends-poisoned :
      (error : ContractError) (s : State R W)
      → received.job ≡ err error
      → B s.log
      → Ends K
          (Disposed received K B)
          (process_job ops config ports plans received.poison_record (err error) s)
  unfolding process_job publish_poison_with_retry
  Ends-poisoned error s is_error b =
      let poison = received.poison_record (contract_message error) in
      let e = poison_sent poison in
      Ends-and_then K (Acknowledged K (Last e K)) (Disposed received K B)
        (dead_lettered ops config ports plans) (publish_poison_with_retry ports config poison s)
        (Ends-with_retry ports config K (Last e K) false poison.event_id
          (call ports false (ports.publish_poison poison) >>= noted e >>= λ reply.
            return (round_of reply))
          (λ t k. Ends-round_of ports config K e false (ports.publish_poison poison) t k) s
          (weaken s.log b))
        (λ reply t k. Ends-dead_lettered e (λ log l. by_poison error is_error l) reply t k)

  Ends-process_job :
      (decoded : Result ContractError (ScenarioJob R)) (s : State R W)
      → received.job ≡ decoded
      → B s.log
      → Ends K
          (Disposed received K B)
          (process_job ops config ports plans received.poison_record decoded s)
  unfolding process_job
  Ends-process_job (err error) s e b = Ends-poisoned error s e b
  Ends-process_job (ok job) s e b =
      let now = ports.now_unix_ms s.world in
      Ends-admitted job e now (refusal ops config job plans now) s b

  pub Ends-process_once :
      (s : State R W)
      → B s.log
      → Ends K (Disposed received K B) (process_once ops config ports plans received s)
  unfolding process_once
  Ends-process_once s b = Ends-process_job received.job s refl b
