-- ===== src/Worker/Ports.antt =====
-- The world of the worker in src/application/service.rs: brokers, stores and clocks as operations on
-- a state of any type, and the log of what they acknowledged.
--
-- A future can be dropped while it waits: at the Kafka-safe deadline and the shutdown of the node, or,
-- under `execute_with_lease`, when the concurrent renewal loses the lease. The world says after each
-- operation whether that has happened; the operation may have had its effect all the same.
use pulse.Prelude.{ℕ, String, List, ◌∷◌, Bool, true, false, Duration, Result, ok, err}
use pulse.Domain.Contracts.{
  ScenarioJob, ScenarioRunResult, FailedScenarioJob, PoisonMessageRecord, JobLoadConfig,
}
use pulse.Coordination.Types.{
  CoordinationError, TerminalOutcome, CompletedOutcome, ExecutionClaim, ExecutionLease,
  ClaimOutcome, ReleaseOutcome,
}
use pulse.Worker.Types.{RunReport, ScenarioExecutionPlan}

pub data Interruption : Type 0 where
  running stopped lease_lost : Interruption

-- `panicked` is an `unreachable!`, and a loop without its end.
pub data Halt : Type 0 where
  dropped lease_gone panicked : Halt

pub data Outcome (A : Type 0) : Type 0 where
  done : A → Outcome A
  halted : Halt → Outcome A

-- What has been acknowledged; a run of a scenario and a commit of an offset stand here when they start.
pub data Event (R : Type 0) : Type 0 where
  checked : ExecutionLease → Event R
  job_sent : String → ScenarioJob R → Event R
  result_sent : ScenarioRunResult → Event R
  failed_sent : FailedScenarioJob → Event R
  poison_sent : PoisonMessageRecord → Event R
  found_completed : ExecutionClaim → CompletedOutcome → Event R
  ran : ScenarioJob R → Event R
  completed : ExecutionLease → TerminalOutcome → Event R
  commit_issued : ℕ → Event R

pub record Ports (R Step W : Type 0) : Type 0 where
  pub interrupted : W → Interruption
  pub shutdown_requested : W → Bool
  -- now_unix_ms, and Instant::now in nanoseconds
  pub now_unix_ms : W → ℕ
  pub instant : W → ℕ
  pub sleep : Duration → W → W
  pub publish_job : String → ScenarioJob R → W → W × Result String (Unit {0})
  pub publish_result : ScenarioRunResult → W → W × Result String (Unit {0})
  pub publish_failed_job : String → FailedScenarioJob → W → W × Result String (Unit {0})
  pub publish_poison : PoisonMessageRecord → W → W × Result String (Unit {0})
  pub claim : ExecutionClaim → W → W × Result CoordinationError ClaimOutcome
  pub renew : ExecutionLease → W → W × Result CoordinationError ExecutionLease
  pub complete :
      ExecutionLease → TerminalOutcome → W → W × Result CoordinationError CompletedOutcome
  pub release : ExecutionLease → W → W × Result CoordinationError ReleaseOutcome
  -- PulseRunner::run_once with the load of the job
  pub run_once : ScenarioExecutionPlan R Step → JobLoadConfig R → W → W × RunReport
  pub commit : ℕ → W → W × Result String (Unit {0})

-- The world, and the log with the newest event first.
pub record State (R W : Type 0) : Type 0 where
  pub world : W
  pub log : List (Event R)

abbrev pub Run : Type 0 → Type 0 → Type 0 → Type 0
Run R W A = State R W → State R W × Outcome A

abbrev pub and_then :
    {R W A B : Type 0} → (A → Run R W B) → State R W × Outcome A → State R W × Outcome B
and_then f (s, done a) = f a s
and_then f (s, halted h) = (s, halted h)

-- `.await` followed by the rest of the body
infixl 5 ◌>>=◌
abbrev pub ◌>>=◌ : {R W A B : Type 0} → Run R W A → (A → Run R W B) → Run R W B
(m >>= f) s = and_then f (m s)

abbrev pub return : {R W A : Type 0} → A → Run R W A
return a s = (s, done a)

abbrev pub halt : {R W A : Type 0} → Halt → Run R W A
halt h s = (s, halted h)

abbrev pub note : {R W : Type 0} → Event R → State R W → State R W
note e s = record s { log = e ∷ s.log }

-- Whether a future that waits under the lease or not goes on.
abbrev pub survive : {R W A : Type 0} → Bool → Interruption → A → Run R W A
survive leased running a = return a
survive leased stopped a = halt dropped
survive true lease_lost a = halt lease_gone
survive false lease_lost a = return a

-- One operation of the world, awaited.
abbrev pub call : {R Step W A : Type 0} → Ports R Step W → Bool → (W → W × A) → Run R W A
call ports leased operation s =
    let (w, a) = operation s.world in
    survive leased (ports.interrupted w) a (record s { world = w })

-- `sleep`, awaited.
abbrev pub wait : {R Step W : Type 0} → Ports R Step W → Bool → Duration → Run R W (Unit {0})
wait ports leased duration = call ports leased (λ w. (ports.sleep duration w, tt))

-- The rest of a body that reads the wall clock.
abbrev pub at_now : {R Step W A : Type 0} → Ports R Step W → (ℕ → Run R W A) → Run R W A
at_now ports k s = k (ports.now_unix_ms s.world) s

-- The log counts an operation that succeeded once its reply is there.
abbrev pub noted : {R W E A : Type 0} → Event R → Result E A → Run R W (Result E A)
noted e (ok a) s = (note e s, done (ok a))
noted e (err x) s = (s, done (err x))
