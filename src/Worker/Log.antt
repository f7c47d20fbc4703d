-- ===== src/Worker/Log.antt =====
-- What the log of the worker in src/application/service.rs says: which commits were issued and after
-- which events, how many runs started, and what settles a record.
use pulse.Prelude.{
  ℕ, ◌+◌, ◌≤◌, ◌≡◌, String, List, [], ◌∷◌, Option, none, some, Result, ok, err, u32_max, min,
}
use pulse.Domain.Error.{ContractError, contract_message}
use pulse.Domain.Contracts.{ScenarioJob, ScenarioRunResult, build_terminal_event_id}
use pulse.Coordination.Types.{
  TerminalOutcome, result_published, retry_published, dead_letter_published, CompletedOutcome,
  ExecutionLease,
}
use pulse.Worker.Types
use pulse.Worker.Types.{
  JobDisposition, execution_lease_busy, retry_later, duplicate_completed, JobRecord,
}
use pulse.Worker.Ports.{
  Event, checked, job_sent, result_sent, failed_sent, poison_sent, found_completed, ran, completed,
  commit_issued, Outcome, done, halted, dropped, lease_gone, panicked, State,
}
use pulse.Worker.Publish.{Round, acknowledged, refused, given_up}
use pulse.Worker.Reports.{failed_job, disposition_of}

module _ {R : Type 0} where
  -- Each commit that was issued, with the log before it.
  unfoldable pub commit_points : List (Event R) → List (ℕ × List (Event R))
  commit_points [] = []
  commit_points (commit_issued offset ∷ log) = (offset, log) ∷ commit_points log
  commit_points (checked lease ∷ log) = commit_points log
  commit_points (job_sent key job ∷ log) = commit_points log
  commit_points (result_sent result ∷ log) = commit_points log
  commit_points (failed_sent failed ∷ log) = commit_points log
  commit_points (poison_sent poison ∷ log) = commit_points log
  commit_points (found_completed claim outcome ∷ log) = commit_points log
  commit_points (ran job ∷ log) = commit_points log
  commit_points (completed lease outcome ∷ log) = commit_points log

  abbrev pub runs_of : Event R → ℕ
  runs_of (ran job) = 1
  runs_of (commit_issued offset) = 0
  runs_of (checked lease) = 0
  runs_of (job_sent key job) = 0
  runs_of (result_sent result) = 0
  runs_of (failed_sent failed) = 0
  runs_of (poison_sent poison) = 0
  runs_of (found_completed claim outcome) = 0
  runs_of (completed lease outcome) = 0

  -- The runs of scenarios that started.
  unfoldable pub runs : List (Event R) → ℕ
  runs [] = 0
  runs (e ∷ log) = runs_of e + runs log

  -- No commit since `before`, and at most `n` runs.
  abbrev pub Quiet : ℕ → List (Event R) → List (Event R) → Type 0
  Quiet n before log = (commit_points log ≡ commit_points before) × (runs log ≤ n + runs before)

  -- The log ends in an event, and was good before it.
  pub data Last (e : Event R) (I : List (Event R) → Type 0) : List (Event R) → Type 0 where
    last : {log : List (Event R)} → I log → Last e I (e ∷ log)

  -- The message that makes an outcome of a job durable.
  pub data Published (job : ScenarioJob R) : TerminalOutcome → Event R → Type 0 where
    as_result :
        (result : ScenarioRunResult)
        → result.execution_key ≡ job.execution_key
        → result.event_id ≡ build_terminal_event_id job.execution_key job.attempt "result"
        → Published job result_published (result_sent result)
    as_retry :
        (key : String) (next : ScenarioJob R)
        → next.execution_key ≡ job.execution_key
        → next.attempt ≡ min (job.attempt + 1) u32_max
        → Published job retry_published (job_sent key next)
    as_dead_letter :
        (reason : String) (now : ℕ)
        → Published job dead_letter_published (failed_sent (failed_job job reason now))

  -- What the log ends in when a record has reached a terminal disposition.
  pub data Settled (received : JobRecord R) (I : List (Event R) → Type 0)
      : JobDisposition → List (Event R) → Type 0 where
    by_lease :
        {log : List (Event R)} (job : ScenarioJob R) (outcome : TerminalOutcome) (e : Event R)
        (lease : ExecutionLease)
        → received.job ≡ ok job
        → Published job outcome e
        → I log
        → Settled received I
            (disposition_of outcome)
            (completed lease outcome ∷ e ∷ checked lease ∷ log)
    by_duplicate :
        {log : List (Event R)} (job : ScenarioJob R) (outcome : CompletedOutcome)
        → received.job ≡ ok job
        → I log
        → Settled received I duplicate_completed (
            found_completed
              (record { execution_key = job.execution_key; attempt = job.attempt })
              outcome
            ∷ log)
    by_refusal :
        {log : List (Event R)} (job : ScenarioJob R) (reason : String) (now : ℕ)
        → received.job ≡ ok job
        → I log
        → Settled received I Types.dead_letter_published
            (failed_sent (failed_job job reason now) ∷ log)
    by_poison :
        {log : List (Event R)} (error : ContractError)
        → received.job ≡ err error
        → I log
        → Settled received I Types.dead_letter_published
            (poison_sent (received.poison_record (contract_message error)) ∷ log)

  -- How a computation may end: with a value that has `P`, or dropped with a log that has `K`; it does
  -- not panic.
  abbrev pub Ends :
      {W A : Type 0}
      → (List (Event R) → Type 0)
      → (A → List (Event R) → Type 0)
      → State R W × Outcome A
      → Type 0
  Ends K P (s, done a) = P a s.log
  Ends K P (s, halted dropped) = K s.log
  Ends K P (s, halted lease_gone) = K s.log
  Ends K P (s, halted panicked) = ⊥

  -- A reply of `ok` adds the event.
  abbrev pub Replied :
      {E A : Type 0} → Event R → (List (Event R) → Type 0) → Result E A → List (Event R) → Type 0
  Replied e K (ok a) = Last e K
  Replied e K (err x) = K

  abbrev pub Acknowledged :
      {E A : Type 0}
      → (List (Event R) → Type 0)
      → (List (Event R) → Type 0)
      → Result E A
      → List (Event R)
      → Type 0
  Acknowledged K P (ok a) = P
  Acknowledged K P (err x) = K

  abbrev pub RoundEnds :
      {E : Type 0}
      → (List (Event R) → Type 0)
      → (List (Event R) → Type 0)
      → Round E
      → List (Event R)
      → Type 0
  RoundEnds K P acknowledged = P
  RoundEnds K P (refused x) = K
  RoundEnds K P (given_up x) = K

  -- An event that neither runs a scenario nor commits.
  abbrev pub Silent : Event R → Type 0
  Silent (ran job) = ⊥
  Silent (commit_issued offset) = ⊥
  Silent (checked lease) = Unit
  Silent (job_sent key job) = Unit
  Silent (result_sent result) = Unit
  Silent (failed_sent failed) = Unit
  Silent (poison_sent poison) = Unit
  Silent (found_completed claim outcome) = Unit
  Silent (completed lease outcome) = Unit

  -- What a disposition says of the log: `K` where the record stays unsettled, and `B` where its lease
  -- is busy.
  abbrev pub Disposed :
      JobRecord R
      → (List (Event R) → Type 0)
      → (List (Event R) → Type 0)
      → JobDisposition
      → List (Event R)
      → Type 0
  Disposed received K B Types.result_published = Settled received K Types.result_published
  Disposed received K B Types.retry_published = Settled received K Types.retry_published
  Disposed received K B Types.dead_letter_published = Settled received K Types.dead_letter_published
  Disposed received K B duplicate_completed = Settled received K duplicate_completed
  Disposed received K B (execution_lease_busy retry_after) = B
  Disposed received K B retry_later = K

  -- The end of the loop over one record: a disposition that ends it is settled.
  abbrev pub Terminated :
      JobRecord R → (List (Event R) → Type 0) → Option JobDisposition → List (Event R) → Type 0
  Terminated received K none = K
  Terminated received K (some d) = Settled received K d
