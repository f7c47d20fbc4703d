-- ===== src/Worker/Settlement.antt =====
-- `settle`, `publish_and_complete_dlq`, `settle_infrastructure_failure` and `settle_report` reach a
-- terminal disposition only when the log ends in the events that justify it.
use pulse.Prelude.{
  ℕ, ◌+◌, ◌≡◌, refl, String, List, ◌∷◌, true, leb, ltb, Bool-cases, inl, inr, Option, some, Result,
  ok, err, min, u32_max,
}
use pulse.Domain.Contracts.{ScenarioJob, ScenarioRunResult, build_terminal_event_id}
use pulse.Coordination.Types.{
  CoordinationError, unavailable, timeout, invalid_state, stale_owner, TerminalOutcome,
  result_published, retry_published, dead_letter_published, ExecutionLease,
}
use pulse.Worker.Types.{NodeRuntimeConfig, ScenarioExecutionPlan, RunReport, JobRecord}
use pulse.Worker.Ports.{
  Event, checked, job_sent, result_sent, failed_sent, completed, Ports, State, ◌>>=◌, return, call,
  noted,
}
use pulse.Worker.Publish.{
  completion_round, complete_until_acknowledged, publish_retry_with_retry,
  publish_result_with_retry, publish_failed_with_optional_lease, publish_leased_failed_with_retry,
  with_retry, checked_round,
}
use pulse.Worker.Execute.{
  settle, publish_and_complete_dlq, settle_infrastructure_failure, settle_report,
}
use pulse.Worker.Reports.{
  failed_job, disposition_of, next_attempt, run_result, permanent_failures, error_count, completion,
}
use pulse.Worker.Log.{
  Ends, Last, last, Replied, Acknowledged, RoundEnds, Silent, Published, as_result, as_retry,
  as_dead_letter, by_lease, Disposed,
}
use pulse.Worker.Rules.{Ends-and_then, Ends-mono, Ends-acknowledged}
use pulse.Worker.Retries.{Ends-with_retry, Ends-checked_round}

module _ {R Step W : Type 0} (ports : Ports R Step W) (config : NodeRuntimeConfig R)
    (K : List (Event R) → Type 0)
    (silent : (e : Event R) → Silent e → (log : List (Event R)) → K log → K (e ∷ log)) where
  keep_checked : (lease : ExecutionLease) (log : List (Event R)) → K log → K (checked lease ∷ log)
  keep_checked lease = silent (checked lease) tt

  -- A publication under a lease that was acknowledged.
  abbrev pub Sent : Event R → ExecutionLease → List (Event R) → Type 0
  Sent e lease = Last e (Last (checked lease) K)

  Sent-weaken :
      (e : Event R) (lease : ExecutionLease)
      → Silent e
      → (log : List (Event R)) → Sent e lease log
      → K log
  Sent-weaken e lease s log (last {log = l} (last {log = m} k)) =
      silent e s l (keep_checked lease m k)

  completion_round-Ends :
      {A : Type 0} (P : List (Event R) → Type 0) (e : Event R) (reply : Result CoordinationError A)
      (s : State R W)
      → Replied e P reply s.log
      → RoundEnds P (Last e P) (completion_round reply) s.log
  completion_round-Ends P e (ok a) s p = p
  completion_round-Ends P e (err (stale_owner operation)) s p = p
  completion_round-Ends P e (err (unavailable operation message)) s p = p
  completion_round-Ends P e (err (timeout operation)) s p = p
  completion_round-Ends P e (err (invalid_state operation message)) s p = p

  Ends-complete_until_acknowledged :
      (P : List (Event R) → Type 0) (lease : ExecutionLease) (outcome : TerminalOutcome)
      (s : State R W)
      → P s.log
      → Ends P
          (Acknowledged P (Last (completed lease outcome) P))
          (complete_until_acknowledged ports config lease outcome s)
  unfolding complete_until_acknowledged
  Ends-complete_until_acknowledged P lease outcome s p =
      let e = completed lease outcome in
      let attempt = call ports true (ports.complete lease outcome) >>= noted e in
      Ends-with_retry ports config P (Last e P) true lease.execution_key
        (attempt >>= λ reply. return (completion_round reply))
        (λ t q.
          Ends-and_then P (Replied e P) (RoundEnds P (Last e P))
            (λ reply. return (completion_round reply)) (attempt t)
            (Ends-acknowledged ports P e true (ports.complete lease outcome) t q)
            (λ reply u. completion_round-Ends P e reply u))
        s p

  module _ (received : JobRecord R) (B : List (Event R) → Type 0) (job : ScenarioJob R)
      (its_job : received.job ≡ ok job) where
    Disposed-of :
        (outcome : TerminalOutcome) (e : Event R) (lease : ExecutionLease) (log : List (Event R))
        → Published job outcome e
        → K log
        → Disposed received K B
            (disposition_of outcome)
            (completed lease outcome ∷ e ∷ checked lease ∷ log)
    Disposed-of result_published e lease log p k = by_lease job result_published e lease its_job p k
    Disposed-of retry_published e lease log p k = by_lease job retry_published e lease its_job p k
    Disposed-of dead_letter_published e lease log p k =
        by_lease job dead_letter_published e lease its_job p k

    Ends-completion :
        (J : List (Event R) → Type 0) (outcome : TerminalOutcome) (e : Event R)
        (lease : ExecutionLease)
        → Silent e
        → Published job outcome e
        → (reply : Result CoordinationError (Unit {0})) (s : State R W)
        → Acknowledged (Sent e lease) (Last (completed lease outcome) (Sent e lease)) reply s.log
        → Ends J (Disposed received K B) (completion {R = R} {W = W} outcome reply s)
    Ends-completion J outcome e lease silent_e p (err x) s q = Sent-weaken e lease silent_e s.log q
    Ends-completion J outcome e lease silent_e p (ok _) s q =
        completed_log outcome e lease p s.log q
      where
        completed_log :
            (outcome : TerminalOutcome) (e : Event R) (lease : ExecutionLease)
            → Published job outcome e
            → (log : List (Event R)) → Last (completed lease outcome) (Sent e lease) log
            → Disposed received K B (disposition_of outcome) log
        completed_log outcome e lease p log (last (last (last {log = l} k))) =
            Disposed-of outcome e lease l p k

    -- A publication under the lease, and then its settlement.
    Ends-published :
        (e : Event R) (lease : ExecutionLease) (entropy : String)
        (operation : W → W × Result String (Unit {0})) (s : State R W)
        → K s.log
        → Ends K (Acknowledged K (Sent e lease)) (
            with_retry ports config true entropy
              (checked_round ports config lease (call ports true operation >>= noted e))
              s)
    Ends-published e lease entropy operation =
        Ends-with_retry ports config K (Sent e lease) true entropy
          (checked_round ports config lease (call ports true operation >>= noted e))
          (Ends-checked_round ports config K e lease operation (keep_checked lease))

    Ends-settle :
        (outcome : TerminalOutcome) (e : Event R) (lease : ExecutionLease)
        → Silent e
        → Published job outcome e
        → (reply : Result String (Unit {0})) (s : State R W)
        → Acknowledged K (Sent e lease) reply s.log
        → Ends K (Disposed received K B) (settle ports config lease outcome reply s)
    unfolding settle
    Ends-settle outcome e lease silent_e p (err x) s q = q
    Ends-settle outcome e lease silent_e p (ok _) s q =
        let C = Sent e lease in
        Ends-mono C K (Disposed received K B) (Disposed received K B)
          ((complete_until_acknowledged ports config lease outcome >>= completion outcome) s)
          (Ends-and_then C (Acknowledged C (Last (completed lease outcome) C))
            (Disposed received K B) (completion outcome)
            (complete_until_acknowledged ports config lease outcome s)
            (Ends-complete_until_acknowledged C lease outcome s q)
            (λ reply t r. Ends-completion C outcome e lease silent_e p reply t r))
          (λ log. Sent-weaken e lease silent_e log) (λ d log r. r)

    pub Ends-publish_and_complete_dlq :
        (lease : ExecutionLease) (reason : String) (s : State R W)
        → K s.log
        → Ends K (Disposed received K B) (publish_and_complete_dlq ports config job lease reason s)
    unfolding publish_and_complete_dlq publish_leased_failed_with_retry
        publish_failed_with_optional_lease
    Ends-publish_and_complete_dlq lease reason s k =
        let now = ports.now_unix_ms s.world in
        let message = failed_job job reason now in
        let e = failed_sent message in
        Ends-and_then K (Acknowledged K (Sent e lease)) (Disposed received K B)
          (settle ports config lease dead_letter_published)
          (publish_leased_failed_with_retry ports config message lease s)
          (Ends-published e lease message.execution_key
            (ports.publish_failed_job message.execution_key message) s k)
          (λ reply t q.
            Ends-settle dead_letter_published e lease tt (as_dead_letter reason now) reply t q)

    Ends-publish_retry :
        (lease : ExecutionLease) (key : String) (next : ScenarioJob R) (s : State R W)
        → next.execution_key ≡ job.execution_key
        → next.attempt ≡ min (job.attempt + 1) u32_max
        → K s.log
        → Ends K (Disposed received K B) (
            (publish_retry_with_retry ports config key next lease
                >>= settle ports config lease retry_published)
              s)
    unfolding publish_retry_with_retry
    Ends-publish_retry lease key next s same_key next_one k =
        let e = job_sent key next in
        Ends-and_then K (Acknowledged K (Sent e lease)) (Disposed received K B)
          (settle ports config lease retry_published)
          (publish_retry_with_retry ports config key next lease s)
          (Ends-published e lease next.execution_key (ports.publish_job key next) s k)
          (λ reply t q.
            Ends-settle retry_published e lease tt (as_retry key next same_key next_one) reply t q)

    Ends-settle_infrastructure_failure :
        (plan : Option (ScenarioExecutionPlan R Step)) (lease : ExecutionLease) (reason : String)
        (s : State R W)
        → K s.log
        → Ends K
            (Disposed received K B)
            (settle_infrastructure_failure ports config job plan lease reason s)
    unfolding settle_infrastructure_failure next_attempt
    Ends-settle_infrastructure_failure plan lease reason s k =
        elim (Bool-cases (leb job.max_retries job.attempt)) [
          | inl spent ↦ rw spent (Ends-publish_and_complete_dlq lease _ s k)
          | inr left ↦ rw left (Ends-publish_retry lease _ _ s refl refl k)
        ]

    Ends-publish_result :
        (lease : ExecutionLease) (result : ScenarioRunResult) (s : State R W)
        → result.execution_key ≡ job.execution_key
        → result.event_id ≡ build_terminal_event_id job.execution_key job.attempt "result"
        → K s.log
        → Ends K (Disposed received K B) (
            (publish_result_with_retry ports config result lease
                >>= settle ports config lease result_published)
              s)
    unfolding publish_result_with_retry
    Ends-publish_result lease result s same_key same_event k =
        let e = result_sent result in
        Ends-and_then K (Acknowledged K (Sent e lease)) (Disposed received K B)
          (settle ports config lease result_published)
          (publish_result_with_retry ports config result lease s)
          (Ends-published e lease result.execution_key (ports.publish_result result) s k)
          (λ reply t q.
            Ends-settle result_published e lease tt (as_result result same_key same_event) reply t
              q)

    pub Ends-settle_report :
        (plan : ScenarioExecutionPlan R Step) (lease : ExecutionLease) (started_at : ℕ)
        (report : RunReport) (s : State R W)
        → K s.log
        → Ends K
            (Disposed received K B)
            (settle_report ports config job plan lease started_at report s)
    unfolding settle_report run_result
    Ends-settle_report plan lease started_at report s k =
        let counts = report.error_counts in
        elim (Bool-cases (ltb 0 (error_count "invariant_violation" counts))) [
          | inl broken ↦ rw broken k
          | inr sound ↦
              rw sound (elim (Bool-cases (ltb 0 (error_count "pulse_infrastructure" counts))) [
                | inl transient ↦
                    rw transient (Ends-settle_infrastructure_failure (some plan) lease _ s k)
                | inr steady ↦ rw steady (elim (Bool-cases (ltb 0 (permanent_failures counts))) [
                  | inl permanent ↦ rw permanent (Ends-publish_and_complete_dlq lease _ s k)
                  | inr fine ↦ rw fine (Ends-publish_result lease _ s refl refl k)
                ])
              ])
        ]
