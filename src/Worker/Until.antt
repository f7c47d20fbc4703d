-- ===== src/Worker/Until.antt =====
-- `process_until_terminal` ends, starts at most one run, and reaches a terminal disposition only when
-- the log ends in the events that justify it.
use pulse.Prelude.{
  ℕ, zero, suc, ◌-◌, ◌≤◌, ◌<◌, arith, String, List, ◌∷◌, Bool, true, false, leb, ◌==◌, Bool-cases,
  inl, inr, Option, Duration,
}
use pulse.Domain.Contracts.{ScenarioJob}
use pulse.Planning.Slices.{PlanOps}
use pulse.Worker.Types
use pulse.Worker.Types.{
  JobDisposition, execution_lease_busy, retry_later, duplicate_completed, NodeRuntimeConfig,
  ScenarioExecutionPlan, RunReport, JobRecord,
}
use pulse.Worker.Ports.{Event, ran, done, Ports, State, Run, ◌>>=◌, wait}
use pulse.Worker.Process.{
  process_once, wait_or_shutdown, recheck_delay, unless_stopped, after_once, until_terminal,
  initial_delay, process_until_terminal,
}
use pulse.Worker.Log.{Ends, Silent, Disposed, Terminated}
use pulse.Worker.Rules.{Ends-and_then, Ends-mono, Ends-wait}
use pulse.Worker.Terminal.{Ends-process_once}

-- `B` holds of the log before the run of the scenario, and `K` from then on.
module _ {R Step W : Type 0} (ops : PlanOps R Step) (config : NodeRuntimeConfig R)
    (ports : Ports R Step W) (plans : List (String × ScenarioExecutionPlan R Step))
    (B K : List (Event R) → Type 0)
    (silent : (e : Event R) → Silent e → (log : List (Event R)) → K log → K (e ∷ log))
    (run : (job : ScenarioJob R) (log : List (Event R)) → B log → K (ran job ∷ log))
    (weaken : (log : List (Event R)) → B log → K log) (received : JobRecord R) where
  Ends-wait_or_shutdown :
      (duration : Duration) (s : State R W)
      → B s.log
      → Ends K (λ _. B) (wait_or_shutdown ops config ports plans duration s)
  unfolding wait_or_shutdown
  Ends-wait_or_shutdown duration s b = elim (Bool-cases (ports.shutdown_requested s.world)) [
    | inl stop ↦ rw stop b
    | inr go ↦ rw go (
        Ends-and_then K (λ _. B) (λ _. B) (λ _ t. (t, done (ports.shutdown_requested t.world)))
          (wait ports false duration s)
          (Ends-mono B K (λ _. B) (λ _. B) (wait ports false duration s)
            (Ends-wait ports B false duration s b) weaken (λ _ log p. p))
          (λ _ t p. p))
  ]

  Ends-unless_stopped :
      (rest : Run R W (Option JobDisposition))
      → ((t : State R W) → B t.log → Ends K (Terminated received K) (rest t))
      → (stopped : Bool) (s : State R W) → B s.log
      → Ends K (Terminated received K) (unless_stopped ops config ports plans rest stopped s)
  Ends-unless_stopped rest h true s b = weaken s.log b
  Ends-unless_stopped rest h false s b = h s b

  Ends-waited :
      (duration : Duration) (rest : Run R W (Option JobDisposition))
      → ((t : State R W) → B t.log → Ends K (Terminated received K) (rest t))
      → (s : State R W) → B s.log
      → Ends K (Terminated received K) (
          (wait_or_shutdown ops config ports plans duration
              >>= unless_stopped ops config ports plans rest)
            s)
  Ends-waited duration rest h s b =
      Ends-and_then K (λ _. B) (Terminated received K) (unless_stopped ops config ports plans rest)
        (wait_or_shutdown ops config ports plans duration s) (Ends-wait_or_shutdown duration s b)
        (λ stopped t p. Ends-unless_stopped rest h stopped t p)

  module _ (base_pos : 1 ≤ config.worker_retry_base_delay)
      (max_pos : 1 ≤ config.worker_retry_max_delay) where
    recheck_delay-pos :
        (retry_after : Duration) → 1 ≤ recheck_delay ops config ports plans retry_after
    recheck_delay-pos retry_after = ground (arith, base_pos, max_pos)

    Ends-after_once :
        (budget : Duration) (rest : Duration → Run R W (Option JobDisposition))
        → ((left : Duration)
            → left < budget
            → (t : State R W) → B t.log
            → Ends K (Terminated received K) (rest left t))
        → (d : JobDisposition) (s : State R W) → Disposed received K B d s.log
        → Ends K (Terminated received K) (after_once ops config ports plans budget rest d s)
    unfolding after_once
    Ends-after_once budget rest h (execution_lease_busy retry_after) s p =
        let delay = recheck_delay ops config ports plans retry_after in
        elim (Bool-cases (leb budget delay)) [
          | inl late ↦ rw late (weaken s.log p)
          | inr safe ↦ rw safe (
              Ends-waited delay (rest (budget - delay))
                (h (budget - delay) (ground (arith, safe, recheck_delay-pos retry_after))) s p)
        ]
    Ends-after_once budget rest h retry_later s p = p
    Ends-after_once budget rest h Types.result_published s p = p
    Ends-after_once budget rest h Types.retry_published s p = p
    Ends-after_once budget rest h Types.dead_letter_published s p = p
    Ends-after_once budget rest h duplicate_completed s p = p

    Ends-until_terminal :
        (n : ℕ) (budget : Duration)
        → budget < n
        → (s : State R W) → B s.log
        → Ends K (Terminated received K) (until_terminal ops config ports plans n budget received s)
    unfolding until_terminal
    Ends-until_terminal zero budget h s b = absurd (omega arith)
    Ends-until_terminal (suc n) budget h s b =
        Ends-and_then K (Disposed received K B) (Terminated received K)
          (after_once ops config ports plans budget
            (λ left. until_terminal ops config ports plans n left received))
          (process_once ops config ports plans received s)
          (Ends-process_once ops config ports plans B K silent run weaken received s b)
          (Ends-after_once budget (λ left. until_terminal ops config ports plans n left received)
            (λ left less. Ends-until_terminal n left (omega arith)))

    pub Ends-process_until_terminal :
        (s : State R W)
        → B s.log
        → Ends K (Terminated received K) (process_until_terminal ops config ports plans received s)
    unfolding process_until_terminal
    Ends-process_until_terminal s b =
        let budget = config.max_processing_interval in
        let rest = until_terminal ops config ports plans (suc budget) budget received in
        let all_good = Ends-until_terminal (suc budget) budget (omega arith) in
        let delay = initial_delay ops config ports plans received.job (ports.now_unix_ms s.world) in
        elim (Bool-cases (delay == 0)) [
          | inl now ↦ rw now (all_good s b)
          | inr later ↦ rw later (Ends-waited delay rest all_good s b)
        ]
