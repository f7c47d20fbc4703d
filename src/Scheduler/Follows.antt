-- ===== src/Scheduler/Follows.antt =====
-- `scheduler_loop` of src/application/service.rs against its specification: it issues the
-- acknowledgement of a slice right after the publication of its job was acknowledged.
use pulse.Prelude.{
  ℕ, ◌≡◌, refl, String, List, [], ◌∷◌, Bool-cases, inl, inr, Option, none, some, Result, ok, err,
}
use pulse.Domain.Contracts.{ScenarioJob, key_for}
use pulse.Coordination.Types.{
  CoordinationError, unavailable, timeout, invalid_state, stale_owner, DispatchWindow,
  DispatchProgress, execution_key,
}
use pulse.Planning.Slices.{PlanOps}
use pulse.Worker.Types.{NodeRuntimeConfig, ScenarioExecutionPlan}
use pulse.Scheduler.Ports.{
  ObservedLeaderLease, Event, prepared, registered, job_sent, ack_issued, Ports, State, note,
  at_world, refreshed,
}
use pulse.Scheduler.Dispatch.{
  Flow, dispatch_spec, dispatch_job, interrupted, after_ack, acknowledge, after_publication,
  publish_slice, dispatch_slices,
}

module _ {R Step : Type 0} (ops : PlanOps R Step) (config : NodeRuntimeConfig R) where
  -- The first attempt of one slice of a window, with the key of its partition.
  pub record FirstAttempt (plan : ScenarioExecutionPlan R Step) (window : DispatchWindow)
      (slice_index : ℕ) (key : String) (job : ScenarioJob R) : Type 0 where
    pub in_window : execution_key window slice_index ≡ some job.execution_key
    pub of_run : job.run_id ≡ window.run_id
    pub index_is : job.slice.index ≡ slice_index
    pub total_is : job.slice.total ≡ window.total_slices
    pub first : job.attempt ≡ 0
    pub key_is : key ≡ key_for plan.scenario.config.partition_key_strategy job

  -- The slices of a registered window: each is published, and only then acknowledged; the scheduler
  -- may stop before any of them.
  pub data Slices (plan : ScenarioExecutionPlan R Step) (window : DispatchWindow)
      : List ℕ → List (Event R) → List (Event R) → Type 0 where
    stop : {slices : List ℕ} {log : List (Event R)} → Slices plan window slices log log
    dispatch :
        {slice_index : ℕ} {slices : List ℕ} {key : String} {job : ScenarioJob R}
        {before final : List (Event R)}
        → FirstAttempt plan window slice_index key job
        → Slices plan window slices
            (ack_issued window slice_index ∷ job_sent key job ∷ before)
            final
        → Slices plan window (slice_index ∷ slices) before final

  -- One plan: nothing, or a prepared window that is not registered, or the missing slices of a window
  -- that was prepared for the plan and registered.
  pub data OnePlan (scenario_id : String) (plan : ScenarioExecutionPlan R Step)
      : List (Event R) → List (Event R) → Type 0 where
    nothing : {log : List (Event R)} → OnePlan scenario_id plan log log
    unregistered :
        {log : List (Event R)} (window : DispatchWindow)
        → OnePlan scenario_id plan log
            (prepared (dispatch_spec ops config scenario_id plan) window ∷ log)
    window_of :
        {before final : List (Event R)} (window : DispatchWindow)
        → Slices plan window window.missing_slices
            (registered window
              ∷ prepared (dispatch_spec ops config scenario_id plan) window
              ∷ before)
            final
        → OnePlan scenario_id plan before final

  pub data Rounds (plans : List (String × ScenarioExecutionPlan R Step))
      : List (String × ScenarioExecutionPlan R Step)
        → List (Event R)
        → List (Event R)
        → Type 0 where
    break_off :
        {left : List (String × ScenarioExecutionPlan R Step)} {log : List (Event R)}
        → Rounds plans left log log
    again :
        {left : List (String × ScenarioExecutionPlan R Step)} {before final : List (Event R)}
        → Rounds plans plans before final
        → Rounds plans left before final
    plan_then :
        {scenario_id : String} {plan : ScenarioExecutionPlan R Step}
        {left : List (String × ScenarioExecutionPlan R Step)} {before middle final : List (Event R)}
        → OnePlan scenario_id plan before middle
        → Rounds plans left middle final
        → Rounds plans ((scenario_id, plan) ∷ left) before final

  module _ {W : Type 0} (ports : Ports R W) where
    Slices-after_ack :
        (plan : ScenarioExecutionPlan R Step) (window : DispatchWindow) (slices : List ℕ)
        (rest : ObservedLeaderLease → State R W → State R W × Flow)
        → ((leader : ObservedLeaderLease) (t : State R W)
            → Slices plan window slices t.log (rest leader t).0.log)
        → (leader : ObservedLeaderLease) (reply : Result CoordinationError DispatchProgress)
          (s : State R W)
        → Slices plan window slices s.log (after_ack ops config ports rest leader reply s).0.log
    unfolding after_ack
    Slices-after_ack plan window slices rest h leader (ok progress) s = h leader s
    Slices-after_ack plan window slices rest h leader (err (stale_owner operation)) s = stop
    Slices-after_ack plan window slices rest h leader (err (unavailable operation message)) s = stop
    Slices-after_ack plan window slices rest h leader (err (timeout operation)) s = stop
    Slices-after_ack plan window slices rest h leader (err (invalid_state operation message)) s =
        stop

    Slices-after_publication :
        (plan : ScenarioExecutionPlan R Step) (window : DispatchWindow) (slice_index : ℕ)
        (slices : List ℕ) (rest : ObservedLeaderLease → State R W → State R W × Flow)
        → ((leader : ObservedLeaderLease) (t : State R W)
            → Slices plan window slices t.log (rest leader t).0.log)
        → (key : String) (job : ScenarioJob R) → FirstAttempt plan window slice_index key job
        → (leader : ObservedLeaderLease) (reply : Result String (Unit {0})) (s : State R W)
        → Slices plan window
            (slice_index ∷ slices)
            s.log
            (after_publication ops config ports rest window slice_index key job leader reply
              s).0.log
    unfolding after_publication acknowledge
    Slices-after_publication plan window slice_index slices rest h key job f leader (err e) s = stop
    Slices-after_publication plan window slice_index slices rest h key job f leader (ok _) s =
        let (w, reply) = ports.ack_slice window slice_index leader.lease s.world in
        dispatch f (
          Slices-after_ack plan window slices rest h leader reply
            (at_world w (note (ack_issued window slice_index) (note (job_sent key job) s))))

    Slices-publish_slice :
        (scenario_id : String) (plan : ScenarioExecutionPlan R Step) (window : DispatchWindow)
        (slice_index : ℕ) (slices : List ℕ)
        (rest : ObservedLeaderLease → State R W → State R W × Flow)
        → ((leader : ObservedLeaderLease) (t : State R W)
            → Slices plan window slices t.log (rest leader t).0.log)
        → (leader : ObservedLeaderLease) (execution : Option String) (s : State R W)
        → execution_key window slice_index ≡ execution
        → Slices plan window
            (slice_index ∷ slices)
            s.log
            (publish_slice ops config ports rest scenario_id plan window slice_index leader
              execution s).0.log
    unfolding publish_slice dispatch_job
    Slices-publish_slice scenario_id plan window slice_index slices rest h leader none s e = stop
    Slices-publish_slice scenario_id plan window slice_index slices rest h leader (some execution) s
          e =
        let job = dispatch_job ops config scenario_id plan window slice_index execution in
        let key = key_for plan.scenario.config.partition_key_strategy job in
        let (w, reply) = ports.publish_job key job s.world in
        elim (Bool-cases (ports.publication_dropped w)) [
          | inl dropped ↦ rw dropped stop
          | inr sent ↦ rw sent (
              Slices-after_publication plan window slice_index slices rest h key job
                (record {
                  in_window = e;
                  of_run = refl;
                  index_is = refl;
                  total_is = refl;
                  first = refl;
                  key_is = refl;
                })
                (refreshed (ports.observed_leader w) leader) reply (at_world w s))
        ]

    pub Slices-dispatch_slices :
        (scenario_id : String) (plan : ScenarioExecutionPlan R Step) (window : DispatchWindow)
        (slices : List ℕ) (leader : ObservedLeaderLease) (s : State R W)
        → Slices plan window slices s.log
            (dispatch_slices ops config ports scenario_id plan window slices leader s).0.log
    unfolding dispatch_slices
    Slices-dispatch_slices scenario_id plan window [] leader s = stop
    Slices-dispatch_slices scenario_id plan window (slice_index ∷ slices) leader s =
        elim (Bool-cases (interrupted ops config ports leader s)) [
          | inl lost ↦ rw lost stop
          | inr led ↦ rw led (
              Slices-publish_slice scenario_id plan window slice_index slices
                (dispatch_slices ops config ports scenario_id plan window slices)
                (Slices-dispatch_slices scenario_id plan window slices) leader
                (execution_key window slice_index) s refl)
        ]
