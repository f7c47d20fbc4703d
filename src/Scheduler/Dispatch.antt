-- ===== src/Scheduler/Dispatch.antt =====
-- `scheduler_loop` of src/application/service.rs.
use pulse.Prelude.{
  ℕ, zero, suc, String, List, [], ◌∷◌, Bool, true, false, not, ◌||◌, if◌then◌else◌, Option, none,
  some, Duration, Result, ok, err,
}
use pulse.Domain.Contracts.{current_contract_version, ScenarioJob, key_for}
use pulse.Coordination.Types.{
  CoordinationError, unavailable, timeout, invalid_state, stale_owner, DispatchSpec, DispatchWindow,
  DispatchOutcome, ready, not_due, finished, DispatchProgress, execution_key,
}
use pulse.Planning.Slices.{PlanOps, calculate_slices, slice_load}
use pulse.Worker.Types.{NodeRuntimeConfig, ScenarioExecutionPlan}
use pulse.Worker.Refusal.{execution_plan_fingerprint}
use pulse.Scheduler.Ports.{
  ObservedLeaderLease, prepared, registered, job_sent, ack_issued, Ports, State, note, at_world,
  lease_is_current, refreshed,
}

-- Where the body of the loops goes on: with the next plan, under a leader, or with a new round of the
-- outer loop (`continue 'scheduler`).
pub data Flow : Type 0 where
  next_plan : ObservedLeaderLease → Flow
  restart : Flow

unfoldable pub dispatch_spec :
    {R Step : Type 0}
    → PlanOps R Step
    → NodeRuntimeConfig R
    → String
    → ScenarioExecutionPlan R Step
    → DispatchSpec
dispatch_spec ops config scenario_id plan =
    let slices =
      calculate_slices ops plan.scenario.config.scenarios_per_sec
        plan.scenario.config.max_concurrency plan.scenario.config.duration in
    record {
      scenario_id = scenario_id;
      contract_version = current_contract_version;
      total_slices = slices;
      repeat = plan.scenario.config.repeat;
      plan_fingerprint =
          execution_plan_fingerprint ops config plan slices config.startup_burst
            config.worker_max_retries;
    }

unfoldable pub dispatch_job :
    {R Step : Type 0}
    → PlanOps R Step
    → NodeRuntimeConfig R
    → String
    → ScenarioExecutionPlan R Step
    → DispatchWindow
    → ℕ
    → String
    → ScenarioJob R
dispatch_job ops config scenario_id plan window slice_index key = record {
  schema_version = window.contract_version;
  scenario_id = scenario_id;
  run_id = window.run_id;
  execution_key = key;
  plan_fingerprint = window.plan_fingerprint;
  scheduled_at_unix_ms = window.scheduled_at_unix_ms;
  not_before_unix_ms = 0;
  slice = record { index = slice_index; total = window.total_slices };
  load = slice_load ops plan.scenario window.total_slices slice_index config.startup_burst;
  attempt = 0;
  max_retries = config.worker_max_retries;
}

module _ {R Step W : Type 0} (ops : PlanOps R Step) (config : NodeRuntimeConfig R)
    (ports : Ports R W) where
  abbrev pub interrupted : ObservedLeaderLease → State R W → Bool
  interrupted leader s =
      ports.shutdown_requested s.world
      || not (lease_is_current (ports.observed_leader s.world) leader (ports.instant s.world))

  -- After the reply to the acknowledgement of a slice; `rest` is the loop from the next slice on.
  unfoldable pub after_ack :
      (ObservedLeaderLease → State R W → State R W × Flow)
      → ObservedLeaderLease
      → Result CoordinationError DispatchProgress
      → State R W
      → State R W × Flow
  after_ack rest leader (ok progress) s = rest leader s
  after_ack rest leader (err (stale_owner operation)) s = (s, restart)
  after_ack rest leader (err (unavailable operation message)) s = (s, next_plan leader)
  after_ack rest leader (err (timeout operation)) s = (s, next_plan leader)
  after_ack rest leader (err (invalid_state operation message)) s = (s, next_plan leader)

  unfoldable pub acknowledge :
      (ObservedLeaderLease → State R W → State R W × Flow)
      → DispatchWindow
      → ℕ
      → ObservedLeaderLease
      → State R W
      → State R W × Flow
  unfolding after_ack
  acknowledge rest window slice_index leader s =
      let (w, reply) = ports.ack_slice window slice_index leader.lease s.world in
      after_ack rest leader reply (at_world w (note (ack_issued window slice_index) s))

  -- After a publication that was not dropped.
  unfoldable pub after_publication :
      (ObservedLeaderLease → State R W → State R W × Flow)
      → DispatchWindow
      → ℕ
      → String
      → ScenarioJob R
      → ObservedLeaderLease
      → Result String (Unit {0})
      → State R W
      → State R W × Flow
  unfolding acknowledge
  after_publication rest window slice_index key job leader (err e) s = (s, next_plan leader)
  after_publication rest window slice_index key job leader (ok _) s =
      acknowledge rest window slice_index leader (note (job_sent key job) s)

  unfoldable pub publish_slice :
      (ObservedLeaderLease → State R W → State R W × Flow)
      → String
      → ScenarioExecutionPlan R Step
      → DispatchWindow
      → ℕ
      → ObservedLeaderLease
      → Option String
      → State R W
      → State R W × Flow
  unfolding after_publication
  publish_slice rest scenario_id plan window slice_index leader none s = (s, restart)
  publish_slice rest scenario_id plan window slice_index leader (some execution) s =
      let job = dispatch_job ops config scenario_id plan window slice_index execution in
      let key = key_for plan.scenario.config.partition_key_strategy job in
      let (w, reply) = ports.publish_job key job s.world in
      if ports.publication_dropped w
      then (at_world w s, restart)
      else after_publication rest window slice_index key job
          (refreshed (ports.observed_leader w) leader) reply (at_world w s)

  -- `for slice_index in window.missing_slices`
  unfoldable pub dispatch_slices :
      String
      → ScenarioExecutionPlan R Step
      → DispatchWindow
      → List ℕ
      → ObservedLeaderLease
      → State R W
      → State R W × Flow
  unfolding publish_slice
  dispatch_slices scenario_id plan window [] leader s = (s, next_plan leader)
  dispatch_slices scenario_id plan window (slice_index ∷ slices) leader s =
      if interrupted leader s
      then (s, restart)
      else publish_slice (dispatch_slices scenario_id plan window slices) scenario_id plan window
          slice_index leader (execution_key window slice_index) s

  -- After the reply to the registration of the run.
  abbrev pub after_registration :
      String
      → ScenarioExecutionPlan R Step
      → DispatchWindow
      → ObservedLeaderLease
      → Result CoordinationError (Unit {0})
      → State R W
      → State R W × Flow
  after_registration scenario_id plan window leader (err e) s = (s, next_plan leader)
  after_registration scenario_id plan window leader (ok _) s =
      dispatch_slices scenario_id plan window window.missing_slices leader
        (note (registered window) s)

  unfoldable pub dispatch_window :
      String
      → ScenarioExecutionPlan R Step
      → ObservedLeaderLease
      → DispatchWindow
      → State R W
      → State R W × Flow
  unfolding dispatch_slices
  dispatch_window scenario_id plan leader window s =
      if not (lease_is_current (ports.observed_leader s.world) leader (ports.instant s.world))
      then (s, restart)
      else let (w, reply) = ports.register_run window plan.scenario.config.duration s.world in
        after_registration scenario_id plan window leader reply (at_world w s)

  -- After the reply to `prepare_window`.
  unfoldable pub after_prepare :
      String
      → ScenarioExecutionPlan R Step
      → ObservedLeaderLease
      → Result CoordinationError DispatchOutcome
      → State R W
      → State R W × Flow
  unfolding dispatch_window dispatch_spec
  after_prepare scenario_id plan leader (ok (ready window)) s =
      dispatch_window scenario_id plan leader window
        (note (prepared (dispatch_spec ops config scenario_id plan) window) s)
  after_prepare scenario_id plan leader (ok (not_due retry_after)) s = (s, next_plan leader)
  after_prepare scenario_id plan leader (ok finished) s = (s, next_plan leader)
  after_prepare scenario_id plan leader (err (stale_owner operation)) s = (s, restart)
  after_prepare scenario_id plan leader (err (unavailable operation message)) s =
      (s, next_plan leader)
  after_prepare scenario_id plan leader (err (timeout operation)) s = (s, next_plan leader)
  after_prepare scenario_id plan leader (err (invalid_state operation message)) s =
      (s, next_plan leader)

  unfoldable pub dispatch_plan :
      String → ScenarioExecutionPlan R Step → ObservedLeaderLease → State R W → State R W × Flow
  unfolding after_prepare dispatch_spec
  dispatch_plan scenario_id plan leader s =
      if interrupted leader s
      then (s, restart)
      else let (w, reply) =
          ports.prepare_window (dispatch_spec ops config scenario_id plan) leader.lease s.world in
        after_prepare scenario_id plan leader reply (at_world w s)

  abbrev pub on_next_plan :
      (ObservedLeaderLease → State R W → State R W × Flow) → State R W × Flow → State R W × Flow
  on_next_plan rest (s, restart) = (s, restart)
  on_next_plan rest (s, next_plan leader) = rest leader s

  -- `for (scenario_id, plan) in plans.iter()`
  unfoldable pub dispatch_plans :
      List (String × ScenarioExecutionPlan R Step)
      → ObservedLeaderLease
      → State R W
      → State R W × Flow
  unfolding dispatch_plan
  dispatch_plans [] leader s = (s, next_plan leader)
  dispatch_plans ((scenario_id, plan) ∷ plans) leader s =
      on_next_plan (dispatch_plans plans) (dispatch_plan scenario_id plan leader s)

  abbrev pub unless_stopped : (State R W → State R W) → W × Bool → State R W → State R W
  unless_stopped rest (w, true) s = at_world w s
  unless_stopped rest (w, false) s = rest (at_world w s)

  -- The wait after a round that saw all plans.
  abbrev pub after_round : Duration → (State R W → State R W) → State R W × Flow → State R W
  after_round tick rest (s, restart) = rest s
  after_round tick rest (s, next_plan leader) =
      unless_stopped rest (ports.wait_or_shutdown tick s.world) s

  -- A round after which the loop goes on with `rest`; without a leader it waits for the next one, and
  -- the loop ends if the watch channel is closed.
  abbrev pub round :
      Duration
      → List (String × ScenarioExecutionPlan R Step)
      → (State R W → State R W)
      → Option ObservedLeaderLease
      → State R W
      → State R W
  round tick plans rest none s = unless_stopped rest (ports.leader_changed s.world) s
  round tick plans rest (some leader) s = after_round tick rest (dispatch_plans plans leader s)

  -- At most so many rounds of the outer loop, which ends at a shutdown or with the watch channel.
  unfoldable pub scheduler_loop :
      ℕ → Duration → List (String × ScenarioExecutionPlan R Step) → State R W → State R W
  unfolding dispatch_plans
  scheduler_loop zero tick plans s = s
  scheduler_loop (suc rounds) tick plans s =
      if ports.shutdown_requested s.world
      then s
      else round tick plans (scheduler_loop rounds tick plans) (ports.observed_leader s.world) s
