-- ===== src/Scheduler/Loop.antt =====
-- `scheduler_loop` of src/application/service.rs follows its specification.
use pulse.Prelude.{
  ℕ, zero, suc, ◌≡◌, refl, subst, String, List, [], ◌∷◌, Bool, true, false, Bool-cases, inl, inr,
  Option, none, some, Duration, Result, ok, err,
}
use pulse.Coordination.Types.{
  CoordinationError, unavailable, timeout, invalid_state, stale_owner, DispatchWindow,
  DispatchOutcome, ready, not_due, finished,
}
use pulse.Planning.Slices.{PlanOps}
use pulse.Worker.Types.{NodeRuntimeConfig, ScenarioExecutionPlan}
use pulse.Scheduler.Ports.{
  ObservedLeaderLease, Event, prepared, registered, Ports, State, note, at_world, lease_is_current,
}
use pulse.Scheduler.Dispatch.{
  Flow, next_plan, restart, dispatch_spec, interrupted, dispatch_slices, after_registration,
  dispatch_window, after_prepare, dispatch_plan, on_next_plan, dispatch_plans, unless_stopped,
  after_round, round, scheduler_loop,
}
use pulse.Scheduler.Follows.{
  Slices, OnePlan, nothing, unregistered, window_of, Rounds, break_off, again, plan_then,
  Slices-dispatch_slices,
}

module _ {R Step W : Type 0} (ops : PlanOps R Step) (config : NodeRuntimeConfig R)
    (ports : Ports R W) where
  OnePlan-after_registration :
      (scenario_id : String) (plan : ScenarioExecutionPlan R Step) (window : DispatchWindow)
      (leader : ObservedLeaderLease) (reply : Result CoordinationError (Unit {0}))
      (before : List (Event R)) (s : State R W)
      → s.log ≡ prepared (dispatch_spec ops config scenario_id plan) window ∷ before
      → OnePlan ops config scenario_id plan before
          (after_registration ops config ports scenario_id plan window leader reply s).0.log
  OnePlan-after_registration scenario_id plan window leader (err e) before s at_log =
      rw at_log (unregistered window)
  OnePlan-after_registration scenario_id plan window leader (ok _) before s at_log =
      window_of window (
        subst
          (λ log.
            Slices ops config plan window window.missing_slices (registered window ∷ log)
              (dispatch_slices ops config ports scenario_id plan window window.missing_slices leader
                (note (registered window) s)).0.log)
          at_log
          (Slices-dispatch_slices ops config ports scenario_id plan window window.missing_slices
            leader (note (registered window) s)))

  OnePlan-dispatch_window :
      (scenario_id : String) (plan : ScenarioExecutionPlan R Step) (leader : ObservedLeaderLease)
      (window : DispatchWindow) (before : List (Event R)) (s : State R W)
      → s.log ≡ prepared (dispatch_spec ops config scenario_id plan) window ∷ before
      → OnePlan ops config scenario_id plan before
          (dispatch_window ops config ports scenario_id plan leader window s).0.log
  unfolding dispatch_window
  OnePlan-dispatch_window scenario_id plan leader window before s at_log =
      let (w, reply) = ports.register_run window plan.scenario.config.duration s.world in
      elim (Bool-cases
        (lease_is_current (ports.observed_leader s.world) leader (ports.instant s.world))) [
          | inl led ↦ rw led (
              OnePlan-after_registration scenario_id plan window leader reply before (at_world w s)
                at_log)
          | inr lost ↦ rw (lost, at_log) (unregistered window)
        ]

  OnePlan-after_prepare :
      (scenario_id : String) (plan : ScenarioExecutionPlan R Step) (leader : ObservedLeaderLease)
      (reply : Result CoordinationError DispatchOutcome) (s : State R W)
      → OnePlan ops config scenario_id plan s.log
          (after_prepare ops config ports scenario_id plan leader reply s).0.log
  unfolding after_prepare
  OnePlan-after_prepare scenario_id plan leader (ok (ready window)) s =
      OnePlan-dispatch_window scenario_id plan leader window s.log
        (note (prepared (dispatch_spec ops config scenario_id plan) window) s) refl
  OnePlan-after_prepare scenario_id plan leader (ok (not_due retry_after)) s = nothing
  OnePlan-after_prepare scenario_id plan leader (ok finished) s = nothing
  OnePlan-after_prepare scenario_id plan leader (err (stale_owner operation)) s = nothing
  OnePlan-after_prepare scenario_id plan leader (err (unavailable operation message)) s = nothing
  OnePlan-after_prepare scenario_id plan leader (err (timeout operation)) s = nothing
  OnePlan-after_prepare scenario_id plan leader (err (invalid_state operation message)) s = nothing

  OnePlan-dispatch_plan :
      (scenario_id : String) (plan : ScenarioExecutionPlan R Step) (leader : ObservedLeaderLease)
      (s : State R W)
      → OnePlan ops config scenario_id plan s.log
          (dispatch_plan ops config ports scenario_id plan leader s).0.log
  unfolding dispatch_plan
  OnePlan-dispatch_plan scenario_id plan leader s =
      let (w, reply) =
        ports.prepare_window (dispatch_spec ops config scenario_id plan) leader.lease s.world in
      elim (Bool-cases (interrupted ops config ports leader s)) [
        | inl lost ↦ rw lost nothing
        | inr led ↦ rw led (OnePlan-after_prepare scenario_id plan leader reply (at_world w s))
      ]

  Rounds-on_next_plan :
      (plans left : List (String × ScenarioExecutionPlan R Step)) (scenario_id : String)
      (plan : ScenarioExecutionPlan R Step)
      (rest : ObservedLeaderLease → State R W → State R W × Flow) (final before : List (Event R))
      → ((leader : ObservedLeaderLease) (t : State R W)
          → Rounds ops config plans plans (rest leader t).0.log final
          → Rounds ops config plans left t.log final)
      → (x : State R W × Flow) → OnePlan ops config scenario_id plan before x.0.log
      → Rounds ops config plans plans (on_next_plan ops config ports rest x).0.log final
      → Rounds ops config plans ((scenario_id, plan) ∷ left) before final
  Rounds-on_next_plan plans left scenario_id plan rest final before h (t, restart) one r =
      plan_then one (again r)
  Rounds-on_next_plan plans left scenario_id plan rest final before h (t, next_plan leader) one r =
      plan_then one (h leader t r)

  Rounds-dispatch_plans :
      (plans left : List (String × ScenarioExecutionPlan R Step)) (final : List (Event R))
      (leader : ObservedLeaderLease) (s : State R W)
      → Rounds ops config plans plans (dispatch_plans ops config ports left leader s).0.log final
      → Rounds ops config plans left s.log final
  unfolding dispatch_plans
  Rounds-dispatch_plans plans [] final leader s r = again r
  Rounds-dispatch_plans plans ((scenario_id, plan) ∷ left) final leader s r =
      Rounds-on_next_plan plans left scenario_id plan (dispatch_plans ops config ports left) final
        s.log (Rounds-dispatch_plans plans left final)
        (dispatch_plan ops config ports scenario_id plan leader s)
        (OnePlan-dispatch_plan scenario_id plan leader s) r

  Rounds-unless_stopped :
      (plans : List (String × ScenarioExecutionPlan R Step)) (rest : State R W → State R W)
      → ((t : State R W) → Rounds ops config plans plans t.log (rest t).log)
      → (waited : W × Bool) (s : State R W)
      → Rounds ops config plans plans s.log (unless_stopped ops config ports rest waited s).log
  Rounds-unless_stopped plans rest h (w, true) s = break_off
  Rounds-unless_stopped plans rest h (w, false) s = h (at_world w s)

  Rounds-after_round :
      (plans : List (String × ScenarioExecutionPlan R Step)) (tick : Duration)
      (rest : State R W → State R W)
      → ((t : State R W) → Rounds ops config plans plans t.log (rest t).log)
      → (x : State R W × Flow)
      → Rounds ops config plans plans x.0.log (after_round ops config ports tick rest x).log
  Rounds-after_round plans tick rest h (t, restart) = h t
  Rounds-after_round plans tick rest h (t, next_plan leader) =
      Rounds-unless_stopped plans rest h (ports.wait_or_shutdown tick t.world) t

  Rounds-round :
      (plans : List (String × ScenarioExecutionPlan R Step)) (tick : Duration)
      (rest : State R W → State R W)
      → ((t : State R W) → Rounds ops config plans plans t.log (rest t).log)
      → (leader : Option ObservedLeaderLease) (s : State R W)
      → Rounds ops config plans plans s.log (round ops config ports tick plans rest leader s).log
  Rounds-round plans tick rest h none s =
      Rounds-unless_stopped plans rest h (ports.leader_changed s.world) s
  Rounds-round plans tick rest h (some leader) s =
      let x = dispatch_plans ops config ports plans leader s in
      Rounds-dispatch_plans plans plans (after_round ops config ports tick rest x).log leader s
        (Rounds-after_round plans tick rest h x)

  -- In any number of rounds, from any log, the scheduler only does what `Rounds` allows: of each plan
  -- that a round reaches it prepares a window for the plan's specification, registers the run of that
  -- window, and then takes the window's missing slices in their order. For a slice the publication of
  -- its first attempt is acknowledged (the key of that slice in the window, the window's run, its
  -- index and total, the attempt 0, the partition key of the plan's strategy) and right after it the
  -- acknowledgement of the slice is issued. It may stop before any of these steps but the last, and
  -- begin a new round.
  pub scheduler_loop-Rounds :
      (rounds : ℕ) (tick : Duration) (plans : List (String × ScenarioExecutionPlan R Step))
      (s : State R W)
      → Rounds ops config plans plans s.log
          (scheduler_loop ops config ports rounds tick plans s).log
  unfolding scheduler_loop
  scheduler_loop-Rounds zero tick plans s = break_off
  scheduler_loop-Rounds (suc rounds) tick plans s =
      elim (Bool-cases (ports.shutdown_requested s.world)) [
        | inl stopping ↦ rw stopping break_off
        | inr running ↦ rw running (
            Rounds-round plans tick (scheduler_loop ops config ports rounds tick plans)
              (scheduler_loop-Rounds rounds tick plans) (ports.observed_leader s.world) s)
      ]
