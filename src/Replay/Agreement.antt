-- ===== src/Replay/Agreement.antt =====
-- The jobs of the scheduler and of the replay pass the worker's comparison with its own plan.
use pulse.Prelude.{
  ℕ, false, refl, sym, ap, subst, ◌∙◌, ◌≡◌, arith, eq_refl, String, List, none, some, ok, lookup,
}
use pulse.Domain.Contracts.{ScenarioJob, JobLoadConfig, FailedScenarioJob}
use pulse.Coordination.Types.{DispatchWindow}
use pulse.Domain.Scenario.{Scenario}
use pulse.Planning.Slices.{PlanOps, part_of, slice_load, slice_startup_burst}
use pulse.Worker.Types.{NodeRuntimeConfig, ScenarioExecutionPlan}
use pulse.Worker.Refusal.{
  load_differs, execution_plan_fingerprint, plan_mismatch, deterministic_job_plan_error,
}
use pulse.Scheduler.Dispatch.{dispatch_spec, dispatch_job}
use pulse.Replay.Build.{ReplaySource, ReplayOptions, replay_run_id, replay_job, build_replay_job}

module _ {R Step : Type 0} (ops : PlanOps R Step) (config : NodeRuntimeConfig R) where
  same_load : (load : JobLoadConfig R) → load_differs ops config load load ≡ false
  same_load load = ground arith

  -- A job with the load and the fingerprint of the local plan does not differ from it.
  plan_mismatch-none :
      (job : ScenarioJob R) (plan : ScenarioExecutionPlan R Step)
      → job.load ≡ slice_load ops plan.scenario job.slice.total job.slice.index config.startup_burst
      → job.plan_fingerprint
        ≡ execution_plan_fingerprint ops config plan job.slice.total config.startup_burst
            config.worker_max_retries
      → plan_mismatch ops config job (some plan) ≡ none
  unfolding plan_mismatch
  plan_mismatch-none job plan l f =
      rw
        (
          l,
          f,
          same_load
              (slice_load ops plan.scenario job.slice.total job.slice.index config.startup_burst),
          eq_refl (
              execution_plan_fingerprint ops config plan job.slice.total config.startup_burst
                config.worker_max_retries),
        )
        refl

  plan_error-none :
      (job : ScenarioJob R) (plan : ScenarioExecutionPlan R Step)
      (plans : List (String × ScenarioExecutionPlan R Step))
      → lookup job.scenario_id plans ≡ some plan
      → job.max_retries ≡ config.worker_max_retries
      → plan_mismatch ops config job (some plan) ≡ none
      → deterministic_job_plan_error ops config job plans ≡ none
  unfolding deterministic_job_plan_error
  plan_error-none job plan plans here retries m = ground (arith, here, retries, m)

  -- The scheduler's job for a slice of a window that has the total and the fingerprint of the plan's
  -- specification passes the comparison of a worker with the same configuration, where that worker
  -- has the same plan for the scenario or none.
  pub dispatch_job-agrees :
      (scenario_id : String) (plan : ScenarioExecutionPlan R Step) (window : DispatchWindow)
      (slice_index : ℕ) (key : String) (plans : List (String × ScenarioExecutionPlan R Step))
      → lookup scenario_id plans ≡ some plan
      → window.total_slices ≡ (dispatch_spec ops config scenario_id plan).total_slices
      → window.plan_fingerprint ≡ (dispatch_spec ops config scenario_id plan).plan_fingerprint
      → deterministic_job_plan_error ops config
          (dispatch_job ops config scenario_id plan window slice_index key)
          plans
        ≡ none
  unfolding dispatch_job dispatch_spec
  dispatch_job-agrees scenario_id plan window slice_index key plans has_plan total fingerprint =
      let job = dispatch_job ops config scenario_id plan window slice_index key in
      plan_error-none job plan plans has_plan refl (
        plan_mismatch-none job plan refl (
          fingerprint
          ∙ ap
              (λ t.
                execution_plan_fingerprint ops config plan t config.startup_burst
                  config.worker_max_retries)
              (sym total)))

  part_of-one : (n : ℕ) → part_of n 1 0 ≡ n
  part_of-one n = ground arith

  -- The load of the one slice of a run is that of the scenario.
  slice_load-one :
      (scenario : Scenario R Step) (burst : ℕ)
      → ops.share scenario.config.scenarios_per_sec 1 ≡ scenario.config.scenarios_per_sec
      → slice_load ops scenario 1 0 burst ≡ record {
        scenarios_per_sec = scenario.config.scenarios_per_sec;
        duration = scenario.config.duration;
        max_concurrency = scenario.config.max_concurrency;
        startup_burst = burst;
      }
  unfolding slice_load slice_startup_burst
  slice_load-one scenario burst share =
      rw (share, part_of-one scenario.config.max_concurrency, part_of-one burst) refl

  replay_job-agrees :
      (encode : String → String) (failed : FailedScenarioJob) (plan : ScenarioExecutionPlan R Step)
      (options : ReplayOptions) (plans : List (String × ScenarioExecutionPlan R Step))
      (run_id : String)
      → lookup failed.scenario_id plans ≡ some plan
      → options.worker_max_retries ≡ config.worker_max_retries
      → options.execution_semantics_fingerprint ≡ plan.execution_semantics_fingerprint
      → ops.share plan.scenario.config.scenarios_per_sec 1 ≡ plan.scenario.config.scenarios_per_sec
      → let job = replay_job ops encode failed plan.scenario config.startup_burst options run_id in
        (deterministic_job_plan_error ops config job plans ≡ none)
        × (job.slice.total ≡ 1)
        × (job.slice.index ≡ 0)
        × (job.attempt ≡ 0)
        × (job.run_id ≡ run_id)
  unfolding replay_job execution_plan_fingerprint
  replay_job-agrees encode failed plan options plans run_id has_plan retries semantics share =
      let job = replay_job ops encode failed plan.scenario config.startup_burst options run_id in
      (
        plan_error-none job plan plans has_plan retries (
            plan_mismatch-none job plan
              (sym (slice_load-one plan.scenario config.startup_burst share))
              (rw (retries, semantics) refl)),
        refl,
        refl,
        refl,
        refl,
      )

  build_replay_job-made :
      (encode : String → String) (failed : FailedScenarioJob) (source : ReplaySource)
      (scenario : Scenario R Step) (burst : ℕ) (options : ReplayOptions) (job : ScenarioJob R)
      → build_replay_job ops encode failed source scenario burst options ≡ ok job
      → job
        ≡ replay_job ops encode failed scenario burst options (replay_run_id encode failed source)
  unfolding build_replay_job
  build_replay_job-made encode failed source scenario burst options job built = ground arith

  -- A job that the replay builds from a failed job, with the local plan of its scenario, the burst and
  -- the retries of the worker's configuration, passes the comparison of that worker with its plan, where
  -- dividing a rate by one leaves it as it is. It is a new run of one slice at its first attempt.
  pub build_replay_job-agrees :
      (encode : String → String) (failed : FailedScenarioJob) (source : ReplaySource)
      (plan : ScenarioExecutionPlan R Step) (options : ReplayOptions)
      (plans : List (String × ScenarioExecutionPlan R Step)) (job : ScenarioJob R)
      → lookup failed.scenario_id plans ≡ some plan
      → options.worker_max_retries ≡ config.worker_max_retries
      → options.execution_semantics_fingerprint ≡ plan.execution_semantics_fingerprint
      → ops.share plan.scenario.config.scenarios_per_sec 1 ≡ plan.scenario.config.scenarios_per_sec
      → build_replay_job ops encode failed source plan.scenario config.startup_burst options
        ≡ ok job
      → (deterministic_job_plan_error ops config job plans ≡ none)
        × (job.slice.total ≡ 1)
        × (job.slice.index ≡ 0)
        × (job.attempt ≡ 0)
        × (job.run_id ≡ replay_run_id encode failed source)
  build_replay_job-agrees encode failed source plan options plans job has_plan retries semantics
        share built =
      let made =
        replay_job ops encode failed plan.scenario config.startup_burst options
          (replay_run_id encode failed source) in
      let e : job ≡ made =
        build_replay_job-made encode failed source plan.scenario config.startup_burst options job
          built in
      subst
        (λ j.
          (deterministic_job_plan_error ops config j plans ≡ none)
          × (j.slice.total ≡ 1)
          × (j.slice.index ≡ 0)
          × (j.attempt ≡ 0)
          × (j.run_id ≡ replay_run_id encode failed source))
        (sym e)
        (replay_job-agrees encode failed plan options plans (replay_run_id encode failed source)
          has_plan retries semantics share)
