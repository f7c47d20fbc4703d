-- ===== src/Planning/Slices.antt =====
-- `calculate_slices`, `planned_slice_loads`, `slice_load` and `slice_startup_burst` of
-- src/application/service.rs.
use pulse.Prelude.{
  ℕ, zero, suc, ◌+◌, ◌/◌, ◌%◌, String, List, [], ◌∷◌, Bool, not, ◌||◌, ltb, ◌==◌, if◌then◌else◌,
  map, min, max, Duration, u32_max,
}
use pulse.Domain.Rate.{RateOps}
use pulse.Domain.Contracts.{JobLoadConfig}
use pulse.Domain.Scenario.{Scenario}

-- The arithmetic on `f64` of these functions, and what they ask of a step.
pub record PlanOps (R Step : Type 0) : Type 0 where
  pub rates : RateOps R
  -- rate / slices as f64
  pub share : R → ℕ → R
  -- (rate / TARGET_SPS_PER_SLICE).ceil().max(1.0) as u32
  pub slices_by_rate : R → ℕ
  -- ((max_concurrency as f64) / (TARGET_CONCURRENCY_PER_SLICE as f64)).ceil() as u32
  pub slices_by_concurrency : ℕ → ℕ
  -- (rate * duration.as_secs_f64()).floor().max(1.0).min(f64::from(u32::MAX)) as u32
  pub expected_start_cap : R → Duration → ℕ
  -- rate * duration.as_secs_f64() < 1.0
  pub starts_nothing : R → Duration → Bool
  -- f64::to_bits
  pub to_bits : R → ℕ
  -- Step::fingerprint_material
  pub fingerprint_material : Step → String

abbrev pub max_auto_slices : ℕ
max_auto_slices = 128

-- base + usize::from((slice_index as usize) < remainder)
abbrev pub part_of : ℕ → ℕ → ℕ → ℕ
part_of whole total index = whole / total + (if ltb index (whole % total) then 1 else 0)

unfoldable pub slice_startup_burst : ℕ → ℕ → ℕ → ℕ
slice_startup_burst global_burst total_slices slice_index =
    let total = max total_slices 1 in part_of global_burst total slice_index

-- (0..total), from `from` on.
unfoldable pub range : ℕ → ℕ → List ℕ
range from zero = []
range from (suc n) = from ∷ range (suc from) n

module _ {R Step : Type 0} (ops : PlanOps R Step) where
  unfoldable pub calculate_slices : R → ℕ → Duration → ℕ
  calculate_slices scenarios_per_sec max_concurrency duration =
      if not (ops.rates.is_finite scenarios_per_sec)
        || ops.rates.rate_le scenarios_per_sec ops.rates.zero_rate
        || (max_concurrency == 0)
      then 1
      else let concurrency_cap = min max_concurrency u32_max in
        min
          (min
            (min
              (max
                (max (ops.slices_by_rate scenarios_per_sec)
                  (ops.slices_by_concurrency max_concurrency))
                1)
              concurrency_cap)
            (ops.expected_start_cap scenarios_per_sec duration))
          max_auto_slices

  unfoldable pub slice_load : Scenario R Step → ℕ → ℕ → ℕ → JobLoadConfig R
  slice_load scenario total_slices slice_index global_startup_burst =
      let total = max total_slices 1 in
      record {
        scenarios_per_sec = ops.share scenario.config.scenarios_per_sec total;
        duration = scenario.config.duration;
        max_concurrency = part_of scenario.config.max_concurrency total slice_index;
        startup_burst = slice_startup_burst global_startup_burst total_slices slice_index;
      }

  unfoldable pub planned_slice_loads : Scenario R Step → ℕ → List (JobLoadConfig R)
  planned_slice_loads scenario global_startup_burst =
      let total =
        calculate_slices scenario.config.scenarios_per_sec scenario.config.max_concurrency
          scenario.config.duration in
      map (λ index. slice_load scenario total index global_startup_burst) (range 0 total)
