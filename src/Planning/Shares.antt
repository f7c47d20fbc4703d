-- ===== src/Planning/Shares.antt =====
-- The loads of the slices, from `planned_slice_loads` of src/application/service.rs, make up the load
-- of the scenario.
use pulse.Prelude.{
  ℕ, zero, suc, ◌+◌, ◌*◌, ◌/◌, ◌%◌, ◌≤◌, ◌<◌, List, [], ◌∷◌, ◌≡◌, ◌∙◌, refl, arith, map, min, max,
  sum, length, All, Duration,
}
use pulse.Domain.Contracts.{JobLoadConfig}
use pulse.Domain.Scenario.{Scenario}
use pulse.Planning.Slices.{
  PlanOps, part_of, slice_startup_burst, range, calculate_slices, slice_load, planned_slice_loads,
  max_auto_slices,
}

abbrev parts : ℕ → ℕ → List ℕ → List ℕ
parts whole total = map λ i. part_of whole total i

sum-parts :
    (whole total from n : ℕ)
    → sum (parts whole total (range from n)) + min (whole % total) from
      ≡ n * (whole / total) + min (whole % total) (from + n)
unfolding range
sum-parts whole total from zero = omega arith
sum-parts whole total from (suc n) = ground (arith, sum-parts whole total (suc from) n)

-- Equal parts, of which the first ones take the remainder, make up the whole.
sum-all_parts : (whole total : ℕ) → 0 < total → sum (parts whole total (range 0 total)) ≡ whole
sum-all_parts whole total p = grind (arith, sum-parts whole total 0 total)

length-range : (from n : ℕ) → length (range from n) ≡ n
unfolding range
length-range from zero = refl
length-range from (suc n) = ground (arith, length-range (suc from) n)

length-map {ℓ κ} :
    {A : Type ℓ} {B : Type κ} (f : A → B) (xs : List A) → length (map f xs) ≡ length xs
length-map f [] = refl
length-map f (x ∷ xs) = ground (arith, length-map f xs)

-- A part is positive if there is enough for all, and parts keep the order of the wholes.
part_of-positive : (whole total i : ℕ) → 0 < total → total ≤ whole → 1 ≤ part_of whole total i
part_of-positive whole total i p l = grind arith

part_of_mono : (a b total i : ℕ) → 0 < total → a ≤ b → part_of a total i ≤ part_of b total i
part_of_mono a b total i p l =
    let quotients : a / total ≤ b / total = grind arith in
    let same : a / total ≡ b / total → a % total ≤ b % total = λ e. grind arith in
    ground (arith, quotients, same)

module _ {R Step : Type 0} (ops : PlanOps R Step) where
  -- The number of slices is between 1 and 128, and no more than the concurrency where that is
  -- positive; the window is long enough for one start at least.
  pub calculate_slices_bounds :
      (rate : R) (max_concurrency : ℕ) (duration : Duration)
      → 1 ≤ ops.expected_start_cap rate duration
      → (1 ≤ calculate_slices ops rate max_concurrency duration)
        × (calculate_slices ops rate max_concurrency duration ≤ max_auto_slices)
        × (1 ≤ max_concurrency
            → calculate_slices ops rate max_concurrency duration ≤ max_concurrency)
  unfolding calculate_slices
  calculate_slices_bounds rate max_concurrency duration p = ground arith

  abbrev pub Usable : JobLoadConfig R → Type 0
  Usable load = (1 ≤ load.max_concurrency) × (load.startup_burst ≤ load.max_concurrency)

  loads-Usable :
      (scenario : Scenario R Step) (total burst from n : ℕ)
      → 1 ≤ total
      → total ≤ scenario.config.max_concurrency
      → burst ≤ scenario.config.max_concurrency
      → All Usable (map (λ i. slice_load ops scenario total i burst) (range from n))
  unfolding range slice_load slice_startup_burst
  loads-Usable scenario total burst from zero p l m = tt
  loads-Usable scenario total burst from (suc n) p l m =
      let one : max total 1 ≡ total = omega (arith, p) in
      (
        (
          rw one (part_of-positive scenario.config.max_concurrency total from p l),
          rw one (part_of_mono burst scenario.config.max_concurrency total from p m),
        ),
        loads-Usable scenario total burst (suc from) n p l m,
      )

  concurrency_parts :
      (scenario : Scenario R Step) (total burst from n : ℕ)
      → 1 ≤ total
      → (map
            (λ l. l.max_concurrency)
            (map (λ i. slice_load ops scenario total i burst) (range from n))
          ≡ parts scenario.config.max_concurrency total (range from n))
        × (map
              (λ l. l.startup_burst)
              (map (λ i. slice_load ops scenario total i burst) (range from n))
            ≡ parts burst total (range from n))
  unfolding range slice_load slice_startup_burst
  concurrency_parts scenario total burst from zero p = (refl, refl)
  concurrency_parts scenario total burst from (suc n) p =
      let one : max total 1 ≡ total = omega (arith, p) in
      let rest = concurrency_parts scenario total burst (suc from) n p in
      (rw (one, rest.0), rw (one, rest.1))

  -- The slices of a scenario with a positive concurrency share its load without loss: their
  -- concurrencies sum up to that of the scenario and their bursts to the global burst, there are as
  -- many as were calculated, and each has a positive concurrency that is no less than its burst. The
  -- global burst is no more than the concurrency.
  pub planned_slice_loads-sum :
      (scenario : Scenario R Step) (burst : ℕ)
      → 1 ≤ ops.expected_start_cap scenario.config.scenarios_per_sec scenario.config.duration
      → 1 ≤ scenario.config.max_concurrency
      → burst ≤ scenario.config.max_concurrency
      → let loads = planned_slice_loads ops scenario burst in
        (sum (map (λ l. l.max_concurrency) loads) ≡ scenario.config.max_concurrency)
        × (sum (map (λ l. l.startup_burst) loads) ≡ burst)
        × (length loads
            ≡ calculate_slices ops scenario.config.scenarios_per_sec scenario.config.max_concurrency
                scenario.config.duration)
        × All Usable loads
  unfolding planned_slice_loads
  planned_slice_loads-sum scenario burst c p m =
      let total =
        calculate_slices ops scenario.config.scenarios_per_sec scenario.config.max_concurrency
          scenario.config.duration in
      let bounds =
        calculate_slices_bounds scenario.config.scenarios_per_sec scenario.config.max_concurrency
          scenario.config.duration c in
      let shares = concurrency_parts scenario total burst 0 total bounds.0 in
      (
        rw shares.0 (sum-all_parts scenario.config.max_concurrency total bounds.0),
        rw shares.1 (sum-all_parts burst total bounds.0),
        length-map (λ i. slice_load ops scenario total i burst) (range 0 total)
            ∙ length-range 0 total,
        loads-Usable scenario total burst 0 total bounds.0 (bounds.2 p) m,
      )
