-- ===== src/Domain/Scenario.antt =====
-- The scenarios of src/domain/scenario.rs. `R` stands for `f64`, and `Step` for the trait objects of
-- the steps.
use pulse.Prelude.{ℕ, String, List, Duration}
use pulse.Domain.Contracts.{PartitionKeyStrategy}

pub data RepeatPolicy : Type 0 where
  once : RepeatPolicy
  every : Duration → RepeatPolicy

pub record ScenarioConfig (R : Type 0) : Type 0 where
  pub endpoint : String
  pub scenarios_per_sec : R
  pub max_concurrency : ℕ
  pub duration : Duration
  pub repeat : RepeatPolicy
  pub partition_key_strategy : PartitionKeyStrategy

pub record Scenario (R Step : Type 0) : Type 0 where
  pub name : String
  pub steps : List Step
  pub config : ScenarioConfig R
