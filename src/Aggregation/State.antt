-- ===== src/Aggregation/State.antt =====
-- The state of a run and its operations: `RunState` of src/application/aggregation.rs. A `HashSet`
-- is a list of distinct values, a `BTreeMap` an ascending association list.
use Prim.Native.Nat.{compare, Ordering}
use Prim.Native.String
use pulse.Prelude.{
  ℕ, String, List, [], ◌∷◌, Bool, true, false, not, ◌&&◌, Option, none, ◌==◌, str_eq, ◌<>◌,
  if◌then◌else◌, is_empty, has, has_text, saturating_add, wrapping_add, Result, ok, err,
}
use pulse.Domain.Error.{ContractError}
use pulse.Domain.Contracts.{
  LatencyBucket, ErrorCount, ScenarioRunResult, ScenarioRunSummary, ScenarioRunSummaryStatus,
}

pub data AggregationError : Type 0 where
  contract : ContractError → AggregationError
  capacity : ℕ → AggregationError
  inconsistent_run : String → AggregationError

pub data AggregationUpdate : Type 0 where
  accepted duplicate : AggregationUpdate
  finalized late_update : ScenarioRunSummary → AggregationUpdate

pub record RunState : Type 0 where
  pub schema_version : ℕ
  pub scenario_id : String
  pub run_id : String
  pub expected_slices : ℕ
  pub received_execution_keys : List String
  pub received_slice_indexes : List ℕ
  pub total : ℕ
  pub success : ℕ
  pub failure : ℕ
  pub histogram : List (ℕ × ℕ)
  pub errors : List (String × ℕ)
  pub first_result_at_unix_ms : ℕ
  pub last_result_at_unix_ms : ℕ
  pub finalized_status : Option ScenarioRunSummaryStatus

-- `*map.entry(key).or_insert(0) += count` on a `BTreeMap` whose keys `cmp` orders.
unfoldable pub entry_add : {K : Type 0} → (K → K → Ordering) → K → ℕ → List (K × ℕ) → List (K × ℕ)
entry_add cmp k c [] = (k, wrapping_add 0 c) ∷ []
entry_add cmp k c ((j, d) ∷ m) = elim (cmp k j) [
  | Ordering.lt ↦ (k, wrapping_add 0 c) ∷ (j, d) ∷ m
  | Ordering.eq ↦ (j, wrapping_add d c) ∷ m
  | Ordering.gt ↦ (j, d) ∷ entry_add cmp k c m
]

unfoldable pub add_buckets : List LatencyBucket → List (ℕ × ℕ) → List (ℕ × ℕ)
add_buckets [] m = m
add_buckets (b ∷ bs) m = add_buckets bs (entry_add compare b.upper_bound_ms b.count m)

unfoldable pub add_errors : List ErrorCount → List (String × ℕ) → List (String × ℕ)
add_errors [] m = m
add_errors (e ∷ es) m = add_errors es (entry_add String.compare e.kind e.count m)

-- HashSet::insert
abbrev pub insert_index : ℕ → List ℕ → List ℕ
insert_index i is = if has i is then is else i ∷ is

abbrev pub insert_key : String → List String → List String
insert_key k ks = if has_text k ks then ks else k ∷ ks

-- existing_bounds == incoming_bounds
unfoldable pub same_bounds : List (ℕ × ℕ) → List LatencyBucket → Bool
same_bounds [] [] = true
same_bounds [] (b ∷ bs) = false
same_bounds (e ∷ es) [] = false
same_bounds (e ∷ es) (b ∷ bs) = e.0 == b.upper_bound_ms && same_bounds es bs

unfoldable pub from_first : ScenarioRunResult → ℕ → RunState
from_first result now_unix_ms = record {
  schema_version = result.schema_version;
  scenario_id = result.scenario_id;
  run_id = result.run_id;
  expected_slices = result.slice.total;
  received_execution_keys = [];
  received_slice_indexes = [];
  total = 0;
  success = 0;
  failure = 0;
  histogram = [];
  errors = [];
  first_result_at_unix_ms = now_unix_ms;
  last_result_at_unix_ms = now_unix_ms;
  finalized_status = none;
}

unfoldable pub is_compatible : RunState → ScenarioRunResult → Bool
is_compatible state result =
    str_eq state.scenario_id result.scenario_id
    && state.expected_slices == result.slice.total
    && state.schema_version == result.schema_version

unfoldable pub validate_compatible :
    RunState → ScenarioRunResult → Result AggregationError (Unit {0})
unfolding is_compatible
validate_compatible state result =
    if not (is_compatible state result)
    then err (
        inconsistent_run
          ("run '" <> result.run_id <> "' changed scenario, slice total, or schema version"))
    else ok tt

-- The fields that a merge changes, once the bounds are known to agree.
unfoldable pub absorb : RunState → ScenarioRunResult → ℕ → RunState
absorb state result received_at_unix_ms = record state {
  received_execution_keys = insert_key result.execution_key state.received_execution_keys;
  received_slice_indexes = insert_index result.slice.index state.received_slice_indexes;
  total = saturating_add state.total result.total;
  success = saturating_add state.success result.success;
  failure = saturating_add state.failure result.failure;
  histogram = add_buckets result.latency_histogram state.histogram;
  errors = add_errors result.error_breakdown state.errors;
  last_result_at_unix_ms = received_at_unix_ms;
}

unfoldable pub merge : RunState → ScenarioRunResult → ℕ → Result AggregationError RunState
unfolding absorb
merge state result received_at_unix_ms =
    if not (is_empty state.histogram)
      && not (is_empty result.latency_histogram)
      && not (same_bounds state.histogram result.latency_histogram)
    then err (inconsistent_run "latency histogram bounds changed between slices")
    else ok (absorb state result received_at_unix_ms)
