-- ===== src/Aggregation/Aggregator.antt =====
-- `RunAggregator` of src/application/aggregation.rs. Its `HashMap` of runs is an association list
-- with distinct keys.
use Prim.Native.Nat.{Ordering}
use Prim.Native.String
use pulse.Prelude.{
  ℕ, ◌-◌, String, List, [], ◌∷◌, Bool, not, ◌&&◌, ◌||◌, Option, none, some, ltb, leb, ◌==◌,
  if◌then◌else◌, length, has, has_text, Duration, as_millis, lookup, put, without, is_some, Result,
  ok, err,
}
use pulse.Domain.Contracts.{
  ScenarioRunResult, ScenarioRunSummary, ScenarioRunSummaryStatus, complete, partial, timed_out,
  cancelled,
}
use pulse.Domain.RunResult.{validate}
use pulse.Aggregation.State.{
  AggregationError, AggregationUpdate, contract, capacity, accepted, duplicate, finalized,
  late_update, RunState, from_first, validate_compatible, merge,
}
use pulse.Aggregation.Summary.{RankOf, summary}

pub record RunAggregator : Type 0 where
  pub runs : List (String × RunState)
  pub max_runs : ℕ

unfoldable pub new : ℕ → Option RunAggregator
new max_runs = if ltb 0 max_runs then some (record { runs = []; max_runs = max_runs }) else none

abbrev pub active_runs : RunAggregator → ℕ
active_runs aggregator = length aggregator.runs

-- `entry(run_id).or_insert_with(|| from_first(result))`
unfoldable pub state_for : RunAggregator → ScenarioRunResult → ℕ → RunState
state_for aggregator result received_at_unix_ms = elim (lookup result.run_id aggregator.runs) [
  | some state ↦ state
  | none ↦ from_first result received_at_unix_ms
]

-- `sort_by(run_id)`: an insertion before the first entry that is not smaller.
unfoldable pub insert_summary :
    ScenarioRunSummary → List ScenarioRunSummary → List ScenarioRunSummary
insert_summary s [] = s ∷ []
insert_summary s (t ∷ ts) = elim (String.compare s.run_id t.run_id) [
  | Ordering.gt ↦ t ∷ insert_summary s ts
  | _ ↦ s ∷ t ∷ ts
]

abbrev pub add_summary :
    Option ScenarioRunSummary → List ScenarioRunSummary → List ScenarioRunSummary
unfolding insert_summary
add_summary none summaries = summaries
add_summary (some s) summaries = insert_summary s summaries

abbrev pub status_or_partial : Option ScenarioRunSummaryStatus → ScenarioRunSummaryStatus
status_or_partial none = partial
status_or_partial (some status) = status

module _ (rank_of : RankOf) where
  -- What `ingest` does once the slice has been merged.
  unfoldable pub settle : RunState → Bool → ℕ → RunState × AggregationUpdate
  settle state was_finalized received_at_unix_ms =
      if length state.received_slice_indexes == state.expected_slices
      then (
        record state { finalized_status = some complete },
        if was_finalized
            then late_update (
                summary rank_of (record state { finalized_status = some complete }) complete
                  received_at_unix_ms)
            else finalized (
                summary rank_of (record state { finalized_status = some complete }) complete
                  received_at_unix_ms),
      )
      else (state, accepted)

  -- The part of `ingest` that works on the run's entry. A `?` leaves the entry as it stands.
  unfoldable pub ingest_state :
      RunState → ScenarioRunResult → ℕ → RunState × Result AggregationError AggregationUpdate
  ingest_state state result received_at_unix_ms = elim (validate_compatible state result) [
    | err e ↦ (state, err e)
    | ok _ ↦
        if has_text result.execution_key state.received_execution_keys
          || has result.slice.index state.received_slice_indexes
        then (state, ok duplicate)
        else elim (merge state result received_at_unix_ms) [
          | err e ↦ (state, err e)
          | ok merged ↦
              let (state', update) =
                settle merged (is_some state.finalized_status) received_at_unix_ms in
              (state', ok update)
        ]
  ]

  unfoldable pub ingest_entry :
      RunAggregator
      → ScenarioRunResult
      → ℕ
      → RunAggregator × Result AggregationError AggregationUpdate
  ingest_entry aggregator result received_at_unix_ms =
      let (state', outcome) =
        ingest_state (state_for aggregator result received_at_unix_ms) result received_at_unix_ms in
      (record aggregator { runs = put result.run_id state' aggregator.runs }, outcome)

  unfoldable pub ingest :
      RunAggregator
      → ScenarioRunResult
      → ℕ
      → RunAggregator × Result AggregationError AggregationUpdate
  ingest aggregator result received_at_unix_ms = elim (validate result) [
    | err e ↦ (aggregator, err (contract e))
    | ok _ ↦
        if not (is_some (lookup result.run_id aggregator.runs))
          && leb aggregator.max_runs (length aggregator.runs)
        then (aggregator, err (capacity aggregator.max_runs))
        else ingest_entry aggregator result received_at_unix_ms
  ]

  -- One round of the loop over `runs.values_mut()`.
  unfoldable pub expire_state : ℕ → ℕ → RunState → RunState × Option ScenarioRunSummary
  expire_state now_unix_ms timeout_ms state =
      if is_some state.finalized_status
        || ltb (now_unix_ms - state.first_result_at_unix_ms) timeout_ms
      then (state, none)
      else (
        record state { finalized_status = some timed_out },
        some (
            summary rank_of (record state { finalized_status = some timed_out }) timed_out
              now_unix_ms),
      )

  unfoldable pub expire_runs :
      ℕ → ℕ → List (String × RunState) → List (String × RunState) × List ScenarioRunSummary
  expire_runs now_unix_ms timeout_ms [] = ([], [])
  expire_runs now_unix_ms timeout_ms ((k, state) ∷ runs) =
      let (state', found) = expire_state now_unix_ms timeout_ms state in
      let (runs', summaries) = expire_runs now_unix_ms timeout_ms runs in
      ((k, state') ∷ runs', add_summary found summaries)

  unfoldable pub finalize_expired :
      RunAggregator → ℕ → Duration → RunAggregator × List ScenarioRunSummary
  finalize_expired aggregator now_unix_ms timeout =
      let (runs', summaries) = expire_runs now_unix_ms (as_millis timeout) aggregator.runs in
      (record aggregator { runs = runs' }, summaries)

  unfoldable pub cancel : RunAggregator → String → ℕ → RunAggregator × Option ScenarioRunSummary
  cancel aggregator run_id now_unix_ms = elim (lookup run_id aggregator.runs) [
    | none ↦ (aggregator, none)
    | some state ↦ (
      record aggregator {
        runs = put run_id (record state { finalized_status = some cancelled }) aggregator.runs;
      },
      some (
          summary rank_of (record state { finalized_status = some cancelled }) cancelled
            now_unix_ms),
    )
  ]

  unfoldable pub remove : RunAggregator → String → RunAggregator × Option ScenarioRunSummary
  remove aggregator run_id = elim (lookup run_id aggregator.runs) [
    | none ↦ (aggregator, none)
    | some state ↦ (
      record aggregator { runs = without run_id aggregator.runs },
      some (
          summary rank_of state (status_or_partial state.finalized_status)
            state.last_result_at_unix_ms),
    )
  ]
