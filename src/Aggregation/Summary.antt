-- ===== src/Aggregation/Summary.antt =====
-- `RunState::summary` and `histogram_quantile` of src/application/aggregation.rs.
use pulse.Prelude.{
  ℕ, zero, suc, String, List, [], ◌∷◌, map, leb, ◌==◌, if◌then◌else◌, max, length, has, u64_max,
  saturating_add, wrapping_add,
}
use pulse.Domain.Contracts.{LatencyBucket, ErrorCount, ScenarioRunSummary, ScenarioRunSummaryStatus}
use pulse.Aggregation.State.{RunState}

-- The quantiles that a summary reports.
pub data Quantile : Type 0 where
  p50 p95 p99 : Quantile

-- `((total as f64) * quantile).ceil() as u64`, which is arithmetic on `f64`.
abbrev pub RankOf : Type 0
RankOf = Quantile → ℕ → ℕ

-- `iter().map(|bucket| bucket.count).sum()` on u64.
unfoldable pub wrapping_sum : List LatencyBucket → ℕ
wrapping_sum [] = 0
wrapping_sum (b ∷ bs) = wrapping_add b.count (wrapping_sum bs)

unfoldable pub quantile_loop : ℕ → ℕ → ℕ → List LatencyBucket → ℕ
quantile_loop rank cumulative previous_bound [] = previous_bound
quantile_loop rank cumulative previous_bound (b ∷ bs) =
    let rest = quantile_loop rank (saturating_add cumulative b.count) b.upper_bound_ms bs in
    if leb rank (saturating_add cumulative b.count)
    then (if b.upper_bound_ms == u64_max then previous_bound else b.upper_bound_ms)
    else rest

module _ (rank_of : RankOf) where
  unfoldable pub histogram_quantile : List LatencyBucket → Quantile → ℕ
  histogram_quantile histogram quantile =
      let total = wrapping_sum histogram in
      if total == 0 then 0 else quantile_loop (max (rank_of quantile total) 1) 0 0 histogram

-- `(from..from + n).filter(|index| !received.contains(index))`
unfoldable pub missing_from : ℕ → ℕ → List ℕ → List ℕ
missing_from zero from received = []
missing_from (suc n) from received =
    let rest = missing_from n (suc from) received in if has from received then rest else from ∷ rest

abbrev pub buckets_of : List (ℕ × ℕ) → List LatencyBucket
buckets_of = map λ e. record { upper_bound_ms = e.0; count = e.1 }

abbrev pub error_counts_of : List (String × ℕ) → List ErrorCount
error_counts_of = map λ e. record { kind = e.0; count = e.1 }

module _ (rank_of : RankOf) where
  unfoldable pub summary : RunState → ScenarioRunSummaryStatus → ℕ → ScenarioRunSummary
  summary state status finalized_at_unix_ms =
      let histogram = buckets_of state.histogram in
      record {
        schema_version = state.schema_version;
        scenario_id = state.scenario_id;
        run_id = state.run_id;
        status = status;
        expected_slices = state.expected_slices;
        received_slices = length state.received_slice_indexes;
        missing_slices = missing_from state.expected_slices 0 state.received_slice_indexes;
        total = state.total;
        success = state.success;
        failure = state.failure;
        scenario_latency_p50_ms = histogram_quantile rank_of histogram p50;
        scenario_latency_p95_ms = histogram_quantile rank_of histogram p95;
        scenario_latency_p99_ms = histogram_quantile rank_of histogram p99;
        latency_histogram = histogram;
        error_breakdown = error_counts_of state.errors;
        first_result_at_unix_ms = state.first_result_at_unix_ms;
        finalized_at_unix_ms = finalized_at_unix_ms;
      }
