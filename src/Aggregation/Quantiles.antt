-- ===== src/Aggregation/Quantiles.antt =====
-- `histogram_quantile` of src/application/aggregation.rs against the cumulative counts.
use pulse.Prelude.{
  ℕ, ◌+◌, ◌≤◌, ◌<◌, List, [], ◌∷◌, ◌++◌, ◌≡◌, refl, sym, ◌∙◌, arith, sum, u64_max, saturating_add,
  max, ◌==◌, if◌then◌else◌,
}
use pulse.Domain.Contracts.{LatencyBucket}
use pulse.Domain.RunResult.Buckets.{bucket_counts}
use pulse.Aggregation.Summary.{RankOf, Quantile, wrapping_sum, quantile_loop, histogram_quantile}

-- The bound of the last bucket, and `d` where there is none.
abbrev pub last_bound : ℕ → List LatencyBucket → ℕ
last_bound d [] = d
last_bound d (b ∷ bs) = last_bound b.upper_bound_ms bs

-- The bound that a bucket stands for: the overflow bucket stands for the bound before it.
abbrev pub reported : ℕ → LatencyBucket → ℕ
reported previous b = if b.upper_bound_ms == u64_max then previous else b.upper_bound_ms

wrapping_sum-exact :
    (bs : List LatencyBucket)
    → sum (bucket_counts bs) ≤ u64_max
    → wrapping_sum bs ≡ sum (bucket_counts bs)
unfolding wrapping_sum
wrapping_sum-exact [] h = refl
wrapping_sum-exact (b ∷ bs) h = omega (arith, wrapping_sum-exact bs (omega arith))

quantile_loop-split :
    (rank cumulative previous : ℕ) (below : List LatencyBucket) (b : LatencyBucket)
    (above : List LatencyBucket)
    → cumulative + sum (bucket_counts below) < rank
    → rank ≤ cumulative + sum (bucket_counts below) + b.count
    → rank ≤ u64_max
    → quantile_loop rank cumulative previous (below ++ b ∷ above)
      ≡ reported (last_bound previous below) b
unfolding quantile_loop saturating_add
quantile_loop-split rank cumulative previous [] b above l u m = ground arith
quantile_loop-split rank cumulative previous (x ∷ below) b above l u m =
    ground (arith, quantile_loop-split rank (cumulative + x.count) x.upper_bound_ms below b above)

sum-split :
    (below : List LatencyBucket) (b : LatencyBucket) (above : List LatencyBucket)
    → sum (bucket_counts below) + b.count ≤ sum (bucket_counts (below ++ b ∷ above))
sum-split [] b above = omega arith
sum-split (x ∷ below) b above = omega (arith, sum-split below b above)

module _ (rank_of : RankOf) where
  -- For a histogram whose counts are positive in sum and do not overflow, the quantile is the bound
  -- of the first bucket at which the cumulative count reaches the rank (at least 1), and the bound
  -- before it, or 0, where that is the overflow bucket.
  pub histogram_quantile_lem :
      (q : Quantile) (below : List LatencyBucket) (b : LatencyBucket) (above : List LatencyBucket)
      (total rank : ℕ)
      → total ≡ sum (bucket_counts (below ++ b ∷ above))
      → rank ≡ max (rank_of q total) 1
      → 0 < total
      → total ≤ u64_max
      → sum (bucket_counts below) < rank
      → rank ≤ sum (bucket_counts below) + b.count
      → histogram_quantile rank_of (below ++ b ∷ above) q ≡ reported (last_bound 0 below) b
  unfolding histogram_quantile
  histogram_quantile_lem q below b above total rank et er p m l u =
      let e : wrapping_sum (below ++ b ∷ above) ≡ total =
        wrapping_sum-exact (below ++ b ∷ above) (omega arith) ∙ sym et in
      rw (e, ← er)
        (ground (
          arith,
          quantile_loop-split rank 0 0 below b above (omega arith) (omega arith)
              (omega (arith, sum-split below b above)),
        ))
