-- ===== src/Aggregation/History.antt =====
-- Histories of the aggregator: any calls in any order.
use pulse.Prelude.{
  ℕ, ◌+◌, String, List, [], ◌∷◌, ◌≡◌, ◌⊎◌, inl, inr, refl, some, arith, Duration, lookup,
  All-lookup, u64_max,
}
use pulse.Domain.Contracts.{ScenarioRunResult}
use pulse.Aggregation.State.{RunState}
use pulse.Aggregation.Summary.{RankOf}
use pulse.Aggregation.Aggregator.{RunAggregator, new, ingest, finalize_expired, cancel, remove}
use pulse.Aggregation.Ingest.{
  Source, Inv, GoodEntry, Accounted-conserved, ingest-Inv, finalize_expired-Inv, cancel-Inv,
  remove-Inv,
}

-- The calls that change an aggregator.
pub data Call : Type 0 where
  ingests : ScenarioRunResult → ℕ → Call
  expires : ℕ → Duration → Call
  cancels : String → ℕ → Call
  removes : String → Call

-- The result is among those that the calls ingest.
abbrev pub Ingested : ScenarioRunResult → List Call → Type 0
Ingested r [] = ⊥
Ingested r (ingests result now ∷ cs) = (r ≡ result) ⊎ Ingested r cs
Ingested r (expires now timeout ∷ cs) = Ingested r cs
Ingested r (cancels run_id now ∷ cs) = Ingested r cs
Ingested r (removes run_id ∷ cs) = Ingested r cs

Ingested-later :
    (r : ScenarioRunResult) (c : Call) (cs : List Call) → Ingested r cs → Ingested r (c ∷ cs)
Ingested-later r (ingests result now) cs i = inr i
Ingested-later r (expires now timeout) cs i = i
Ingested-later r (cancels run_id now) cs i = i
Ingested-later r (removes run_id) cs i = i

Ingested-first :
    (r : ScenarioRunResult) (c : Call) (cs : List Call) → Ingested r (c ∷ []) → Ingested r (c ∷ cs)
Ingested-first r (ingests result now) cs (inl e) = inl e
Ingested-first r (ingests result now) cs (inr x) = absurd x
Ingested-first r (expires now timeout) cs x = absurd x
Ingested-first r (cancels run_id now) cs x = absurd x
Ingested-first r (removes run_id) cs x = absurd x

module _ (rank_of : RankOf) where
  unfoldable pub step : RunAggregator → Call → RunAggregator
  step a (ingests result now) = (ingest rank_of a result now).0
  step a (expires now timeout) = (finalize_expired rank_of a now timeout).0
  step a (cancels run_id now) = (cancel rank_of a run_id now).0
  step a (removes run_id) = (remove rank_of a run_id).0

  unfoldable pub run : RunAggregator → List Call → RunAggregator
  unfolding step
  run a [] = a
  run a (c ∷ cs) = run (step a c) cs

  step-Inv :
      (From : Source) (a : RunAggregator) (c : Call)
      → ((r : ScenarioRunResult) → Ingested r (c ∷ []) → From r)
      → Inv From a
      → Inv From (step a c)
  unfolding step
  step-Inv From a (ingests result now) f v =
      ingest-Inv rank_of From a result now (f result (inl refl)) v
  step-Inv From a (expires now timeout) f v = finalize_expired-Inv rank_of From a now timeout v
  step-Inv From a (cancels run_id now) f v = cancel-Inv rank_of From a run_id now v
  step-Inv From a (removes run_id) f v = remove-Inv rank_of From a run_id v

  run_from-Inv :
      (From : Source) (a : RunAggregator) (cs : List Call)
      → ((r : ScenarioRunResult) → Ingested r cs → From r)
      → Inv From a
      → Inv From (run a cs)
  unfolding run
  run_from-Inv From a [] f v = v
  run_from-Inv From a (c ∷ cs) f v =
      run_from-Inv From (step a c) cs (λ r i. f r (Ingested-later r c cs i))
        (step-Inv From a c (λ r i. f r (Ingested-first r c cs i)) v)

  -- After any calls on a new aggregator there are at most `max_runs` runs, one entry to a run
  -- identity, and each run's state is the sum of a list of results that the calls ingested for that
  -- run, with as many outcomes as observations each, no slice or execution of which was counted
  -- twice.
  pub run-Inv :
      (max_runs : ℕ) (a : RunAggregator) (cs : List Call)
      → new max_runs ≡ some a
      → Inv (λ r. Ingested r cs) (run a cs)
  unfolding new
  run-Inv max_runs a cs h = run_from-Inv (λ r. Ingested r cs) a cs (λ r i. i) (ground arith)

  -- After any calls on a new aggregator, a run whose total has not reached the largest u64 counts
  -- as many successes and failures as observations.
  pub run_conserved :
      (max_runs : ℕ) (a : RunAggregator) (cs : List Call) (run_id : String) (s : RunState)
      → new max_runs ≡ some a
      → lookup run_id (run a cs).runs ≡ some s
      → (s.total ≡ u64_max) ⊎ (s.success + s.failure ≡ s.total)
  run_conserved max_runs a cs run_id s fresh found =
      Accounted-conserved (λ r. Ingested r cs) s
        (All-lookup (GoodEntry (λ r. Ingested r cs)) run_id s (run a cs).runs
          (run-Inv max_runs a cs fresh).good found).1
