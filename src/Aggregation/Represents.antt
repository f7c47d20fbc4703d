-- ===== src/Aggregation/Represents.antt =====
-- A run's state against the list of results that were merged into it.
use pulse.Prelude.{
  ℕ, ◌<◌, String, List, [], ◌∷◌, map, Bool, true, false, ◌≡◌, ◌↔◌, inl, inr, refl, Option, some,
  arith, All, Distinct, DistinctTexts, has, has_text, length, sum, u64_max, min, saturating_add,
  ◌==◌, Bool-cases, is_some, Result, ok, err,
}
use pulse.Domain.Contracts.{ScenarioRunResult, ScenarioRunSummaryStatus, complete}
use pulse.Aggregation.State.{
  AggregationError, AggregationUpdate, accepted, duplicate, finalized, late_update, RunState,
  from_first, is_compatible, validate_compatible, absorb, merge,
}
use pulse.Aggregation.Summary.{RankOf, missing_from}
use pulse.Aggregation.Aggregator.{settle, ingest_state}
use pulse.Aggregation.Coverage.{length-missing_from}

abbrev pub indexes : List ScenarioRunResult → List ℕ
indexes = map λ r. r.slice.index

abbrev pub keys : List ScenarioRunResult → List String
keys = map λ r. r.execution_key

abbrev pub totals : List ScenarioRunResult → List ℕ
totals = map λ r. r.total

abbrev pub successes : List ScenarioRunResult → List ℕ
successes = map λ r. r.success

abbrev pub failures : List ScenarioRunResult → List ℕ
failures = map λ r. r.failure

-- The state has merged exactly the results `rs`, each slice and each execution once, and its
-- counters are their sums, capped at the largest u64.
pub record Represents (s : RunState) (rs : List ScenarioRunResult) : Type 0 where
  pub indexes_are : s.received_slice_indexes ≡ indexes rs
  pub keys_are : s.received_execution_keys ≡ keys rs
  pub total_is : s.total ≡ min (sum (totals rs)) u64_max
  pub success_is : s.success ≡ min (sum (successes rs)) u64_max
  pub failure_is : s.failure ≡ min (sum (failures rs)) u64_max
  pub slices_once : Distinct (indexes rs)
  pub executions_once : DistinctTexts (keys rs)
  pub in_range : All (λ i. i < s.expected_slices) (indexes rs)

-- Whether an outcome of `ingest` counted its result.
abbrev pub counted : Result AggregationError AggregationUpdate → Bool
counted (err e) = false
counted (ok duplicate) = false
counted (ok accepted) = true
counted (ok (finalized s)) = true
counted (ok (late_update s)) = true

pub from_first-Represents : (r : ScenarioRunResult) (now : ℕ) → Represents (from_first r now) []
unfolding from_first
from_first-Represents r now = ground arith

absorb-Represents :
    (s : RunState) (r : ScenarioRunResult) (now : ℕ) (rs : List ScenarioRunResult)
    → Represents s rs
    → r.slice.index < s.expected_slices
    → has_text r.execution_key s.received_execution_keys ≡ false
    → has r.slice.index s.received_slice_indexes ≡ false
    → Represents (absorb s r now) (r ∷ rs)
unfolding absorb saturating_add
absorb-Represents s r now rs h l k i = record {
  indexes_are = ground (arith, h.indexes_are);
  keys_are = ground (arith, h.keys_are);
  total_is = omega (arith, h.total_is);
  success_is = omega (arith, h.success_is);
  failure_is = omega (arith, h.failure_is);
  slices_once = (ground (arith, h.indexes_are), h.slices_once);
  executions_once = (ground (arith, h.keys_are), h.executions_once);
  in_range = (l, h.in_range);
}

-- The status is no part of what a state represents.
pub with_status-Represents :
    (s : RunState) (status : Option ScenarioRunSummaryStatus) (rs : List ScenarioRunResult)
    → Represents s rs
    → Represents (record s { finalized_status = status }) rs
with_status-Represents s status rs h = record {
  indexes_are = h.indexes_are;
  keys_are = h.keys_are;
  total_is = h.total_is;
  success_is = h.success_is;
  failure_is = h.failure_is;
  slices_once = h.slices_once;
  executions_once = h.executions_once;
  in_range = h.in_range;
}

empty_iff : (xs : List ℕ) → (length xs ≡ 0) ↔ (xs ≡ [])
empty_iff [] = (λ _. refl, λ _. refl)
empty_iff (x ∷ xs) = (λ h. absurd (omega arith), λ h. cc)

module _ (rank_of : RankOf) where
  -- A result that is not counted (a duplicate, or an incompatible one) leaves the state as it was.
  pub ingest_state-uncounted :
      (s : RunState) (r : ScenarioRunResult) (now : ℕ)
      → counted (ingest_state rank_of s r now).1 ≡ false
      → (ingest_state rank_of s r now).0 ≡ s
  unfolding ingest_state validate_compatible merge settle
  ingest_state-uncounted s r now h = ground arith

  settle-Represents :
      (s : RunState) (was : Bool) (now : ℕ) (rs : List ScenarioRunResult)
      → Represents s rs
      → Represents (settle rank_of s was now).0 rs
  unfolding settle
  settle-Represents s was now rs h =
      elim (Bool-cases (length s.received_slice_indexes == s.expected_slices)) [
        | inl done ↦ rw (done, settle) (with_status-Represents s (some complete) rs h)
        | inr open_still ↦ rw (open_still, settle) h
      ]

  -- A result with a slice in range that is counted into a state which represents a list of
  -- results gives a state that represents the list with the result in front: it is merged once.
  pub ingest_state-counted :
      (s : RunState) (r : ScenarioRunResult) (now : ℕ) (rs : List ScenarioRunResult)
      → Represents s rs
      → r.slice.index < r.slice.total
      → counted (ingest_state rank_of s r now).1 ≡ true
      → Represents (ingest_state rank_of s r now).0 (r ∷ rs)
  unfolding ingest_state validate_compatible is_compatible merge
  ingest_state-counted s r now rs h l c = ground (
    arith,
    absorb-Represents s r now rs h,
    settle-Represents (absorb s r now) (is_some s.finalized_status) now (r ∷ rs),
  )

  -- Whether an outcome finalizes the run.
  abbrev pub finalizes : Result AggregationError AggregationUpdate → Bool
  finalizes (err e) = false
  finalizes (ok duplicate) = false
  finalizes (ok accepted) = false
  finalizes (ok (finalized m)) = true
  finalizes (ok (late_update m)) = true

  settle-finalizes :
      (s : RunState) (was : Bool) (now : ℕ)
      → (finalizes (ok (settle rank_of s was now).1) ≡ true) ↔ (
          length (settle rank_of s was now).0.received_slice_indexes
          ≡ (settle rank_of s was now).0.expected_slices)
  unfolding settle
  settle-finalizes s was now = (λ h. ground arith, λ h. ground arith)

  -- A counted result has been absorbed and settled.
  ingest_state_settles :
      (s : RunState) (r : ScenarioRunResult) (now : ℕ)
      → counted (ingest_state rank_of s r now).1 ≡ true
      → ((ingest_state rank_of s r now).0
          ≡ (settle rank_of (absorb s r now) (is_some s.finalized_status) now).0)
        × ((ingest_state rank_of s r now).1
            ≡ ok (settle rank_of (absorb s r now) (is_some s.finalized_status) now).1)
  unfolding ingest_state validate_compatible merge
  ingest_state_settles s r now c = ground arith

  covered_iff :
      (s : RunState) (rs : List ScenarioRunResult)
      → Represents s rs
      → (length s.received_slice_indexes ≡ s.expected_slices)
        ↔ (missing_from s.expected_slices 0 s.received_slice_indexes ≡ [])
  covered_iff s rs h =
      let sum_is =
        length-missing_from s.expected_slices s.received_slice_indexes
          (rw h.indexes_are h.slices_once) (rw h.indexes_are h.in_range) in
      (λ e. (empty_iff _).0 (omega (arith, sum_is)), λ e. omega (arith, sum_is, (empty_iff _).1 e))

  -- A result with a slice in range that is counted into a state which represents a list of
  -- results finalizes the run exactly if no slice is missing any more.
  pub ingest_state-finalizes :
      (s : RunState) (r : ScenarioRunResult) (now : ℕ) (rs : List ScenarioRunResult)
      → Represents s rs
      → r.slice.index < r.slice.total
      → counted (ingest_state rank_of s r now).1 ≡ true
      → (finalizes (ingest_state rank_of s r now).1 ≡ true) ↔ (
          missing_from
            (ingest_state rank_of s r now).0.expected_slices
            0
            (ingest_state rank_of s r now).0.received_slice_indexes
          ≡ [])
  ingest_state-finalizes s r now rs h l c =
      let e = ingest_state_settles s r now c in
      let covered =
        covered_iff (ingest_state rank_of s r now).0 (r ∷ rs)
          (ingest_state-counted s r now rs h l c) in
      let final = settle-finalizes (absorb s r now) (is_some s.finalized_status) now in
      (
        λ f. covered.0 (rw e.0 (final.0 (rw e.1 at f))),
        λ m. rw e.1 (final.1 (rw e.0 at (covered.1 m))),
      )
