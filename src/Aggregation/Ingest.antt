-- ===== src/Aggregation/Ingest.antt =====
-- The aggregator's invariant, and what its operations leave alone.
use pulse.Prelude.{
  ℕ, suc, ◌+◌, ◌≤◌, ◌<◌, ◌-◌, ◌||◌, ap, sym, as_millis, String, List, [], ◌∷◌, true, ◌≡◌, ◌∙◌, ◌⊎◌,
  inl, inr, refl, arith, eq_refl, All, DistinctTexts, length, sum, u64_max, Bool-cases,
  Option-cases, Option, some, is_some, ltb, Duration, lookup, keys_of, put-lookup, length-put,
  length-without, All-put, All-without, All-lookup, keys_of-put, keys_of-without, ok, err,
}
use pulse.Domain.Contracts.{ScenarioRunResult, ScenarioRunSummaryStatus, timed_out, cancelled}
use pulse.Domain.RunResult.{validate}
use pulse.Domain.RunResult.Valid.{validate_sound}
use pulse.Aggregation.State.{
  AggregationError, RunState, from_first, is_compatible, validate_compatible, merge,
}
use pulse.Aggregation.Summary.{RankOf}
use pulse.Aggregation.Aggregator.{
  RunAggregator, ingest_state, state_for, ingest_entry, ingest, expire_state, expire_runs,
  finalize_expired, cancel, remove, settle,
}
use pulse.Aggregation.Represents.{
  Represents, counted, totals, successes, failures, from_first-Represents, with_status-Represents,
  ingest_state-uncounted, ingest_state-counted,
}

-- Each result has as many outcomes as observations.
abbrev pub Conserving : ScenarioRunResult → Type 0
Conserving r = r.success + r.failure ≡ r.total

-- A predicate on results, such as to be among those that were received.
abbrev pub Source : Type 1
Source = ScenarioRunResult → Type 0

-- A conserving result of the run, from the source.
abbrev pub Counts : Source → String → ScenarioRunResult → Type 0
Counts From run_id r = Conserving r × (r.run_id ≡ run_id) × From r

-- The state is the sum of a list of results of its run from the source, none of them merged twice.
abbrev pub Accounted : Source → RunState → Type 0
Accounted From s = (rs : List ScenarioRunResult) × Represents s rs × All (Counts From s.run_id) rs

abbrev pub GoodEntry : Source → String × RunState → Type 0
GoodEntry From e = (e.1.run_id ≡ e.0) × Accounted From e.1

pub record Inv (From : Source) (a : RunAggregator) : Type 0 where
  pub bounded : length a.runs ≤ a.max_runs
  pub distinct : DistinctTexts (keys_of a.runs)
  pub good : All (GoodEntry From) a.runs

sum_conserved :
    (From : Source) (run_id : String) (rs : List ScenarioRunResult)
    → All (Counts From run_id) rs
    → sum (successes rs) + sum (failures rs) ≡ sum (totals rs)
sum_conserved From run_id [] h = refl
sum_conserved From run_id (r ∷ rs) h = omega (arith, sum_conserved From run_id rs h.1, h.0.0)

-- In an accounted run every observation is a success or a failure, until the total is capped.
pub Accounted-conserved :
    (From : Source) (s : RunState)
    → Accounted From s
    → (s.total ≡ u64_max) ⊎ (s.success + s.failure ≡ s.total)
Accounted-conserved From s (rs, h, c) =
    ground (arith, sum_conserved From s.run_id rs c, h.total_is, h.success_is, h.failure_is)

module _ (rank_of : RankOf) where
  run_id-ingest_state :
      (s : RunState) (r : ScenarioRunResult) (now : ℕ)
      → (ingest_state rank_of s r now).0.run_id ≡ s.run_id
  unfolding ingest_state validate_compatible merge settle
  run_id-ingest_state s r now = ground arith

  -- The first result of a run is never refused by the run's own state.
  ingest_first :
      (r : ScenarioRunResult) (now : ℕ)
      → counted (ingest_state rank_of (from_first r now) r now).1 ≡ true
  unfolding ingest_state validate_compatible is_compatible merge from_first settle
  ingest_first r now = ground (arith, eq_refl r.scenario_id)

  -- `ingest` either leaves the aggregator alone, or works on an entry for which there is room.
  ingest_cases :
      (a : RunAggregator) (r : ScenarioRunResult) (now : ℕ)
      → ((ingest rank_of a r now).0 ≡ a)
        ⊎ ((validate r ≡ ok tt)
            × ((is_some (lookup r.run_id a.runs) ≡ true) ⊎ (length a.runs < a.max_runs))
            × (ingest rank_of a r now ≡ ingest_entry rank_of a r now))
  unfolding ingest
  ingest_cases a r now =
      elim (validate r)
          as (λ x.
            validate r ≡ x
            → ((ingest rank_of a r now).0 ≡ a)
              ⊎ ((validate r ≡ ok tt)
                  × ((is_some (lookup r.run_id a.runs) ≡ true) ⊎ (length a.runs < a.max_runs))
                  × (ingest rank_of a r now ≡ ingest_entry rank_of a r now))) [
                    | err e ↦ λ h. inl (rw (h, ingest))
                    | ok u ↦ λ h. ground arith
                  ]
        refl

  length-ingest_entry :
      (a : RunAggregator) (r : ScenarioRunResult) (now : ℕ)
      → length a.runs ≤ a.max_runs
      → (is_some (lookup r.run_id a.runs) ≡ true) ⊎ (length a.runs < a.max_runs)
      → length (ingest_entry rank_of a r now).0.runs ≤ a.max_runs
  unfolding ingest_entry
  length-ingest_entry a r now b room =
      ground (arith, length-put r.run_id (ingest_state rank_of (state_for a r now) r now).0 a.runs)

  ingest_entry_error :
      (a : RunAggregator) (r : ScenarioRunResult) (now : ℕ) (e : AggregationError)
      → (ingest_entry rank_of a r now).1 ≡ err e
      → (ingest_entry rank_of a r now).0 ≡ a
  unfolding ingest_entry state_for
  ingest_entry_error a r now e h = elim (Option-cases (lookup r.run_id a.runs)) [
    | inl new_run ↦ absurd (ground (arith, ingest_first r now))
    | inr (s, found) ↦
        ground (arith, ingest_state-uncounted rank_of s r now, put-lookup r.run_id s a.runs)
  ]

  -- An error, of whatever kind, leaves the aggregator as it was.
  pub ingest_error_unchanged :
      (a : RunAggregator) (r : ScenarioRunResult) (now : ℕ) (e : AggregationError)
      → (ingest rank_of a r now).1 ≡ err e
      → (ingest rank_of a r now).0 ≡ a
  ingest_error_unchanged a r now e h = elim (ingest_cases a r now) [
    | inl same ↦ same
    | inr (_, _, entry) ↦ rw entry (ingest_entry_error a r now e (rw entry at h))
  ]

  expire_runs-keys :
      (now t : ℕ) (runs : List (String × RunState))
      → (keys_of (expire_runs rank_of now t runs).0 ≡ keys_of runs)
        × (length (expire_runs rank_of now t runs).0 ≡ length runs)
  unfolding expire_runs
  expire_runs-keys now t [] = (refl, refl)
  expire_runs-keys now t ((k, s) ∷ runs) =
      let rest = expire_runs-keys now t runs in (ap (◌∷◌ k) rest.0, ap suc rest.1)

module _ (rank_of : RankOf) (From : Source) where
  Counts-same :
      (run_id run_id' : String) (rs : List ScenarioRunResult)
      → run_id ≡ run_id'
      → All (Counts From run_id) rs
      → All (Counts From run_id') rs
  Counts-same run_id run_id' [] e h = tt
  Counts-same run_id run_id' (r ∷ rs) e (g, h) =
      ((g.0, g.1 ∙ e, g.2), Counts-same run_id run_id' rs e h)

  ingest_state-Accounted :
      (s : RunState) (r : ScenarioRunResult) (now : ℕ)
      → Accounted From s
      → Counts From s.run_id r
      → r.slice.index < r.slice.total
      → Accounted From (ingest_state rank_of s r now).0
  ingest_state-Accounted s r now (rs, h, c) cr l =
      elim (Bool-cases (counted (ingest_state rank_of s r now).1)) [
        | inl e ↦ (
          r ∷ rs,
          ingest_state-counted rank_of s r now rs h l e,
          Counts-same s.run_id (ingest_state rank_of s r now).0.run_id (r ∷ rs)
              (sym (run_id-ingest_state rank_of s r now)) (cr, c),
        )
        | inr e ↦ rw (ingest_state-uncounted rank_of s r now e) (rs, h, c)
      ]

  run_id-state_for :
      (a : RunAggregator) (r : ScenarioRunResult) (now : ℕ)
      → All (GoodEntry From) a.runs
      → GoodEntry From (r.run_id, state_for a r now)
  unfolding state_for
  run_id-state_for a r now g = elim (Option-cases (lookup r.run_id a.runs)) [
    | inl e ↦ rw (e, state_for) (unfold from_first in refl, ([], from_first-Represents r now, tt))
    | inr (s, e) ↦ rw (e, state_for) (All-lookup (GoodEntry From) r.run_id s a.runs g e)
  ]

  ingest_entry-good :
      (a : RunAggregator) (r : ScenarioRunResult) (now : ℕ)
      → All (GoodEntry From) a.runs
      → Conserving r
      → From r
      → r.slice.index < r.slice.total
      → All (GoodEntry From) (ingest_entry rank_of a r now).0.runs
  unfolding ingest_entry
  ingest_entry-good a r now g c f l =
      let entry = run_id-state_for a r now g in
      All-put (GoodEntry From) r.run_id _ a.runs
        (
          run_id-ingest_state rank_of (state_for a r now) r now ∙ entry.0,
          ingest_state-Accounted (state_for a r now) r now entry.1 (c, rw entry.0 refl, f) l,
        )
        g

  -- Every result keeps the invariant: at most `max_runs` runs, one entry to a run, and each run
  -- the sum of distinct results of the run from the source, if the result is from it.
  pub ingest-Inv :
      (a : RunAggregator) (r : ScenarioRunResult) (now : ℕ)
      → From r
      → Inv From a
      → Inv From (ingest rank_of a r now).0
  ingest-Inv a r now f v = elim (ingest_cases rank_of a r now) [
    | inl same ↦ rw same v
    | inr (valid, room, e) ↦
        let r_ok = validate_sound r valid in
        rw e (record {
          bounded = unfold ingest_entry in length-ingest_entry rank_of a r now v.bounded room;
          distinct = unfold ingest_entry in keys_of-put r.run_id _ a.runs v.distinct;
          good =
              ingest_entry-good a r now v.good r_ok.conserved f r_ok.identity.slice_valid.in_range;
        })
  ]

  with_status-Accounted :
      (s : RunState) (status : Option ScenarioRunSummaryStatus)
      → Accounted From s
      → Accounted From (record s { finalized_status = status })
  with_status-Accounted s status (rs, h, c) = (rs, with_status-Represents s status rs h, c)

  expire_state-good :
      (now t : ℕ) (k : String) (s : RunState)
      → GoodEntry From (k, s)
      → GoodEntry From (k, (expire_state rank_of now t s).0)
  unfolding expire_state
  expire_state-good now t k s g =
      elim (Bool-cases (is_some s.finalized_status || ltb (now - s.first_result_at_unix_ms) t)) [
        | inl skipped ↦ rw (skipped, expire_state) g
        | inr expired ↦
            rw (expired, expire_state) (g.0, with_status-Accounted s (some timed_out) g.1)
      ]

  expire_runs-good :
      (now t : ℕ) (runs : List (String × RunState))
      → All (GoodEntry From) runs
      → All (GoodEntry From) (expire_runs rank_of now t runs).0
  unfolding expire_runs
  expire_runs-good now t [] g = tt
  expire_runs-good now t ((k, s) ∷ runs) g =
      (expire_state-good now t k s g.0, expire_runs-good now t runs g.1)

  -- So does the expiry of runs.
  pub finalize_expired-Inv :
      (a : RunAggregator) (now : ℕ) (timeout : Duration)
      → Inv From a
      → Inv From (finalize_expired rank_of a now timeout).0
  unfolding finalize_expired
  finalize_expired-Inv a now timeout v =
      let kept = expire_runs-keys rank_of now (as_millis timeout) a.runs in
      record {
        bounded = omega (arith, kept.1, v.bounded);
        distinct = rw kept.0 v.distinct;
        good = expire_runs-good now (as_millis timeout) a.runs v.good;
      }

  -- So does a cancellation.
  pub cancel-Inv :
      (a : RunAggregator) (run_id : String) (now : ℕ)
      → Inv From a
      → Inv From (cancel rank_of a run_id now).0
  unfolding cancel
  cancel-Inv a run_id now v = elim (Option-cases (lookup run_id a.runs)) [
    | inl missing ↦ rw (missing, cancel) v
    | inr (s, found) ↦
        let g = All-lookup (GoodEntry From) run_id s a.runs v.good found in
        let s' : RunState = record s { finalized_status = some cancelled } in
        rw (found, cancel)
          (record {
            bounded = ground (arith, length-put run_id s' a.runs, v.bounded);
            distinct = keys_of-put run_id s' a.runs v.distinct;
            good =
                All-put (GoodEntry From) run_id s' a.runs
                  (g.0, with_status-Accounted s (some cancelled) g.1) v.good;
          })
  ]

  -- So does a removal.
  pub remove-Inv :
      (a : RunAggregator) (run_id : String) → Inv From a → Inv From (remove rank_of a run_id).0
  unfolding remove
  remove-Inv a run_id v = elim (Option-cases (lookup run_id a.runs)) [
    | inl missing ↦ rw (missing, remove) v
    | inr (s, found) ↦
        rw (found, remove)
          (record {
            bounded = omega (arith, length-without run_id a.runs, v.bounded);
            distinct = keys_of-without run_id a.runs v.distinct;
            good = All-without (GoodEntry From) run_id a.runs v.good;
          })
  ]
