-- ===== src/Aggregation/Expiry.antt =====
-- `RunAggregator::finalize_expired` of src/application/aggregation.rs.
use Prim.Native.Nat.{Ordering}
use Prim.Native.String
use mathlib.Core.List.{Perm}
use mathlib.Core.List.Perm
use pulse.Prelude.{
  ℕ, ◌-◌, String, List, [], ◌∷◌, map, Bool, not, ◌&&◌, leb, ◌≡◌, refl, arith, Bool-cases, inl, inr,
  none, some, is_some, if◌then◌else◌, Duration, as_millis,
}
use pulse.Domain.Contracts.{ScenarioRunSummary, timed_out}
use pulse.Aggregation.State.{RunState}
use pulse.Aggregation.Summary.{RankOf, summary}
use pulse.Aggregation.Aggregator.{
  RunAggregator, insert_summary, expire_state, expire_runs, finalize_expired,
}

-- A run that is still open and whose first result is as old as the timeout.
abbrev pub is_due : ℕ → ℕ → RunState → Bool
is_due now t s = not (is_some s.finalized_status) && leb t (now - s.first_result_at_unix_ms)

abbrev pub marked : RunState → RunState
marked s = record s { finalized_status = some timed_out }

-- The runs, of which the due ones are marked as timed out.
abbrev pub with_due_marked : ℕ → ℕ → List (String × RunState) → List (String × RunState)
with_due_marked now t = map λ e. (e.0, (if is_due now t e.1 then marked e.1 else e.1))

module _ (rank_of : RankOf) where
  -- One summary for each run that is due, in the order of the runs.
  abbrev pub due_summaries : ℕ → ℕ → List (String × RunState) → List ScenarioRunSummary
  due_summaries now t [] = []
  due_summaries now t ((k, s) ∷ runs) =
      let rest = due_summaries now t runs in
      if is_due now t s then summary rank_of (marked s) timed_out now ∷ rest else rest

  expire_state_lem :
      (now t : ℕ) (s : RunState)
      → expire_state rank_of now t s ≡ (
          if is_due now t s
          then (marked s, some (summary rank_of (marked s) timed_out now))
          else (s, none))
  unfolding expire_state
  expire_state_lem now t s = ground arith

  insert_summary-perm :
      (s : ScenarioRunSummary) (ts : List ScenarioRunSummary) → Perm (insert_summary s ts) (s ∷ ts)
  unfolding insert_summary
  insert_summary-perm s [] = Perm.refl (s ∷ [])
  insert_summary-perm s (t ∷ ts) =
      elim (String.compare s.run_id t.run_id)
        as (λ o.
          Perm
            (elim o [
              | Ordering.gt ↦ t ∷ insert_summary s ts
              | Ordering.lt ↦ s ∷ t ∷ ts
              | Ordering.eq ↦ s ∷ t ∷ ts
            ])
            (s ∷ t ∷ ts)) [
              | Ordering.lt ↦ Perm.refl (s ∷ t ∷ ts)
              | Ordering.eq ↦ Perm.refl (s ∷ t ∷ ts)
              | Ordering.gt ↦ Perm.trans (Perm.cons t (insert_summary-perm s ts)) (Perm.swap s t ts)
            ]

  expire_runs_lem :
      (now t : ℕ) (runs : List (String × RunState))
      → ((expire_runs rank_of now t runs).0 ≡ with_due_marked now t runs)
        × Perm (expire_runs rank_of now t runs).1 (due_summaries now t runs)
  unfolding expire_runs insert_summary
  expire_runs_lem now t [] = (refl, Perm.refl [])
  expire_runs_lem now t ((k, s) ∷ runs) =
      let rest = expire_runs_lem now t runs in
      let reported = (expire_runs rank_of now t runs).1 in
      elim (Bool-cases (is_due now t s)) [
        | inl due ↦
            rw (expire_state_lem now t s, due, rest.0)
              (
                refl,
                Perm.trans (insert_summary-perm (summary rank_of (marked s) timed_out now) reported)
                    (Perm.cons (summary rank_of (marked s) timed_out now) rest.1),
              )
        | inr open_still ↦ rw (expire_state_lem now t s, open_still, rest.0) (refl, rest.1)
      ]

  expire_runs_again :
      (now t : ℕ) (runs : List (String × RunState))
      → expire_runs rank_of now t (with_due_marked now t runs) ≡ (with_due_marked now t runs, [])
  unfolding expire_runs insert_summary
  expire_runs_again now t [] = refl
  expire_runs_again now t ((k, s) ∷ runs) = elim (Bool-cases (is_due now t s)) [
    | inl due ↦ rw (due, expire_state_lem now t (marked s), expire_runs_again now t runs) refl
    | inr open_still ↦
        rw (open_still, expire_state_lem now t s, open_still, expire_runs_again now t runs) refl
  ]

  -- A pass marks exactly the runs as timed out that are still open and at least as old as the
  -- timeout, and leaves all else; what it reports is, in some order, one summary with the status
  -- timed-out for each of these runs; and a second pass at the same time and timeout changes nothing
  -- and reports no run.
  pub finalize_expired_lem :
      (a : RunAggregator) (now : ℕ) (timeout : Duration)
      → let t = as_millis timeout in
        let (after, reported) = finalize_expired rank_of a now timeout in
        (after ≡ record a { runs = with_due_marked now t a.runs })
        × Perm reported (due_summaries now t a.runs)
        × (finalize_expired rank_of after now timeout ≡ (after, []))
  unfolding finalize_expired
  finalize_expired_lem a now timeout =
      let pass = expire_runs_lem now (as_millis timeout) a.runs in
      (rw pass.0 refl, pass.1, rw (pass.0, expire_runs_again now (as_millis timeout) a.runs) refl)
