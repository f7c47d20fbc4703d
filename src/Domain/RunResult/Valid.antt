-- ===== src/Domain/RunResult/Valid.antt =====
-- Which results `ScenarioRunResult::validate` accepts.
use pulse.Prelude.{
  ℕ, ◌+◌, ◌≤◌, ◌<◌, String, List, [], ◌∷◌, ◌≡◌, ◌≢◌, ◌↔◌, refl, false, arith, byte_len, is_blank,
  eq_iff, has_text, All, DistinctTexts, length, sum, u64_max, ok, err,
}
use pulse.Domain.Contracts.{build_terminal_event_id, LatencyBucket, ScenarioRunResult}
use pulse.Domain.Checks.{
  validate_contract_version, validate_slice, require_non_empty, validate_identity_lengths,
}
use pulse.Domain.Job.Valid.{ValidSlice}
use pulse.Domain.RunResult.{
  sum_errors, check_exact, any_above_exact, validate_identity, validate_event, validate_outcomes,
  validate_error_total, validate_errors, validate,
}
use pulse.Domain.RunResult.Errors.{
  kinds, counts, GoodKind, Accepted, sum_errors_sound, sum_errors_complete,
}
use pulse.Domain.RunResult.Buckets.{
  ValidHistogram, validate_latency_buckets_sound, validate_latency_buckets_complete,
}

abbrev pub exact_max : ℕ
exact_max = 9007199254740991

-- Versions and identities.
pub record ValidIdentity (r : ScenarioRunResult) : Type 0 where
  pub known_version : (1 ≤ r.schema_version) × (r.schema_version ≤ 2)
  pub scenario_given : (is_blank r.scenario_id ≡ false) × (byte_len r.scenario_id ≤ 1024)
  pub run_given : (is_blank r.run_id ≡ false) × (byte_len r.run_id ≤ 1024)
  pub key_given : (is_blank r.execution_key ≡ false) × (byte_len r.execution_key ≤ 1024)
  pub slice_valid : ValidSlice r.slice
  pub attempt_bounded : r.attempt ≤ 32

-- The deterministic event of a version 2 result, with a histogram wherever there are observations.
pub record ValidEvent (r : ScenarioRunResult) : Type 0 where
  pub event_given : (is_blank r.event_id ≡ false) × (byte_len r.event_id ≤ 1024)
  pub deterministic : r.event_id ≡ build_terminal_event_id r.execution_key r.attempt "result"
  pub observed : 0 < r.total → r.latency_histogram ≢ []

-- The counts of a version 2 result are exact for the Lua scripts.
pub record ExactCounts (r : ScenarioRunResult) : Type 0 where
  pub total_exact : r.total ≤ exact_max
  pub all_failures_named : sum (counts r.error_breakdown) ≡ r.failure
  pub buckets_exact : All (λ (b : LatencyBucket). b.count ≤ exact_max) r.latency_histogram

-- The error kinds are few, given, bounded and distinct, and no more than the failures.
pub record ValidErrors (r : ScenarioRunResult) : Type 0 where
  pub few : length r.error_breakdown ≤ 64
  pub good : All GoodKind (kinds r.error_breakdown)
  pub distinct : DistinctTexts (kinds r.error_breakdown)
  pub bounded : sum (counts r.error_breakdown) ≤ r.failure
  pub exact : 2 ≤ r.schema_version → ExactCounts r

pub record ValidResult (r : ScenarioRunResult) : Type 0 where
  pub identity : ValidIdentity r
  pub event : 2 ≤ r.schema_version → ValidEvent r
  pub conserved : r.success + r.failure ≡ r.total
  pub errors : ValidErrors r
  pub ordered : r.started_at_unix_ms ≤ r.finished_at_unix_ms
  pub histogram : ValidHistogram r.latency_histogram r.total

validate_identity_sound : (r : ScenarioRunResult) → validate_identity r ≡ ok tt → ValidIdentity r
unfolding validate_identity validate_contract_version validate_slice require_non_empty
    validate_identity_lengths
validate_identity_sound r h = ground arith

validate_identity_complete : (r : ScenarioRunResult) → ValidIdentity r → validate_identity r ≡ ok tt
unfolding validate_identity validate_contract_version validate_slice require_non_empty
    validate_identity_lengths
validate_identity_complete r v = ground arith

validate_event_sound :
    (r : ScenarioRunResult) → validate_event r ≡ ok tt → 2 ≤ r.schema_version → ValidEvent r
unfolding validate_event require_non_empty
validate_event_sound r h v2 = record {
  event_given = ground arith;
  deterministic =
      ground
        (arith, eq_iff r.event_id (build_terminal_event_id r.execution_key r.attempt "result"));
  observed = ground arith;
}

validate_event_complete :
    (r : ScenarioRunResult) → (2 ≤ r.schema_version → ValidEvent r) → validate_event r ≡ ok tt
unfolding validate_event require_non_empty
validate_event_complete r v =
    ground
      (arith, v, eq_iff r.event_id (build_terminal_event_id r.execution_key r.attempt "result"))

any_above_exact_sound :
    (bs : List LatencyBucket) → any_above_exact bs ≡ false → All (λ b. b.count ≤ exact_max) bs
unfolding any_above_exact
any_above_exact_sound [] h = tt
any_above_exact_sound (b ∷ bs) h = (ground arith, any_above_exact_sound bs (ground arith))

any_above_exact_complete :
    (bs : List LatencyBucket) → All (λ b. b.count ≤ exact_max) bs → any_above_exact bs ≡ false
unfolding any_above_exact
any_above_exact_complete [] h = refl
any_above_exact_complete (b ∷ bs) h = ground (arith, any_above_exact_complete bs h.1)

none_seen : (ks : List String) → All (λ k. has_text k [] ≡ false) ks
none_seen [] = tt
none_seen (k ∷ ks) = (refl, none_seen ks)

-- The sum that the loop hands to `validate_error_total`.
errors_run :
    (r : ScenarioRunResult)
    → validate_errors r ≡ ok tt
    → (t : ℕ) × (sum_errors [] 0 r.error_breakdown ≡ ok t)
      × (validate_error_total r t ≡ ok tt)
      × (length r.error_breakdown ≤ 64)
unfolding validate_errors
errors_run r h =
    elim (sum_errors [] 0 r.error_breakdown)
        as (λ x.
          sum_errors [] 0 r.error_breakdown ≡ x
          → (t : ℕ) × (sum_errors [] 0 r.error_breakdown ≡ ok t)
            × (validate_error_total r t ≡ ok tt)
            × (length r.error_breakdown ≤ 64)) [
              | ok t ↦ λ e. (t, e, ground arith, ground arith)
              | err x ↦ λ e. absurd (ground arith)
            ]
      refl

validate_errors_sound :
    (r : ScenarioRunResult)
    → r.success + r.failure ≡ r.total
    → validate_errors r ≡ ok tt
    → ValidErrors r
unfolding validate_error_total check_exact
validate_errors_sound r c h =
    let run = errors_run r h in
    let a : Accepted [] 0 r.error_breakdown run.0 =
      sum_errors_sound [] 0 r.error_breakdown run.0 (omega arith) run.1 in
    record {
      few = run.3;
      good = a.good;
      distinct = a.distinct;
      bounded = ground (arith, run.2, a.exact);
      exact = λ v2. record {
        total_exact = ground (arith, run.2);
        all_failures_named = ground (arith, run.2, a.exact);
        buckets_exact = any_above_exact_sound r.latency_histogram (ground (arith, run.2));
      };
    }

validate_errors_complete :
    (r : ScenarioRunResult)
    → r.success + r.failure ≡ r.total
    → r.total ≤ u64_max
    → ValidErrors r
    → validate_errors r ≡ ok tt
unfolding validate_errors validate_error_total check_exact
validate_errors_complete r c b v =
    let t = sum (counts r.error_breakdown) in
    let a : Accepted [] 0 r.error_breakdown t = record {
      good = v.good;
      distinct = v.distinct;
      unseen = none_seen (kinds r.error_breakdown);
      exact = omega arith;
      fits = omega (arith, v.bounded);
    } in
    rw (sum_errors_complete [] 0 r.error_breakdown t a) (
      ground (
        arith,
        v.few,
        v.bounded,
        v.exact,
        λ (h : All (λ (x : LatencyBucket). x.count ≤ exact_max) r.latency_histogram).
            any_above_exact_complete r.latency_histogram h,
      ))

pub validate_sound : (r : ScenarioRunResult) → validate r ≡ ok tt → ValidResult r
unfolding validate validate_outcomes
validate_sound r h =
    let c : r.success + r.failure ≡ r.total = ground arith in
    record {
      identity = validate_identity_sound r (ground arith);
      event = validate_event_sound r (ground arith);
      conserved = c;
      errors = validate_errors_sound r c (ground arith);
      ordered = ground arith;
      histogram = validate_latency_buckets_sound r.latency_histogram r.total (ground arith);
    }

validate_complete : (r : ScenarioRunResult) → r.total ≤ u64_max → ValidResult r → validate r ≡ ok tt
unfolding validate validate_outcomes
validate_complete r b v = ground (
  arith,
  validate_identity_complete r v.identity,
  validate_event_complete r v.event,
  validate_errors_complete r v.conserved b v.errors,
  validate_latency_buckets_complete r.latency_histogram r.total b v.histogram,
  v.conserved,
  v.ordered,
)

-- For a total that fits 64 bits, `validate` accepts exactly the results with valid identities, a
-- deterministic event from version 2 on, as many outcomes as observations, distinct error kinds
-- that name no more than the failures (all of them, in exact integers, from version 2 on),
-- ordered timestamps, and a histogram that is mergeable and counts every observation.
pub validate_result_iff :
    (r : ScenarioRunResult) → r.total ≤ u64_max → (validate r ≡ ok tt) ↔ ValidResult r
validate_result_iff r b = (validate_sound r, validate_complete r b)
