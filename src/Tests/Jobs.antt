-- ===== src/Tests/Jobs.antt =====
-- A job whose rate is a number.
use pulse.Prelude.{ℕ, ◌≡◌, ◌↔◌, ok, true, leb, ltb, decimal}
use pulse.Domain.Rate.{RateOps}
use pulse.Domain.Contracts.{ScenarioJob}
use pulse.Domain.Job.{validate, validate_limits}
use pulse.Domain.Job.Valid.{ValidJob, WithinLimits, validate_job_iff, validate_limits-ok_iff}

abbrev pub rates : RateOps ℕ
rates = record {
  zero_rate = 0;
  is_finite = λ x. true;
  rate_le = leb;
  rate_gt = λ x y. ltb y x;
  show_rate = decimal;
  show_duration = decimal;
}

abbrev pub job : ScenarioJob ℕ
job = record {
  schema_version = 2;
  scenario_id = "checkout";
  run_id = "run";
  execution_key = "run:slice-0-of-2";
  plan_fingerprint = "sha256:plan";
  scheduled_at_unix_ms = 1000;
  not_before_unix_ms = 0;
  slice = record { index = 0; total = 2 };
  load = record {
    scenarios_per_sec = 5;
    duration = 60000000000;
    max_concurrency = 10;
    startup_burst = 2;
  };
  attempt = 0;
  max_retries = 3;
}

validate_job_iff_example : (validate rates job ≡ ok tt) ↔ ValidJob rates job
validate_job_iff_example = validate_job_iff rates job

validate_limits-ok_iff_example :
    (validate_limits rates job 60000000000 5 10 ≡ ok tt) ↔ WithinLimits rates job 60000000000 5 10
validate_limits-ok_iff_example = validate_limits-ok_iff rates job 60000000000 5 10
