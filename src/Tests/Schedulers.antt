-- ===== src/Tests/Schedulers.antt =====
-- A scheduler that leads, with one window of two slices.
use pulse.Prelude.{ℕ, ◌+◌, ◌≡◌, refl, List, [], ◌∷◌, true, false, some, ok}
use pulse.Coordination.Types.{DispatchWindow, ready, pending, execution_key}
use pulse.Scheduler.Ports.{
  lease_is_current, ObservedLeaderLease, Event, Ports, State, ack_issued, job_sent, registered,
  prepared,
}
use pulse.Scheduler.Follows.{Rounds}
use pulse.Scheduler.Dispatch.{scheduler_loop}
use pulse.Scheduler.Loop.{scheduler_loop-Rounds}
use pulse.Tests.Workers.{ops, config, plans}

abbrev pub leader : ObservedLeaderLease
leader = record {
  lease = record {
    lock_key = "pulse:leader";
    node_id = "a";
    owner_token = "a";
    fencing_token = 1;
    expires_at_unix_ms = 0;
    ttl = 10000000000;
  };
  valid_until = 1000000;
}

abbrev pub window : DispatchWindow
window = record {
  scenario_id = "checkout";
  window_id = "v2:checkout:0";
  run_id = "v2:checkout:0";
  scheduled_at_unix_ms = 0;
  contract_version = 2;
  total_slices = 2;
  plan_fingerprint = "fnv128:0";
  missing_slices = 0 ∷ 1 ∷ [];
}

-- The world counts its operations.
abbrev ports : Ports ℕ ℕ
ports = record {
  shutdown_requested = λ w. false;
  instant = λ w. w;
  observed_leader = λ w. some leader;
  leader_changed = λ w. (w + 1, false);
  prepare_window = λ spec lease w. (w + 1, ok (ready window));
  register_run = λ run duration w. (w + 1, ok tt);
  publish_job = λ key job w. (w + 1, ok tt);
  publication_dropped = λ w. false;
  ack_slice = λ run index lease w. (w + 1, ok (pending 1));
  wait_or_shutdown = λ d w. (w + d, true);
}

abbrev start : State ℕ ℕ
start = record { world = 0; log = [] }

scheduler_loop-Rounds_example :
    Rounds ops config plans plans start.log (scheduler_loop ops config ports 3 1000 plans start).log
scheduler_loop-Rounds_example = scheduler_loop-Rounds ops config ports 3 1000 plans start

abbrev acked : List (Event ℕ) → List ℕ
acked [] = []
acked (ack_issued w index ∷ log) = index ∷ acked log
acked (job_sent key job ∷ log) = acked log
acked (registered w ∷ log) = acked log
acked (prepared spec w ∷ log) = acked log

both_slices_acked : acked (scheduler_loop ops config ports 3 1000 plans start).log ≡ 1 ∷ 0 ∷ []
unfolding scheduler_loop lease_is_current execution_key
both_slices_acked = refl
