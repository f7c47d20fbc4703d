-- ===== src/Tests/Elections.antt =====
-- A node that is elected at its first request and follows from then on.
use pulse.Prelude.{ℕ, ◌+◌, ◌≡◌, refl, [], ◌∷◌, false, ltb, if◌then◌else◌, none, some, ok}
use pulse.Coordination.Types.{acquired, follower}
use pulse.Worker.Publish.{conservative_lease_deadline}
use pulse.Scheduler.Election.{
  Ports, State, sent, granted, observe, announce, after_reply, interval_remaining,
  leader_election_loop,
}
use pulse.Tests.Schedulers.{leader}

abbrev ports : Ports ℕ
ports = record {
  shutdown_requested = λ w. false;
  instant = λ w. w;
  acquire_or_renew =
      λ current w. (w + 1, (if ltb w 1 then ok (acquired leader.lease) else ok (follower 5000)));
  wait_or_shutdown = λ d w. (w + d, false);
  scheduler_stopped = λ d w. w;
  relinquish = λ lease w. (w, ok tt);
}

abbrev start : State ℕ
start = record { world = 0; log = []; current = none }

leads_then_follows :
    (leader_election_loop ports 3000000000 2 start).log
    ≡ sent none 3000000001
      ∷ sent (some (record { lease = leader.lease; valid_until = 7000000000 })) 1
      ∷ granted leader.lease
      ∷ []
unfolding leader_election_loop after_reply announce observe conservative_lease_deadline
    interval_remaining
leads_then_follows = refl
