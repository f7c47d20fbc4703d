-- ===== src/Scheduler/Election.antt =====
-- `leader_election_loop` of src/application/service.rs, which tells the scheduler whether it leads.
use pulse.Prelude.{
  ℕ, zero, suc, ◌-◌, ◌*◌, List, ◌∷◌, Bool, true, false, ltb, min, Option, none, some, Duration,
  if◌then◌else◌, Result, ok, err,
}
use pulse.Coordination.Types.{
  CoordinationError, LeaderLease, LeadershipOutcome, acquired, renewed, follower,
}
use pulse.Worker.Publish.{conservative_lease_deadline}
use pulse.Scheduler.Ports.{ObservedLeaderLease}

-- `sent` is what the watch channel holds from then on, at an instant; `granted` is a reply with a
-- lease.
pub data Event : Type 0 where
  granted : LeaderLease → Event
  sent : Option ObservedLeaderLease → ℕ → Event
  relinquish_issued : LeaderLease → Event

pub record Ports (W : Type 0) : Type 0 where
  pub shutdown_requested : W → Bool
  pub instant : W → ℕ
  pub acquire_or_renew : Option LeaderLease → W → W × Result CoordinationError LeadershipOutcome
  pub wait_or_shutdown : Duration → W → W × Bool
  -- The wait for the end of the scheduler, which takes no longer than the duration.
  pub scheduler_stopped : Duration → W → W
  pub relinquish : LeaderLease → W → W × Result CoordinationError (Unit {0})

pub record State (W : Type 0) : Type 0 where
  pub world : W
  pub log : List Event
  pub current : Option LeaderLease

-- ObservedLeaderLease::new
unfoldable pub observe : LeaderLease → Duration → ℕ → ObservedLeaderLease
observe lease renew_interval request_started = record {
  lease = lease;
  valid_until = conservative_lease_deadline request_started lease.ttl renew_interval;
}

unfoldable pub interval_remaining : ℕ → Duration → ℕ → Duration
interval_remaining request_started interval now = interval - (now - request_started)

module _ {W : Type 0} (ports : Ports W) (renew_interval : Duration) where
  abbrev pub send : Option ObservedLeaderLease → State W → State W
  send leader s = record s { log = sent leader (ports.instant s.world) ∷ s.log }

  -- A lease from a reply is announced while its local budget lasts.
  unfoldable pub announce : LeaderLease → ℕ → State W → State W
  unfolding observe
  announce lease request_started s =
      let s' : State W = record s { log = granted lease ∷ s.log; current = some lease } in
      let observed = observe lease renew_interval request_started in
      if ltb (ports.instant s.world) observed.valid_until
      then send (some observed) s'
      else send none s'

  abbrev pub step_down : State W → State W
  step_down s = send none (record s { current = none })

  -- The state after a reply, and the interval until the next request.
  unfoldable pub after_reply :
      ℕ → Result CoordinationError LeadershipOutcome → State W → State W × Duration
  unfolding announce
  after_reply request_started (ok (acquired lease)) s =
      (announce lease request_started s, renew_interval)
  after_reply request_started (ok (renewed lease)) s =
      (announce lease request_started s, renew_interval)
  after_reply request_started (ok (follower retry_after)) s =
      (step_down s, min retry_after renew_interval)
  after_reply request_started (err error) s = (step_down s, renew_interval)

  abbrev pub relinquish_current : Option LeaderLease → State W → State W
  relinquish_current none s = s
  relinquish_current (some lease) s = record s {
    world = (ports.relinquish lease s.world).0;
    log = relinquish_issued lease ∷ s.log;
  }

  -- What follows the loop.
  unfoldable pub resign : State W → State W
  resign s =
      let stopped = send none s in
      relinquish_current s.current
        (record stopped { world = ports.scheduler_stopped (renew_interval * 2) s.world })

  abbrev pub unless_stopped : (State W → State W) → W × Bool → State W → State W
  unless_stopped rest (w, true) s = resign (record s { world = w })
  unless_stopped rest (w, false) s = rest (record s { world = w })

  -- The wait after a reply, where `rest` is the loop from the next request on.
  abbrev pub after_request : (State W → State W) → ℕ → State W × Duration → State W
  after_request rest request_started (s, interval) =
      unless_stopped rest
        (ports.wait_or_shutdown
          (interval_remaining request_started interval (ports.instant s.world)) s.world)
        s

  -- At most so many requests; the loop ends at a shutdown only.
  unfoldable pub leader_election_loop : ℕ → State W → State W
  unfolding after_reply resign
  leader_election_loop zero s = s
  leader_election_loop (suc requests) s =
      if ports.shutdown_requested s.world
      then resign s
      else let (w, reply) = ports.acquire_or_renew s.current s.world in
        after_request (leader_election_loop requests) (ports.instant s.world)
          (after_reply (ports.instant s.world) reply (record s { world = w }))
