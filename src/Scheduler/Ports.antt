-- ===== src/Scheduler/Ports.antt =====
-- The world of the scheduler in src/application/service.rs, and the log of what it did.
use pulse.Prelude.{
  ℕ, String, List, ◌∷◌, Bool, true, false, ◌&&◌, ltb, ◌==◌, str_eq, Option, none, some, Duration,
  Result,
}
use pulse.Domain.Contracts.{ScenarioJob}
use pulse.Coordination.Types.{
  CoordinationError, LeaderLease, DispatchSpec, DispatchWindow, DispatchOutcome, DispatchProgress,
}

pub record ObservedLeaderLease : Type 0 where
  pub lease : LeaderLease
  pub valid_until : ℕ

-- `registered` and `job_sent` stand here when they were acknowledged, `ack_issued` when it starts.
pub data Event (R : Type 0) : Type 0 where
  prepared : DispatchSpec → DispatchWindow → Event R
  registered : DispatchWindow → Event R
  job_sent : String → ScenarioJob R → Event R
  ack_issued : DispatchWindow → ℕ → Event R

pub record Ports (R W : Type 0) : Type 0 where
  pub shutdown_requested : W → Bool
  -- Instant::now in nanoseconds, and what the watch channel of the leader holds
  pub instant : W → ℕ
  pub observed_leader : W → Option ObservedLeaderLease
  -- The wait for a change of the leader or a shutdown, and whether the channel was found closed.
  pub leader_changed : W → W × Bool
  pub prepare_window : DispatchSpec → LeaderLease → W → W × Result CoordinationError DispatchOutcome
  pub register_run : DispatchWindow → Duration → W → W × Result CoordinationError (Unit {0})
  -- The publication, and whether `select!` dropped it: at a shutdown, at the local deadline of the
  -- lease, or when another leader was observed. It may have had its effect all the same.
  pub publish_job : String → ScenarioJob R → W → W × Result String (Unit {0})
  pub publication_dropped : W → Bool
  pub ack_slice :
      DispatchWindow → ℕ → LeaderLease → W → W × Result CoordinationError DispatchProgress
  pub wait_or_shutdown : Duration → W → W × Bool

pub record State (R W : Type 0) : Type 0 where
  pub world : W
  pub log : List (Event R)

abbrev pub note : {R W : Type 0} → Event R → State R W → State R W
note e s = record s { log = e ∷ s.log }

abbrev pub at_world : {R W : Type 0} → W → State R W → State R W
at_world w s = record s { world = w }

-- The owner and the fence of two observed leases are the same.
abbrev pub same_leader : ObservedLeaderLease → ObservedLeaderLease → Bool
same_leader current expected =
    str_eq current.lease.owner_token expected.lease.owner_token
    && (current.lease.fencing_token == expected.lease.fencing_token)

unfoldable pub leader_identity_is_current : Option ObservedLeaderLease → ObservedLeaderLease → Bool
leader_identity_is_current none expected = false
leader_identity_is_current (some current) expected = same_leader current expected

unfoldable pub lease_is_current : Option ObservedLeaderLease → ObservedLeaderLease → ℕ → Bool
lease_is_current none expected now = false
lease_is_current (some current) expected now =
    same_leader current expected && ltb now current.valid_until

-- The leader after the changes that a publication saw: a renewal moves the local deadline.
abbrev pub refreshed : Option ObservedLeaderLease → ObservedLeaderLease → ObservedLeaderLease
refreshed none leader = leader
refreshed (some current) leader = elim (same_leader current leader) [
  | true ↦ current
  | false ↦ leader
]
