-- ===== src/Scheduler/Announced.antt =====
-- What `leader_election_loop` of src/application/service.rs announces to the scheduler.
use pulse.Prelude.{
  ℕ, ◌+◌, ◌-◌, ◌<◌, ◌≤◌, ◌≡◌, List, [], ◌∷◌, Option, none, some, Duration, Result, ok,
}
use pulse.Coordination.Types.{CoordinationError, LeaderLease, LeadershipOutcome, acquired, renewed}
use pulse.Scheduler.Ports.{ObservedLeaderLease}
use pulse.Scheduler.Election.{Event, granted, sent, relinquish_issued, Ports}

-- The reply grants the lease.
pub data Grants (lease : LeaderLease) : Result CoordinationError LeadershipOutcome → Type 0 where
  by_acquisition : Grants lease (ok (acquired lease))
  by_renewal : Grants lease (ok (renewed lease))

module _ {W : Type 0} (ports : Ports W) (renew_interval : Duration) where
  -- The end of the local budget of a lease, counted from the world that its request was made in.
  abbrev pub budget_end : W → LeaderLease → ℕ
  budget_end w lease = ports.instant w + (lease.ttl - renew_interval)

  -- Every lease that a request grants is announced right after the reply, with the end of its
  -- budget, if that is not reached; else that nobody leads is announced. No other leader is, and a
  -- lease is relinquished only right after the scheduler was told that nobody leads.
  pub data Sound : List Event → Type 0 where
    silent : Sound []
    lead :
        {log : List Event} (current : Option LeaderLease) (w : W) (observed : ObservedLeaderLease)
        → Grants observed.lease (ports.acquire_or_renew current w).1
        → observed.valid_until ≡ budget_end w observed.lease
        → ports.instant (ports.acquire_or_renew current w).0 < observed.valid_until
        → Sound log
        → Sound (
            sent (some observed) (ports.instant (ports.acquire_or_renew current w).0)
            ∷ granted observed.lease
            ∷ log)
    spent :
        {log : List Event} (current : Option LeaderLease) (w : W) (lease : LeaderLease)
        → Grants lease (ports.acquire_or_renew current w).1
        → budget_end w lease ≤ ports.instant (ports.acquire_or_renew current w).0
        → Sound log
        → Sound
            (sent none (ports.instant (ports.acquire_or_renew current w).0) ∷ granted lease ∷ log)
    follow : {log : List Event} (now : ℕ) → Sound log → Sound (sent none now ∷ log)
    give_back :
        {log : List Event} (lease : LeaderLease) (now : ℕ)
        → Sound log
        → Sound (relinquish_issued lease ∷ sent none now ∷ log)
