-- ===== src/Coordination/Dispatch/Authority.antt =====
-- Only the current leader dispatches through `RedisDueStateStore` of
-- src/infrastructure/redis/mod.rs.
use pulse.Prelude.{ℕ, ◌≤◌, ◌<◌, String, false, ◌≡◌, ◌≢◌, arith, ok, err, as_millis}
use pulse.Coordination.Types.{stale_owner, LeaderLease, acquired, DispatchSpec, DispatchWindow}
use pulse.Coordination.Redis.{Redis, RedisLaws}
use pulse.Coordination.Client.{up, invoke, fence_arg, i64_max, max_dispatch_slices}
use pulse.Coordination.Leader.{Elector, acquire}
use pulse.Coordination.Leader.Records.{Won, acquire-Won}
use pulse.Coordination.Leader.Exclusion.{Activity, Leads-Activity, not_owned}
use pulse.Coordination.Dispatch.Store.{DueStateStore, leader_is_current}
use pulse.Coordination.Dispatch.Prepare.{
  check_spec, repeat_args, prepare_outcome, prepare_script, prepare_window,
}
use pulse.Coordination.Dispatch.Ack.{ack_outcome, ack_script, ack_slice}

module _ {S : Type 0} (r : Redis S) (laws : RedisLaws r) where
  -- Whoever is not the leader dispatches nothing: with a lease whose record has run out, has no
  -- expiry, or names another owner or fence, both operations are refused as stale and change
  -- nothing. Their arguments are ones that they accept.
  pub not_leader_refused :
      (store : DueStateStore) (spec : DispatchSpec) (w : DispatchWindow) (j : ℕ)
      (leader : LeaderLease) (args : String × ℕ) (s : S)
      → leader_is_current r leader.lock_key leader.owner_token leader.fencing_token s ≡ false
      → leader.fencing_token ≤ i64_max
      → check_spec "dispatch_prepare_window" spec ≡ ok tt
      → repeat_args "dispatch_prepare_window" spec.repeat ≡ ok args
      → j < w.total_slices
      → w.total_slices ≤ max_dispatch_slices
      → (prepare_window r store up spec leader s ≡ (s, err (stale_owner "dispatch_prepare_window")))
        × (ack_slice r store up w j leader s ≡ (s, err (stale_owner "dispatch_ack_slice")))
  unfolding prepare_window prepare_script prepare_outcome ack_slice ack_script ack_outcome invoke
      fence_arg
  not_leader_refused store spec w j leader args s stale f c p l m =
      (ground (arith, stale, f, c, p), ground (arith, stale, f, l, m))

  -- After an acquisition, whatever other electors of the lock do with leases of other tokens and
  -- over whatever network, and as long as less than the lease's time has passed in all: with a
  -- lease of the lock that has another token, preparing a window and acknowledging a slice are
  -- both refused as stale and change nothing. Their arguments are ones that they accept.
  pub former_leader_cannot_dispatch :
      (e : Elector) (owner : String) (s s' s'' : S) (lease : LeaderLease) (d : ℕ)
      (store : DueStateStore) (spec : DispatchSpec) (w : DispatchWindow) (j : ℕ)
      (former : LeaderLease) (args : String × ℕ)
      → acquire r e owner up s ≡ (s', ok (acquired lease))
      → Activity r laws e.lock_key e.fence_key (λ o. o ≢ owner) d s' s''
      → d < as_millis e.lock_ttl
      → former.lock_key ≡ e.lock_key
      → former.owner_token ≢ owner
      → former.fencing_token ≤ i64_max
      → check_spec "dispatch_prepare_window" spec ≡ ok tt
      → repeat_args "dispatch_prepare_window" spec.repeat ≡ ok args
      → j < w.total_slices
      → w.total_slices ≤ max_dispatch_slices
      → (prepare_window r store up spec former s''
          ≡ (s'', err (stale_owner "dispatch_prepare_window")))
        × (ack_slice r store up w j former s'' ≡ (s'', err (stale_owner "dispatch_ack_slice")))
  unfolding leader_is_current
  former_leader_cannot_dispatch e owner s s' s'' lease d store spec w j former args h a l same ne f
        c p lt m =
      let won : Won r laws e owner lease s s' =
        rw h at (acquire-Won r laws e owner s lease (rw h)) in
      let led = Leads-Activity r laws _ _ _ _ _ _ d s' s'' won.leads a l in
      let no = not_owned r laws _ _ _ _ _ s'' led former.owner_token former.fencing_token ne in
      not_leader_refused store spec w j former args s'' (ground (arith, same, no)) f c p lt m
