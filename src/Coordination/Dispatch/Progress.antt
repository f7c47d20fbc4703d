-- ===== src/Coordination/Dispatch/Progress.antt =====
-- What `ack_slice` of src/infrastructure/redis/mod.rs does to a window.
use pulse.Prelude.{
  ℕ, suc, ◌-◌, ◌≤◌, ◌<◌, String, true, false, ◌≡◌, refl, arith, eq_refl, eq_iff, none, some, ok,
  err, str_eq,
}
use pulse.Coordination.Types.{unavailable, LeaderLease, DispatchWindow, pending, complete}
use pulse.Coordination.Redis.{ack, text, num, Redis, RedisLaws}
use pulse.Coordination.Client.{up, invoke, fence_arg, i64_max, max_dispatch_slices}
use pulse.Coordination.Dispatch.Store.{DueStateStore, key_for, leader_is_current, acked_in}
use pulse.Coordination.Dispatch.Ack.{
  ack_outcome, settle_ack, checked_ack, active_ack, ack_script, ack_slice,
}
use pulse.Coordination.Dispatch.Windows.{Active, Completed}
use pulse.Coordination.Dispatch.Settled.{
  Advanced, settle_ack-again, settle_ack-next, settle_ack-last,
}

module _ {S : Type 0} (r : Redis S) (laws : RedisLaws r) where
  every-not_once : (kind : String) → kind ≡ "every" → str_eq kind "once" ≡ false
  every-not_once kind e = rw e refl

  -- The script on the window that is active goes to its last part.
  ack_script-Active :
      (lock k owner : String) (fence : ℕ) (w : DispatchWindow) (kind : String) (ms at j : ℕ) (s : S)
      → Active r laws k w.window_id kind ms at w.total_slices w.plan_fingerprint s
      → leader_is_current r lock owner fence s ≡ true
      → j < w.total_slices
      → ack_script r lock k owner fence w j s
        ≡ settle_ack r k (text w.window_id) (some (text kind)) at ms w.total_slices j s
  unfolding ack_script active_ack checked_ack
  ack_script-Active lock k owner fence w kind ms at j s a current l = ground (
    arith,
    current,
    eq_refl w.window_id,
    eq_refl w.plan_fingerprint,
    a.id_is,
    a.at_is,
    a.total_is,
    a.kind_is,
    a.ms_is,
    a.plan_is,
    a.count_is,
    a.missing,
    a.policy,
    eq_iff kind "once",
    eq_iff kind "every",
    every-not_once kind,
    l,
  )

  module _ (store : DueStateStore) (w : DispatchWindow) (leader : LeaderLease) (kind : String)
      (ms at j : ℕ) (s : S)
      (a : Active r laws
        (key_for store w.scenario_id)
        w.window_id
        kind
        ms
        at
        w.total_slices
        w.plan_fingerprint
        s)
      (current : leader_is_current r leader.lock_key leader.owner_token leader.fencing_token s
        ≡ true)
      (f : leader.fencing_token ≤ i64_max) (l : j < w.total_slices)
      (m : w.total_slices ≤ max_dispatch_slices) where
    ack_slice-Active : ack_slice r store up w j leader s ≡ (
        let after =
          settle_ack r
            (key_for store w.scenario_id)
            (text w.window_id)
            (some (text kind))
            at
            ms
            w.total_slices
            j
            s in
        (
          after.0,
          elim after.1 [
            | ok reply ↦ ack_outcome reply
            | err e ↦ err (unavailable "dispatch_ack_slice" e)
          ],
        ))
    unfolding ack_slice invoke fence_arg
    ack_slice-Active = ground (
      arith,
      ack_script-Active leader.lock_key (key_for store w.scenario_id) leader.owner_token
          leader.fencing_token w kind ms at j s a current l,
      f,
      l,
      m,
    )

    -- When the current leader acknowledges a slice of the active window a second time, it changes
    -- nothing, and tells how many slices are left. The fence and the number of slices are in
    -- range.
    pub ack_again :
        r.hget (key_for store w.scenario_id) (ack j) s ≡ some (num 1)
        → ack_slice r store up w j leader s ≡ (
          s,
          ok (
              pending
                (w.total_slices - acked_in r (key_for store w.scenario_id) s 0 w.total_slices)),
        )
    unfolding ack_outcome
    ack_again h = ground (arith, ack_slice-Active, settle_ack-again r laws _ _ _ _ _ _ _ s j a h, m)

    -- A first acknowledgement, by the current leader, of a slice of the active window that leaves
    -- others missing is counted: the window stays active, the one slice is marked and no other,
    -- and the reply is the number of slices left. The fence and the number of slices are in
    -- range.
    pub ack_next :
        r.hget (key_for store w.scenario_id) (ack j) s ≡ none
        → suc (acked_in r (key_for store w.scenario_id) s 0 w.total_slices) < w.total_slices
        → ((ack_slice r store up w j leader s).1
            ≡ ok (
                pending (
                  w.total_slices
                  - suc (acked_in r (key_for store w.scenario_id) s 0 w.total_slices))))
          × Advanced r laws
              (key_for store w.scenario_id)
              w.window_id
              kind
              ms
              at
              w.total_slices
              w.plan_fingerprint
              j
              s
              (ack_slice r store up w j leader s).0
    unfolding ack_outcome
    ack_next h more =
        let after = settle_ack-next r laws _ _ _ _ _ _ _ s j a l h more in
        rw ack_slice-Active (ground (arith, after.0, m), after.1)

    -- The last missing acknowledgement of the active window, by the current leader, completes it:
    -- it is no longer active, no mark is left, it is the last one completed, and the next is
    -- scheduled by its policy. The fence and the number of slices are in range.
    pub ack_last :
        r.hget (key_for store w.scenario_id) (ack j) s ≡ none
        → suc (acked_in r (key_for store w.scenario_id) s 0 w.total_slices) ≡ w.total_slices
        → ((ack_slice r store up w j leader s).1 ≡ ok complete)
          × Completed r laws
              (key_for store w.scenario_id)
              w.window_id
              kind
              ms
              at
              (ack_slice r store up w j leader s).0
    unfolding ack_outcome
    ack_last h last =
        let after = settle_ack-last r laws _ _ _ _ _ _ _ s j a l h last in
        rw ack_slice-Active (ground (arith, after.0), after.1)
