-- ===== src/Coordination/Dispatch/Schedule.antt =====
-- The schedule that `RedisDueStateStore` of src/infrastructure/redis/mod.rs keeps after a window.
use pulse.Prelude.{
  ℕ, suc, ◌+◌, ◌-◌, ◌≤◌, ◌<◌, String, true, false, ◌≡◌, refl, arith, eq_refl, eq_iff, none, Result,
  ok, str_eq, ltb, if◌then◌else◌, from_millis, inl, inr, is_empty, zero,
}
use pulse.Coordination.Types.{
  CoordinationError, LeaderLease, DispatchSpec, DispatchWindow, DispatchOutcome, ready, not_due,
  finished, complete,
}
use pulse.Coordination.Redis.{ack, Redis, RedisLaws, now_ms, survives, hset_all}
use pulse.Coordination.Client.{up, invoke, fence_arg, i64_max, max_dispatch_slices}
use pulse.Coordination.Dispatch.Store.{
  DueStateStore, key_for, leader_is_current, acked_in, indexes, parse_missing_slices,
}
use pulse.Coordination.Dispatch.Prepare.{
  check_spec, repeat_args, window_id, window_fields, prepare_outcome, open_script, prepare_script,
  prepare_window,
}
use pulse.Coordination.Dispatch.Ack.{ack_outcome, ack_script, ack_slice}
use pulse.Coordination.Dispatch.Slices.{parse_missing_slices-missing_in, missing_in-none}
use pulse.Coordination.Dispatch.Windows.{Policy, Active, Inactive, Completed}
use pulse.Coordination.Dispatch.Progress.{ack_last}

-- The window of a spec that is scheduled at this time, with all of its slices missing.
abbrev pub window_at : DispatchSpec → ℕ → DispatchWindow
window_at spec at = record {
  scenario_id = spec.scenario_id;
  window_id = window_id spec.contract_version spec.scenario_id at spec.total_slices;
  run_id = window_id spec.contract_version spec.scenario_id at spec.total_slices;
  scheduled_at_unix_ms = at;
  contract_version = spec.contract_version;
  total_slices = spec.total_slices;
  plan_fingerprint = spec.plan_fingerprint;
  missing_slices = indexes 0 spec.total_slices;
}

indexes_given : (n : ℕ) → 0 < n → is_empty (indexes 0 n) ≡ false
indexes_given zero p = absurd (omega (arith, p))
indexes_given (suc n) p = refl

spec_slices :
    (operation : String) (spec : DispatchSpec)
    → check_spec operation spec ≡ ok tt
    → 0 < spec.total_slices
unfolding check_spec
spec_slices operation spec h = ground arith

module _ {S : Type 0} (r : Redis S) (laws : RedisLaws r) where
  open laws use {hget_elapse}

  Completed-elapse :
      (k id kind : String) (ms at d : ℕ) (s : S)
      → Completed r laws k id kind ms at s
      → survives d (r.pttl k s) ≡ true
      → Completed r laws k id kind ms at (r.elapse d s)
  Completed-elapse k id kind ms at d s c kept = record {
    inactive = record {
      no_window = simp (hget_elapse, kept) c.inactive.no_window;
      no_marks = λ i. simp (hget_elapse, kept) (c.inactive.no_marks i);
    };
    last_is = simp (hget_elapse, kept) c.last_is;
    done = λ e. simp (hget_elapse, kept) (c.done e);
    next = λ e. simp (hget_elapse, kept) (c.next e);
  }

  -- An acknowledgement of the window that was completed last.
  ack_slice-Completed :
      (store : DueStateStore) (w : DispatchWindow) (leader : LeaderLease) (kind : String)
      (ms at j : ℕ) (s : S)
      → Completed r laws (key_for store w.scenario_id) w.window_id kind ms at s
      → leader_is_current r leader.lock_key leader.owner_token leader.fencing_token s ≡ true
      → leader.fencing_token ≤ i64_max
      → j < w.total_slices
      → w.total_slices ≤ max_dispatch_slices
      → ack_slice r store up w j leader s ≡ (s, ok complete)
  unfolding ack_slice ack_script ack_outcome invoke fence_arg
  ack_slice-Completed store w leader kind ms at j s c current f l m =
      ground (arith, current, f, l, m, c.inactive.no_window, c.last_is, eq_refl w.window_id)

  parse-indexes :
      (k : String) (total : ℕ) (s : S)
      → Inactive r laws k s
      → parse_missing_slices "dispatch_prepare_window" (indexes 0 total) total
        ≡ ok (indexes 0 total)
  parse-indexes k total s h =
      rw (missing_in-none r k s 0 total h.no_marks).0 at
        (parse_missing_slices-missing_in r "dispatch_prepare_window" total k s)

  -- The next preparation, when the window before it was scheduled at `at`.
  abbrev pub next_window :
      DueStateStore
      → DispatchSpec
      → String
      → ℕ
      → ℕ
      → S
      → S × Result CoordinationError DispatchOutcome
  next_window store spec kind ms at s =
      let due = at + ms in
      if str_eq kind "once"
      then (s, ok finished)
      else if ltb (now_ms r s) due
      then (s, ok (not_due (from_millis (due - now_ms r s))))
      else (
        hset_all r (key_for store spec.scenario_id) (window_fields spec kind ms due) s,
        ok (ready (window_at spec due)),
      )

  prepare_window-Completed :
      (store : DueStateStore) (spec : DispatchSpec) (leader : LeaderLease) (id kind : String)
      (ms at : ℕ) (s : S)
      → Completed r laws (key_for store spec.scenario_id) id kind ms at s
      → Policy kind ms
      → leader_is_current r leader.lock_key leader.owner_token leader.fencing_token s ≡ true
      → leader.fencing_token ≤ i64_max
      → check_spec "dispatch_prepare_window" spec ≡ ok tt
      → repeat_args "dispatch_prepare_window" spec.repeat ≡ ok (kind, ms)
      → prepare_window r store up spec leader s ≡ next_window store spec kind ms at s
  unfolding prepare_window prepare_script open_script prepare_outcome invoke fence_arg
  prepare_window-Completed store spec leader id kind ms at s c (inl once) current f ok_spec args =
      ground
        (arith, current, f, ok_spec, args, c.inactive.no_window, c.done once.0, eq_iff kind "once")
  prepare_window-Completed store spec leader id kind ms at s c (inr every) current f ok_spec args =
      let other : str_eq kind "once" ≡ false = rw every.0 refl in
      ground (
        arith,
        current,
        f,
        ok_spec,
        args,
        c.inactive.no_window,
        c.next every.0,
        other,
        parse-indexes (key_for store spec.scenario_id) spec.total_slices s c.inactive,
        indexes_given spec.total_slices (spec_slices "dispatch_prepare_window" spec ok_spec),
      )

  module _ (store : DueStateStore) (w : DispatchWindow) (leader : LeaderLease) (kind : String)
      (ms at j : ℕ) (s : S)
      (a : Active r laws
        (key_for store w.scenario_id)
        w.window_id
        kind
        ms
        at
        w.total_slices
        w.plan_fingerprint
        s)
      (current : leader_is_current r leader.lock_key leader.owner_token leader.fencing_token s
        ≡ true)
      (f : leader.fencing_token ≤ i64_max) (l : j < w.total_slices)
      (m : w.total_slices ≤ max_dispatch_slices)
      (new : r.hget (key_for store w.scenario_id) (ack j) s ≡ none)
      (last : suc (acked_in r (key_for store w.scenario_id) s 0 w.total_slices) ≡ w.total_slices)
      (d : ℕ)
      (kept : survives d
          (r.pttl (key_for store w.scenario_id) (ack_slice r store up w j leader s).0)
        ≡ true)
      (later : LeaderLease)
      (leads : leader_is_current r later.lock_key later.owner_token later.fencing_token
          (r.elapse d (ack_slice r store up w j leader s).0)
        ≡ true)
      (g : later.fencing_token ≤ i64_max) where
    completed :
        Completed r laws
          (key_for store w.scenario_id)
          w.window_id
          kind
          ms
          at
          (r.elapse d (ack_slice r store up w j leader s).0)
    completed =
        Completed-elapse _ _ _ _ _ d _
          (ack_last r laws store w leader kind ms at j s a current f l m new last).1 kept

    -- The last missing acknowledgement of the active window, by the current leader; then any time,
    -- after which the schedule's hash is still there; then an acknowledgement of any slice of that
    -- window by whoever leads by then: it is answered as complete, and changes nothing. The fences
    -- and the number of slices are in range.
    pub ack_after_last :
        (i : ℕ)
        → i < w.total_slices
        → ack_slice r store up w i later (r.elapse d (ack_slice r store up w j leader s).0)
          ≡ (r.elapse d (ack_slice r store up w j leader s).0, ok complete)
    ack_after_last i p =
        ack_slice-Completed store w later kind ms at i
          (r.elapse d (ack_slice r store up w j leader s).0) completed leads g p m

    -- The last missing acknowledgement of the active window, by the current leader; then any time,
    -- after which the schedule's hash is still there; then a preparation of the same scenario with
    -- the same policy by whoever leads by then. A scenario that runs once is finished. For one that
    -- repeats, the next window is due exactly one interval after the time that the completed one was
    -- scheduled at, however late it was prepared or completed: before, the wait until then is
    -- answered, and nothing changes; from then on a window of that time opens, with all of its
    -- slices missing. The spec is valid, and the fences and the number of slices are in range.
    pub prepare_after_last :
        (spec : DispatchSpec)
        → spec.scenario_id ≡ w.scenario_id
        → check_spec "dispatch_prepare_window" spec ≡ ok tt
        → repeat_args "dispatch_prepare_window" spec.repeat ≡ ok (kind, ms)
        → prepare_window r store up spec later (r.elapse d (ack_slice r store up w j leader s).0)
          ≡ next_window store spec kind ms at (r.elapse d (ack_slice r store up w j leader s).0)
    prepare_after_last spec same ok_spec args =
        prepare_window-Completed store spec later w.window_id kind ms at
          (r.elapse d (ack_slice r store up w j leader s).0) (rw same completed) a.policy leads g
          ok_spec args
