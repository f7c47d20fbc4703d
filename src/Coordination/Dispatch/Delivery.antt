-- ===== src/Coordination/Dispatch/Delivery.antt =====
-- `prepare_window` and `ack_slice` of src/infrastructure/redis/mod.rs deliver each slice of a window.
use pulse.Prelude.{
  ℕ, ◌<◌, String, Bool, true, false, ◌≡◌, sym, refl, arith, eq_refl, eq_iff, none, some, Result, ok,
  err, ◌==◌, inl, is_empty, has, ◌↔◌,
}
use pulse.Domain.Scenario.{RepeatPolicy, once, every}
use pulse.Coordination.Types.{LeaderLease, DispatchSpec, DispatchWindow, ready}
use pulse.Coordination.Redis.{named, ack, text, number_or, Redis, RedisLaws, now_ms, hset_all}
use pulse.Coordination.Client.{up, invoke, duration_ms, fence_arg}
use pulse.Coordination.Dispatch.Store.{DueStateStore, key_for, missing_in, indexes}
use pulse.Coordination.Dispatch.Prepare.{
  check_spec, repeat_args, window_id, window_fields, PrepareReply, prepare_outcome, same_spec,
  resume_script, open_script, prepare_script, prepare_window,
}
use pulse.Coordination.Dispatch.Slices.{
  parse_missing_slices-missing_in, missing_in-none, has-missing_in,
}
use pulse.Coordination.Dispatch.Windows.{Policy, Active, Inactive}

repeat_args-Policy :
    (operation : String) (policy : RepeatPolicy) (kind : String) (ms : ℕ)
    → repeat_args operation policy ≡ ok (kind, ms)
    → Policy kind ms
unfolding duration_ms
repeat_args-Policy operation once kind ms h = ground arith
repeat_args-Policy operation (every d) kind ms h = ground arith

module _ {S : Type 0} (r : Redis S) (laws : RedisLaws r) where
  open laws use {hget_hset}

  -- The window that a script opens.
  opened-Active :
      (k : String) (spec : DispatchSpec) (kind : String) (ms at : ℕ) (s : S)
      → Inactive r laws k s
      → Policy kind ms
      → 0 < spec.total_slices
      → Active r laws k
          (window_id spec.contract_version spec.scenario_id at spec.total_slices)
          kind
          ms
          at
          spec.total_slices
          spec.plan_fingerprint
          (hset_all r k (window_fields spec kind ms at) s)
  opened-Active k spec kind ms at s h p l =
      let marks : (i : ℕ)
          → r.hget k (ack i) (hset_all r k (window_fields spec kind ms at) s) ≡ none =
        λ i. simp (hget_hset, eq_refl) (h.no_marks i) in
      let count =
        (missing_in-none r k (hset_all r k (window_fields spec kind ms at) s) 0 spec.total_slices
          marks).1 in
      record {
        id_is = simp (hget_hset, eq_refl);
        at_is = simp (hget_hset, eq_refl);
        total_is = simp (hget_hset, eq_refl);
        kind_is = simp (hget_hset, eq_refl);
        ms_is = simp (hget_hset, eq_refl);
        plan_is = simp (hget_hset, eq_refl);
        policy = p;
        count_is = rw count (simp (hget_hset, eq_refl));
        missing = rw count l;
        marks = λ i. inl (marks i);
      }

  -- The schedule of a scenario between two operations: no window and no acknowledgement, or one
  -- that is active.
  pub data Consistent (k : String) (s : S) : Type 0 where
    resting : Inactive r laws k s → Consistent k s
    running :
        (id kind : String) (ms at total : ℕ) (plan : String)
        → Active r laws k id kind ms at total plan s
        → Consistent k s

  -- The list of an active window holds the indexes in range that have no mark.
  has-missing_in-Active :
      (k id kind : String) (ms at total : ℕ) (plan : String) (s : S) (i : ℕ)
      → Active r laws k id kind ms at total plan s
      → (has i (missing_in r k s 0 total) ≡ true) ↔ ((i < total) × (r.hget k (ack i) s ≡ none))
  has-missing_in-Active k id kind ms at total plan s i a = (
    λ h. ground (arith, has-missing_in r k s 0 total i, a.marks i),
    λ h. ground (arith, has-missing_in r k s 0 total i),
  )

  -- What a caller that was handed the window `w` can rely on.
  pub record Prepared (k : String) (spec : DispatchSpec) (w : DispatchWindow) (s : S) : Type 0 where
    pub kind : String
    pub ms : ℕ
    pub active :
        Active r laws k w.window_id kind ms w.scheduled_at_unix_ms spec.total_slices
          spec.plan_fingerprint s
    pub lists :
        (i : ℕ)
        → (has i w.missing_slices ≡ true) ↔ ((i < spec.total_slices) × (r.hget k (ack i) s ≡ none))
    pub some_missing : is_empty w.missing_slices ≡ false
    pub run_is : w.run_id ≡ w.window_id
    pub scenario_is : w.scenario_id ≡ spec.scenario_id
    pub version_is : w.contract_version ≡ spec.contract_version
    pub total_is : w.total_slices ≡ spec.total_slices
    pub plan_is : w.plan_fingerprint ≡ spec.plan_fingerprint

  abbrev offers : Result String PrepareReply → Bool
  offers (err e) = false
  offers (ok reply) = reply.0 == 1

  -- What the script says of the window that it hands out.
  record Handed (k : String) (spec : DispatchSpec) (kind : String) (ms : ℕ)
      (after : S × Result String PrepareReply) : Type 0 where
    window : String
    at : ℕ
    reply_is : after.1 ≡ ok (1, window, at, missing_in r k after.0 0 spec.total_slices, 0, "")
    active : Active r laws k window kind ms at spec.total_slices spec.plan_fingerprint after.0

  resume_script-Handed :
      (k : String) (spec : DispatchSpec) (kind : String) (ms : ℕ) (s : S) (id kind' : String)
      (ms' at total : ℕ) (plan : String)
      → Active r laws k id kind' ms' at total plan s
      → offers (resume_script r k spec kind ms (text id) s).1 ≡ true
      → Handed k spec kind ms (resume_script r k spec kind ms (text id) s)
  unfolding resume_script same_spec
  resume_script-Handed k spec kind ms s id kind' ms' at total plan a h =
      let same_kind : kind' ≡ kind = ground (arith, a.kind_is, eq_iff kind' kind) in
      let same_ms : ms' ≡ ms = ground (arith, a.ms_is) in
      let same_total : total ≡ spec.total_slices = ground (arith, a.total_is) in
      let same_plan : plan ≡ spec.plan_fingerprint =
        ground (arith, a.plan_is, eq_iff plan spec.plan_fingerprint) in
      let unchanged : (resume_script r k spec kind ms (text id) s).0 ≡ s = ground arith in
      record {
        window = id;
        at = at;
        reply_is = ground (arith, a.at_is, unchanged);
        active = rw (unchanged, sym same_kind, sym same_ms, sym same_total, sym same_plan) a;
      }

  opened-Handed :
      (k : String) (spec : DispatchSpec) (kind : String) (ms at : ℕ) (s : S)
      → Inactive r laws k s
      → Policy kind ms
      → 0 < spec.total_slices
      → Handed k spec kind ms (
        hset_all r k (window_fields spec kind ms at) s,
        ok (
          1,
          window_id spec.contract_version spec.scenario_id at spec.total_slices,
          at,
          indexes 0 spec.total_slices,
          0,
          "",
        ),
      )
  opened-Handed k spec kind ms at s h p l =
      let marks : (i : ℕ)
          → r.hget k (ack i) (hset_all r k (window_fields spec kind ms at) s) ≡ none =
        λ i. simp (hget_hset, eq_refl) (h.no_marks i) in
      record {
        window = window_id spec.contract_version spec.scenario_id at spec.total_slices;
        at = at;
        reply_is =
            rw
              (missing_in-none r k (hset_all r k (window_fields spec kind ms at) s) 0
                spec.total_slices marks).0
              refl;
        active = opened-Active k spec kind ms at s h p l;
      }

  open_script-Handed :
      (k : String) (spec : DispatchSpec) (kind : String) (ms : ℕ) (s : S)
      → Inactive r laws k s
      → Policy kind ms
      → 0 < spec.total_slices
      → offers (open_script r k spec kind ms s).1 ≡ true
      → Handed k spec kind ms (open_script r k spec kind ms s)
  unfolding open_script
  open_script-Handed k spec kind ms s h p l offered =
      elim (number_or (now_ms r s) (r.hget k (named "next_at") s))
          as (λ o.
            number_or (now_ms r s) (r.hget k (named "next_at") s) ≡ o
            → Handed k spec kind ms (open_script r k spec kind ms s)) [
              | none ↦ λ e. absurd (ground (arith, e))
              | some at ↦ λ e.
                  let same : open_script r k spec kind ms s ≡ (
                    hset_all r k (window_fields spec kind ms at) s,
                    ok (
                      1,
                      window_id spec.contract_version spec.scenario_id at spec.total_slices,
                      at,
                      indexes 0 spec.total_slices,
                      0,
                      "",
                    ),
                  ) =
                    ground (arith, e) in
                  rw same (opened-Handed k spec kind ms at s h p l)
            ]
        refl

  prepare_script-Handed :
      (lock k owner : String) (fence : ℕ) (spec : DispatchSpec) (kind : String) (ms : ℕ) (s : S)
      → Consistent k s
      → Policy kind ms
      → 0 < spec.total_slices
      → offers (prepare_script r lock k owner fence spec kind ms s).1 ≡ true
      → Handed k spec kind ms (prepare_script r lock k owner fence spec kind ms s)
  unfolding prepare_script
  prepare_script-Handed lock k owner fence spec kind ms s (resting h) p l offered =
      let same : prepare_script r lock k owner fence spec kind ms s
          ≡ open_script r k spec kind ms s =
        ground (arith, h.no_window) in
      rw same (open_script-Handed k spec kind ms s h p l (rw same at offered))
  prepare_script-Handed lock k owner fence spec kind ms s (running id kind' ms' at total plan a) p l
        offered =
      let same : prepare_script r lock k owner fence spec kind ms s
          ≡ resume_script r k spec kind ms (text id) s =
        ground (arith, a.id_is) in
      rw same
        (resume_script-Handed k spec kind ms s id kind' ms' at total plan a (rw same at offered))

  -- A window that `prepare_window` hands out, of a schedule that is consistent: it is the active
  -- one, with the spec's own scenario, version, slices and plan, and it lists the indexes in range
  -- that have no mark in the schedule's hash and no others, of which there is one at least.
  pub prepare_ready :
      (store : DueStateStore) (spec : DispatchSpec) (leader : LeaderLease) (s s' : S)
      (w : DispatchWindow)
      → Consistent (key_for store spec.scenario_id) s
      → prepare_window r store up spec leader s ≡ (s', ok (ready w))
      → Prepared (key_for store spec.scenario_id) spec w s'
  unfolding prepare_window invoke check_spec prepare_outcome fence_arg
  prepare_ready store spec leader s s' w c h =
      elim (repeat_args "dispatch_prepare_window" spec.repeat)
          as (λ o.
            repeat_args "dispatch_prepare_window" spec.repeat ≡ o
            → Prepared (key_for store spec.scenario_id) spec w s') [
              | err e ↦ λ q. absurd (ground (arith, q))
              | ok (kind, ms) ↦ λ q.
                  let k = key_for store spec.scenario_id in
                  let after =
                    prepare_script r leader.lock_key k leader.owner_token leader.fencing_token spec
                      kind ms s in
                  let handed : Handed k spec kind ms after =
                    prepare_script-Handed leader.lock_key k leader.owner_token leader.fencing_token
                      spec kind ms s c (repeat_args-Policy _ spec.repeat kind ms q) (ground arith)
                      (ground (arith, q)) in
                  let parsed =
                    parse_missing_slices-missing_in r "dispatch_prepare_window" spec.total_slices k
                      after.0 in
                  let state_is : s' ≡ after.0 = ground (arith, q) in
                  let window_is : w.window_id ≡ handed.window =
                    ground (arith, q, handed.reply_is, parsed) in
                  let at_is : w.scheduled_at_unix_ms ≡ handed.at =
                    ground (arith, q, handed.reply_is, parsed) in
                  let listed : w.missing_slices ≡ missing_in r k after.0 0 spec.total_slices =
                    ground (arith, q, handed.reply_is, parsed) in
                  record {
                    kind = kind;
                    ms = ms;
                    active = rw (state_is, window_is, at_is) handed.active;
                    lists = λ i.
                        rw (state_is, listed)
                          (has-missing_in-Active k handed.window kind ms handed.at spec.total_slices
                            spec.plan_fingerprint after.0 i handed.active);
                    some_missing = ground (arith, q, handed.reply_is, parsed);
                    run_is = ground (arith, q, handed.reply_is, parsed);
                    scenario_is = ground (arith, q, handed.reply_is, parsed);
                    version_is = ground (arith, q, handed.reply_is, parsed);
                    total_is = ground (arith, q, handed.reply_is, parsed);
                    plan_is = ground (arith, q, handed.reply_is, parsed);
                  }
            ]
        refl
