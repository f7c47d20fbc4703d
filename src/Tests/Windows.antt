-- ===== src/Tests/Windows.antt =====
-- A dispatch window of two slices on the server of the tests.
use pulse.Prelude.{
  ℕ, String, List, [], ◌∷◌, ◌≡◌, refl, some, lookup, str_eq, ◌==◌, if◌then◌else◌, is_blank, true,
  false, ok, err, arith, suc, none, Option, inl, inr,
}
use pulse.Domain.Scenario.{every}
use pulse.Coordination.Types.{DispatchSpec, DispatchWindow, ready, pending, complete, stale_owner}
use pulse.Coordination.Redis.{survives, hset_all, named, ack, Value, text, num, persistent, left}
use pulse.Coordination.Client.{up, invoke, duration_ms, fence_arg}
use pulse.Coordination.Dispatch.Store.{DueStateStore, key_for, leader_is_current, acked_in}
use pulse.Coordination.Dispatch.Prepare.{
  check_spec, window_fields, prepare_window, prepare_script, prepare_outcome, window_id,
}
use pulse.Coordination.Dispatch.Ack.{ack_slice}
use pulse.Coordination.Dispatch.Windows.{Active, Completed}
use pulse.Coordination.Dispatch.Settled.{Advanced}
use pulse.Coordination.Dispatch.Delivery.{Consistent, resting, Prepared, prepare_ready}
use pulse.Coordination.Dispatch.Authority.{former_leader_cannot_dispatch}
use pulse.Coordination.Dispatch.Progress.{ack_next, ack_last}
use pulse.Coordination.Dispatch.Schedule.{window_at, ack_after_last, prepare_after_last}
use pulse.Tests.Server.{Server, server, server_laws, empty_server, texts_differ}
use pulse.Tests.Leadership.{elector, lease, former, led, rivals, first_acquisition, rivalry}

abbrev store : DueStateStore
store = record {
  schedule_prefix = "schedule";
  operation_timeout = 5000000000;
  aggregation_registration = none;
}

abbrev spec : DispatchSpec
spec = record {
  scenario_id = "checkout";
  contract_version = 2;
  total_slices = 2;
  repeat = every 60000000000;
  plan_fingerprint = "sha256:plan";
}

abbrev window : DispatchWindow
window = record {
  scenario_id = "checkout";
  window_id = "v2:s8:checkout:w1700000000123:n2";
  run_id = "v2:s8:checkout:w1700000000123:n2";
  scheduled_at_unix_ms = 1700000000123;
  contract_version = 2;
  total_slices = 2;
  plan_fingerprint = "sha256:plan";
  missing_slices = 0 ∷ 1 ∷ [];
}

abbrev repeats : String
repeats = "every"

abbrev key : String
key = "schedule:checkout"

prepared : Server
prepared = (prepare_window server store up spec lease led).0

preparation : prepare_window server store up spec lease led ≡ (prepared, ok (ready window))
unfolding prepared prepare_window check_spec pulse.Prelude.is_blank duration_ms fence_arg invoke
    prepare_script leader_is_current led pulse.Coordination.Leader.acquire
    pulse.Coordination.Leader.acquire_script prepare_outcome
    pulse.Coordination.Dispatch.Store.parse_missing_slices window_id pulse.Prelude.decimal
preparation = refl

led_rests : Consistent server server_laws key led
unfolding led pulse.Coordination.Leader.acquire duration_ms invoke
    pulse.Coordination.Leader.acquire_script
led_rests = resting (record { no_window = refl; no_marks = λ i. refl })

prepare_ready_example : Prepared server server_laws key spec window prepared
prepare_ready_example =
    prepare_ready server server_laws store spec lease led prepared window led_rests preparation

-- A server led by the elector, with these fields and marks in the schedule's hash.
abbrev scheduled : List (String × Value) → (ℕ → Option Value) → Server
unfolding lookup
scheduled table marks = record {
  clock = 1700000001123;
  fields = λ k f.
      if str_eq k "leader"
      then elim f [
        | named n ↦ lookup n (("owner", text "node-a:1") ∷ ("fence", num 1) ∷ [])
        | ack i ↦ none
      ]
      else elim f [ named n ↦ lookup n table | ack i ↦ marks i ];
  expiry = λ k. if str_eq k "leader" then left 4000 else persistent;
  counts = λ k. 1;
}

abbrev active_table : ℕ → ℕ → List (String × Value)
active_table count ms =
    ("active_window_id", text "v2:s8:checkout:w1700000000123:n2")
    ∷ ("active_scheduled_at", num 1700000000123)
    ∷ ("active_contract_version", num 2)
    ∷ ("active_total_slices", num 2)
    ∷ ("active_repeat_kind", text "every")
    ∷ ("active_repeat_ms", num ms)
    ∷ ("active_plan_fingerprint", text "sha256:plan")
    ∷ ("active_ack_count", num count)
    ∷ []

-- No slice is acknowledged; the second one is.
unfoldable fresh : Server
unfolding scheduled
fresh = scheduled (active_table 0 60000) (λ i. none)

unfoldable half : Server
unfolding scheduled
half = scheduled (active_table 1 60000) (λ i. if 1 == i then some (num 1) else none)

fresh-Active :
    Active server server_laws key window.window_id "every" 60000 1700000000123 2 "sha256:plan" fresh
unfolding fresh scheduled lookup acked_in
fresh-Active = record {
  id_is = refl;
  at_is = refl;
  total_is = refl;
  kind_is = refl;
  ms_is = refl;
  plan_is = refl;
  policy = inr (refl, omega arith);
  count_is = refl;
  missing = omega arith;
  marks = λ i. inl refl;
}

half-Active :
    Active server server_laws key window.window_id "every" 60000 1700000000123 2 "sha256:plan" half
unfolding half scheduled lookup acked_in
half-Active = record {
  id_is = refl;
  at_is = refl;
  total_is = refl;
  kind_is = refl;
  ms_is = refl;
  plan_is = refl;
  policy = inr (refl, omega arith);
  count_is = refl;
  missing = omega arith;
  marks = λ i. ground arith;
}

fresh_led : leader_is_current server "leader" "node-a:1" 1 fresh ≡ true
unfolding fresh scheduled lookup leader_is_current
fresh_led = refl

half_led : leader_is_current server "leader" "node-a:1" 1 half ≡ true
unfolding half scheduled lookup leader_is_current
half_led = refl

ack_next_example :
    ((ack_slice server store up window 1 lease fresh).1 ≡ ok (pending 1))
    × Advanced server server_laws key window.window_id "every" 60000 1700000000123 2 "sha256:plan" 1
        fresh
        (ack_slice server store up window 1 lease fresh).0
unfolding fresh scheduled lookup acked_in
ack_next_example =
    ack_next server server_laws store window lease "every" 60000 1700000000123 1 fresh fresh-Active
      fresh_led (omega arith) (omega arith) (omega arith) refl (omega arith)

ack_last_example :
    ((ack_slice server store up window 0 lease half).1 ≡ ok complete)
    × Completed server server_laws key window.window_id "every" 60000 1700000000123
        (ack_slice server store up window 0 lease half).0
unfolding half scheduled lookup acked_in
ack_last_example =
    ack_last server server_laws store window lease "every" 60000 1700000000123 0 half half-Active
      half_led (omega arith) (omega arith) (omega arith) refl refl

-- One and a half seconds between two windows, and the last acknowledgement two seconds ago.
abbrev frequent : DispatchSpec
frequent = record spec { repeat = every 1500000000 }

unfoldable frequent_half : Server
unfolding scheduled
frequent_half = scheduled (active_table 1 1500) (λ i. if 1 == i then some (num 1) else none)

frequent_half-Active :
    Active server server_laws key window.window_id "every" 1500 1700000000123 2 "sha256:plan"
      frequent_half
unfolding frequent_half scheduled lookup acked_in
frequent_half-Active = record {
  id_is = refl;
  at_is = refl;
  total_is = refl;
  kind_is = refl;
  ms_is = refl;
  plan_is = refl;
  policy = inr (refl, omega arith);
  count_is = refl;
  missing = omega arith;
  marks = λ i. ground arith;
}

unfoldable whole : Server
whole = server.elapse 2000 (ack_slice server store up window 0 lease frequent_half).0

whole_kept :
    survives 2000 (server.pttl key (ack_slice server store up window 0 lease frequent_half).0)
    ≡ true
unfolding frequent_half scheduled lookup leader_is_current ack_slice fence_arg invoke
    pulse.Coordination.Dispatch.Ack.ack_script pulse.Coordination.Dispatch.Ack.record_ack
    pulse.Coordination.Dispatch.Ack.complete_window pulse.Coordination.Dispatch.Ack.schedule_next
whole_kept = refl

whole_led : leader_is_current server "leader" "node-a:1" 1 whole ≡ true
unfolding whole frequent_half scheduled lookup leader_is_current ack_slice fence_arg invoke
    pulse.Coordination.Dispatch.Ack.ack_script pulse.Coordination.Dispatch.Ack.record_ack
    pulse.Coordination.Dispatch.Ack.complete_window pulse.Coordination.Dispatch.Ack.schedule_next
whole_led = refl

ack_after_last_example : ack_slice server store up window 1 lease whole ≡ (whole, ok complete)
unfolding whole frequent_half scheduled lookup acked_in leader_is_current
ack_after_last_example =
    ack_after_last server server_laws store window lease "every" 1500 1700000000123 0 frequent_half
      frequent_half-Active refl (omega arith) (omega arith) (omega arith) refl refl 2000 whole_kept
      lease whole_led (omega arith) 1 (omega arith)

prepare_after_last_example : prepare_window server store up frequent lease whole ≡ (
  hset_all server key (window_fields frequent "every" 1500 1700000001623) whole,
  ok (ready (window_at frequent 1700000001623)),
)
unfolding whole frequent_half scheduled lookup acked_in leader_is_current check_spec is_blank
    duration_ms ack_slice fence_arg invoke pulse.Coordination.Dispatch.Ack.ack_script
    pulse.Coordination.Dispatch.Ack.record_ack pulse.Coordination.Dispatch.Ack.complete_window
    pulse.Coordination.Dispatch.Ack.schedule_next
prepare_after_last_example =
    prepare_after_last server server_laws store window lease "every" 1500 1700000000123 0
      frequent_half frequent_half-Active refl (omega arith) (omega arith) (omega arith) refl refl
      2000 whole_kept lease whole_led (omega arith) frequent refl refl refl

former_leader_cannot_dispatch_example :
    (prepare_window server store up spec former rivals
      ≡ (rivals, err (stale_owner "dispatch_prepare_window")))
    × (ack_slice server store up window 1 former rivals
        ≡ (rivals, err (stale_owner "dispatch_ack_slice")))
unfolding check_spec pulse.Prelude.is_blank duration_ms
former_leader_cannot_dispatch_example =
    former_leader_cannot_dispatch server server_laws elector "node-a:1" empty_server led rivals
      lease 2000 store spec window 1 former ("every", 60000) first_acquisition rivalry (omega arith)
      refl (texts_differ "node-b:0" "node-a:1" refl) (omega arith) refl refl (omega arith)
      (omega arith)
