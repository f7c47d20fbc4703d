-- ===== src/Worker/Loop.antt =====
-- `worker_loop` of src/application/service.rs. The records are those that the receiver hands out, in
-- order; the loop ends with the last of them, as it does where the channel is closed.
use pulse.Prelude.{
  ℕ, ◌-◌, String, List, [], ◌∷◌, false, if◌then◌else◌, leb, Option, none, some, Result, ok, err,
}
use pulse.Planning.Slices.{PlanOps}
use pulse.Worker.Types.{JobDisposition, NodeRuntimeConfig, ScenarioExecutionPlan, JobRecord}
use pulse.Worker.Ports.{
  commit_issued, Ports, Run, Outcome, done, halted, dropped, lease_gone, panicked, State, ◌>>=◌,
  return, call, note,
}
use pulse.Worker.Process.{process_until_terminal}

module _ {R Step W : Type 0} (ops : PlanOps R Step) (config : NodeRuntimeConfig R)
    (ports : Ports R Step W) (plans : List (String × ScenarioExecutionPlan R Step)) where
  -- A future that was dropped, by its timeout or with the node's drain deadline, ends the loop with
  -- the record uncommitted.
  abbrev pub unless_dropped :
      {A : Type 0} → State R W × Outcome (Option A) → State R W × Outcome (Option A)
  unless_dropped (s, done a) = (s, done a)
  unless_dropped (s, halted dropped) = (s, done none)
  unless_dropped (s, halted lease_gone) = (s, done none)
  unless_dropped (s, halted panicked) = (s, halted panicked)

  abbrev pub commit_reply : Result String (Unit {0}) → Run R W (Option (Unit {0}))
  commit_reply (ok _) = return (some tt)
  commit_reply (err e) = return none

  -- The commit of the source offset, with what is left of the Kafka-safe interval.
  unfoldable pub commit_offset : ℕ → ℕ → JobDisposition → Run R W (Option (Unit {0}))
  commit_offset offset processing_started disposition s =
      if leb config.max_processing_interval (ports.instant s.world - processing_started)
      then (s, done none)
      else unless_dropped (
          (call ports false (ports.commit offset) >>= commit_reply) (note (commit_issued offset) s))

  abbrev pub commit_disposition : ℕ → ℕ → Option JobDisposition → Run R W (Option (Unit {0}))
  commit_disposition offset processing_started none = return none
  commit_disposition offset processing_started (some disposition) =
      commit_offset offset processing_started disposition

  -- One round of the loop after the record is accepted.
  unfoldable pub handle_record : JobRecord R → Run R W (Option (Unit {0}))
  unfolding commit_offset
  handle_record received s =
      ((λ t. unless_dropped (process_until_terminal ops config ports plans received t))
          >>= commit_disposition received.offset (ports.instant s.world))
        s

  -- What follows a round, where `rest` is the loop from the next record on.
  abbrev pub after_record : Run R W (Unit {0}) → Option (Unit {0}) → Run R W (Unit {0})
  after_record rest none s = (s, done tt)
  after_record rest (some _) s = if ports.shutdown_requested s.world then (s, done tt) else rest s

  unfoldable pub worker_loop : List (JobRecord R) → Run R W (Unit {0})
  unfolding handle_record
  worker_loop [] s = (s, done tt)
  worker_loop (received ∷ rest) s =
      if ports.shutdown_requested s.world
      then (s, done tt)
      else (handle_record received >>= after_record (worker_loop rest)) s
