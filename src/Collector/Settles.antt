-- ===== src/Collector/Settles.antt =====
-- `process_record` of src/application/aggregation_service.rs commits a record only after what makes
-- that safe.
use pulse.Prelude.{
  ℕ, arith, ◌⊎◌, false, ◌≡◌, refl, String, List, ◌∷◌, ◌<>◌, Bool-cases, inl, inr, Result, ok, err,
}
use pulse.Domain.Error.{ContractError, contract_message}
use pulse.Domain.Contracts.{ScenarioRunResult}
use pulse.Collector.Types.{
  RunAggregationUpdate, RunAggregationStoreError, contract, unavailable, timeout, invalid_state,
  inconsistent_result, error_kind_capacity, active_run_capacity, store_message, ResultRecord, Event,
  ingested, poison_sent, commit_issued, Ports, State, Run, ◌>>=◌, note, call,
}
use pulse.Collector.Records.{
  AggregationRuntimeConfig, late_record, reply_of, commit_record, after_poison,
  dead_letter_and_commit, after_ingest, process_result, process_record,
}

-- No retry can make the store accept the input.
abbrev pub Permanent : RunAggregationStoreError → Type 0
Permanent (contract e) = Unit
Permanent (inconsistent_result message) = Unit
Permanent (error_kind_capacity n) = Unit
Permanent (unavailable operation message) = ⊥
Permanent (timeout operation) = ⊥
Permanent (invalid_state operation message) = ⊥
Permanent (active_run_capacity n) = ⊥

-- What settles a record: its result is in the store, or its poison record is in the dead letters.
pub data Evidence (received : ResultRecord) : Event → Type 0 where
  by_ingest :
      (result : ScenarioRunResult) (update : RunAggregationUpdate)
      → received.result ≡ ok result
      → Evidence received (ingested result update)
  by_contract :
      (error : ContractError)
      → received.result ≡ err error
      → Evidence received (
          poison_sent
            (received.poison_record ("invalid result contract: " <> contract_message error)))
  by_conflict :
      (result : ScenarioRunResult) (error : RunAggregationStoreError)
      → received.result ≡ ok result
      → Permanent error
      → Evidence received (poison_sent (received.poison_record (store_message error)))

-- The Kafka-safe bound has not passed.
abbrev pub Timely : {W : Type 0} → Ports W → W → Type 0
Timely ports w = ports.deadline_passed w ≡ false

-- What a commit lets a task answer: all is well, only if the commit succeeded in time.
pub data Committed {W : Type 0} (ports : Ports W) (offset : ℕ)
    : Result String (Unit {0}) → Type 0 where
  done :
      (w : W)
      → Timely ports (ports.commit offset w).0
      → (ports.commit offset w).1 ≡ ok tt
      → Committed ports offset (ok tt)
  failed :
      (e : String) (w : W)
      → (¬ Timely ports (ports.commit offset w).0) ⊎ ¬ ((ports.commit offset w).1 ≡ ok tt)
      → Committed ports offset (err e)

-- How the processing of a record ends, from the log before it: with an error and no commit, or with
-- the commit right after what settles the record, and what the commit lets it answer.
pub data Processed {W : Type 0} (ports : Ports W) (received : ResultRecord) (before : List Event)
    : Result String (Unit {0}) → List Event → Type 0 where
  unsettled : (e : String) → Processed ports received before (err e) before
  settled :
      (reply : Result String (Unit {0})) (event : Event)
      → Committed ports received.offset reply
      → Evidence received event
      → Processed ports received before reply (commit_issued received.offset ∷ event ∷ before)

-- How a task ends, by a predicate on its reply and its log.
abbrev pub Ends :
    {W A : Type 0} → (Result String A → List Event → Type 0) → State W × Result String A → Type 0
Ends Q x = Q x.1 x.0.log

module _ {W : Type 0} (ports : Ports W) (config : AggregationRuntimeConfig) where
  -- An operation, and what follows its reply: the task ends late, or goes on in another world.
  Ends-call :
      {A B : Type 0} (Q : Result String B → List Event → Type 0) (late : String)
      (operation : W → W × A) (f : A → Run W B) (s : State W)
      → Q (err late) s.log
      → ((a : A) (w : W) → Ends Q (f a (record s { world = w })))
      → Ends Q ((call ports late operation >>= f) s)
  Ends-call Q late operation f s dropped h =
      let (w, a) = operation s.world in
      elim (Bool-cases (ports.deadline_passed w)) [
        | inl passed ↦ rw passed dropped
        | inr timely ↦ rw timely (h a w)
      ]

  -- An operation that is late, or whose reply the rest of the task takes up.
  pub Ends-awaited :
      {A B : Type 0} (Q : Result String B → List Event → Type 0) (late : String)
      (operation : W → W × A) (f : A → Run W B) (s : State W)
      → (¬ Timely ports (operation s.world).0 → Q (err late) s.log)
      → (Timely ports (operation s.world).0
          → Ends Q (f (operation s.world).1 (record s { world = (operation s.world).0 })))
      → Ends Q ((call ports late operation >>= f) s)
  Ends-awaited Q late operation f s dropped h =
      elim (Bool-cases (ports.deadline_passed (operation s.world).0)) [
        | inl passed ↦ rw passed (dropped (λ timely. ground (arith, passed, timely)))
        | inr timely ↦ rw timely (h timely)
      ]

  Committed-reply_of :
      (message : String) (received : ResultRecord) (event : Event) (before : List Event) (w : W)
      (reply : Result String (Unit {0})) (s : State W)
      → (ports.commit received.offset w).1 ≡ reply
      → Timely ports (ports.commit received.offset w).0
      → Evidence received event
      → s.log ≡ commit_issued received.offset ∷ event ∷ before
      → Ends (Processed ports received before) (reply_of ports config message reply s)
  Committed-reply_of message received event before w (ok _) s e timely evidence log_is =
      rw log_is (settled (ok tt) event (done w timely e) evidence)
  Committed-reply_of message received event before w (err error) s e timely evidence log_is =
      rw log_is (settled _ event (failed _ w (inr (λ sent. ground (arith, e, sent)))) evidence)

  -- A commit, of a record that the last event of the log settles.
  Processed-commit_record :
      (message : String) (received : ResultRecord) (event : Event) (s : State W)
      → Evidence received event
      → Ends
          (Processed ports received s.log)
          (commit_record ports config message received (note event s))
  unfolding commit_record
  Processed-commit_record message received event s evidence =
      let s' : State W = note (commit_issued received.offset) (note event s) in
      Ends-awaited (Processed ports received s.log) (late_record ports config)
        (ports.commit received.offset) (reply_of ports config message) s'
        (λ missed. settled _ event (failed _ s.world (inl missed)) evidence)
        (λ timely.
          Committed-reply_of message received event s.log s.world _ _ refl timely evidence refl)

  Processed-after_poison :
      (received : ResultRecord) (reason : String) (reply : Result String (Unit {0})) (s : State W)
      → Evidence received (poison_sent (received.poison_record reason))
      → Ends (Processed ports received s.log) (after_poison ports config received reason reply s)
  Processed-after_poison received reason (err e) s evidence = unsettled _
  Processed-after_poison received reason (ok _) s evidence =
      Processed-commit_record _ received (poison_sent (received.poison_record reason)) s evidence

  Processed-dead_letter_and_commit :
      (received : ResultRecord) (reason : String) (s : State W)
      → Evidence received (poison_sent (received.poison_record reason))
      → Ends
          (Processed ports received s.log)
          (dead_letter_and_commit ports config received reason s)
  unfolding dead_letter_and_commit
  Processed-dead_letter_and_commit received reason s evidence =
      Ends-call (Processed ports received s.log) (late_record ports config)
        (ports.publish_poison (received.poison_record reason))
        (after_poison ports config received reason) s (unsettled _)
        (λ reply w. Processed-after_poison received reason reply (record s { world = w }) evidence)

  Processed-after_ingest :
      (received : ResultRecord) (result : ScenarioRunResult)
      (reply : Result RunAggregationStoreError RunAggregationUpdate) (s : State W)
      → received.result ≡ ok result
      → Ends (Processed ports received s.log) (after_ingest ports config received result reply s)
  unfolding after_ingest
  Processed-after_ingest received result (ok update) s e =
      Processed-commit_record _ received (ingested result update) s (by_ingest result update e)
  Processed-after_ingest received result (err (contract x)) s e =
      Processed-dead_letter_and_commit received _ s (by_conflict result (contract x) e tt)
  Processed-after_ingest received result (err (inconsistent_result m)) s e =
      Processed-dead_letter_and_commit received _ s
        (by_conflict result (inconsistent_result m) e tt)
  Processed-after_ingest received result (err (error_kind_capacity n)) s e =
      Processed-dead_letter_and_commit received _ s
        (by_conflict result (error_kind_capacity n) e tt)
  Processed-after_ingest received result (err (unavailable operation m)) s e = unsettled _
  Processed-after_ingest received result (err (timeout operation)) s e = unsettled _
  Processed-after_ingest received result (err (invalid_state operation m)) s e = unsettled _
  Processed-after_ingest received result (err (active_run_capacity n)) s e = unsettled _

  Processed-process_result :
      (received : ResultRecord) (decoded : Result ContractError ScenarioRunResult) (s : State W)
      → received.result ≡ decoded
      → Ends (Processed ports received s.log) (process_result ports config received decoded s)
  unfolding process_result
  Processed-process_result received (err error) s e =
      Processed-dead_letter_and_commit received _ s (by_contract error e)
  Processed-process_result received (ok result) s e =
      Ends-call (Processed ports received s.log) (late_record ports config)
        (ports.ingest result (ports.now_unix_ms s.world))
        (after_ingest ports config received result) s (unsettled _)
        (λ reply w. Processed-after_ingest received result reply (record s { world = w }) e)

  -- From any log, the processing of a record of the result topic ends with an error and an unchanged
  -- log, or its commit is issued right after the one event that settles it: the store accepted the
  -- decoded result, or the record's poison record was published, with the contract error of what did
  -- not decode, or with an error of the store that no retry can mend; and it ends well exactly if
  -- that commit then succeeds in time. So it never ends well without its commit, nor commits after an
  -- error of the store that a retry may mend.
  pub process_record-Processed :
      (received : ResultRecord) (s : State W)
      → Processed ports received s.log
          (process_record ports config received s).1
          (process_record ports config received s).0.log
  unfolding process_record
  process_record-Processed received s = Processed-process_result received received.result s refl
