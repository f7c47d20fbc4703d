-- ===== src/Worker/Safety.antt =====
-- `worker_loop` of src/application/service.rs against its specification: it commits the source
-- offsets in the order of the records, each one right after the events that settle its record.
use pulse.Prelude.{
  ℕ, ◌+◌, ◌-◌, ◌≡◌, ◌≤◌, refl, arith, String, List, [], ◌∷◌, ◌++◌, false, leb, Bool-cases, inl, inr,
  Option, none, some, Result, ok, err, length,
}
use pulse.Planning.Slices.{PlanOps}
use pulse.Worker.Types.{JobDisposition, NodeRuntimeConfig, ScenarioExecutionPlan, JobRecord}
use pulse.Worker.Ports.{
  Event, commit_issued, Outcome, done, halted, dropped, lease_gone, panicked, Ports, State, ◌>>=◌,
  and_then, call, note,
}
use pulse.Worker.Process.{process_until_terminal}
use pulse.Worker.Loop.{
  unless_dropped, commit_reply, commit_offset, commit_disposition, handle_record, after_record,
  worker_loop,
}
use pulse.Worker.Log.{commit_points, runs, Quiet, Ends, Settled, Terminated}
use pulse.Worker.Rules.{Ends-and_then, Ends-call}
use pulse.Worker.Until.{Ends-process_until_terminal}
use pulse.Worker.Works.{
  Quiet-Silent, Quiet-ran, Settled-Quiet, Works, stops, rev_onto, offsets, offsets_of,
  Works-offsets, Works-runs, Works-stop, Works-continue, Handled, uncommitted, committed,
}

module _ {R Step W : Type 0} (ops : PlanOps R Step) (config : NodeRuntimeConfig R)
    (ports : Ports R Step W) (plans : List (String × ScenarioExecutionPlan R Step))
    (base_pos : 1 ≤ config.worker_retry_base_delay)
    (max_pos : 1 ≤ config.worker_retry_max_delay) where
  abbrev Never : List (Event R) → Type 0
  Never log = ⊥

  -- The log of a commit that was issued, whatever its reply.
  abbrev Issued : JobRecord R → List (Event R) → List (Event R) → Type 0
  Issued received before log = (o : Option (Unit {0})) → Handled received before o log

  Ends-commit_reply :
      (received : JobRecord R) (before : List (Event R)) (reply : Result String (Unit {0}))
      (t : State R W)
      → Issued received before t.log
      → Ends
          (Issued received before)
          (Handled received before)
          (commit_reply ops config ports plans reply t)
  Ends-commit_reply received before (ok _) t h = h (some tt)
  Ends-commit_reply received before (err e) t h = h none

  Ends-unless_dropped :
      {A : Type 0} (K : List (Event R) → Type 0) (P : Option A → List (Event R) → Type 0)
      (x : State R W × Outcome (Option A))
      → Ends K P x
      → ((log : List (Event R)) → K log → P none log)
      → Ends Never P (unless_dropped ops config ports plans x)
  Ends-unless_dropped K P (s, done a) p h = p
  Ends-unless_dropped K P (s, halted dropped) p h = h s.log p
  Ends-unless_dropped K P (s, halted lease_gone) p h = h s.log p
  Ends-unless_dropped K P (s, halted panicked) p h = p

  Ends-commit_offset :
      (received : JobRecord R) (before : List (Event R)) (started : ℕ) (d : JobDisposition)
      (s : State R W)
      → Settled received (Quiet 1 before) d s.log
      → Ends Never
          (Handled received before)
          (commit_offset ops config ports plans received.offset started d s)
  unfolding commit_offset
  Ends-commit_offset received before started d s settled =
      let offset = received.offset in
      let I = Issued received before in
      let issue = call ports false (ports.commit offset) in
      let s' : State R W = note (commit_issued offset) s in
      elim (Bool-cases (leb config.max_processing_interval (ports.instant s.world - started))) [
        | inl late ↦ rw late (uncommitted (Settled-Quiet before received d s.log settled))
        | inr timely ↦ rw timely (
            Ends-unless_dropped I (Handled received before)
              ((issue >>= commit_reply ops config ports plans) s')
              (Ends-and_then I (λ _. I) (Handled received before)
                (commit_reply ops config ports plans) (issue s')
                (Ends-call ports I false (ports.commit offset) s' (λ o. committed o settled))
                (λ reply t h. Ends-commit_reply received before reply t h))
              (λ log h. h none))
      ]

  Ends-commit_disposition :
      (received : JobRecord R) (before : List (Event R)) (started : ℕ) (d : Option JobDisposition)
      (s : State R W)
      → Terminated received (Quiet 1 before) d s.log
      → Ends Never
          (Handled received before)
          (commit_disposition ops config ports plans received.offset started d s)
  Ends-commit_disposition received before started none s q = uncommitted q
  Ends-commit_disposition received before started (some d) s settled =
      Ends-commit_offset received before started d s settled

  Ends-handle_record :
      (received : JobRecord R) (s : State R W)
      → Ends Never (Handled received s.log) (handle_record ops config ports plans received s)
  unfolding handle_record
  Ends-handle_record received s =
      let K = Quiet 1 s.log in
      let x = process_until_terminal ops config ports plans received s in
      Ends-and_then Never (Terminated received K) (Handled received s.log)
        (commit_disposition ops config ports plans received.offset (ports.instant s.world))
        (unless_dropped ops config ports plans x)
        (Ends-unless_dropped K (Terminated received K) x
          (Ends-process_until_terminal ops config ports plans (Quiet 0 s.log) K
            (Quiet-Silent 1 s.log) (Quiet-ran s.log) (λ log q. (q.0, omega (arith, q.1))) received
            base_pos max_pos s (refl, omega arith))
          (λ log k. k))
        (λ d t p. Ends-commit_disposition received s.log (ports.instant s.world) d t p)

  -- The end of a loop over the records.
  abbrev Worked : List (JobRecord R) → List (Event R) → State R W × Outcome (Unit {0}) → Type 0
  Worked records before x = Works records before x.0.log × (x.1 ≡ done tt)

  Works-go_on :
      (received : JobRecord R) (rest : List (JobRecord R)) (s : State R W)
      (x : State R W × Outcome (Option (Unit {0})))
      → Ends Never (Handled received s.log) x
      → ((t : State R W) → Worked rest t.log (worker_loop ops config ports plans rest t))
      → Worked (received ∷ rest) s.log (
          and_then
            (after_record ops config ports plans (worker_loop ops config ports plans rest))
            x)
  Works-go_on received rest s (t, done none) h go =
      (Works-stop received rest s.log t.log none h, refl)
  Works-go_on received rest s (t, done (some u)) h go =
      elim (Bool-cases (ports.shutdown_requested t.world)) [
        | inl stop ↦ rw stop (Works-stop received rest s.log t.log (some u) h, refl)
        | inr more ↦ rw more (Works-continue received rest s.log t.log _ u h (go t).0, (go t).1)
      ]
  Works-go_on received rest s (t, halted dropped) h go = absurd h
  Works-go_on received rest s (t, halted lease_gone) h go = absurd h
  Works-go_on received rest s (t, halted panicked) h go = absurd h

  -- From any log, the worker loop only does what `Works` allows: each commit is issued right after the
  -- log ends in the events that settle its record (under one lease the owner check, the acknowledged
  -- result, retry or dead letter of that job and the completion with that outcome; or the completed
  -- duplicate found by its claim; or the dead letter of a job refused before its claim; or the poison
  -- record of what did not decode), with at most one run of a scenario since the commit before it; where
  -- it stops, at most one run and no commit stand after the last commit. It always returns: no retry
  -- loop reaches its `unreachable!`, and no fuel runs out. The base and the maximal retry delay are
  -- positive.
  pub worker_loop-Works :
      (records : List (JobRecord R)) (s : State R W)
      → Works records s.log (worker_loop ops config ports plans records s).0.log
        × ((worker_loop ops config ports plans records s).1 ≡ done tt)
  unfolding worker_loop
  worker_loop-Works [] s = (stops (refl, omega arith), refl)
  worker_loop-Works (received ∷ rest) s = elim (Bool-cases (ports.shutdown_requested s.world)) [
    | inl stop ↦ rw stop (stops (refl, omega arith), refl)
    | inr go ↦ rw go (
        Works-go_on received rest s (handle_record ops config ports plans received s)
          (Ends-handle_record received s) (worker_loop-Works rest))
  ]

  -- A worker that starts with an empty log commits the offsets of the first records that it is handed,
  -- in their order and without a gap (the log has the newest first), and starts at most one run more
  -- than it issues commits. The base and the maximal retry delay are positive.
  pub worker_loop_commits :
      (records : List (JobRecord R)) (w : W)
      → let final =
          (worker_loop ops config ports plans records (record { world = w; log = [] })).0.log in
        ((handled : List (JobRecord R)) × (rest : List (JobRecord R)) × (records ≡ handled ++ rest)
          × (offsets final ≡ rev_onto (offsets_of handled) []))
        × (runs final ≤ 1 + length (commit_points final))
  unfolding commit_points runs
  worker_loop_commits records w =
      let s : State R W = record { world = w; log = [] } in
      let works = (worker_loop-Works records s).0 in
      (Works-offsets records [] _ works, Works-runs records [] _ works (omega arith))
