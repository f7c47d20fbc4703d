-- ===== src/Worker/Works.antt =====
-- What a worker may do, as a relation on logs: the specification of `worker_loop` of
-- src/application/service.rs.
use pulse.Prelude.{
  ℕ, ◌+◌, ◌≡◌, ◌≤◌, refl, ap, arith, List, [], ◌∷◌, ◌++◌, ◌∙◌, Option, none, some, length, map,
}
use pulse.Domain.Contracts.{ScenarioJob}
use pulse.Coordination.Types.{TerminalOutcome}
use pulse.Worker.Types.{JobDisposition, JobRecord}
use pulse.Worker.Ports.{
  Event, checked, job_sent, result_sent, failed_sent, poison_sent, found_completed, completed, ran,
  commit_issued,
}
use pulse.Worker.Log.{
  commit_points, runs, Quiet, Silent, Settled, by_lease, by_duplicate, by_refusal, by_poison,
  Published, as_result, as_retry, as_dead_letter,
}

-- The second list after the first one, reversed.
unfoldable pub rev_onto : List ℕ → List ℕ → List ℕ
rev_onto [] ys = ys
rev_onto (x ∷ xs) ys = rev_onto xs (x ∷ ys)

module _ {R : Type 0} where
  -- A silent event leaves the log quiet.
  pub Quiet-Silent :
      (n : ℕ) (before : List (Event R)) (e : Event R)
      → Silent e
      → (log : List (Event R)) → Quiet n before log
      → Quiet n before (e ∷ log)
  unfolding commit_points runs
  Quiet-Silent n before (checked lease) s log q = (q.0, omega (arith, q.1))
  Quiet-Silent n before (job_sent key job) s log q = (q.0, omega (arith, q.1))
  Quiet-Silent n before (result_sent result) s log q = (q.0, omega (arith, q.1))
  Quiet-Silent n before (failed_sent failed) s log q = (q.0, omega (arith, q.1))
  Quiet-Silent n before (poison_sent poison) s log q = (q.0, omega (arith, q.1))
  Quiet-Silent n before (found_completed claim outcome) s log q = (q.0, omega (arith, q.1))
  Quiet-Silent n before (completed lease outcome) s log q = (q.0, omega (arith, q.1))
  Quiet-Silent n before (ran job) s log q = absurd s
  Quiet-Silent n before (commit_issued offset) s log q = absurd s

  pub Quiet-ran :
      (before : List (Event R)) (job : ScenarioJob R) (log : List (Event R))
      → Quiet 0 before log
      → Quiet 1 before (ran job ∷ log)
  unfolding commit_points runs
  Quiet-ran before job log q = (q.0, omega (arith, q.1))

  Published-Silent :
      (job : ScenarioJob R) (outcome : TerminalOutcome) (e : Event R)
      → Published job outcome e
      → Silent e
  Published-Silent job outcome e (as_result result k v) = tt
  Published-Silent job outcome e (as_retry key next k a) = tt
  Published-Silent job outcome e (as_dead_letter reason now) = tt

  pub Settled-Quiet :
      (before : List (Event R)) (received : JobRecord R) (d : JobDisposition) (log : List (Event R))
      → Settled received (Quiet 1 before) d log
      → Quiet 1 before log
  Settled-Quiet before received d log (by_lease {log = l} job outcome e lease its p q) =
      let silent = Quiet-Silent 1 before in
      silent (completed lease outcome) tt (e ∷ checked lease ∷ l) (
        silent e (Published-Silent job outcome e p) (checked lease ∷ l)
          (silent (checked lease) tt l q))
  Settled-Quiet before received d log (by_duplicate {log = l} job outcome its q) =
      Quiet-Silent 1 before (found_completed _ outcome) tt l q
  Settled-Quiet before received d log (by_refusal {log = l} job reason now its q) =
      Quiet-Silent 1 before (failed_sent _) tt l q
  Settled-Quiet before received d log (by_poison {log = l} error its q) =
      Quiet-Silent 1 before (poison_sent _) tt l q

  -- What a worker may do with the records that it is handed, from one log to another: stop, with at
  -- most one run and no commit; or settle the first record, with at most one run, commit its offset
  -- and go on.
  pub data Works : List (JobRecord R) → List (Event R) → List (Event R) → Type 0 where
    stops :
        {records : List (JobRecord R)} {before log : List (Event R)}
        → Quiet 1 before log
        → Works records before log
    commits :
        {received : JobRecord R} {rest : List (JobRecord R)} {d : JobDisposition}
        {before log final : List (Event R)}
        → Settled received (Quiet 1 before) d log
        → Works rest (commit_issued received.offset ∷ log) final
        → Works (received ∷ rest) before final

  -- What one round leaves: no commit, or the commit of a settled record.
  pub data Handled (received : JobRecord R) (before : List (Event R))
      : Option (Unit {0}) → List (Event R) → Type 0 where
    uncommitted : {log : List (Event R)} → Quiet 1 before log → Handled received before none log
    committed :
        {log : List (Event R)} {d : JobDisposition} (o : Option (Unit {0}))
        → Settled received (Quiet 1 before) d log
        → Handled received before o (commit_issued received.offset ∷ log)

  -- A round after which the worker stops.
  pub Works-stop :
      (received : JobRecord R) (rest : List (JobRecord R)) (before log : List (Event R))
      (o : Option (Unit {0}))
      → Handled received before o log
      → Works (received ∷ rest) before log
  Works-stop received rest before log o (uncommitted q) = stops q
  Works-stop received rest before log o (committed _ settled) =
      commits settled (stops (refl, omega arith))

  -- A round after which it goes on.
  pub Works-continue :
      (received : JobRecord R) (rest : List (JobRecord R)) (before log final : List (Event R))
      (u : Unit {0})
      → Handled received before (some u) log
      → Works rest log final
      → Works (received ∷ rest) before final
  Works-continue received rest before log final u (committed _ settled) works =
      commits settled works

  abbrev pub offsets : List (Event R) → List ℕ
  offsets log = map (λ p. p.0) (commit_points log)

  abbrev pub offsets_of : List (JobRecord R) → List ℕ
  offsets_of = map (λ received. received.offset)

  pub Works-offsets :
      (records : List (JobRecord R)) (before final : List (Event R))
      → Works records before final
      → (handled : List (JobRecord R)) × (rest : List (JobRecord R)) × (records ≡ handled ++ rest)
        × (offsets final ≡ rev_onto (offsets_of handled) (offsets before))
  unfolding rev_onto commit_points
  Works-offsets records before final (stops q) = ([], records, refl, ap (map (λ p. p.0)) q.0)
  Works-offsets _ before final (commits {received} {rest} {d} {log = log} settled works) =
      let (handled, left, e, o) = Works-offsets rest _ final works in
      (
        received ∷ handled,
        left,
        ap (λ l. received ∷ l) e,
        o
            ∙ ap (λ t. rev_onto (offsets_of handled) (received.offset ∷ map (λ p. p.0) t))
                (Settled-Quiet before received d log settled).0,
      )

  pub Works-runs :
      (records : List (JobRecord R)) (before final : List (Event R))
      → Works records before final
      → runs before ≤ length (commit_points before)
      → runs final ≤ 1 + length (commit_points final)
  unfolding commit_points runs
  Works-runs records before final (stops q) h = omega (arith, q.1, h, ap length q.0)
  Works-runs _ before final (commits {received} {rest} {d} {log = log} settled works) h =
      let q = Settled-Quiet before received d log settled in
      Works-runs rest (commit_issued received.offset ∷ log) final works
        (omega (arith, q.1, h, ap length q.0))
