-- ===== src/Lib.antt =====
-- A model of pulse, a distributed load generator: the contracts between its processes, the planning of
-- the load, the scheduler, the worker and the aggregator with their orders of publication and commit,
-- the merging of the results of a run, and the coordination on Redis that keeps schedulers and workers
-- apart.
--
-- A scheduler that leads (Scheduler, Coordination.Leader) prepares a window of a scenario
-- (Coordination.Dispatch), publishes a job for each slice that has no acknowledgement (Planning), and
-- acknowledges what it has published; every call carries its leader lease. A worker (Worker) validates
-- a job (Domain.Job), compares it with its own plan, claims its execution (Coordination.Execution),
-- runs it, publishes a result, a retry or a dead letter under an owner check, completes the claim and
-- commits the offset. The results of the slices are validated (Domain.RunResult) and merged by run
-- (Aggregation); Collector is the process that reads them from Kafka. A dead letter can be replayed as
-- a new run (Replay).
--
-- The files, with the code they model:
--   * Prelude: native numbers, texts, results, association lists; u64 addition that saturates, wraps
--     or reports an overflow; a `Duration` is a number of nanoseconds.
--   * Domain (src/domain/contracts.rs, src/domain/error.rs, src/domain/scenario.rs): Contracts and
--     Scenario have the records under their names; Checks, Job and RunResult the functions `validate_*` in the order of the code, as do
--     blocks over a result type, with the texts of the errors. Rate is the parameter for `f64`.
--   * Aggregation (src/application/aggregation.rs): State has `RunState` and its operations, Summary
--     `summary` and `histogram_quantile`, Aggregator `RunAggregator`. A `HashSet` is a list of
--     distinct values, a `HashMap` an association list with distinct keys, a `BTreeMap` an ascending
--     one. An operation takes the state and returns the new one with its outcome.
--   * Coordination (src/domain/coordination.rs, src/infrastructure/redis/mod.rs): Types has the
--     messages, Client what all operations share (`redis_operation`, `duration_ms`), Leader
--     `RedisLeaderElector`, Dispatch `RedisDueStateStore`, Execution `RedisIdempotencyStore`. Each Lua
--     script is a function `*_script` on the state of the server, each method the function of its
--     name, which takes what the network does with the call: a reply, no connection, or a reply that
--     is lost after the script did or did not run. Fresh tokens (uuids) are arguments.
--   * Planning (src/application/service.rs): Slices has `calculate_slices`, `slice_load` and
--     `planned_slice_loads`, Text the bounded reasons, FNV hashes and plan fingerprints, Delays
--     `retry_delay` and `deferred_job_delay`; Shares and Reasons prove. `PlanOps` is the arithmetic on
--     `f64` and the text of a step, a parameter.
--   * Worker (src/application/service.rs): Types has its values, Ports the world and the log, Publish
--     the retry loops (`rounds` is the loop that each of them writes out), Execute what follows a
--     claim, Process `process_once` and `process_until_terminal`, Loop `worker_loop`; Reports and Refusal
--     have their messages and checks. A function
--     `after_*` is the rest of a body after an `.await`. Log, Rules, Retries, Settlement, Terminal, Until,
--     Works and Safety prove.
--   * Scheduler (src/application/service.rs): Ports its world and the tests of the lease, Dispatch
--     `scheduler_loop`, Election `leader_election_loop`; Follows has the specification of the former,
--     Loop its proof, Announced what the latter tells the former.
--   * Collector (src/application/aggregation_service.rs, the errors and values of the store in
--     src/application/aggregation.rs): Records has `process_record`, `dead_letter_and_commit` and
--     `publish_one`; Settles proves what the first guarantees, Publication the last.
--   * Replay (src/application/dlq_replay.rs): Records has the checks of a failed job and the filters,
--     Build `build_replay_job`; Agreement and RoundTrip prove that what one part makes the other takes.
--   * Tests: a server that obeys the laws, and the theorems at concrete inputs.
--
-- Redis itself is a parameter (Coordination.Redis): the commands on a state of any type, and their
-- documented laws, which include the passing of time with the expiry of keys. Scripts run one at a
-- time, as on the server. Texts that are decimal numbers are kept as numbers: Lua prints them in
-- full below 10^14, and the milliseconds of a time are below that. The list of the missing slices,
-- which the script joins with commas and the client splits, is kept as a list of numbers.
-- INCR meets no counter with an expiry, and PEXPIRE takes every positive time; `duration_ms` admits
-- those up to the largest i64. `operation_timeout` is only read by `redis_operation`, whose expiry is the failure `elapsed`.
--
-- Brokers, stores, clocks, the runner of a scenario and the watch channels are parameters of the
-- services (`Ports`): operations on a world of any type, of which nothing is assumed. A future that is
-- dropped while it waits (a timeout, a shutdown, a lost lease) ends there, and the world decides after
-- each operation whether that happened. What a service did is a log, newest event first; a commit and
-- an acknowledgement stand in it when they are issued, a publication when it was acknowledged. Instants
-- do not overflow. Where `String::truncate` panics, off a character boundary, the model drops the
-- character that is cut; the only caller cuts at a boundary. Logging and metrics leave no trace.
--
-- Loops are structural recursion, on a list or on fuel. `decimal` has the fuel `suc n` for a number `n`:
-- each digit divides it by ten. `rounds` has the limit of the retries as fuel, and running out is the
-- `unreachable!` of the code. `until_terminal` has one more than the nanoseconds of
-- `max_processing_interval`: each wait takes one at least, and one that is longer than what is left is
-- cut by the timeout. `scheduler_loop` and `leader_election_loop` take the number of
-- rounds, of which the code knows no bound.
--
-- Not modelled: `register_run` and src/infrastructure/redis/aggregation.rs; of
-- src/application/service.rs the renewal loop, the consumer and the wiring; of
-- src/application/aggregation_service.rs the maintenance; the runner, the rate limiter, steps and
-- templates, the decoding of dead letters and the checks of poison records, Kafka, gRPC, configuration, metrics, the binaries. The rank of
-- a quantile is arithmetic on `f64`, and a parameter.

pub mod Prelude
pub mod Domain
pub mod Aggregation
pub mod Coordination
pub mod Planning
pub mod Worker
pub mod Scheduler
pub mod Collector
pub mod Replay
pub mod Tests
