-- ===== src/Collector/Publication.antt =====
-- `publish_one` of src/application/aggregation_service.rs, from the replies of its two operations.
use pulse.Prelude.{◌≡◌, ◌⊎◌, inl, inr, refl, String, List, ◌∷◌, arith, Result, ok, err}
use pulse.Domain.Contracts.{ScenarioRunSummaryEvent}
use pulse.Collector.Types.{
  DurableRunSummary, SummaryAcknowledgement, acknowledged, already_acknowledged, stale, missing,
  RunAggregationStoreError, Event, summary_sent, ack_issued, Ports, State, note,
}
use pulse.Collector.Records.{
  AggregationRuntimeConfig, summary_event, late_maintenance, after_ack, after_summary, publish_one,
}
use pulse.Collector.Settles.{Ends, Timely, Ends-awaited}

-- The outbox holds nothing that is left to publish of this revision.
abbrev pub Settled : Result RunAggregationStoreError SummaryAcknowledgement → Type 0
Settled (ok acknowledged) = Unit
Settled (ok already_acknowledged) = Unit
Settled (ok (stale revision)) = Unit
Settled (ok missing) = ⊥
Settled (err e) = ⊥

module _ {W : Type 0} (ports : Ports W) where
  -- The world after the publication, and after the acknowledgement too.
  abbrev pub published : ScenarioRunSummaryEvent → W → W
  published event w = (ports.publish_summary event w).0

  abbrev pub acked :
      ScenarioRunSummaryEvent → W → W × Result RunAggregationStoreError SummaryAcknowledgement
  acked event w = ports.acknowledge_summary event.summary.run_id event.revision (published event w)

  -- How the publication of a summary ends: well, exactly if the publication is acknowledged in time
  -- and the outbox then says in time that the revision is settled. The acknowledgement is issued
  -- exactly if the publication is acknowledged in time, and right after it.
  pub data Flushed (event : ScenarioRunSummaryEvent) (s : State W)
      : Result String (Unit {0}) → List Event → Type 0 where
    unpublished :
        (e : String)
        → (¬ Timely ports (published event s.world))
          ⊎ ¬ ((ports.publish_summary event s.world).1 ≡ ok tt)
        → Flushed event s (err e) s.log
    unsettled :
        (e : String)
        → Timely ports (published event s.world)
        → (ports.publish_summary event s.world).1 ≡ ok tt
        → (¬ Timely ports (acked event s.world).0) ⊎ ¬ Settled (acked event s.world).1
        → Flushed event s
            (err e)
            (ack_issued event.summary.run_id event.revision ∷ summary_sent event ∷ s.log)
    flushed :
        Timely ports (published event s.world)
        → (ports.publish_summary event s.world).1 ≡ ok tt
        → Timely ports (acked event s.world).0
        → Settled (acked event s.world).1
        → Flushed event s
            (ok tt)
            (ack_issued event.summary.run_id event.revision ∷ summary_sent event ∷ s.log)

module _ {W : Type 0} (ports : Ports W) (config : AggregationRuntimeConfig) where
  module _ (event : ScenarioRunSummaryEvent) (s : State W)
      (in_time : Timely ports (published ports event s.world))
      (sent : (ports.publish_summary event s.world).1 ≡ ok tt) where
    after_publication : State W
    after_publication =
        note (ack_issued event.summary.run_id event.revision)
          (note (summary_sent event) (record s { world = published ports event s.world }))

    Flushed-after_ack :
        (reply : Result RunAggregationStoreError SummaryAcknowledgement)
        → (acked ports event s.world).1 ≡ reply
        → Timely ports (acked ports event s.world).0
        → Ends (Flushed ports event s) (
            after_ack ports config event.event_id reply
              (record after_publication { world = (acked ports event s.world).0 }))
    unfolding after_publication
    Flushed-after_ack (ok acknowledged) e timely = flushed in_time sent timely (rw e tt)
    Flushed-after_ack (ok already_acknowledged) e timely = flushed in_time sent timely (rw e tt)
    Flushed-after_ack (ok (stale revision)) e timely = flushed in_time sent timely (rw e tt)
    Flushed-after_ack (ok missing) e timely = unsettled _ in_time sent (inr (rw e (λ x. x)))
    Flushed-after_ack (err error) e timely = unsettled _ in_time sent (inr (rw e (λ x. x)))

  Flushed-after_summary :
      (late : String) (event : ScenarioRunSummaryEvent) (s : State W)
      (reply : Result String (Unit {0}))
      → (ports.publish_summary event s.world).1 ≡ reply
      → Timely ports (published ports event s.world)
      → Ends (Flushed ports event s) (
          after_summary ports config late event reply
            (record s { world = published ports event s.world }))
  unfolding after_publication
  Flushed-after_summary late event s (err error) e in_time =
      unpublished _ (inr (λ sent. ground (arith, e, sent)))
  Flushed-after_summary late event s (ok _) e in_time =
      Ends-awaited ports config (Flushed ports event s) late
        (ports.acknowledge_summary event.summary.run_id event.revision)
        (after_ack ports config event.event_id) (after_publication event s in_time e)
        (λ missed. unsettled _ in_time e (inl missed))
        (λ timely. Flushed-after_ack event s in_time e _ refl timely)

  -- From any log and in any world: the publication of a durable summary ends well exactly if its
  -- event is published in time and the outbox then answers in time that the revision is settled,
  -- that is, acknowledged now or before, or stale; it ends with an error if the run is missing, on
  -- an error of the store, or late. The acknowledgement is issued, right after the publication,
  -- exactly if that was acknowledged in time; the log is unchanged otherwise.
  pub publish_one-Flushed :
      (phase : String) (durable : DurableRunSummary) (s : State W)
      → Flushed ports
          (summary_event durable)
          s
          (publish_one ports config phase durable s).1
          (publish_one ports config phase durable s).0.log
  unfolding publish_one
  publish_one-Flushed phase durable s =
      let event = summary_event durable in
      let late = late_maintenance ports config phase in
      Ends-awaited ports config (Flushed ports event s) late (ports.publish_summary event)
        (after_summary ports config late event) s (λ missed. unpublished _ (inl missed))
        (λ in_time. Flushed-after_summary late event s _ refl in_time)
