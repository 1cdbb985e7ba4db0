-- ===== src/Delivery/Worker.antt =====
-- services/delivery/internal/worker/outbox_worker.go: the worker of the delivery service over its own
-- repository, and what a run of it keeps.
use msa_saga_go_practical.Prelude.{◌≡◌, ◌++◌, List}
use msa_saga_go_practical.Common.Result.{Result}
use msa_saga_go_practical.Common.Messaging.{Producer, ProducerMessage}
use msa_saga_go_practical.Store.Table.{All}
use msa_saga_go_practical.Store.Session.{OutboxEvent, pending}
use msa_saga_go_practical.Store.Rows.{Answers}
use msa_saga_go_practical.Store.Worker
use msa_saga_go_practical.Store.Worker.{Signal, no_key}
use msa_saga_go_practical.Store.Publishing.{ProducerLaws}
use msa_saga_go_practical.Store.Running
use msa_saga_go_practical.Store.Running.{
  HasDistinctIds, IsSettled, stored_rows, pass_of, pass_of-PassLaws,
}
use msa_saga_go_practical.Delivery.Outbox.{repository, repository-RepositoryLaws}

module _ (producer : Producer) where
  -- `publishEvent`
  abbrev pub publish_event : OutboxEvent → producer.State → Result (Unit {0}) × producer.State
  publish_event e st = Worker.publish_event producer no_key e st

  -- `processEvents`
  abbrev pub process_events :
      Answers
      → List OutboxEvent
      → producer.State
      → Result (Unit {0}) × List OutboxEvent × producer.State
  process_events answers rows st = Worker.process producer no_key (repository answers) rows st

  -- `Start`, over the driver's answers in each tick.
  abbrev pub start :
      List (Signal Answers) → List OutboxEvent → producer.State → List OutboxEvent × producer.State
  start signals rows st = Worker.start (pass_of producer no_key repository) signals rows st

  module _ (log : producer.State → List ProducerMessage) (laws : ProducerLaws producer log) where
    -- Over a whole run of the worker of the delivery service, whatever queries, scans, publications and
    -- markings fail in its ticks, and with PENDING rows of fresh ids stored in between, no row becomes
    -- SENT whose message is not with the broker: if before the run every row is PENDING or published,
    -- then so it is after the run.
    pub start-IsSettled :
        (signals : List (Signal Answers)) (rows : List OutboxEvent) (st : producer.State)
        → HasDistinctIds (rows ++ stored_rows signals)
        → All (λ (e : OutboxEvent). e.status ≡ pending) (stored_rows signals)
        → All (IsSettled (log st)) rows
        → let (rows', st') = start signals rows st in All (IsSettled (log st')) rows'
    start-IsSettled = Running.loop-IsSettled log (pass_of producer no_key repository) (
        pass_of-PassLaws producer no_key log laws repository (λ answers. answers.now)
          repository-RepositoryLaws)
