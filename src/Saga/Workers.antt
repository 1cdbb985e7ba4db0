-- ===== src/Saga/Workers.antt =====
-- What the outbox workers of the four services promise together: services/*/internal/worker and
-- `startOutboxWorker` of services/payment/cmd/main.go.
use msa_saga_go_practical.Prelude.{◌≡◌, ◌++◌, List}
use msa_saga_go_practical.Common.Messaging.{Producer, ProducerMessage}
use msa_saga_go_practical.Store.Table.{All}
use msa_saga_go_practical.Store.Session.{OutboxEvent, pending}
use msa_saga_go_practical.Store.Rows.{Answers}
use msa_saga_go_practical.Store.Worker.{Signal}
use msa_saga_go_practical.Store.Publishing.{ProducerLaws}
use msa_saga_go_practical.Store.Running.{HasDistinctIds, IsSettled, stored_rows}
use msa_saga_go_practical.Order
use msa_saga_go_practical.Payment
use msa_saga_go_practical.Inventory
use msa_saga_go_practical.Delivery

-- Every row is PENDING, or its message is with the broker.
abbrev pub AllSettled :
    {State : Type 0} → (State → List ProducerMessage) → List OutboxEvent × State → Type 0
AllSettled log (rows, st) = All (IsSettled (log st)) rows

-- At least once: over a whole run of the worker of any of the four services, whatever queries, scans,
-- iterations, publications and markings fail in its ticks, and with PENDING rows of fresh ids stored
-- in between, no row becomes SENT whose message is not with the broker: if before the run every row is
-- PENDING or has its message there, then so it is after the run.
pub workers_settle :
    (producer : Producer) (log : producer.State → List ProducerMessage)
    (signals : List (Signal Answers)) (rows : List OutboxEvent) (st : producer.State)
    → ProducerLaws producer log
    → HasDistinctIds (rows ++ stored_rows signals)
    → All (λ (e : OutboxEvent). e.status ≡ pending) (stored_rows signals)
    → All (IsSettled (log st)) rows
    → AllSettled log (Order.Worker.start producer signals rows st)
      × AllSettled log (Payment.Worker.start_outbox_worker producer signals rows st)
      × AllSettled log (Inventory.Worker.start producer signals rows st)
      × AllSettled log (Delivery.Worker.start producer signals rows st)
workers_settle producer log signals rows st laws d new h = (
  Order.Worker.start-IsSettled producer log laws signals rows st d new h,
  Payment.Worker.start_outbox_worker-IsSettled producer log laws signals rows st d new h,
  Inventory.Worker.start-IsSettled producer log laws signals rows st d new h,
  Delivery.Worker.start-IsSettled producer log laws signals rows st d new h,
)
