-- ===== src/Examples/Saga.antt =====
-- The theorems on the whole saga, applied to the run of an order.
use msa_saga_go_practical.Prelude.{◌≡◌, ◌⊎◌, ◌++◌, inl, refl, true, false, List, [], ◌∷◌}
use mathlib.Core.List.{Memᴰ}
use msa_saga_go_practical.Prelude.Int.{pos, eq_ℤ, int_eq}
use msa_saga_go_practical.Common.Events.{EventType}
use msa_saga_go_practical.Common.Result.{ok}
use msa_saga_go_practical.Common.Wire.{object, num}
use msa_saga_go_practical.Common.Messaging.{Producer, ProducerMessage}
use msa_saga_go_practical.Store.Table.{find, All}
use msa_saga_go_practical.Store.Session.{OutboxEvent}
use msa_saga_go_practical.Order
use msa_saga_go_practical.Payment
use msa_saga_go_practical.Inventory
use msa_saga_go_practical.Delivery
use msa_saga_go_practical.Payment.Provenance.{IsPaid}
use msa_saga_go_practical.Inventory.Provenance.{IsReserved}
use msa_saga_go_practical.Delivery.Provenance.{IsDelivered}
use msa_saga_go_practical.Saga.Completion.{completed_has_causes}
use msa_saga_go_practical.Wiring.Config.{Environment}
use msa_saga_go_practical.Wiring.Process.{Boot, signaled, run}
use msa_saga_go_practical.Wiring.Orderly.{IsOrderly}
use msa_saga_go_practical.Saga.Startup.{main-IsOrderly}
use msa_saga_go_practical.Saga.Topics.{IsRead, events_find_readers}
use msa_saga_go_practical.Saga.Workers.{AllSettled, workers_settle}
use msa_saga_go_practical.Store.Rows.{Answers}
use msa_saga_go_practical.Store.Batch.{all_answered}
use msa_saga_go_practical.Store.Worker.{Signal, tick, stored, canceled}
use msa_saga_go_practical.Store.Publishing.{ProducerLaws}
use msa_saga_go_practical.Store.Running.{HasDistinctIds, stored_rows}
use msa_saga_go_practical.Common.Idempotency.{is_processed}
use msa_saga_go_practical.Saga.HappyPath.{Calls, IsReady}
use msa_saga_go_practical.Saga.Fulfilment.{order_completes}
use msa_saga_go_practical.Saga.Run.{Run}
use msa_saga_go_practical.Examples.Common.{server, server_frame}
use msa_saga_go_practical.Store.Session.{Env}
use msa_saga_go_practical.Prelude.{ℕ}
use msa_saga_go_practical.Prelude.Text.{Text}
use msa_saga_go_practical.Saga.System.{System}
use msa_saga_go_practical.Order.Domain.{Order, OrderStatus}
use msa_saga_go_practical.Store.Table.{find}
use msa_saga_go_practical.Prelude.Decimal.{dashed}
use msa_saga_go_practical.Payment.Service.{payment_key}
use msa_saga_go_practical.Prelude.{arith, refl, some, ◌≡◌}
use msa_saga_go_practical.Prelude.Text.{text}
use msa_saga_go_practical.Prelude.Int.{eq_ℤ, pos}
use msa_saga_go_practical.Examples.{calm}
use msa_saga_go_practical.Saga.Reasons.{HasReasons, failures_have_causes}
use msa_saga_go_practical.Examples.Refusal.{failed, ended, sold_out-IsFresh}
use msa_saga_go_practical.Examples.Course.{
  laptop, shelf, lucky, first_of, opening, finished, delivered_order, course, reached,
  opening-IsFresh,
}

completed_has_causes_example :
    IsDelivered finished.deliveries.committed.tables (pos 2)
    × IsReserved finished.stock.committed.tables (pos 2)
    × IsPaid finished.payments.committed.tables (pos 2)
completed_has_causes_example =
    let (charged_event, taken_event, shipped_event, stock_topic, found) = course in
    completed_has_causes (pos 2) delivered_order opening-IsFresh reached found refl

-- The command comes to a system in which nothing is in its way.
abbrev at : ℕ → Text → Env
at now id = record calm { now = now; event_id = id }

abbrev days : Calls
days = record {
  ordering = at 1000 (text "event-1");
  charging = at 2000 (text "event-2");
  reserving = at 3000 (text "event-3");
  starting = at 4000 (text "event-4");
  updating = at 5000 (text "event-5");
}

laptop-IsReady : IsReady lucky days laptop opening server Delivery.Repository.shipped_labels []
unfolding find is_processed text payment_key dashed eq_ℤ Inventory.Service.reservation_key
    Delivery.Service.delivery_key Delivery.Repository.has_label Delivery.Repository.shipped_labels
laptop-IsReady = record {
  ordering_quiet = refl;
  charging_quiet = refl;
  reserving_quiet = refl;
  starting_quiet = refl;
  updating_quiet = refl;
  reserved_fresh = λ h. ground arith;
  delivered_fresh = λ h. ground arith;
  delivered_later = λ h. ground arith;
  created_unmarked = refl;
  completed_unheard = refl;
  completed_unmarked = refl;
  reserved_unheard = refl;
  reserved_unmarked = refl;
  delivered_unheard = refl;
  orders = record { rows = tt; ids = tt; keys = tt; events = tt };
  command = (omega arith, omega arith, omega arith);
  unordered = refl;
  accepted = omega arith;
  unpaid = refl;
  short_payment_key = omega arith;
  shelf = shelf;
  stocked = refl;
  available = omega arith;
  unreserved = refl;
  short_reservation_key = omega arith;
  undelivered = refl;
  short_delivery_key = omega arith;
  labelled = refl;
}

order_completes_example :
    (t : System) × (m : List Text) × Run server Delivery.Repository.shipped_labels opening [] t m
    × (o : Order) × (find (Order.Repository.has_id (pos 2)) t.orders.committed.tables ≡ some o)
    × (o.status ≡ OrderStatus.completed)
    × (o.idempotency_key ≡ text "b")
    × (o.amount ≡ pos 1200)
order_completes_example =
    order_completes server server_frame Delivery.Repository.shipped_labels lucky days laptop []
      opening laptop-IsReady

failures_have_causes_example : HasReasons failed
failures_have_causes_example = failures_have_causes sold_out-IsFresh refl refl ended

-- The start of a process whose consumer cannot be created.
abbrev no_kafka : Boot
no_kafka = record {
  new_logger = false;
  open_database = false;
  ping_database = false;
  ping_redis = false;
  new_publisher = false;
  new_consumer = true;
  ending = signaled;
}

abbrev bare : Environment
bare name = []

main-IsOrderly_example :
    IsOrderly (run (Order.Main.main no_kafka bare))
    × IsOrderly (run (Payment.Main.main no_kafka bare))
    × IsOrderly (run (Inventory.Main.main no_kafka bare))
    × IsOrderly (run (Delivery.Main.main no_kafka bare))
main-IsOrderly_example = main-IsOrderly no_kafka bare

events_find_readers_example :
    All (λ (x : OutboxEvent). IsRead x.event_type) finished.payments.committed.outbox
    × All
        (λ (x : OutboxEvent). IsRead x.event_type ⊎ (x.event_type ≡ EventType.stock_restored))
        finished.stock.committed.outbox
events_find_readers_example = events_find_readers opening-IsFresh reached

-- A broker that takes every message, and the order service's outbox in a run.
abbrev broker : Producer
broker = record { State = List ProducerMessage; send = λ m l. (ok tt, m ∷ l) }

abbrev all_of : List ProducerMessage → List ProducerMessage
all_of l = l

broker_laws : ProducerLaws broker all_of
broker_laws = record { kept = λ m x st h. Memᴰ.tail h; sent = λ m st h. Memᴰ.head refl }

abbrev waiting : OutboxEvent
waiting = record (first_of []) {
  id = pos 1;
  event_type = EventType.order_created;
  payload = object (("orderId", num (pos 7)) ∷ []);
}

abbrev newer : OutboxEvent
newer = record waiting { id = pos 3 }

abbrev signals : List (Signal Answers)
signals =
    tick (record (all_answered 50) { mark_fails = λ id. true })
    ∷ stored newer
    ∷ tick (all_answered 60)
    ∷ canceled
    ∷ []

signals-HasDistinctIds : HasDistinctIds ((waiting ∷ []) ++ stored_rows signals)
unfolding find eq_ℤ
signals-HasDistinctIds = (refl, (refl, tt))

workers_settle_example :
    AllSettled all_of (Order.Worker.start broker signals (waiting ∷ []) [])
    × AllSettled all_of (Payment.Worker.start_outbox_worker broker signals (waiting ∷ []) [])
    × AllSettled all_of (Inventory.Worker.start broker signals (waiting ∷ []) [])
    × AllSettled all_of (Delivery.Worker.start broker signals (waiting ∷ []) [])
workers_settle_example =
    workers_settle broker all_of signals (waiting ∷ []) [] broker_laws signals-HasDistinctIds
      (refl, tt) (inl refl, tt)
