-- ===== src/Saga/Reasons.antt =====
-- What a refund and the end of an order have behind them, in services/order, services/payment,
-- services/inventory and services/delivery together.
use msa_saga_go_practical.Prelude.{◌≡◌, List, []}
use msa_saga_go_practical.Prelude.Text.{Text}
use msa_saga_go_practical.Common.Events.{EventType, PaymentFailedEvent, StockReservationFailedEvent}
use msa_saga_go_practical.Common.Decode.{
  unmarshal_payment_failed, unmarshal_stock_reservation_failed,
}
use msa_saga_go_practical.Common.Idempotency.{Redis}
use msa_saga_go_practical.Store.Provenance.{Tells-mark_sent}
use msa_saga_go_practical.Store.Announced.{Announces, Announces-mark_sent}
use msa_saga_go_practical.Order
use msa_saga_go_practical.Order.Provenance.{AllIn}
use msa_saga_go_practical.Order.Service.{create_order}
use msa_saga_go_practical.Order.Consistency.{no_others}
use msa_saga_go_practical.Order.Ended.{
  Ended, create_order-AllEnded, create_order-OnlyCreated, handle_message-AllEnded,
  handle_message-OnlyCreated,
}
use msa_saga_go_practical.Payment
use msa_saga_go_practical.Payment.Provenance.{IsPaid, SaysPaid}
use msa_saga_go_practical.Payment.Refunded.{
  AllRefunded, handle_message-AllRefunded, handle_message-Any, SaysRefused,
}
use msa_saga_go_practical.Inventory
use msa_saga_go_practical.Inventory.Provenance.{IsReserved, SaysReserved}
use msa_saga_go_practical.Delivery
use msa_saga_go_practical.Delivery.Provenance.{OnlyStarted}
use msa_saga_go_practical.Saga.System.{
  System, marked, Step, ordered, to_payment, back_to_payment, to_inventory, to_delivery,
  payment_to_order, stock_to_order, delivery_to_order, order_sent, payment_sent, stock_sent,
  delivery_sent, Reach, here, next,
}
use msa_saga_go_practical.Saga.Causality.{IsCausal, said}
use msa_saga_go_practical.Saga.Causes.{Step-IsCausal}
use msa_saga_go_practical.Saga.Announcements.{
  IsRefused, IsDeclined, orders_refuse_none, stock_refuses, stock_ends, payments_end,
  deliveries_end_none,
}
use msa_saga_go_practical.Common.Messaging.{Message}
use msa_saga_go_practical.Store.Session.{Env}
use msa_saga_go_practical.Payment.Service.{Gateway}
use msa_saga_go_practical.Payment.Received.{handle_message-HoldsIn}
use msa_saga_go_practical.Order.Ended.{SaysEnded}
use msa_saga_go_practical.Saga.Completion.{IsFresh, All-none, fresh-IsCausal}
use msa_saga_go_practical.Saga.Failures.{
  IsExplained, orders_move, payments_move, stock_moves, deliveries_move,
}

-- A message of the order service, and one of the stock, to the payments.
module _ (redis : Redis) (labels : List Text) (s : System) (x : IsExplained s) where
  charged :
      (st : redis.State) (gateway : Gateway) (env : Env) (msg : Message)
      → SaysRefused (IsRefused s.stock.committed.outbox) msg.topic msg.value
      → let payments = (Payment.Handler.handle_message redis gateway env msg s.payments st).1 in
        IsCausal (record s { payments = payments }) → IsExplained (record s { payments = payments })
  charged st gateway env msg says causal =
      let R = IsRefused s.stock.committed.outbox in
      payments_move s (Payment.Handler.handle_message redis gateway env msg s.payments st).1 causal
        (handle_message-HoldsIn redis gateway env s.payments st msg x.payments)
        (handle_message-AllRefunded redis gateway env s.payments st R msg x.payments says x.refunds)
        (λ order.
          handle_message-Any redis gateway env s.payments st
            (Announces EventType.payment_failed unmarshal_payment_failed
              (λ (e : PaymentFailedEvent). e.order_id) order)
            msg)
        x

  told :
      (st : redis.State) (env : Env) (msg : Message)
      → SaysEnded
          (IsRefused s.stock.committed.outbox)
          (IsDeclined s.payments.committed.outbox)
          msg.topic
          msg.value
      → let orders = (Order.Handler.handle_message redis no_others env msg s.orders st).1 in
        IsCausal (record s { orders = orders }) → IsExplained (record s { orders = orders })
  told st env msg says causal =
      let R = IsRefused s.stock.committed.outbox in
      let C = IsDeclined s.payments.committed.outbox in
      orders_move s (Order.Handler.handle_message redis no_others env msg s.orders st).1 causal
        (handle_message-OnlyCreated redis env s.orders st msg x.created)
        (handle_message-AllEnded redis env s.orders st R C msg says x.ended) x

module _ (redis : Redis) (labels : List Text) where
  -- A step keeps the reasons, whatever fails in it.
  Step-IsExplained : {s t : System} → Step redis labels s t → IsExplained s → IsExplained t
  Step-IsExplained {s} (ordered cmd env) x =
      let R = IsRefused s.stock.committed.outbox in
      let C = IsDeclined s.payments.committed.outbox in
      orders_move s (create_order cmd env s.orders).1
        (Step-IsCausal redis labels (ordered cmd env) x.causal)
        (create_order-OnlyCreated cmd env s.orders x.created)
        (create_order-AllEnded R C cmd env s.orders x.ended) x
  Step-IsExplained {s} (to_payment st gateway env msg came) x =
      let topic : msg.topic ≡ EventType.order_created =
        said (λ t p. t ≡ EventType.order_created) s.orders msg x.created came in
      charged redis labels s x st gateway env msg
        (orders_refuse_none (IsRefused s.stock.committed.outbox) msg.topic msg.value topic)
        (Step-IsCausal redis labels (to_payment st gateway env msg came) x.causal)
  Step-IsExplained {s} (back_to_payment st gateway env msg came) x =
      charged redis labels s x st gateway env msg (stock_refuses s.stock msg came)
        (Step-IsCausal redis labels (back_to_payment st gateway env msg came) x.causal)
  Step-IsExplained {s} (to_inventory st env msg came) x =
      stock_moves s (Inventory.Handler.event_handler redis labels env msg s.stock st).1
        (Step-IsCausal redis labels (to_inventory st env msg came) x.causal)
        (λ order. Inventory.Received.event_handler-Any redis labels env s.stock st msg (
          Announces EventType.stock_reservation_failed unmarshal_stock_reservation_failed
            (λ (e : StockReservationFailedEvent). e.order_id) order))
        x
  Step-IsExplained {s} (to_delivery st env msg came topic) x =
      deliveries_move s (Delivery.Handler.event_handler redis labels env msg s.deliveries st).1
        (Step-IsCausal redis labels (to_delivery st env msg came topic) x.causal)
        (Delivery.Provenance.event_handler-OnlyStarted redis labels env s.deliveries st msg
          x.started)
        x
  Step-IsExplained {s} (payment_to_order st env msg came) x =
      let P = IsPaid s.payments.committed.tables in
      told redis labels s x st env msg
        (payments_end P (IsRefused s.stock.committed.outbox) s.payments msg came
          (said (SaysPaid P) s.payments msg x.causal.paid_told came))
        (Step-IsCausal redis labels (payment_to_order st env msg came) x.causal)
  Step-IsExplained {s} (stock_to_order st env msg came) x =
      let P = IsReserved s.stock.committed.tables in
      told redis labels s x st env msg
        (stock_ends P (IsDeclined s.payments.committed.outbox) s.stock msg came
          (said (SaysReserved P) s.stock msg x.causal.reserved_told came))
        (Step-IsCausal redis labels (stock_to_order st env msg came) x.causal)
  Step-IsExplained {s} (delivery_to_order st env msg came) x =
      let topic : msg.topic ≡ EventType.delivery_started =
        said (λ t p. t ≡ EventType.delivery_started) s.deliveries msg x.started came in
      told redis labels s x st env msg
        (deliveries_end_none (IsRefused s.stock.committed.outbox)
          (IsDeclined s.payments.committed.outbox) msg.topic msg.value topic)
        (Step-IsCausal redis labels (delivery_to_order st env msg came) x.causal)
  Step-IsExplained {s} (order_sent now id) x =
      orders_move s (marked now id s.orders)
        (Step-IsCausal redis labels (order_sent now id) x.causal)
        (Tells-mark_sent (λ t p. t ≡ EventType.order_created) now id s.orders.committed.outbox
          x.created)
        x.ended x
  Step-IsExplained {s} (payment_sent now id) x =
      payments_move s (marked now id s.payments)
        (Step-IsCausal redis labels (payment_sent now id) x.causal) x.payments x.refunds
        (λ order.
          Announces-mark_sent EventType.payment_failed unmarshal_payment_failed
            (λ (e : PaymentFailedEvent). e.order_id) order now id s.payments.committed.outbox)
        x
  Step-IsExplained {s} (stock_sent now id) x =
      stock_moves s (marked now id s.stock)
        (Step-IsCausal redis labels (stock_sent now id) x.causal)
        (λ order.
          Announces-mark_sent EventType.stock_reservation_failed unmarshal_stock_reservation_failed
            (λ (e : StockReservationFailedEvent). e.order_id) order now id s.stock.committed.outbox)
        x
  Step-IsExplained {s} (delivery_sent now id) x =
      deliveries_move s (marked now id s.deliveries)
        (Step-IsCausal redis labels (delivery_sent now id) x.causal)
        (Tells-mark_sent (λ t p. t ≡ EventType.delivery_started) now id
          s.deliveries.committed.outbox x.started)
        x

  Reach-IsExplained : {s t : System} → Reach redis labels s t → IsExplained s → IsExplained t
  Reach-IsExplained here x = x
  Reach-IsExplained (next r st) x = Step-IsExplained st (Reach-IsExplained r x)

fresh-IsExplained :
    (s : System)
    → IsFresh s
    → s.payments.committed.tables ≡ []
    → s.orders.committed.outbox ≡ []
    → IsExplained s
fresh-IsExplained s f payments events = record {
  causal = fresh-IsCausal s f;
  created = All-none _ s.orders.committed.outbox events;
  started = All-none _ s.deliveries.committed.outbox f.delivery_events;
  payments = rw payments (record { rows = tt; ids = tt; keys = tt });
  refunds = All-none _ s.payments.committed.tables payments;
  ended = All-none _ s.orders.committed.tables f.orders;
}

-- A REFUNDED payment and a FAILED order have a refusal behind them, a CANCELED order a payment that
-- has failed.
abbrev pub HasReasons : System → Type 0
HasReasons t =
    AllRefunded (IsRefused t.stock.committed.outbox) t.payments.committed.tables
    × AllIn (Ended (IsRefused t.stock.committed.outbox) (IsDeclined t.payments.committed.outbox))
        t.orders.committed.tables

-- Whatever messages are delivered, in whatever order and however often, and whatever calls fail: from
-- a state without orders, payments, reservations, deliveries and events, the inventory service has
-- announced a failed reservation for the order of every REFUNDED payment and for every FAILED order,
-- and the payment service has announced a failed payment for every CANCELED order.
pub failures_have_causes :
    {redis : Redis} {labels : List Text} {s t : System}
    → IsFresh s
    → s.payments.committed.tables ≡ []
    → s.orders.committed.outbox ≡ []
    → Reach redis labels s t
    → HasReasons t
failures_have_causes {redis} {labels} {s} f payments events r =
    let x = Reach-IsExplained redis labels r (fresh-IsExplained s f payments events) in
    (x.refunds, x.ended)
