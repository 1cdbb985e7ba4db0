-- ===== src/Saga/Causes.antt =====
-- That every step of services/order, services/payment, services/inventory and services/delivery keeps
-- the causes of the saga's events.
use msa_saga_go_practical.Prelude.{List}
use mathlib.Core.Path.{subst}
use msa_saga_go_practical.Prelude.Text.{Text}
use msa_saga_go_practical.Common.Idempotency.{Redis}
use msa_saga_go_practical.Store.Provenance.{Tells-mark_sent}
use msa_saga_go_practical.Order.Provenance.{create_order-AllDone}
use msa_saga_go_practical.Order.Received.{handle_message-AllDone}
use msa_saga_go_practical.Order
use msa_saga_go_practical.Order.Service.{create_order}
use msa_saga_go_practical.Order.Consistency.{no_others}
use msa_saga_go_practical.Payment
use msa_saga_go_practical.Payment.Provenance.{IsPaid, SaysPaid}
use msa_saga_go_practical.Inventory
use msa_saga_go_practical.Inventory.Provenance.{IsReserved, SaysReserved}
use msa_saga_go_practical.Delivery
use msa_saga_go_practical.Delivery.Provenance.{IsDelivered, SaysStarted}
use msa_saga_go_practical.Saga.System.{
  System, marked, Step, ordered, to_payment, back_to_payment, to_inventory, to_delivery,
  payment_to_order, stock_to_order, delivery_to_order, order_sent, payment_sent, stock_sent,
  delivery_sent, Reach, here, next,
}
use msa_saga_go_practical.Saga.Causality.{
  IsCausal, said, paid_starts_none, reserved_starts_none, payments_move, stock_moves,
  deliveries_move, orders_move,
}

module _ (redis : Redis) (labels : List Text) where
  -- A step keeps the causes, whatever fails in it.
  pub Step-IsCausal : {s t : System} → Step redis labels s t → IsCausal s → IsCausal t
  Step-IsCausal {s} (ordered cmd env) c =
      let P = IsDelivered s.deliveries.committed.tables in
      orders_move s (create_order cmd env s.orders).1
        (create_order-AllDone cmd env s.orders P c.done) c
  Step-IsCausal {s} (to_payment st gateway env msg came) c =
      payments_move s (Payment.Handler.handle_message redis gateway env msg s.payments st).1
        (Payment.Received.handle_message-IsPaid redis gateway env s.payments st msg)
        (Payment.Received.handle_message-IsTrue redis gateway env s.payments st msg c.paid_told) c
  Step-IsCausal {s} (back_to_payment st gateway env msg came) c =
      payments_move s (Payment.Handler.handle_message redis gateway env msg s.payments st).1
        (Payment.Received.handle_message-IsPaid redis gateway env s.payments st msg)
        (Payment.Received.handle_message-IsTrue redis gateway env s.payments st msg c.paid_told) c
  Step-IsCausal {s} (to_inventory st env msg came) c =
      let P = IsPaid s.payments.committed.tables in
      stock_moves s (Inventory.Handler.event_handler redis labels env msg s.stock st).1
        (Inventory.Received.event_handler-IsReserved redis labels env s.stock st msg)
        (Inventory.Received.event_handler-IsTrue redis labels env s.stock st msg c.reserved_told)
        (Inventory.Received.event_handler-AllFor redis labels env s.stock st msg P
          (said (SaysPaid P) s.payments msg c.paid_told came) c.reserved_for)
        c
  Step-IsCausal {s} (to_delivery st env msg came topic) c =
      let P = IsReserved s.stock.committed.tables in
      let says : SaysReserved P msg.topic msg.value =
        said (SaysReserved P) s.stock msg c.reserved_told came in
      deliveries_move s (Delivery.Handler.event_handler redis labels env msg s.deliveries st).1
        (Delivery.Provenance.event_handler-IsDelivered redis labels env s.deliveries st msg)
        (Delivery.Provenance.event_handler-IsTrue redis labels env s.deliveries st msg
          c.delivered_told)
        (Delivery.Provenance.event_handler-AllFor redis labels env s.deliveries st msg P
          (subst (λ t. SaysReserved P t msg.value) topic says) c.delivered_for)
        c
  Step-IsCausal {s} (payment_to_order st env msg came) c =
      let P = IsDelivered s.deliveries.committed.tables in
      let Q = IsPaid s.payments.committed.tables in
      orders_move s (Order.Handler.handle_message redis no_others env msg s.orders st).1
        (handle_message-AllDone redis env s.orders st P msg
          (paid_starts_none Q P msg.topic msg.value
            (said (SaysPaid Q) s.payments msg c.paid_told came))
          c.done)
        c
  Step-IsCausal {s} (stock_to_order st env msg came) c =
      let P = IsDelivered s.deliveries.committed.tables in
      let Q = IsReserved s.stock.committed.tables in
      orders_move s (Order.Handler.handle_message redis no_others env msg s.orders st).1
        (handle_message-AllDone redis env s.orders st P msg
          (reserved_starts_none Q P msg.topic msg.value
            (said (SaysReserved Q) s.stock msg c.reserved_told came))
          c.done)
        c
  Step-IsCausal {s} (delivery_to_order st env msg came) c =
      let P = IsDelivered s.deliveries.committed.tables in
      orders_move s (Order.Handler.handle_message redis no_others env msg s.orders st).1
        (handle_message-AllDone redis env s.orders st P msg
          (said (SaysStarted P) s.deliveries msg c.delivered_told came) c.done)
        c
  Step-IsCausal {s} (order_sent now id) c = orders_move s (marked now id s.orders) c.done c
  Step-IsCausal {s} (payment_sent now id) c =
      payments_move s (marked now id s.payments) (λ order h. h)
        (Tells-mark_sent (SaysPaid (IsPaid s.payments.committed.tables)) now id
          s.payments.committed.outbox c.paid_told)
        c
  Step-IsCausal {s} (stock_sent now id) c =
      stock_moves s (marked now id s.stock) (λ order h. h)
        (Tells-mark_sent (SaysReserved (IsReserved s.stock.committed.tables)) now id
          s.stock.committed.outbox c.reserved_told)
        c.reserved_for c
  Step-IsCausal {s} (delivery_sent now id) c =
      deliveries_move s (marked now id s.deliveries) (λ order h. h)
        (Tells-mark_sent (SaysStarted (IsDelivered s.deliveries.committed.tables)) now id
          s.deliveries.committed.outbox c.delivered_told)
        c.delivered_for c

  pub Reach-IsCausal : {s t : System} → Reach redis labels s t → IsCausal s → IsCausal t
  Reach-IsCausal here c = c
  Reach-IsCausal (next r st) c = Step-IsCausal st (Reach-IsCausal r c)
