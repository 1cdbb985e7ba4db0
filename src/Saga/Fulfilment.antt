-- ===== src/Saga/Fulfilment.antt =====
-- That an order goes through services/order, services/payment, services/inventory and
-- services/delivery to its end when nothing fails.
use msa_saga_go_practical.Prelude.{suc, ◌≡◌, ap, refl, some, List}
use msa_saga_go_practical.Prelude.Int.{pos}
use msa_saga_go_practical.Prelude.Text.{Text}
use msa_saga_go_practical.Common.Idempotency.{Redis, RedisFrame}
use msa_saga_go_practical.Store.Table.{find}
use msa_saga_go_practical.Order.Domain.{Order, OrderStatus}
use msa_saga_go_practical.Order.Repository.{has_id}
use msa_saga_go_practical.Order.Service.{CreateOrderCommand}
use msa_saga_go_practical.Order.Creation.{created_event}
use msa_saga_go_practical.Payment.Service.{Gateway}
use msa_saga_go_practical.Payment.Charging.{paid_event}
use msa_saga_go_practical.Inventory.Outcome.{reserved_event}
use msa_saga_go_practical.Delivery.Starting.{started_event}
use msa_saga_go_practical.Saga.System.{System, CameFrom}
use msa_saga_go_practical.Saga.HappyPath.{
  Calls, created, completed, reserved, created_message, completed_message, reserved_message,
  delivered_message, IsReady, placed, charged, taken, shipped, last_news, finished,
}
use msa_saga_go_practical.Saga.Run.{Run}
use msa_saga_go_practical.Saga.Serving.{sent, places, charges, reserves, starts, payment_serves}
use msa_saga_go_practical.Saga.Progress.{fourth, take_eq, ship_eq, found_last}

module _ (redis : Redis) (frame : RedisFrame redis) (labels : List Text) (gateway : Gateway)
    (calls : Calls) (cmd : CreateOrderCommand) (st : redis.State) (s : System)
    (ready : IsReady gateway calls cmd s redis labels st) where
  -- The messages are rows of the senders' outboxes.
  created_came :
      CameFrom
        (placed gateway calls cmd s redis labels st).orders
        (created_message gateway calls cmd s)
  created_came =
      let row = created_event cmd calls.ordering s.orders in
      (
        row,
        sent (placed gateway calls cmd s redis labels st).orders row s.orders.committed.outbox
            (places redis labels gateway calls cmd st s ready).1,
        (refl, refl),
      )

  completed_came :
      CameFrom
        (charged gateway calls cmd s redis labels st).payments
        (completed_message gateway calls cmd s)
  completed_came =
      let row = paid_event gateway calls.charging (created gateway calls cmd s) s.payments in
      let (_, _, outbox) = charges redis labels gateway calls cmd st s ready in
      (
        row,
        sent (charged gateway calls cmd s redis labels st).payments row s.payments.committed.outbox
            (rw (payment_serves redis labels gateway calls cmd st s ready st ready.created_unmarked)
              outbox),
        (refl, refl),
      )

  reserved_came :
      CameFrom
        (taken gateway calls cmd s redis labels st).stock
        (reserved_message gateway calls cmd s)
  reserved_came =
      let row = reserved_event calls.reserving (completed gateway calls cmd s) s.stock in
      (
        row,
        sent (taken gateway calls cmd s redis labels st).stock row s.stock.committed.outbox (
            rw (take_eq redis frame labels gateway calls cmd st s ready)
              (ap (λ d. d.outbox) (reserves redis labels gateway calls cmd st s ready).1)),
        (refl, refl),
      )

  delivered_came :
      CameFrom
        (shipped gateway calls cmd s redis labels st).deliveries
        (delivered_message gateway calls cmd s)
  delivered_came =
      let row = started_event calls.starting (reserved gateway calls cmd s) s.deliveries in
      (
        row,
        sent (shipped gateway calls cmd s redis labels st).deliveries row
            s.deliveries.committed.outbox
            (rw (ship_eq redis frame labels gateway calls cmd st s ready)
              (ap (λ d. d.outbox) (starts redis labels gateway calls cmd st s ready).1)),
        (refl, refl),
      )

  course :
      Run redis labels s st
        (finished gateway calls cmd s redis labels st)
        (last_news gateway calls cmd s redis labels st).2
  course =
      Run.order_hears_delivery
        (Run.delivery_hears
          (Run.order_hears_stock
            (Run.inventory_hears
              (Run.order_hears_payment
                (Run.payment_hears_order (Run.order Run.idle cmd calls.ordering) gateway
                  calls.charging (created_message gateway calls cmd s) created_came)
                calls.updating (completed_message gateway calls cmd s) completed_came)
              calls.reserving (completed_message gateway calls cmd s) completed_came)
            calls.updating (reserved_message gateway calls cmd s) reserved_came)
          calls.starting (reserved_message gateway calls cmd s) reserved_came refl)
        calls.updating (delivered_message gateway calls cmd s) delivered_came

  -- Over consistent orders, when no call fails, the gateway accepts the payment, the product has
  -- stock, PREPARING is a label, the keys that are made on the way have at most 64 code points, the
  -- events of the three senders have different ids, and the store knows none of the events for the
  -- services that hear them, a well-formed command with a new key comes to its end: there is a run of
  -- the four services, in which each handler meets the store as the one before has left it, from the
  -- present state to one in which its order is COMPLETED, with the command's key and amount.
  pub order_completes :
      (t : System) × (m : redis.State) × Run redis labels s st t m
      × (o : Order) × (find (has_id (pos (suc s.orders.serial))) t.orders.committed.tables ≡ some o)
      × (o.status ≡ OrderStatus.completed)
      × (o.idempotency_key ≡ cmd.idempotency_key)
      × (o.amount ≡ cmd.amount)
  order_completes = (
    finished gateway calls cmd s redis labels st,
    (last_news gateway calls cmd s redis labels st).2,
    course,
    fourth redis frame labels gateway calls cmd st s ready,
    found_last redis frame labels gateway calls cmd st s ready,
    refl,
    refl,
    refl,
  )
