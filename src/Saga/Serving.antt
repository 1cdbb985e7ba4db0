-- ===== src/Saga/Serving.antt =====
-- What each of services/order, services/payment, services/inventory and services/delivery does on the
-- course of an order when nothing fails.
use msa_saga_go_practical.Prelude.{◌≡◌, ap, refl, List, [], ◌∷◌}
use mathlib.Core.List.{Memᴰ}
use msa_saga_go_practical.Prelude.Text.{Text}
use msa_saga_go_practical.Common.Result.{ok}
use msa_saga_go_practical.Common.Wire.{Event}
use msa_saga_go_practical.Common.Decode.{
  unmarshal_order_created, unmarshal_payment_completed, unmarshal_stock_reserved,
}
use msa_saga_go_practical.Common.RoundTrip.{unmarshal-marshal}
use msa_saga_go_practical.Common.Idempotency.{Redis}
use msa_saga_go_practical.Common.Once.{once_done, IsUnmarked, after_mark}
use msa_saga_go_practical.Store.Table.{insert}
use msa_saga_go_practical.Store.Session.{OutboxEvent, Session}
use msa_saga_go_practical.Order.Service.{CreateOrderCommand, create_order}
use msa_saga_go_practical.Order.Creation.{created_order, created_event, create_order_creates}
use msa_saga_go_practical.Payment
use msa_saga_go_practical.Payment.Service.{Gateway, handle_order_created}
use msa_saga_go_practical.Payment.Charging.{paid, paid_event, handle_order_created_charges}
use msa_saga_go_practical.Inventory
use msa_saga_go_practical.Inventory.Service.{handle_payment_completed}
use msa_saga_go_practical.Inventory.Outcome.{with_reservation}
use msa_saga_go_practical.Inventory.Reservation.{handle_payment_completed_reserves}
use msa_saga_go_practical.Delivery
use msa_saga_go_practical.Delivery.Service.{handle_stock_reserved}
use msa_saga_go_practical.Delivery.Starting.{with_delivery, handle_stock_reserved_starts}
use msa_saga_go_practical.Saga.System.{System}
use msa_saga_go_practical.Saga.HappyPath.{
  Calls, created, completed, reserved, created_message, completed_message, reserved_message,
  IsReady,
}

mem-insert : {R : Type 0} (r : R) (t : List R) → Memᴰ r (insert r t)
mem-insert r [] = Memᴰ.head refl
mem-insert r (x ∷ t) = Memᴰ.tail (mem-insert r t)

-- What has been inserted last is in the outbox.
pub sent :
    {T : Type 0} (s : Session T) (x : OutboxEvent) (t : List OutboxEvent)
    → s.committed.outbox ≡ insert x t
    → Memᴰ x s.committed.outbox
sent s x t h = rw h (mem-insert x t)

module _ (redis : Redis) (labels : List Text) (gateway : Gateway) (calls : Calls)
    (cmd : CreateOrderCommand) (st : redis.State) (s : System)
    (ready : IsReady gateway calls cmd s redis labels st) where
  pub places :
      let env = calls.ordering in
      let s' = (create_order cmd env s.orders).1 in
      (s'.committed.tables ≡ insert (created_order cmd env s.orders) s.orders.committed.tables)
      × (s'.committed.outbox ≡ insert (created_event cmd env s.orders) s.orders.committed.outbox)
  places =
      let quiet = ready.ordering_quiet in
      let (_, tables, outbox) =
        create_order_creates cmd calls.ordering s.orders ready.unordered ready.command
          (ap (λ f. f.begin) quiet) (ap (λ f. f.create) quiet) (ap (λ f. f.marshal) quiet)
          (ap (λ f. f.insert_event) quiet) (ap (λ f. f.commit) quiet) in
      (tables, outbox)

  pub charges :
      let env = calls.charging in
      let evt = created gateway calls cmd s in
      let (r, s') = handle_order_created gateway env evt s.payments in
      (r ≡ ok tt)
      × (s'.committed.tables ≡ insert (paid gateway env evt s.payments) s.payments.committed.tables)
      × (s'.committed.outbox
          ≡ insert (paid_event gateway env evt s.payments) s.payments.committed.outbox)
  charges =
      let quiet = ready.charging_quiet in
      handle_order_created_charges gateway calls.charging (created gateway calls cmd s) s.payments
        ready.unpaid ready.short_payment_key ready.accepted (ap (λ f. f.begin) quiet)
        (ap (λ f. f.create) quiet) (ap (λ f. f.marshal) quiet) (ap (λ f. f.insert_event) quiet)
        (ap (λ f. f.commit) quiet)

  pub reserves :
      let evt = completed gateway calls cmd s in
      let (r, s') = handle_payment_completed calls.reserving evt s.stock in
      (r ≡ ok tt) × (s'.committed ≡ with_reservation ready.shelf calls.reserving evt s.stock)
  reserves =
      handle_payment_completed_reserves calls.reserving (completed gateway calls cmd s) s.stock
        ready.shelf ready.stocked ready.available ready.unreserved ready.short_reservation_key
        ready.reserving_quiet

  pub starts :
      let evt = reserved gateway calls cmd s in
      let (r, s') = handle_stock_reserved labels calls.starting evt s.deliveries in
      (r ≡ ok tt) × (s'.committed ≡ with_delivery calls.starting evt s.deliveries)
  starts =
      handle_stock_reserved_starts labels calls.starting (reserved gateway calls cmd s) s.deliveries
        ready.undelivered ready.short_delivery_key ready.labelled ready.starting_quiet

  -- The handlers decode what was sent, hand it to the services and mark it, if the store does not know
  -- the event.
  module _ (m : redis.State) where
    pub payment_serves :
        let id = (created gateway calls cmd s).base.event_id in
        IsUnmarked redis Payment.Handler.store_prefix id m
        → Payment.Handler.handle_message redis gateway calls.charging
            (created_message gateway calls cmd s)
            s.payments
            m
          ≡ (
            ok tt,
            (handle_order_created gateway calls.charging
                (created gateway calls cmd s)
                s.payments).1,
            after_mark redis Payment.Handler.store_prefix id m,
          )
    unfolding Payment.Handler.handle_message Payment.Handler.on_order_created
    payment_serves new =
        let evt = created gateway calls cmd s in
        once_done redis Payment.Handler.store_prefix unmarshal_order_created
          (λ evt. evt.base.event_id) (handle_order_created gateway calls.charging)
          (created_message gateway calls cmd s).value evt
          (unmarshal-marshal (Event.order_created evt) tt) s.payments m new charges.0

    pub stock_serves :
        let id = (completed gateway calls cmd s).base.event_id in
        IsUnmarked redis Inventory.Handler.store_prefix id m
        → Inventory.Handler.event_handler redis labels calls.reserving
            (completed_message gateway calls cmd s)
            s.stock
            m
          ≡ (
            ok tt,
            (handle_payment_completed calls.reserving (completed gateway calls cmd s) s.stock).1,
            after_mark redis Inventory.Handler.store_prefix id m,
          )
    unfolding Inventory.Handler.event_handler Inventory.Handler.dispatch
    stock_serves new =
        let evt = completed gateway calls cmd s in
        once_done redis Inventory.Handler.store_prefix unmarshal_payment_completed
          (λ evt. evt.base.event_id) (handle_payment_completed calls.reserving)
          (completed_message gateway calls cmd s).value evt
          (unmarshal-marshal (Event.payment_completed evt) tt) s.stock m new reserves.0

    pub delivery_serves :
        let id = (reserved gateway calls cmd s).base.event_id in
        IsUnmarked redis Delivery.Handler.store_prefix id m
        → Delivery.Handler.event_handler redis labels calls.starting
            (reserved_message gateway calls cmd s)
            s.deliveries
            m
          ≡ (
            ok tt,
            (handle_stock_reserved labels calls.starting
                (reserved gateway calls cmd s)
                s.deliveries).1,
            after_mark redis Delivery.Handler.store_prefix id m,
          )
    unfolding Delivery.Handler.event_handler
    delivery_serves new =
        let evt = reserved gateway calls cmd s in
        once_done redis Delivery.Handler.store_prefix unmarshal_stock_reserved
          (λ evt. evt.base.event_id) (handle_stock_reserved labels calls.starting)
          (reserved_message gateway calls cmd s).value evt
          (unmarshal-marshal (Event.stock_reserved evt) tt) s.deliveries m new starts.0
