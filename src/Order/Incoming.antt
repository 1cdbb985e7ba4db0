-- ===== src/Order/Incoming.antt =====
-- The six event handlers of services/order/internal/service/order_service.go as one function, and
-- what each is meant to do to the status of the order that it names.
use msa_saga_go_practical.Prelude.{ℕ, Option, none, some, List}
use msa_saga_go_practical.Prelude.Int.{ℤ}
use msa_saga_go_practical.Common.Events.{
  PaymentCompletedEvent, PaymentFailedEvent, StockReservedEvent, StockReservationFailedEvent,
  DeliveryStartedEvent, DeliveryFailedEvent,
}
use msa_saga_go_practical.Store.Session.{Env, M}
use msa_saga_go_practical.Order.Domain.{
  Order, OrderStatus, pending, stock_reserving, delivery_preparing, completed, canceled, failed,
}
use msa_saga_go_practical.Order.Repository.{set_status}
use msa_saga_go_practical.Order.Service.{
  handle_payment_completed, handle_payment_failed, handle_stock_reserved,
  handle_stock_reservation_failed, handle_delivery_started, handle_delivery_failed,
}

-- The events that the order service receives.
pub data Incoming : Type 0 where
  payment_completed : PaymentCompletedEvent → Incoming
  payment_failed : PaymentFailedEvent → Incoming
  stock_reserved : StockReservedEvent → Incoming
  stock_reservation_failed : StockReservationFailedEvent → Incoming
  delivery_started : DeliveryStartedEvent → Incoming
  delivery_failed : DeliveryFailedEvent → Incoming

abbrev pub order_of : Incoming → ℤ
order_of (Incoming.payment_completed e) = e.order_id
order_of (Incoming.payment_failed e) = e.order_id
order_of (Incoming.stock_reserved e) = e.order_id
order_of (Incoming.stock_reservation_failed e) = e.order_id
order_of (Incoming.delivery_started e) = e.order_id
order_of (Incoming.delivery_failed e) = e.order_id

module _ (others : List Order → List Order) (env : Env) where
  unfoldable pub handle : Incoming → M (List Order) (Unit {0})
  unfolding handle_payment_completed handle_payment_failed handle_stock_reserved
      handle_stock_reservation_failed handle_delivery_started handle_delivery_failed
  handle (Incoming.payment_completed e) = handle_payment_completed others env e
  handle (Incoming.payment_failed e) = handle_payment_failed others env e
  handle (Incoming.stock_reserved e) = handle_stock_reserved others env e
  handle (Incoming.stock_reservation_failed e) = handle_stock_reservation_failed others env e
  handle (Incoming.delivery_started e) = handle_delivery_started others env e
  handle (Incoming.delivery_failed e) = handle_delivery_failed others env e

-- The specification: the status that an event leads to from a status, or none if it is ignored.
-- The steps forward wait for the status before; the failures are taken from every status.
abbrev pub next : Incoming → OrderStatus → Option OrderStatus
next (Incoming.payment_completed e) pending = some stock_reserving
next (Incoming.payment_completed e) _ = none
next (Incoming.stock_reserved e) stock_reserving = some delivery_preparing
next (Incoming.stock_reserved e) _ = none
next (Incoming.delivery_started e) delivery_preparing = some completed
next (Incoming.delivery_started e) _ = none
next (Incoming.payment_failed e) _ = some canceled
next (Incoming.stock_reservation_failed e) _ = some failed
next (Incoming.delivery_failed e) _ = some failed

-- The row after an UPDATE to a status, if there is one to go to.
abbrev pub moved : Option OrderStatus → ℕ → Order → Order
moved none now o = o
moved (some status) now o = set_status status now o

-- The row after the event.
abbrev pub advance : Incoming → ℕ → Order → Order
advance m now o = moved (next m o.status) now o
