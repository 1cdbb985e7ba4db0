-- ===== src/Order/Service.antt =====
-- services/order/internal/service/order_service.go.
use msa_saga_go_practical.Prelude.{
  ℕ, Bool, true, false, Option, none, some, List, [], if◌then◌else◌,
}
use msa_saga_go_practical.Prelude.Int.{ℤ, pos, leb_ℤ}
use msa_saga_go_practical.Prelude.Text.{Text, text}
use msa_saga_go_practical.Common.Errors.{Error, ErrorCode}
use msa_saga_go_practical.Common.Events.{
  EventType, new_base, OrderCreatedEvent, PaymentCompletedEvent, PaymentFailedEvent,
  StockReservedEvent, StockReservationFailedEvent, DeliveryStartedEvent, DeliveryFailedEvent,
}
use msa_saga_go_practical.Common.Wire.{Event}
use msa_saga_go_practical.Common.Result.{ok, err}
use msa_saga_go_practical.Store.Session.{
  Session, Env, M, pure, ◌>>=◌, ◌>>◌, fail_if, on_error, transaction, commit, on_tables, write_db,
}
use msa_saga_go_practical.Store.Outbox.{new_outbox_event, insert_tx}
use msa_saga_go_practical.Order.Domain.{
  Order, OrderStatus, status_eq, pending, stock_reserving, delivery_preparing, completed, canceled,
  failed,
}
use msa_saga_go_practical.Order.Repository.{
  create, find_by_id, find_by_idempotency_key, update_status_with_version,
}

pub record CreateOrderCommand : Type 0 where
  pub user_id : ℤ
  pub amount : ℤ
  pub quantity : ℤ
  pub idempotency_key : Text

pub record CreateOrderResult : Type 0 where
  pub order_id : ℤ
  pub status : OrderStatus

abbrev pub result_of : Order → CreateOrderResult
result_of o = record { order_id = o.id; status = o.status }

-- The order that `CreateOrder` builds; the INSERT gives the id and the version.
abbrev pub new_order : CreateOrderCommand → ℕ → Order
new_order cmd now = record {
  id = pos 0;
  user_id = cmd.user_id;
  amount = cmd.amount;
  quantity = cmd.quantity;
  status = pending;
  version = 0;
  idempotency_key = cmd.idempotency_key;
  created_at = now;
  updated_at = now;
}

abbrev pub order_created_event : Env → Order → OrderCreatedEvent
order_created_event env o = record {
  base = new_base EventType.order_created env.event_id env.now env.correlation_id;
  order_id = o.id;
  user_id = o.user_id;
  amount = o.amount;
  quantity = o.quantity;
}

abbrev pub database_error : Text → Error → Error
database_error message = Error.wrap ErrorCode.database_error message

-- The part of `CreateOrder` between `BeginTx` and the return. The order goes to the pool, and only
-- the event to the transaction.
create_body : CreateOrderCommand → Env → M (List Order) CreateOrderResult
unfolding create insert_tx
create_body cmd env = do
  order ←
      on_error (database_error (text "failed to create order"))
        (create env.faults.create (new_order cmd env.now))
  fail_if env.faults.marshal
      (Error.wrap ErrorCode.serialization_error (text "failed to marshal event") Error.driver)
  on_error (database_error (text "failed to insert outbox event")) (
      insert_tx env.faults.insert_event (
        new_outbox_event (text "order") order.id EventType.order_created
          (Event.order_created (order_created_event env order)) env.now))
  on_error (database_error (text "failed to commit transaction")) (commit env.faults.commit)
  pure (result_of order)

create_new : CreateOrderCommand → Env → M (List Order) CreateOrderResult
unfolding create_body
create_new cmd env = do
  fail_if (leb_ℤ cmd.amount (pos 0))
      (Error.new ErrorCode.invalid_order (text "amount must be positive"))
  fail_if (leb_ℤ cmd.quantity (pos 0))
      (Error.new ErrorCode.invalid_order (text "quantity must be positive"))
  transaction env.faults.begin (database_error (text "failed to begin transaction") Error.driver)
      (create_body cmd env)

abbrev is_empty : Text → Bool
is_empty [] = true
is_empty _ = false

-- The order that an earlier call with the same key has created. Any error of the query counts as
-- "there is none".
unfoldable pub existing_order : CreateOrderCommand → Env → Session (List Order) → Option Order
unfolding find_by_idempotency_key
existing_order cmd env s =
    if is_empty cmd.idempotency_key
    then none
    else elim ((find_by_idempotency_key env.faults.find_key cmd.idempotency_key s).0) [
      | ok o ↦ some o
      | err _ ↦ none
    ]

unfoldable pub create_order : CreateOrderCommand → Env → M (List Order) CreateOrderResult
unfolding existing_order create_new
create_order cmd env s = elim (existing_order cmd env s) [
  | some o ↦ (ok (result_of o), s)
  | none ↦ create_new cmd env s
]

unfoldable pub get_order : ℤ → Env → M (List Order) Order
unfolding find_by_id
get_order id env =
    on_error (Error.wrap ErrorCode.order_not_found (text "order not found"))
      (find_by_id env.faults.find id)

-- What other connections commit between two statements of a handler.
abbrev meanwhile : (List Order → List Order) → M (List Order) (Unit {0})
meanwhile others s = (ok tt, write_db (on_tables others) s)

-- `FindByID` of a handler.
load : ℤ → Env → M (List Order) Order
unfolding find_by_id
load id env = on_error (Error.errorf_w (text "order not found")) (find_by_id env.faults.find id)

-- `UpdateStatusWithVersion` of a handler, whose Boolean result is dropped.
move : Order → OrderStatus → Env → M (List Order) (Unit {0})
unfolding update_status_with_version
move order status env = do
  on_error (Error.errorf_w (text "failed to update order status"))
      (update_status_with_version env.faults.update env.now order.id status order.version)
  pure tt

move_if : Bool → Order → OrderStatus → Env → M (List Order) (Unit {0})
unfolding move
move_if test order status env = if test then move order status env else pure tt

module _ (others : List Order → List Order) (env : Env) where
  unfoldable pub handle_payment_completed : PaymentCompletedEvent → M (List Order) (Unit {0})
  unfolding load move_if
  handle_payment_completed evt = do
    order ← load evt.order_id env
    meanwhile others
    move_if (status_eq order.status pending) order stock_reserving env

  unfoldable pub handle_payment_failed : PaymentFailedEvent → M (List Order) (Unit {0})
  unfolding load move
  handle_payment_failed evt = do
    order ← load evt.order_id env
    meanwhile others
    move order canceled env

  unfoldable pub handle_stock_reserved : StockReservedEvent → M (List Order) (Unit {0})
  unfolding load move_if
  handle_stock_reserved evt = do
    order ← load evt.order_id env
    meanwhile others
    move_if (status_eq order.status stock_reserving) order delivery_preparing env

  unfoldable pub handle_stock_reservation_failed :
      StockReservationFailedEvent → M (List Order) (Unit {0})
  unfolding load move
  handle_stock_reservation_failed evt = do
    order ← load evt.order_id env
    meanwhile others
    move order failed env

  unfoldable pub handle_delivery_started : DeliveryStartedEvent → M (List Order) (Unit {0})
  unfolding load move_if
  handle_delivery_started evt = do
    order ← load evt.order_id env
    meanwhile others
    move_if (status_eq order.status delivery_preparing) order completed env

  unfoldable pub handle_delivery_failed : DeliveryFailedEvent → M (List Order) (Unit {0})
  unfolding load move
  handle_delivery_failed evt = do
    order ← load evt.order_id env
    meanwhile others
    move order failed env
