-- ===== src/Inventory/Service.antt =====
-- services/inventory/internal/service/inventory_service.go.
use msa_saga_go_practical.Prelude.{Bool, false, not, ◌++◌, ◌||◌, List, if◌then◌else◌}
use msa_saga_go_practical.Prelude.Int.{ℤ, pos}
use msa_saga_go_practical.Prelude.Text.{Text, text}
use msa_saga_go_practical.Prelude.Decimal.{dashed}
use msa_saga_go_practical.Common.Errors.{Error, ErrorCode, is_code}
use msa_saga_go_practical.Common.Events.{
  EventType, new_base, PaymentCompletedEvent, PaymentRefundedEvent, StockReservedEvent,
  StockReservationFailedEvent, StockRestoredEvent,
}
use msa_saga_go_practical.Common.Wire.{Event}
use msa_saga_go_practical.Common.Result.{Result, ok, err}
use msa_saga_go_practical.Store.Session.{
  Env, M, pure, raise, ◌>>=◌, ◌>>◌, on_error, transaction, commit,
}
use msa_saga_go_practical.Store.Outbox.{insert_event}
use msa_saga_go_practical.Inventory.Domain.{
  Inventory, StockReservation, reserved, can_reserve, reserve, restore, new_stock_reservation,
  cancel,
}
use msa_saga_go_practical.Inventory.Repository.{
  Tables, find_by_product_id_for_update, update_with_optimistic_lock, find_by_idempotency_key,
  find_by_order_id_and_status, create, update_reservation,
}

-- `fmt.Sprintf("stock-reservation-%d-%s", evt.OrderID, evt.EventID)`
unfoldable pub reservation_key : PaymentCompletedEvent → Text
reservation_key evt = text "stock-reservation-" ++ dashed evt.order_id evt.base.event_id

-- The constants of `HandlePaymentCompleted`.
abbrev pub product_id : ℤ
product_id = pos 1

abbrev pub quantity : ℤ
quantity = pos 1

abbrev pub begin_failed : Error
begin_failed = Error.wrap ErrorCode.database_error (text "failed to begin transaction") Error.driver

abbrev pub commit_failed : Error → Error
commit_failed = Error.wrap ErrorCode.database_error (text "failed to commit transaction")

abbrev pub stock_reserved_event :
    Env → PaymentCompletedEvent → StockReservation → StockReservedEvent
stock_reserved_event env evt r = record {
  base = new_base EventType.stock_reserved env.event_id env.now evt.base.correlation_id;
  order_id = evt.order_id;
  reservation_id = r.id;
  quantity = quantity;
}

abbrev pub stock_reservation_failed_event :
    Env → PaymentCompletedEvent → Text → StockReservationFailedEvent
stock_reservation_failed_event env evt reason = record {
  base = new_base EventType.stock_reservation_failed env.event_id env.now evt.base.correlation_id;
  order_id = evt.order_id;
  quantity = pos 1;
  reason = reason;
}

abbrev pub stock_restored_event : Env → PaymentRefundedEvent → StockReservation → StockRestoredEvent
stock_restored_event env evt r = record {
  base = new_base EventType.stock_restored env.event_id env.now evt.base.correlation_id;
  order_id = evt.order_id;
  reservation_id = r.id;
  quantity = r.quantity;
}

-- `publishStockReservationFailed`, which returns an error also when it has committed. `aborted` says
-- that a statement of the transaction has failed before, after which PostgreSQL refuses the rest.
unfoldable pub publish_stock_reservation_failed :
    Bool → Env → PaymentCompletedEvent → Text → M Tables (Unit {0})
publish_stock_reservation_failed aborted env evt reason = do
  insert_event env.faults.marshal (aborted || env.faults.insert_event) (text "order") evt.order_id
      (Event.stock_reservation_failed (stock_reservation_failed_event env evt reason)) env.now
  on_error commit_failed (commit env.faults.commit)
  raise (Error.errorf (text "stock reservation failed: " ++ reason))

-- The reservation and its event, after the stock has been taken.
unfoldable pub record_reservation : Env → PaymentCompletedEvent → M Tables (Unit {0})
record_reservation env evt = do
  reservation ←
      create env.faults.create
        (new_stock_reservation env.now evt.order_id product_id quantity (reservation_key evt))
  insert_event env.faults.marshal env.faults.insert_event (text "stock_reservation") reservation.id
      (Event.stock_reserved (stock_reserved_event env evt reservation)) env.now
  on_error commit_failed (commit env.faults.commit)

-- After `UpdateWithOptimisticLock`: a conflict is announced, any other error returned.
unfoldable pub after_update : Env → PaymentCompletedEvent → Result (Unit {0}) → M Tables (Unit {0})
after_update env evt (ok done) = record_reservation env evt
after_update env evt (err e) =
    if is_code e ErrorCode.conflict
    then publish_stock_reservation_failed false env evt (text "version conflict")
    else raise e

unfoldable pub take_stock : Env → PaymentCompletedEvent → Inventory → M Tables (Unit {0})
take_stock env evt inventory s =
    let (r, s') =
      update_with_optimistic_lock env.faults.update (reserve env.now quantity inventory)
        inventory.version s in
    after_update env evt r s'

-- After `FindByProductIDForUpdate`: any error is announced as a missing product.
unfoldable pub after_find : Env → PaymentCompletedEvent → Result Inventory → M Tables (Unit {0})
after_find env evt (err e) =
    publish_stock_reservation_failed env.faults.find_for_update env evt (text "product not found")
after_find env evt (ok inventory) =
    if not (can_reserve quantity inventory)
    then publish_stock_reservation_failed false env evt (text "insufficient stock")
    else take_stock env evt inventory

-- The part of `HandlePaymentCompleted` inside the transaction.
unfoldable pub reserve_stock : Env → PaymentCompletedEvent → M Tables (Unit {0})
reserve_stock env evt s =
    let (r, s') = find_by_product_id_for_update env.faults.find_for_update product_id s in
    after_find env evt r s'

-- After the look-up of the idempotency key: a reservation ends the call, an error other than
-- NOT_FOUND is returned.
unfoldable pub after_lookup :
    Env → PaymentCompletedEvent → Result StockReservation → M Tables (Unit {0})
after_lookup env evt (ok existing) = pure tt
after_lookup env evt (err e) =
    if not (is_code e ErrorCode.not_found)
    then raise e
    else transaction env.faults.begin begin_failed (reserve_stock env evt)

unfoldable pub handle_payment_completed : Env → PaymentCompletedEvent → M Tables (Unit {0})
handle_payment_completed env evt s =
    let (r, s') = find_by_idempotency_key env.faults.find_key (reservation_key evt) s in
    after_lookup env evt r s'

module _ (labels : List Text) where
  -- The cancellation and its event, after the stock has been given back.
  unfoldable pub record_restoration :
      Env → PaymentRefundedEvent → StockReservation → M Tables (Unit {0})
  record_restoration env evt reservation = do
    update_reservation labels env.faults.update_reservation (cancel env.now reservation)
    insert_event env.faults.marshal env.faults.insert_event (text "stock_reservation")
        reservation.id (Event.stock_restored (stock_restored_event env evt reservation)) env.now
    on_error commit_failed (commit env.faults.commit)

  -- The part of `HandlePaymentRefunded` inside the transaction.
  unfoldable pub restore_stock : Env → PaymentRefundedEvent → StockReservation → M Tables (Unit {0})
  restore_stock env evt reservation = do
    inventory ← find_by_product_id_for_update env.faults.find_for_update reservation.product_id
    update_with_optimistic_lock env.faults.update (restore env.now reservation.quantity inventory)
        inventory.version
    record_restoration env evt reservation

  -- After the look-up of the order's RESERVED reservation: none ends the call with success.
  unfoldable pub after_reservation :
      Env → PaymentRefundedEvent → Result StockReservation → M Tables (Unit {0})
  after_reservation env evt (ok reservation) =
      transaction env.faults.begin begin_failed (restore_stock env evt reservation)
  after_reservation env evt (err e) = if is_code e ErrorCode.not_found then pure tt else raise e

  unfoldable pub handle_payment_refunded : Env → PaymentRefundedEvent → M Tables (Unit {0})
  handle_payment_refunded env evt s =
      let (r, s') = find_by_order_id_and_status env.faults.find evt.order_id reserved s in
      after_reservation env evt r s'
