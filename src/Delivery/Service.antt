-- ===== src/Delivery/Service.antt =====
-- services/delivery/internal/service/delivery_service.go.
use msa_saga_go_practical.Prelude.{List, ◌++◌, ◌/◌, not, if◌then◌else◌}
use msa_saga_go_practical.Prelude.Text.{Text, text}
use msa_saga_go_practical.Prelude.Decimal.{dashed, decimal}
use msa_saga_go_practical.Common.Errors.{Error, ErrorCode, is_code}
use msa_saga_go_practical.Common.Events.{
  EventType, new_base, StockReservedEvent, DeliveryStartedEvent,
}
use msa_saga_go_practical.Common.Wire.{Event}
use msa_saga_go_practical.Common.Result.{Result, ok, err}
use msa_saga_go_practical.Store.Session.{
  Env, M, pure, raise, ◌>>=◌, ◌>>◌, on_error, transaction, commit,
}
use msa_saga_go_practical.Store.Outbox.{insert_event}
use msa_saga_go_practical.Delivery.Domain.{Delivery, new_delivery}
use msa_saga_go_practical.Delivery.Repository.{find_by_idempotency_key, create}

-- `fmt.Sprintf("delivery-%d-%s", evt.OrderID, evt.EventID)`
unfoldable pub delivery_key : StockReservedEvent → Text
delivery_key evt = text "delivery-" ++ dashed evt.order_id evt.base.event_id

-- The constants of `HandleStockReserved`.
abbrev address : Text
address = text "서울시 강남구 테헤란로 123"

abbrev carrier : Text
carrier = text "CJ대한통운"

-- The delivery that `HandleStockReserved` builds. `time.Now().Unix()` counts seconds.
abbrev pub started_delivery : Env → StockReservedEvent → Delivery
started_delivery env evt =
    new_delivery env.now evt.order_id address
      (text "TRK-" ++ dashed evt.order_id (decimal (env.now / 1000000000))) carrier
      (delivery_key evt)

abbrev pub delivery_started_event : Env → StockReservedEvent → Delivery → DeliveryStartedEvent
delivery_started_event env evt d = record {
  base = new_base EventType.delivery_started env.event_id env.now evt.base.correlation_id;
  order_id = evt.order_id;
  delivery_id = d.id;
  address = address;
}

abbrev pub begin_failed : Error
begin_failed = Error.wrap ErrorCode.database_error (text "failed to begin transaction") Error.driver

module _ (labels : List Text) where
  -- The part of `HandleStockReserved` inside the transaction.
  unfoldable pub start_delivery : Env → StockReservedEvent → M (List Delivery) (Unit {0})
  start_delivery env evt = do
    delivery ← create labels env.faults.create (started_delivery env evt)
    insert_event env.faults.marshal env.faults.insert_event (text "delivery") delivery.id
        (Event.delivery_started (delivery_started_event env evt delivery)) env.now
    on_error (Error.wrap ErrorCode.database_error (text "failed to commit transaction"))
        (commit env.faults.commit)

  -- After the look-up of the idempotency key: a delivery ends the call, an error other than NOT_FOUND
  -- is returned.
  unfoldable pub after_lookup :
      Env → StockReservedEvent → Result Delivery → M (List Delivery) (Unit {0})
  after_lookup env evt (ok existing) = pure tt
  after_lookup env evt (err e) =
      if not (is_code e ErrorCode.not_found)
      then raise e
      else transaction env.faults.begin begin_failed (start_delivery env evt)

  unfoldable pub handle_stock_reserved : Env → StockReservedEvent → M (List Delivery) (Unit {0})
  handle_stock_reserved env evt s =
      let (r, s') = find_by_idempotency_key env.faults.find_key (delivery_key evt) s in
      after_lookup env evt r s'
