-- ===== src/Common/Decode.antt =====
-- `json.Unmarshal` into the event structs of common/events/events.go that the services receive.
use msa_saga_go_practical.Common.Errors.{Error}
use msa_saga_go_practical.Common.Events.{
  OrderCreatedEvent, PaymentCompletedEvent, PaymentFailedEvent, PaymentRefundedEvent,
  StockReservedEvent, StockReservationFailedEvent, DeliveryStartedEvent, DeliveryFailedEvent,
}
use msa_saga_go_practical.Common.Result.{Result, ok, err, ◌>>=◌}
use msa_saga_go_practical.Common.Wire.{
  Members, Payload, object, malformed, read_num, read_str, read_base,
}

-- A text that is no JSON object fills no struct.
abbrev pub members : Payload → Result Members
members (object m) = ok m
members malformed = err Error.bad_json

unfoldable pub unmarshal_order_created : Payload → Result OrderCreatedEvent
unfolding read_base read_num read_str
unmarshal_order_created p = do
  m ← members p
  base ← read_base m
  order_id ← read_num "orderId" m
  user_id ← read_num "userId" m
  amount ← read_num "amount" m
  quantity ← read_num "quantity" m
  ok (record {
    base = base;
    order_id = order_id;
    user_id = user_id;
    amount = amount;
    quantity = quantity;
  })

unfoldable pub unmarshal_payment_completed : Payload → Result PaymentCompletedEvent
unfolding read_base read_num read_str
unmarshal_payment_completed p = do
  m ← members p
  base ← read_base m
  order_id ← read_num "orderId" m
  payment_id ← read_num "paymentId" m
  amount ← read_num "amount" m
  payment_type ← read_str "paymentType" m
  ok (record {
    base = base;
    order_id = order_id;
    payment_id = payment_id;
    amount = amount;
    payment_type = payment_type;
  })

unfoldable pub unmarshal_payment_failed : Payload → Result PaymentFailedEvent
unfolding read_base read_num read_str
unmarshal_payment_failed p = do
  m ← members p
  base ← read_base m
  order_id ← read_num "orderId" m
  reason ← read_str "reason" m
  ok (record { base = base; order_id = order_id; reason = reason })

unfoldable pub unmarshal_payment_refunded : Payload → Result PaymentRefundedEvent
unfolding read_base read_num read_str
unmarshal_payment_refunded p = do
  m ← members p
  base ← read_base m
  order_id ← read_num "orderId" m
  payment_id ← read_num "paymentId" m
  amount ← read_num "amount" m
  ok (record { base = base; order_id = order_id; payment_id = payment_id; amount = amount })

unfoldable pub unmarshal_stock_reserved : Payload → Result StockReservedEvent
unfolding read_base read_num read_str
unmarshal_stock_reserved p = do
  m ← members p
  base ← read_base m
  order_id ← read_num "orderId" m
  reservation_id ← read_num "reservationId" m
  quantity ← read_num "quantity" m
  ok (record {
    base = base;
    order_id = order_id;
    reservation_id = reservation_id;
    quantity = quantity;
  })

unfoldable pub unmarshal_stock_reservation_failed : Payload → Result StockReservationFailedEvent
unfolding read_base read_num read_str
unmarshal_stock_reservation_failed p = do
  m ← members p
  base ← read_base m
  order_id ← read_num "orderId" m
  quantity ← read_num "quantity" m
  reason ← read_str "reason" m
  ok (record { base = base; order_id = order_id; quantity = quantity; reason = reason })

unfoldable pub unmarshal_delivery_started : Payload → Result DeliveryStartedEvent
unfolding read_base read_num read_str
unmarshal_delivery_started p = do
  m ← members p
  base ← read_base m
  order_id ← read_num "orderId" m
  delivery_id ← read_num "deliveryId" m
  address ← read_str "address" m
  ok (record { base = base; order_id = order_id; delivery_id = delivery_id; address = address })

unfoldable pub unmarshal_delivery_failed : Payload → Result DeliveryFailedEvent
unfolding read_base read_num read_str
unmarshal_delivery_failed p = do
  m ← members p
  base ← read_base m
  order_id ← read_num "orderId" m
  reason ← read_str "reason" m
  ok (record { base = base; order_id = order_id; reason = reason })
