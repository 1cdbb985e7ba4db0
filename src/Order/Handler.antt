-- ===== src/Order/Handler.antt =====
-- services/order/internal/handler/event_handler.go: the switch on the topic, and the six methods,
-- each around a method of the service.
use msa_saga_go_practical.Prelude.{List}
use msa_saga_go_practical.Prelude.Text.{Text, text}
use msa_saga_go_practical.Common.Events.{EventType}
use msa_saga_go_practical.Common.Result.{Result, ok}
use msa_saga_go_practical.Common.Decode.{
  unmarshal_payment_completed, unmarshal_payment_failed, unmarshal_stock_reserved,
  unmarshal_stock_reservation_failed, unmarshal_delivery_started, unmarshal_delivery_failed,
}
use msa_saga_go_practical.Common.Idempotency.{Redis, once}
use msa_saga_go_practical.Common.Messaging.{Message}
use msa_saga_go_practical.Store.Session.{Session, Env}
use msa_saga_go_practical.Order.Domain.{Order}
use msa_saga_go_practical.Order.Service.{
  handle_payment_completed, handle_payment_failed, handle_stock_reserved,
  handle_stock_reservation_failed, handle_delivery_started, handle_delivery_failed,
}

-- The prefix of the service's keys in the store, from services/order/cmd/main.go.
abbrev pub store_prefix : Text
store_prefix = text "order-service"

module _ (redis : Redis) (others : List Order → List Order) (env : Env) where
  abbrev pub Answer : Type 0
  Answer = Result (Unit {0}) × Session (List Order) × redis.State

  unfoldable pub on_payment_completed : Message → Session (List Order) → redis.State → Answer
  unfolding once
  on_payment_completed msg =
      once redis store_prefix unmarshal_payment_completed (λ evt. evt.base.event_id)
        (handle_payment_completed others env) msg.value

  unfoldable pub on_payment_failed : Message → Session (List Order) → redis.State → Answer
  unfolding once
  on_payment_failed msg =
      once redis store_prefix unmarshal_payment_failed (λ evt. evt.base.event_id)
        (handle_payment_failed others env) msg.value

  unfoldable pub on_stock_reserved : Message → Session (List Order) → redis.State → Answer
  unfolding once
  on_stock_reserved msg =
      once redis store_prefix unmarshal_stock_reserved (λ evt. evt.base.event_id)
        (handle_stock_reserved others env) msg.value

  unfoldable pub on_stock_reservation_failed : Message → Session (List Order) → redis.State → Answer
  unfolding once
  on_stock_reservation_failed msg =
      once redis store_prefix unmarshal_stock_reservation_failed (λ evt. evt.base.event_id)
        (handle_stock_reservation_failed others env) msg.value

  unfoldable pub on_delivery_started : Message → Session (List Order) → redis.State → Answer
  unfolding once
  on_delivery_started msg =
      once redis store_prefix unmarshal_delivery_started (λ evt. evt.base.event_id)
        (handle_delivery_started others env) msg.value

  unfoldable pub on_delivery_failed : Message → Session (List Order) → redis.State → Answer
  unfolding once
  on_delivery_failed msg =
      once redis store_prefix unmarshal_delivery_failed (λ evt. evt.base.event_id)
        (handle_delivery_failed others env) msg.value

  -- The switch of `HandleMessage`; the last clause is `default`.
  unfoldable pub dispatch : EventType → Message → Session (List Order) → redis.State → Answer
  dispatch EventType.payment_completed msg s st = on_payment_completed msg s st
  dispatch EventType.payment_failed msg s st = on_payment_failed msg s st
  dispatch EventType.stock_reserved msg s st = on_stock_reserved msg s st
  dispatch EventType.stock_reservation_failed msg s st = on_stock_reservation_failed msg s st
  dispatch EventType.delivery_started msg s st = on_delivery_started msg s st
  dispatch EventType.delivery_failed msg s st = on_delivery_failed msg s st
  dispatch _ msg s st = (ok tt, s, st)

  unfoldable pub handle_message : Message → Session (List Order) → redis.State → Answer
  unfolding dispatch
  handle_message msg = dispatch msg.topic msg
