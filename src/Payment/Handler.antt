-- ===== src/Payment/Handler.antt =====
-- services/payment/internal/handler/event_handler.go: the switch on the topic, and the two methods,
-- each around a method of the service.
use msa_saga_go_practical.Prelude.{List}
use msa_saga_go_practical.Prelude.Text.{Text, text}
use msa_saga_go_practical.Common.Events.{EventType}
use msa_saga_go_practical.Common.Result.{Result, ok}
use msa_saga_go_practical.Common.Decode.{
  unmarshal_order_created, unmarshal_stock_reservation_failed,
}
use msa_saga_go_practical.Common.Idempotency.{Redis, once}
use msa_saga_go_practical.Common.Messaging.{Message}
use msa_saga_go_practical.Store.Session.{Session, Env}
use msa_saga_go_practical.Payment.Domain.{Payment}
use msa_saga_go_practical.Payment.Service.{
  Gateway, handle_order_created, handle_stock_reservation_failed,
}

-- The prefix of the service's keys in the store, from services/payment/cmd/main.go.
abbrev pub store_prefix : Text
store_prefix = text "payment-service"

module _ (redis : Redis) (gateway : Gateway) (env : Env) where
  abbrev pub Answer : Type 0
  Answer = Result (Unit {0}) × Session (List Payment) × redis.State

  unfoldable pub on_order_created : Message → Session (List Payment) → redis.State → Answer
  unfolding once
  on_order_created msg =
      once redis store_prefix unmarshal_order_created (λ evt. evt.base.event_id)
        (handle_order_created gateway env) msg.value

  unfoldable pub on_stock_reservation_failed :
      Message → Session (List Payment) → redis.State → Answer
  unfolding once
  on_stock_reservation_failed msg =
      once redis store_prefix unmarshal_stock_reservation_failed (λ evt. evt.base.event_id)
        (handle_stock_reservation_failed env) msg.value

  -- The switch of `HandleMessage`; the last clause is `default`.
  unfoldable pub dispatch : EventType → Message → Session (List Payment) → redis.State → Answer
  dispatch EventType.order_created msg s st = on_order_created msg s st
  dispatch EventType.stock_reservation_failed msg s st = on_stock_reservation_failed msg s st
  dispatch _ msg s st = (ok tt, s, st)

  unfoldable pub handle_message : Message → Session (List Payment) → redis.State → Answer
  unfolding dispatch
  handle_message msg = dispatch msg.topic msg
