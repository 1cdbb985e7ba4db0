-- ===== src/Inventory/Handler.antt =====
-- The event handler of services/inventory/cmd/main.go.
use msa_saga_go_practical.Prelude.{List}
use msa_saga_go_practical.Prelude.Text.{Text, text}
use msa_saga_go_practical.Common.Events.{EventType}
use msa_saga_go_practical.Common.Result.{Result, ok}
use msa_saga_go_practical.Common.Decode.{unmarshal_payment_completed, unmarshal_payment_refunded}
use msa_saga_go_practical.Common.Idempotency.{Redis, once}
use msa_saga_go_practical.Common.Messaging.{Message}
use msa_saga_go_practical.Store.Session.{Session, Env}
use msa_saga_go_practical.Inventory.Repository.{Tables}
use msa_saga_go_practical.Inventory.Service.{handle_payment_completed, handle_payment_refunded}

-- The prefix of the service's keys in the store.
abbrev pub store_prefix : Text
store_prefix = text "inventory-service"

module _ (redis : Redis) (labels : List Text) (env : Env) where
  abbrev pub Answer : Type 0
  Answer = Result (Unit {0}) × Session Tables × redis.State

  -- The switch on the topic.
  unfoldable pub dispatch : EventType → Message → Session Tables → redis.State → Answer
  unfolding once
  dispatch EventType.payment_completed msg =
      once redis store_prefix unmarshal_payment_completed (λ evt. evt.base.event_id)
        (handle_payment_completed env) msg.value
  dispatch EventType.payment_refunded msg =
      once redis store_prefix unmarshal_payment_refunded (λ evt. evt.base.event_id)
        (handle_payment_refunded labels env) msg.value
  dispatch _ msg = λ s st. (ok tt, s, st)

  unfoldable pub event_handler : Message → Session Tables → redis.State → Answer
  unfolding dispatch
  event_handler msg = dispatch msg.topic msg
