-- ===== src/Delivery/Handler.antt =====
-- The event handler of services/delivery/cmd/main.go, which decodes every message as a
-- `stock.reserved.v1`, the one topic that it subscribes to.
use msa_saga_go_practical.Prelude.{List}
use msa_saga_go_practical.Prelude.Text.{Text, text}
use msa_saga_go_practical.Common.Result.{Result}
use msa_saga_go_practical.Common.Decode.{unmarshal_stock_reserved}
use msa_saga_go_practical.Common.Idempotency.{Redis, once}
use msa_saga_go_practical.Common.Messaging.{Message}
use msa_saga_go_practical.Store.Session.{Session, Env}
use msa_saga_go_practical.Delivery.Domain.{Delivery}
use msa_saga_go_practical.Delivery.Service.{handle_stock_reserved}

-- The prefix of the service's keys in the store.
abbrev pub store_prefix : Text
store_prefix = text "delivery-service"

module _ (redis : Redis) (labels : List Text) (env : Env) where
  unfoldable pub event_handler :
      Message
      → Session (List Delivery)
      → redis.State
      → Result (Unit {0}) × Session (List Delivery) × redis.State
  unfolding once
  event_handler msg =
      once redis store_prefix unmarshal_stock_reserved (λ evt. evt.base.event_id)
        (handle_stock_reserved labels env) msg.value
