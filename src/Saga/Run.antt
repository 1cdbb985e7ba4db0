-- ===== src/Saga/Run.antt =====
-- Runs of services/order, services/payment, services/inventory and services/delivery with one Redis
-- server: each handler meets the store of processed events as the handlers before have left it.
use msa_saga_go_practical.Prelude.{◌≡◌, List}
use msa_saga_go_practical.Prelude.Text.{Text}
use msa_saga_go_practical.Common.Events.{stock_reserved}
use msa_saga_go_practical.Common.Idempotency.{Redis}
use msa_saga_go_practical.Common.Messaging.{Message}
use msa_saga_go_practical.Store.Session.{Env}
use msa_saga_go_practical.Order
use msa_saga_go_practical.Payment
use msa_saga_go_practical.Inventory
use msa_saga_go_practical.Delivery
use msa_saga_go_practical.Order.Consistency.{no_others}
use msa_saga_go_practical.Order.Service.{CreateOrderCommand, create_order}
use msa_saga_go_practical.Payment.Service.{Gateway}
use msa_saga_go_practical.Saga.System.{System, CameFrom}

-- The states of the databases and of the store that a command or a message leads to.
pub data Run (redis : Redis) (labels : List Text) (s : System) (st : redis.State)
    : System → redis.State → Type 0 where
  idle : Run redis labels s st s st
  order :
      {t : System} {m : redis.State}
      → Run redis labels s st t m
      → (cmd : CreateOrderCommand) (env : Env)
      → Run redis labels s st (record t { orders = (create_order cmd env t.orders).1 }) m
  payment_hears_order :
      {t : System} {m : redis.State}
      → Run redis labels s st t m
      → (gateway : Gateway) (env : Env) (msg : Message) → CameFrom t.orders msg
      → Run redis labels s st
          (record t {
            payments = (Payment.Handler.handle_message redis gateway env msg t.payments m).1;
          })
          (Payment.Handler.handle_message redis gateway env msg t.payments m).2
  payment_hears_stock :
      {t : System} {m : redis.State}
      → Run redis labels s st t m
      → (gateway : Gateway) (env : Env) (msg : Message) → CameFrom t.stock msg
      → Run redis labels s st
          (record t {
            payments = (Payment.Handler.handle_message redis gateway env msg t.payments m).1;
          })
          (Payment.Handler.handle_message redis gateway env msg t.payments m).2
  inventory_hears :
      {t : System} {m : redis.State}
      → Run redis labels s st t m
      → (env : Env) (msg : Message) → CameFrom t.payments msg
      → Run redis labels s st
          (record t { stock = (Inventory.Handler.event_handler redis labels env msg t.stock m).1 })
          (Inventory.Handler.event_handler redis labels env msg t.stock m).2
  delivery_hears :
      {t : System} {m : redis.State}
      → Run redis labels s st t m
      → (env : Env) (msg : Message) → CameFrom t.stock msg
      → msg.topic ≡ stock_reserved
      → Run redis labels s st
          (record t {
            deliveries = (Delivery.Handler.event_handler redis labels env msg t.deliveries m).1;
          })
          (Delivery.Handler.event_handler redis labels env msg t.deliveries m).2
  order_hears_payment :
      {t : System} {m : redis.State}
      → Run redis labels s st t m
      → (env : Env) (msg : Message) → CameFrom t.payments msg
      → Run redis labels s st
          (record t {
            orders = (Order.Handler.handle_message redis no_others env msg t.orders m).1;
          })
          (Order.Handler.handle_message redis no_others env msg t.orders m).2
  order_hears_stock :
      {t : System} {m : redis.State}
      → Run redis labels s st t m
      → (env : Env) (msg : Message) → CameFrom t.stock msg
      → Run redis labels s st
          (record t {
            orders = (Order.Handler.handle_message redis no_others env msg t.orders m).1;
          })
          (Order.Handler.handle_message redis no_others env msg t.orders m).2
  order_hears_delivery :
      {t : System} {m : redis.State}
      → Run redis labels s st t m
      → (env : Env) (msg : Message) → CameFrom t.deliveries msg
      → Run redis labels s st
          (record t {
            orders = (Order.Handler.handle_message redis no_others env msg t.orders m).1;
          })
          (Order.Handler.handle_message redis no_others env msg t.orders m).2
