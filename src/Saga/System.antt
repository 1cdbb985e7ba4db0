-- ===== src/Saga/System.antt =====
-- The four services as one system: the databases of services/order, services/payment,
-- services/inventory and services/delivery, and the steps in which they change. A message that Kafka
-- delivers was a row of the sender's outbox; which row is delivered to whom, when, how often and with
-- what the store of processed events then knows is left open.
use msa_saga_go_practical.Prelude.{ℕ, ◌≡◌, List}
use msa_saga_go_practical.Prelude.Int.{ℤ}
use msa_saga_go_practical.Prelude.Text.{Text}
use mathlib.Core.List.{Memᴰ}
use msa_saga_go_practical.Common.Events.{stock_reserved}
use msa_saga_go_practical.Common.Idempotency.{Redis}
use msa_saga_go_practical.Common.Messaging.{Message}
use msa_saga_go_practical.Store.Session.{OutboxEvent, Db, Session, Env, write_db}
use msa_saga_go_practical.Store.Pending.{mark_sent}
use msa_saga_go_practical.Order
use msa_saga_go_practical.Payment
use msa_saga_go_practical.Inventory
use msa_saga_go_practical.Delivery
use msa_saga_go_practical.Order.Domain.{Order}
use msa_saga_go_practical.Order.Consistency.{no_others}
use msa_saga_go_practical.Order.Service.{CreateOrderCommand, create_order}
use msa_saga_go_practical.Payment.Domain.{Payment}
use msa_saga_go_practical.Payment.Service.{Gateway}
use msa_saga_go_practical.Inventory.Repository.{Tables}
use msa_saga_go_practical.Delivery.Domain.{Delivery}

pub record System : Type 0 where
  pub orders : Session (List Order)
  pub payments : Session (List Payment)
  pub stock : Session Tables
  pub deliveries : Session (List Delivery)

-- The message carries the row, as the worker publishes it and the consumer hands it on.
abbrev pub Carries : Message → OutboxEvent → Type 0
Carries msg x = (msg.topic ≡ x.event_type) × (msg.value ≡ x.payload)

-- The message was a row of this outbox.
abbrev pub CameFrom : {T : Type 0} → Session T → Message → Type 0
CameFrom s msg = (x : OutboxEvent) × Memᴰ x s.committed.outbox × Carries msg x

-- The UPDATE of a worker, in one service.
abbrev pub marked : {T : Type 0} → ℕ → ℤ → Session T → Session T
marked now id = write_db (λ (d : Db _). record d { outbox = mark_sent now id d.outbox })

pub data Step (redis : Redis) (labels : List Text) (s : System) : System → Type 0 where
  -- A command of a client.
  ordered :
      (cmd : CreateOrderCommand) (env : Env)
      → Step redis labels s (record s { orders = (create_order cmd env s.orders).1 })
  -- `order.created.v1`
  to_payment :
      (st : redis.State) (gateway : Gateway) (env : Env) (msg : Message)
      → CameFrom s.orders msg
      → Step redis labels s (record s {
        payments = (Payment.Handler.handle_message redis gateway env msg s.payments st).1;
      })
  -- `stock.reservation_failed.v1`
  back_to_payment :
      (st : redis.State) (gateway : Gateway) (env : Env) (msg : Message)
      → CameFrom s.stock msg
      → Step redis labels s (record s {
        payments = (Payment.Handler.handle_message redis gateway env msg s.payments st).1;
      })
  -- `payment.completed.v1` and `payment.refunded.v1`
  to_inventory :
      (st : redis.State) (env : Env) (msg : Message)
      → CameFrom s.payments msg
      → Step redis labels s
          (record s { stock = (Inventory.Handler.event_handler redis labels env msg s.stock st).1 })
  -- `stock.reserved.v1`, the one topic of the delivery service.
  to_delivery :
      (st : redis.State) (env : Env) (msg : Message)
      → CameFrom s.stock msg
      → msg.topic ≡ stock_reserved
      → Step redis labels s (record s {
        deliveries = (Delivery.Handler.event_handler redis labels env msg s.deliveries st).1;
      })
  -- The three senders that the order service listens to.
  payment_to_order :
      (st : redis.State) (env : Env) (msg : Message)
      → CameFrom s.payments msg
      → Step redis labels s (record s {
        orders = (Order.Handler.handle_message redis no_others env msg s.orders st).1;
      })
  stock_to_order :
      (st : redis.State) (env : Env) (msg : Message)
      → CameFrom s.stock msg
      → Step redis labels s (record s {
        orders = (Order.Handler.handle_message redis no_others env msg s.orders st).1;
      })
  delivery_to_order :
      (st : redis.State) (env : Env) (msg : Message)
      → CameFrom s.deliveries msg
      → Step redis labels s (record s {
        orders = (Order.Handler.handle_message redis no_others env msg s.orders st).1;
      })
  -- The workers' markings.
  order_sent :
      (now : ℕ) (id : ℤ) → Step redis labels s (record s { orders = marked now id s.orders })
  payment_sent :
      (now : ℕ) (id : ℤ) → Step redis labels s (record s { payments = marked now id s.payments })
  stock_sent : (now : ℕ) (id : ℤ) → Step redis labels s (record s { stock = marked now id s.stock })
  delivery_sent :
      (now : ℕ) (id : ℤ)
      → Step redis labels s (record s { deliveries = marked now id s.deliveries })

-- The states that a system comes to.
pub data Reach (redis : Redis) (labels : List Text) (s : System) : System → Type 0 where
  here : Reach redis labels s s
  next : {t u : System} → Reach redis labels s t → Step redis labels t u → Reach redis labels s u
