-- ===== src/Saga/HappyPath.antt =====
-- The course of an order through services/order, services/payment, services/inventory and
-- services/delivery when nothing fails: the events that are sent, and the states that are reached.
use msa_saga_go_practical.Prelude.{◌≤◌, ◌≡◌, true, none, some, List, [], length}
use msa_saga_go_practical.Prelude.Int.{pos, ◌≤ℤ◌}
use msa_saga_go_practical.Prelude.Text.{Text}
use msa_saga_go_practical.Common.Events.{
  EventType, OrderCreatedEvent, PaymentCompletedEvent, StockReservedEvent, DeliveryStartedEvent,
}
use msa_saga_go_practical.Common.Wire.{Event, marshal}
use msa_saga_go_practical.Common.Idempotency.{Redis}
use msa_saga_go_practical.Common.Once.{IsUnmarked}
use msa_saga_go_practical.Common.Result.{Result}
use msa_saga_go_practical.Prelude.{◌≢◌}
use msa_saga_go_practical.Order.Domain.{Order}
use msa_saga_go_practical.Payment.Domain.{Payment}
use msa_saga_go_practical.Inventory.Repository.{Tables}
use msa_saga_go_practical.Delivery.Domain.{Delivery}
use msa_saga_go_practical.Common.Messaging.{Message}
use msa_saga_go_practical.Store.Table.{find}
use msa_saga_go_practical.Store.Session.{Session, Env, no_faults}
use msa_saga_go_practical.Order
use msa_saga_go_practical.Order.Service.{CreateOrderCommand, create_order, order_created_event}
use msa_saga_go_practical.Order.Creation.{IsWellFormed, created_order}
use msa_saga_go_practical.Order.Consistency.{no_others}
use msa_saga_go_practical.Payment
use msa_saga_go_practical.Payment.Service.{Gateway, payment_key, payment_completed_event}
use msa_saga_go_practical.Payment.Charging.{paid}
use msa_saga_go_practical.Inventory
use msa_saga_go_practical.Inventory.Domain.{Inventory}
use msa_saga_go_practical.Inventory.Service.{product_id, reservation_key, stock_reserved_event}
use msa_saga_go_practical.Inventory.Outcome.{reservation}
use msa_saga_go_practical.Delivery
use msa_saga_go_practical.Delivery.Domain.{preparing}
use msa_saga_go_practical.Delivery.Repository.{has_label}
use msa_saga_go_practical.Delivery.Service.{delivery_key, delivery_started_event}
use msa_saga_go_practical.Delivery.Starting.{started, known}
use msa_saga_go_practical.Saga.System.{System}

-- The clock, the fresh ids and the failures in each service: while it makes the order, charges it,
-- reserves and starts the delivery, and while the order service takes the events in.
pub record Calls : Type 0 where
  pub ordering : Env
  pub charging : Env
  pub reserving : Env
  pub starting : Env
  pub updating : Env

module _ (gateway : Gateway) (calls : Calls) (cmd : CreateOrderCommand) (s : System) where
  -- The events of the course, each made from the one before.
  abbrev pub created : OrderCreatedEvent
  created = order_created_event calls.ordering (created_order cmd calls.ordering s.orders)

  abbrev pub completed : PaymentCompletedEvent
  completed =
      payment_completed_event calls.charging created
        (paid gateway calls.charging created s.payments)

  abbrev pub reserved : StockReservedEvent
  reserved =
      stock_reserved_event calls.reserving completed (reservation calls.reserving completed s.stock)

  abbrev pub delivered : DeliveryStartedEvent
  delivered =
      delivery_started_event calls.starting reserved (started calls.starting reserved s.deliveries)

  -- The messages that carry them.
  abbrev pub created_message : Message
  created_message = record {
    topic = EventType.order_created;
    partition = 0;
    offset = 0;
    key = [];
    value = marshal (Event.order_created created);
  }

  abbrev pub completed_message : Message
  completed_message = record created_message {
    topic = EventType.payment_completed;
    value = marshal (Event.payment_completed completed);
  }

  abbrev pub reserved_message : Message
  reserved_message = record created_message {
    topic = EventType.stock_reserved;
    value = marshal (Event.stock_reserved reserved);
  }

  abbrev pub delivered_message : Message
  delivered_message = record created_message {
    topic = EventType.delivery_started;
    value = marshal (Event.delivery_started delivered);
  }

  -- What the course needs: no call fails, the three events that the order service hears have
  -- different ids, the gateway accepts, the product is there, and no service has had these events
  -- before.
  pub record IsReady (redis : Redis) (labels : List Text) (st : redis.State) : Type 0 where
    pub ordering_quiet : calls.ordering.faults ≡ no_faults
    pub charging_quiet : calls.charging.faults ≡ no_faults
    pub reserving_quiet : calls.reserving.faults ≡ no_faults
    pub starting_quiet : calls.starting.faults ≡ no_faults
    pub updating_quiet : calls.updating.faults ≡ no_faults
    pub reserved_fresh : reserved.base.event_id ≢ completed.base.event_id
    pub delivered_fresh : delivered.base.event_id ≢ completed.base.event_id
    pub delivered_later : delivered.base.event_id ≢ reserved.base.event_id
    pub created_unmarked : IsUnmarked redis Payment.Handler.store_prefix created.base.event_id st
    pub completed_unheard : IsUnmarked redis Order.Handler.store_prefix completed.base.event_id st
    pub completed_unmarked :
        IsUnmarked redis Inventory.Handler.store_prefix completed.base.event_id st
    pub reserved_unheard : IsUnmarked redis Order.Handler.store_prefix reserved.base.event_id st
    pub reserved_unmarked : IsUnmarked redis Delivery.Handler.store_prefix reserved.base.event_id st
    pub delivered_unheard : IsUnmarked redis Order.Handler.store_prefix delivered.base.event_id st
    pub orders : Order.Consistency.HoldsIn s.orders
    pub command : IsWellFormed cmd
    pub unordered :
        find (Order.Repository.has_key cmd.idempotency_key) s.orders.committed.tables ≡ none
    pub accepted : 10 ≤ gateway.roll
    pub unpaid :
        find (Payment.Repository.has_key (payment_key created)) s.payments.committed.tables ≡ none
    pub short_payment_key : length (payment_key created) ≤ 64
    pub shelf : Inventory
    pub stocked :
        find (Inventory.Repository.has_product product_id) s.stock.committed.tables.inventory
        ≡ some shelf
    pub available : pos 1 ≤ℤ shelf.available_quantity
    pub unreserved :
        find
          (Inventory.Repository.has_key (reservation_key completed))
          s.stock.committed.tables.reservations
        ≡ none
    pub short_reservation_key : length (reservation_key completed) ≤ 64
    pub undelivered : known reserved s.deliveries ≡ none
    pub short_delivery_key : length (delivery_key reserved) ≤ 64
    pub labelled : has_label labels preparing ≡ true

  module _ (redis : Redis) (labels : List Text) (st : redis.State) where
    -- The states of the course, and of the store after each message.
    abbrev pub placed : System
    placed = record s { orders = (create_order cmd calls.ordering s.orders).1 }

    abbrev pub charge : Result (Unit {0}) × Session (List Payment) × redis.State
    charge =
        Payment.Handler.handle_message redis gateway calls.charging created_message s.payments st

    abbrev pub charged : System
    charged = record placed { payments = charge.1 }

    abbrev pub first_news : Result (Unit {0}) × Session (List Order) × redis.State
    first_news =
        Order.Handler.handle_message redis no_others calls.updating completed_message placed.orders
          charge.2

    abbrev pub reserving : System
    reserving = record charged { orders = first_news.1 }

    abbrev pub take : Result (Unit {0}) × Session Tables × redis.State
    take =
        Inventory.Handler.event_handler redis labels calls.reserving completed_message s.stock
          first_news.2

    abbrev pub taken : System
    taken = record reserving { stock = take.1 }

    abbrev pub second_news : Result (Unit {0}) × Session (List Order) × redis.State
    second_news =
        Order.Handler.handle_message redis no_others calls.updating reserved_message
          reserving.orders take.2

    abbrev pub prepared : System
    prepared = record taken { orders = second_news.1 }

    abbrev pub ship : Result (Unit {0}) × Session (List Delivery) × redis.State
    ship =
        Delivery.Handler.event_handler redis labels calls.starting reserved_message s.deliveries
          second_news.2

    abbrev pub shipped : System
    shipped = record prepared { deliveries = ship.1 }

    abbrev pub last_news : Result (Unit {0}) × Session (List Order) × redis.State
    last_news =
        Order.Handler.handle_message redis no_others calls.updating delivered_message
          prepared.orders ship.2

    abbrev pub finished : System
    finished = record shipped { orders = last_news.1 }
