-- ===== src/Examples/Course.antt =====
-- An order's course through the four services, from the command to COMPLETED.
use msa_saga_go_practical.Prelude.{◌≡◌, refl, true, none, some, List, [], ◌∷◌}
use mathlib.Core.List.{Memᴰ}
use msa_saga_go_practical.Prelude.Int.{pos, eq_ℤ, int_eq}
use msa_saga_go_practical.Prelude.Decimal.{decimal, decimal_ℤ, dashed}
use msa_saga_go_practical.Common.Errors.{is_code}
use msa_saga_go_practical.Store.Outbox.{insert_event}
use msa_saga_go_practical.Common.Decode.{
  unmarshal_order_created, unmarshal_payment_completed, unmarshal_stock_reserved,
  unmarshal_delivery_started,
}
use msa_saga_go_practical.Prelude.Text.{Text, text, text_eq}
use msa_saga_go_practical.Common.Events.{EventType, event_text, event_type_of}
use msa_saga_go_practical.Common.Result.{ok}
use msa_saga_go_practical.Common.Wire.{malformed, marshal}
use msa_saga_go_practical.Common.Idempotency.{Redis, once}
use msa_saga_go_practical.Common.Messaging.{Message}
use msa_saga_go_practical.Store.Table.{find, update, affected}
use msa_saga_go_practical.Store.Session.{OutboxEvent, Session, pending}
use msa_saga_go_practical.Order
use msa_saga_go_practical.Payment
use msa_saga_go_practical.Inventory
use msa_saga_go_practical.Delivery
use msa_saga_go_practical.Order.Domain.{Order, completed}
use msa_saga_go_practical.Order.Repository.{has_id}
use msa_saga_go_practical.Order.Service.{CreateOrderCommand, create_order}
use msa_saga_go_practical.Order.Consistency.{no_others}
use msa_saga_go_practical.Payment.Service.{Gateway, payment_key, handle_order_created}
use msa_saga_go_practical.Inventory.Domain.{Inventory}
use msa_saga_go_practical.Saga.System.{
  System, CameFrom, ordered, to_payment, to_inventory, to_delivery, payment_to_order,
  stock_to_order, delivery_to_order, Reach, here, next,
}
use msa_saga_go_practical.Saga.Completion.{IsFresh}
use msa_saga_go_practical.Examples.{calm, over}

-- A store that knows no key.
abbrev pub forgetful : Redis
forgetful = record {
  State = Unit;
  set_nx = λ key value ttl st. (ok true, st);
  exists = λ key st. (ok 0, st);
  del = λ key st. (ok 0, st);
}

abbrev pub labels : List Text
labels = text "RESERVED" ∷ text "CANCELLED" ∷ text "PREPARING" ∷ []

abbrev pub laptop : CreateOrderCommand
laptop = record { user_id = pos 9; amount = pos 1200; quantity = pos 1; idempotency_key = text "b" }

abbrev pub lucky : Gateway
lucky = record { roll = 50; unix = 1 }

abbrev pub shelf : Inventory
shelf = record {
  id = pos 1;
  product_id = pos 1;
  available_quantity = pos 10;
  reserved_quantity = pos 0;
  version = 4;
  created_at = 10;
  updated_at = 10;
}

-- The oldest event of an outbox, as a message.
abbrev pub first_of : List OutboxEvent → OutboxEvent
first_of [] = record {
  id = pos 0;
  aggregate_type = [];
  aggregate_id = pos 0;
  event_type = EventType.other [];
  payload = malformed;
  status = pending;
  created_at = 0;
  sent_at = none;
}
first_of (x ∷ t) = x

abbrev pub message_of : {T : Type 0} → Session T → Message
message_of s =
    let x = first_of s.committed.outbox in
    record { topic = x.event_type; partition = 0; offset = 0; key = []; value = x.payload }

abbrev pub opening : System
opening = record {
  orders = over [];
  payments = over [];
  stock = over (record { inventory = shelf ∷ []; reservations = [] });
  deliveries = over [];
}

abbrev pub placed : System
placed = record opening { orders = (create_order laptop calm opening.orders).1 }

abbrev pub charged : System
charged = record placed {
  payments =
      (Payment.Handler.handle_message forgetful lucky calm (message_of placed.orders)
        placed.payments tt).1;
}

abbrev pub announced : System
announced = record charged {
  orders =
      (Order.Handler.handle_message forgetful no_others calm (message_of charged.payments)
        charged.orders tt).1;
}

abbrev pub taken : System
taken = record announced {
  stock =
      (Inventory.Handler.event_handler forgetful labels calm (message_of announced.payments)
        announced.stock tt).1;
}

abbrev pub preparing : System
preparing = record taken {
  orders =
      (Order.Handler.handle_message forgetful no_others calm (message_of taken.stock) taken.orders
        tt).1;
}

abbrev pub shipped : System
shipped = record preparing {
  deliveries =
      (Delivery.Handler.event_handler forgetful labels calm (message_of preparing.stock)
        preparing.deliveries tt).1;
}

abbrev pub finished : System
finished = record shipped {
  orders =
      (Order.Handler.handle_message forgetful no_others calm (message_of shipped.deliveries)
        shipped.orders tt).1;
}

placed_event : CameFrom placed.orders (message_of placed.orders)
unfolding create_order text
placed_event = (first_of placed.orders.committed.outbox, Memᴰ.head refl, (refl, refl))

-- The order when it is COMPLETED.
abbrev pub delivered_order : Order
delivered_order = record {
  id = pos 2;
  user_id = pos 9;
  amount = pos 1200;
  quantity = pos 1;
  status = completed;
  version = 3;
  idempotency_key = text "b";
  created_at = 1000;
  updated_at = 1000;
}

-- The events that are sent on the way, and what is reached.
pub course :
    CameFrom charged.payments (message_of charged.payments)
    × CameFrom taken.stock (message_of taken.stock)
    × CameFrom shipped.deliveries (message_of shipped.deliveries)
    × ((message_of preparing.stock).topic ≡ EventType.stock_reserved)
    × (find (has_id (pos 2)) finished.orders.committed.tables ≡ some delivered_order)
unfolding create_order find eq_ℤ event_text text marshal event_type_of is_code
    unmarshal_order_created unmarshal_payment_completed unmarshal_stock_reserved
    unmarshal_delivery_started dashed decimal decimal_ℤ once Payment.Handler.handle_message
    Payment.Handler.on_order_created handle_order_created payment_key Order.Handler.handle_message
    Order.Handler.on_payment_completed Order.Handler.on_stock_reserved
    Order.Handler.on_delivery_started Order.Service.handle_payment_completed
    Order.Service.handle_stock_reserved Order.Service.handle_delivery_started
    Inventory.Handler.event_handler Inventory.Handler.dispatch
    Inventory.Service.handle_payment_completed Inventory.Service.after_lookup
    Inventory.Repository.find_by_idempotency_key Inventory.Service.reserve_stock
    Inventory.Service.after_find Inventory.Repository.find_by_product_id_for_update
    Inventory.Domain.can_reserve Inventory.Service.take_stock Inventory.Service.after_update
    Inventory.Repository.update_with_optimistic_lock Inventory.Domain.reserve
    Inventory.Service.record_reservation Inventory.Repository.create
    Inventory.Service.reservation_key insert_event Delivery.Handler.event_handler
    Delivery.Service.handle_stock_reserved Delivery.Service.after_lookup
    Delivery.Repository.find_by_idempotency_key Delivery.Service.start_delivery
    Delivery.Repository.create Delivery.Service.delivery_key Delivery.Repository.has_label
    Delivery.Repository.status_text update affected text_eq
course = (
  (first_of charged.payments.committed.outbox, Memᴰ.head refl, (refl, refl)),
  (first_of taken.stock.committed.outbox, Memᴰ.head refl, (refl, refl)),
  (first_of shipped.deliveries.committed.outbox, Memᴰ.head refl, (refl, refl)),
  refl,
  refl,
)

pub reached : Reach forgetful labels opening finished
reached =
    let (charged_event, taken_event, shipped_event, stock_topic, found) = course in
    next
      (next
        (next
          (next
            (next
              (next (next here (ordered laptop calm))
                (to_payment tt lucky calm (message_of placed.orders) placed_event))
              (payment_to_order tt calm (message_of charged.payments) charged_event))
            (to_inventory tt calm (message_of announced.payments) charged_event))
          (stock_to_order tt calm (message_of taken.stock) taken_event))
        (to_delivery tt calm (message_of preparing.stock) taken_event stock_topic))
      (delivery_to_order tt calm (message_of shipped.deliveries) shipped_event)

pub opening-IsFresh : IsFresh opening
opening-IsFresh = record {
  orders = refl;
  payment_events = refl;
  reservations = refl;
  stock_events = refl;
  deliveries = refl;
  delivery_events = refl;
}
