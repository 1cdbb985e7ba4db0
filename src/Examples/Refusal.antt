-- ===== src/Examples/Refusal.antt =====
-- An order's course through the services when the shelf is empty: the payment is given back, and the
-- order is FAILED.
use msa_saga_go_practical.Prelude.{refl, [], ◌∷◌}
use mathlib.Core.List.{Memᴰ}
use msa_saga_go_practical.Prelude.Int.{pos, eq_ℤ}
use msa_saga_go_practical.Prelude.Decimal.{decimal, decimal_ℤ, dashed}
use msa_saga_go_practical.Prelude.Text.{text, text_eq}
use msa_saga_go_practical.Common.Errors.{is_code}
use msa_saga_go_practical.Common.Events.{event_text, event_type_of}
use msa_saga_go_practical.Common.Decode.{unmarshal_order_created, unmarshal_payment_completed}
use msa_saga_go_practical.Common.Wire.{marshal}
use msa_saga_go_practical.Common.Idempotency.{once}
use msa_saga_go_practical.Store.Table.{find, update, affected}
use msa_saga_go_practical.Store.Outbox.{insert_event}
use msa_saga_go_practical.Order
use msa_saga_go_practical.Payment
use msa_saga_go_practical.Inventory
use msa_saga_go_practical.Order.Service.{create_order}
use msa_saga_go_practical.Order.Consistency.{no_others}
use msa_saga_go_practical.Payment.Service.{payment_key, handle_order_created}
use msa_saga_go_practical.Saga.System.{
  System, CameFrom, ordered, to_payment, back_to_payment, to_inventory, stock_to_order, Reach, here,
  next,
}
use msa_saga_go_practical.Saga.Completion.{IsFresh}
use msa_saga_go_practical.Examples.{calm, over}
use msa_saga_go_practical.Examples.Course.{
  forgetful, labels, laptop, lucky, shelf, first_of, message_of, opening,
}

abbrev sold_out : System
sold_out = record opening {
  stock =
      over (record {
        inventory = record shelf { available_quantity = pos 0 } ∷ [];
        reservations = [];
      });
}

abbrev pub placed : System
placed = record sold_out { orders = (create_order laptop calm sold_out.orders).1 }

abbrev pub charged : System
charged = record placed {
  payments =
      (Payment.Handler.handle_message forgetful lucky calm (message_of placed.orders)
        placed.payments tt).1;
}

abbrev pub refused : System
refused = record charged {
  stock =
      (Inventory.Handler.event_handler forgetful labels calm (message_of charged.payments)
        charged.stock tt).1;
}

abbrev pub given_back : System
given_back = record refused {
  payments =
      (Payment.Handler.handle_message forgetful lucky calm (message_of refused.stock)
        refused.payments tt).1;
}

abbrev pub failed : System
failed = record given_back {
  orders =
      (Order.Handler.handle_message forgetful no_others calm (message_of given_back.stock)
        given_back.orders tt).1;
}

-- The events that are sent on the way.
sent :
    CameFrom placed.orders (message_of placed.orders)
    × CameFrom charged.payments (message_of charged.payments)
    × CameFrom refused.stock (message_of refused.stock)
unfolding create_order find eq_ℤ event_text text marshal event_type_of is_code
    unmarshal_order_created unmarshal_payment_completed dashed decimal decimal_ℤ once
    Payment.Handler.handle_message Payment.Handler.on_order_created handle_order_created payment_key
    Inventory.Handler.event_handler Inventory.Handler.dispatch
    Inventory.Service.handle_payment_completed Inventory.Service.after_lookup
    Inventory.Repository.find_by_idempotency_key Inventory.Service.reserve_stock
    Inventory.Service.after_find Inventory.Repository.find_by_product_id_for_update
    Inventory.Domain.can_reserve Inventory.Service.publish_stock_reservation_failed
    Inventory.Service.reservation_key insert_event update affected text_eq
sent = (
  (first_of placed.orders.committed.outbox, Memᴰ.head refl, (refl, refl)),
  (first_of charged.payments.committed.outbox, Memᴰ.head refl, (refl, refl)),
  (first_of refused.stock.committed.outbox, Memᴰ.head refl, (refl, refl)),
)

pub ended : Reach forgetful labels sold_out failed
ended =
    let (placed_event, charged_event, refused_event) = sent in
    next
      (next
        (next
          (next (next here (ordered laptop calm))
            (to_payment tt lucky calm (message_of placed.orders) placed_event))
          (to_inventory tt calm (message_of charged.payments) charged_event))
        (back_to_payment tt lucky calm (message_of refused.stock) refused_event))
      (stock_to_order tt calm (message_of given_back.stock) refused_event)

pub sold_out-IsFresh : IsFresh sold_out
sold_out-IsFresh = record {
  orders = refl;
  payment_events = refl;
  reservations = refl;
  stock_events = refl;
  deliveries = refl;
  delivery_events = refl;
}
