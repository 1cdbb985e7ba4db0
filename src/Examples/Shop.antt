-- ===== src/Examples/Shop.antt =====
-- An order service with an order, and the commands and events that come to it (services/order/).
use msa_saga_go_practical.Prelude.{List, [], ◌∷◌}
use msa_saga_go_practical.Prelude.Int.{pos}
use msa_saga_go_practical.Prelude.Text.{text}
use msa_saga_go_practical.Common.Events.{
  EventType, PaymentCompletedEvent, PaymentFailedEvent, StockReservedEvent,
}
use msa_saga_go_practical.Store.Session.{Session}
use msa_saga_go_practical.Order.Domain.{Order, pending, canceled, completed}
use msa_saga_go_practical.Order.Repository.{set_status}
use msa_saga_go_practical.Order.Service.{CreateOrderCommand}
use msa_saga_go_practical.Examples.{base, over}

abbrev pub first : Order
first = record {
  id = pos 1;
  user_id = pos 7;
  amount = pos 500;
  quantity = pos 2;
  status = pending;
  version = 0;
  idempotency_key = text "a";
  created_at = 10;
  updated_at = 10;
}

abbrev pub second : Order
second = record first { id = pos 2; idempotency_key = []; status = completed }

abbrev pub shop : Session (List Order)
shop = over (first ∷ [])

abbrev pub keyless_shop : Session (List Order)
keyless_shop = over (second ∷ first ∷ [])

abbrev pub laptop : CreateOrderCommand
laptop = record { user_id = pos 9; amount = pos 1200; quantity = pos 1; idempotency_key = text "b" }

abbrev pub paid : PaymentCompletedEvent
paid = record {
  base = base EventType.payment_completed;
  order_id = pos 1;
  payment_id = pos 4;
  amount = pos 500;
  payment_type = text "CARD";
}

abbrev pub declined : PaymentFailedEvent
declined = record {
  base = base EventType.payment_failed;
  order_id = pos 1;
  reason = text "declined";
}

abbrev pub reserved : StockReservedEvent
reserved = record {
  base = base EventType.stock_reserved;
  order_id = pos 1;
  reservation_id = pos 3;
  quantity = pos 1;
}

-- Another connection cancels the order.
abbrev pub cancel_first : List Order → List Order
cancel_first t = set_status canceled 800 first ∷ []
