-- ===== src/Saga/Causality.antt =====
-- That the events of the saga have their causes, across services/order, services/payment,
-- services/inventory and services/delivery.
use msa_saga_go_practical.Prelude.{List}
use msa_saga_go_practical.Prelude.Int.{ℤ}
use msa_saga_go_practical.Common.Events.{EventType}
use msa_saga_go_practical.Common.Wire.{Payload}
use msa_saga_go_practical.Common.Messaging.{Message}
use msa_saga_go_practical.Store.Table.{All-map}
use msa_saga_go_practical.Store.Session.{Session, OutboxEvent}
use msa_saga_go_practical.Store.Provenance.{All-mem, Tells}
use msa_saga_go_practical.Order.Domain.{Order}
use msa_saga_go_practical.Order.Provenance.{AllDone, AllDone-map}
use msa_saga_go_practical.Payment
use msa_saga_go_practical.Payment.Domain.{Payment}
use msa_saga_go_practical.Inventory.Repository.{Tables}
use msa_saga_go_practical.Payment.Provenance.{IsPaid, SaysPaid}
use msa_saga_go_practical.Inventory
use msa_saga_go_practical.Inventory.Provenance.{IsReserved, SaysReserved}
use msa_saga_go_practical.Inventory.Domain.{StockReservation}
use msa_saga_go_practical.Delivery
use msa_saga_go_practical.Delivery.Domain.{Delivery}
use msa_saga_go_practical.Delivery.Provenance.{IsDelivered, SaysStarted}
use msa_saga_go_practical.Saga.System.{System, CameFrom}

-- What the tables of the four services have to do with one another.
pub record IsCausal (s : System) : Type 0 where
  pub paid_told : Payment.Provenance.IsTrue s.payments
  pub reserved_for :
      Inventory.Provenance.AllFor (IsPaid s.payments.committed.tables) s.stock.committed.tables
  pub reserved_told : Inventory.Provenance.IsTrue s.stock
  pub delivered_for :
      Delivery.Provenance.AllFor (IsReserved s.stock.committed.tables) s.deliveries.committed.tables
  pub delivered_told : Delivery.Provenance.IsTrue s.deliveries
  pub done : AllDone (IsDelivered s.deliveries.committed.tables) s.orders.committed.tables

-- A message says what the row says that it carries.
pub said :
    {T : Type 0} (P : EventType → Payload → Type 0) (s : Session T) (msg : Message)
    → Tells P s.committed.outbox
    → CameFrom s msg
    → P msg.topic msg.value
said P s msg h (x, m, (topic, value)) =
    rw (topic, value)
      (All-mem (λ (e : OutboxEvent). P e.event_type e.payload) x s.committed.outbox h m)

-- What the payment and the inventory service send starts no delivery.
pub paid_starts_none :
    (P Q : ℤ → Type 0) (t : EventType) (p : Payload) → SaysPaid P t p → SaysStarted Q t p
paid_starts_none P Q EventType.payment_completed p h = tt
paid_starts_none P Q EventType.payment_failed p h = tt
paid_starts_none P Q EventType.payment_refunded p h = tt
paid_starts_none P Q _ p h = elim h [ ]

pub reserved_starts_none :
    (P Q : ℤ → Type 0) (t : EventType) (p : Payload) → SaysReserved P t p → SaysStarted Q t p
reserved_starts_none P Q EventType.stock_reserved p h = tt
reserved_starts_none P Q EventType.stock_reservation_failed p h = tt
reserved_starts_none P Q EventType.stock_restored p h = tt
reserved_starts_none P Q _ p h = elim h [ ]

reserved_for-map :
    (P Q : ℤ → Type 0) (t : Tables)
    → ((order : ℤ) → P order → Q order)
    → Inventory.Provenance.AllFor P t
    → Inventory.Provenance.AllFor Q t
reserved_for-map P Q t f h =
    All-map (λ (r : StockReservation). P r.order_id) (λ r. Q r.order_id) t.reservations
      (λ r. f r.order_id) h

delivered_for-map :
    (P Q : ℤ → Type 0) (t : List Delivery)
    → ((order : ℤ) → P order → Q order)
    → Delivery.Provenance.AllFor P t
    → Delivery.Provenance.AllFor Q t
delivered_for-map P Q t f h =
    All-map (λ (d : Delivery). P d.order_id) (λ d. Q d.order_id) t (λ d. f d.order_id) h

-- The payments move on: every order that is paid stays so, and the outbox stays true.
pub payments_move :
    (s : System) (payments : Session (List Payment))
    → ((order : ℤ)
        → IsPaid s.payments.committed.tables order
        → IsPaid payments.committed.tables order)
    → Payment.Provenance.IsTrue payments
    → IsCausal s
    → IsCausal (record s { payments = payments })
payments_move s payments stay told c = record {
  paid_told = told;
  reserved_for =
      reserved_for-map (IsPaid s.payments.committed.tables) (IsPaid payments.committed.tables)
        s.stock.committed.tables stay c.reserved_for;
  reserved_told = c.reserved_told;
  delivered_for = c.delivered_for;
  delivered_told = c.delivered_told;
  done = c.done;
}

-- The same of the stock, with reservations for paid orders only.
pub stock_moves :
    (s : System) (stock : Session Tables)
    → ((order : ℤ)
        → IsReserved s.stock.committed.tables order
        → IsReserved stock.committed.tables order)
    → Inventory.Provenance.IsTrue stock
    → Inventory.Provenance.AllFor (IsPaid s.payments.committed.tables) stock.committed.tables
    → IsCausal s
    → IsCausal (record s { stock = stock })
stock_moves s stock stay told paid c = record {
  paid_told = c.paid_told;
  reserved_for = paid;
  reserved_told = told;
  delivered_for =
      delivered_for-map (IsReserved s.stock.committed.tables) (IsReserved stock.committed.tables)
        s.deliveries.committed.tables stay c.delivered_for;
  delivered_told = c.delivered_told;
  done = c.done;
}

-- The same of the deliveries, for reserved orders only.
pub deliveries_move :
    (s : System) (deliveries : Session (List Delivery))
    → ((order : ℤ)
        → IsDelivered s.deliveries.committed.tables order
        → IsDelivered deliveries.committed.tables order)
    → Delivery.Provenance.IsTrue deliveries
    → Delivery.Provenance.AllFor (IsReserved s.stock.committed.tables) deliveries.committed.tables
    → IsCausal s
    → IsCausal (record s { deliveries = deliveries })
deliveries_move s deliveries stay told reserved c = record {
  paid_told = c.paid_told;
  reserved_for = c.reserved_for;
  reserved_told = c.reserved_told;
  delivered_for = reserved;
  delivered_told = told;
  done =
      AllDone-map (IsDelivered s.deliveries.committed.tables)
        (IsDelivered deliveries.committed.tables) s.orders.committed.tables stay c.done;
}

-- The orders move on, with COMPLETED ones for started deliveries only.
pub orders_move :
    (s : System) (orders : Session (List Order))
    → AllDone (IsDelivered s.deliveries.committed.tables) orders.committed.tables
    → IsCausal s
    → IsCausal (record s { orders = orders })
orders_move s orders caused c = record {
  paid_told = c.paid_told;
  reserved_for = c.reserved_for;
  reserved_told = c.reserved_told;
  delivered_for = c.delivered_for;
  delivered_told = c.delivered_told;
  done = caused;
}
