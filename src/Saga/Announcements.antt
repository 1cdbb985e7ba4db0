-- ===== src/Saga/Announcements.antt =====
-- The failures that services/inventory and services/payment announce, and what a message from each of
-- the four outboxes can say of them.
use msa_saga_go_practical.Prelude.{◌≡◌, sym, ◌∙◌, refl, List, arith}
use mathlib.Core.Path.{subst}
use msa_saga_go_practical.Prelude.Int.{ℤ}
use msa_saga_go_practical.Common.Events.{EventType, PaymentFailedEvent, StockReservationFailedEvent}
use msa_saga_go_practical.Common.Wire.{Payload}
use msa_saga_go_practical.Common.Result.{Result, ok}
use msa_saga_go_practical.Common.Decode.{
  unmarshal_payment_failed, unmarshal_stock_reservation_failed,
}
use msa_saga_go_practical.Common.Messaging.{Message}
use msa_saga_go_practical.Store.Session.{OutboxEvent, Session}
use msa_saga_go_practical.Store.Announced.{Any, Any-mem, Announces}
use msa_saga_go_practical.Order.Ended.{SaysEnded}
use msa_saga_go_practical.Payment.Provenance.{SaysPaid}
use msa_saga_go_practical.Payment.Refunded.{SaysRefused}
use msa_saga_go_practical.Inventory.Provenance.{SaysReserved}
use msa_saga_go_practical.Saga.System.{CameFrom}

-- The inventory service has announced that it could not reserve for the order.
abbrev pub IsRefused : List OutboxEvent → ℤ → Type 0
IsRefused outbox order =
    Any
      (Announces EventType.stock_reservation_failed unmarshal_stock_reservation_failed
        (λ (e : StockReservationFailedEvent). e.order_id) order)
      outbox

-- The payment service has announced that the order could not be paid.
abbrev pub IsDeclined : List OutboxEvent → ℤ → Type 0
IsDeclined outbox order =
    Any
      (Announces EventType.payment_failed unmarshal_payment_failed
        (λ (e : PaymentFailedEvent). e.order_id) order)
      outbox

-- What a message says of an order, its sender has announced.
announced :
    {T E : Type 0} (topic : EventType) (decode : Payload → Result E) (order_of : E → ℤ)
    (s : Session T) (msg : Message) (e : E)
    → CameFrom s msg
    → msg.topic ≡ topic
    → decode msg.value ≡ ok e
    → Any (Announces topic decode order_of (order_of e)) s.committed.outbox
announced topic decode order_of s msg e (x, m, (t, v)) q d =
    Any-mem (Announces topic decode order_of (order_of e)) x s.committed.outbox m
      (sym t ∙ q, (e, subst (λ p. decode p ≡ ok e) v d, refl))

-- The order service tells of no refusal.
pub orders_refuse_none :
    (P : ℤ → Type 0) (t : EventType) (p : Payload) → t ≡ EventType.order_created → SaysRefused P t p
orders_refuse_none P t p h e q decoded = absurd (ground arith)

-- The stock's messages tell of announced refusals.
pub stock_refuses :
    {T : Type 0} (s : Session T) (msg : Message)
    → CameFrom s msg
    → SaysRefused (IsRefused s.committed.outbox) msg.topic msg.value
stock_refuses s msg came e topic decoded =
    announced EventType.stock_reservation_failed unmarshal_stock_reservation_failed
      (λ (x : StockReservationFailedEvent). x.order_id) s msg e came topic decoded

pub stock_ends :
    {T : Type 0} (P C : ℤ → Type 0) (s : Session T) (msg : Message)
    → CameFrom s msg
    → SaysReserved P msg.topic msg.value
    → SaysEnded (IsRefused s.committed.outbox) C msg.topic msg.value
stock_ends P C s msg came says = record {
  refused = λ e topic decoded. stock_refuses s msg came e topic decoded;
  declined = λ e topic decoded. absurd (subst (λ t. SaysReserved P t msg.value) topic says);
  delivered = λ topic. subst (λ t. SaysReserved P t msg.value) topic says;
}

-- The payments' messages tell of announced failures.
pub payments_end :
    {T : Type 0} (P R : ℤ → Type 0) (s : Session T) (msg : Message)
    → CameFrom s msg
    → SaysPaid P msg.topic msg.value
    → SaysEnded R (IsDeclined s.committed.outbox) msg.topic msg.value
payments_end P R s msg came says = record {
  refused = λ e topic decoded. absurd (subst (λ t. SaysPaid P t msg.value) topic says);
  declined = λ e topic decoded.
      announced EventType.payment_failed unmarshal_payment_failed
        (λ (x : PaymentFailedEvent). x.order_id) s msg e came topic decoded;
  delivered = λ topic. subst (λ t. SaysPaid P t msg.value) topic says;
}

-- The deliveries' messages tell of no failure.
pub deliveries_end_none :
    (R C : ℤ → Type 0) (t : EventType) (p : Payload)
    → t ≡ EventType.delivery_started
    → SaysEnded R C t p
deliveries_end_none R C t p h = record {
  refused = λ e topic decoded. absurd (ground arith);
  declined = λ e topic decoded. absurd (ground arith);
  delivered = λ topic. ground arith;
}
