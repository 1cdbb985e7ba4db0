-- ===== src/Order/Ended.antt =====
-- What the statuses FAILED and CANCELED of an order stand for: a `stock.reservation_failed.v1` and a
-- `payment.failed.v1` about it (services/order/internal/service/order_service.go).
use msa_saga_go_practical.Prelude.{◌≡◌, ◌≢◌, refl, some, List, arith, inl, inr, Option-cases}
use mathlib.Core.Path.{subst}
use msa_saga_go_practical.Prelude.Int.{ℤ}
use msa_saga_go_practical.Common.Events.{EventType, PaymentFailedEvent, StockReservationFailedEvent}
use msa_saga_go_practical.Common.Wire.{Payload}
use msa_saga_go_practical.Common.Result.{ok}
use msa_saga_go_practical.Common.Decode.{
  unmarshal_payment_failed, unmarshal_stock_reservation_failed,
}
use msa_saga_go_practical.Common.Idempotency.{Redis}
use msa_saga_go_practical.Common.Messaging.{Message}
use msa_saga_go_practical.Store.Table.{find, All-map}
use msa_saga_go_practical.Store.Session.{Session, Env}
use msa_saga_go_practical.Order.Domain.{Order, OrderStatus, canceled, failed}
use msa_saga_go_practical.Order.Incoming.{Incoming, order_of, next, handle}
use msa_saga_go_practical.Order.Service.{CreateOrderCommand, create_order}
use msa_saga_go_practical.Order.Consistency.{no_others, create_order-Outcome, handle-Outcome}
use msa_saga_go_practical.Order.Repository.{has_id}
use msa_saga_go_practical.Order.Creation.{created_event}
use msa_saga_go_practical.Order.Transitions.{handle_missing}
use msa_saga_go_practical.Store.Provenance.{Tells, Tells-insert}
use msa_saga_go_practical.Order.Handler.{handle_message}
use msa_saga_go_practical.Order.Provenance.{IsCarried, AllIn, create_order-AllIn, handle-AllIn}
use msa_saga_go_practical.Order.Received.{effect}

-- A FAILED order has the first property, a CANCELED one the second.
abbrev pub Ended : (ℤ → Type 0) → (ℤ → Type 0) → OrderStatus → ℤ → Type 0
Ended R C OrderStatus.failed id = R id
Ended R C OrderStatus.canceled id = C id
Ended R C _ id = Unit

-- What a message says when it tells of a failure. No `delivery.failed.v1` is among the messages.
pub record SaysEnded (R C : ℤ → Type 0) (t : EventType) (p : Payload) : Type 0 where
  pub refused :
      (e : StockReservationFailedEvent)
      → t ≡ EventType.stock_reservation_failed
      → unmarshal_stock_reservation_failed p ≡ ok e
      → R e.order_id
  pub declined :
      (e : PaymentFailedEvent)
      → t ≡ EventType.payment_failed
      → unmarshal_payment_failed p ≡ ok e
      → C e.order_id
  pub delivered : t ≢ EventType.delivery_failed

Ended-other :
    (R C : ℤ → Type 0) (status : OrderStatus) (id : ℤ)
    → status ≢ failed
    → status ≢ canceled
    → Ended R C status id
Ended-other R C OrderStatus.failed id f c = absurd (f refl)
Ended-other R C OrderStatus.canceled id f c = absurd (c refl)
Ended-other R C _ id f c = tt

Ended-map :
    (R C R' C' : ℤ → Type 0) (status : OrderStatus) (id : ℤ)
    → ((order : ℤ) → R order → R' order)
    → ((order : ℤ) → C order → C' order)
    → Ended R C status id
    → Ended R' C' status id
Ended-map R C R' C' OrderStatus.failed id f g h = f id h
Ended-map R C R' C' OrderStatus.canceled id f g h = g id h
Ended-map R C R' C' _ id f g h = tt

pub AllIn-map :
    (R C R' C' : ℤ → Type 0) (t : List Order)
    → ((order : ℤ) → R order → R' order)
    → ((order : ℤ) → C order → C' order)
    → AllIn (Ended R C) t
    → AllIn (Ended R' C') t
AllIn-map R C R' C' t f g h =
    All-map (λ (o : Order). Ended R C o.status o.id) (λ o. Ended R' C' o.status o.id) t
      (λ o. Ended-map R C R' C' o.status o.id f g) h

-- The status that an event leads to is FAILED or CANCELED only with its reason.
reaches :
    (R C : ℤ → Type 0) (m : Incoming) (t : EventType) (p : Payload) (from to : OrderStatus)
    → next m from ≡ some to
    → IsCarried m t p
    → SaysEnded R C t p
    → Ended R C to (order_of m)
reaches R C (Incoming.payment_failed e) t p from to h (topic, decoded) says =
    let q : canceled ≡ to = ground arith in
    subst (λ k. Ended R C k e.order_id) q (says.declined e topic decoded)
reaches R C (Incoming.stock_reservation_failed e) t p from to h (topic, decoded) says =
    let q : failed ≡ to = ground arith in
    subst (λ k. Ended R C k e.order_id) q (says.refused e topic decoded)
reaches R C (Incoming.delivery_failed e) t p from to h (topic, decoded) says =
    absurd (says.delivered topic)
reaches R C (Incoming.payment_completed e) t p from to h c says =
    Ended-other R C to e.order_id (ground arith) (ground arith)
reaches R C (Incoming.stock_reserved e) t p from to h c says =
    Ended-other R C to e.order_id (ground arith) (ground arith)
reaches R C (Incoming.delivery_started e) t p from to h c says =
    Ended-other R C to e.order_id (ground arith) (ground arith)

-- A command ends no order.
pub create_order-AllEnded :
    (R C : ℤ → Type 0) (cmd : CreateOrderCommand) (env : Env) (s : Session (List Order))
    → AllIn (Ended R C) s.committed.tables
    → AllIn (Ended R C) (create_order cmd env s).1.committed.tables
create_order-AllEnded R C cmd env s h = create_order-AllIn (Ended R C) cmd env s (λ id. tt) h

-- An order becomes FAILED or CANCELED only by a message that says so.
pub handle_message-AllEnded :
    (redis : Redis) (env : Env) (s : Session (List Order)) (st : redis.State) (R C : ℤ → Type 0)
    (msg : Message)
    → SaysEnded R C msg.topic msg.value
    → AllIn (Ended R C) s.committed.tables
    → AllIn (Ended R C) (handle_message redis no_others env msg s st).1.committed.tables
handle_message-AllEnded redis env s st R C msg says h = elim (effect redis env s st msg) [
  | inl same ↦ rw same h
  | inr (m, carried, served) ↦ rw served (
      handle-AllIn (Ended R C) env m s
        (λ from to e. reaches R C m msg.topic msg.value from to e carried says) h)
]

-- The order service sends `order.created.v1` only: its outbox grows by a command, never by a message.
abbrev pub OnlyCreated : Session (List Order) → Type 0
OnlyCreated s = Tells (λ t p. t ≡ EventType.order_created) s.committed.outbox

pub create_order-OnlyCreated :
    (cmd : CreateOrderCommand) (env : Env) (s : Session (List Order))
    → OnlyCreated s
    → OnlyCreated (create_order cmd env s).1
create_order-OnlyCreated cmd env s h = elim (create_order-Outcome cmd env s) [
  | inl (same, _) ↦ rw same h
  | inr (_, _, inl same, _) ↦ rw same h
  | inr (_, _, inr added, _) ↦ rw added (
      Tells-insert (λ t p. t ≡ EventType.order_created) (created_event cmd env s) s.committed.outbox
        h refl)
]

handle-outbox :
    (env : Env) (m : Incoming) (s : Session (List Order))
    → (handle no_others env m s).1.committed.outbox ≡ s.committed.outbox
handle-outbox env m s = elim (Option-cases (find (has_id (order_of m)) s.committed.tables)) [
  | inl missing ↦ rw (handle_missing no_others env m s missing).0 refl
  | inr (o, found) ↦ (handle-Outcome env m s o found).1
]

pub handle_message-OnlyCreated :
    (redis : Redis) (env : Env) (s : Session (List Order)) (st : redis.State) (msg : Message)
    → OnlyCreated s
    → OnlyCreated (handle_message redis no_others env msg s st).1
handle_message-OnlyCreated redis env s st msg h = elim (effect redis env s st msg) [
  | inl same ↦ rw same h
  | inr (m, carried, served) ↦ rw (served, handle-outbox env m s) h
]
