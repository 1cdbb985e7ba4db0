-- ===== src/Payment/Refunded.antt =====
-- What the status REFUNDED of a payment stands for: a `stock.reservation_failed.v1` about its order
-- (services/payment/internal/service/payment_service.go).
use msa_saga_go_practical.Prelude.{◌≡◌, ◌⊎◌, sym, true, Bool, some, List, [], ◌∷◌, arith, inl, inr}
use mathlib.Core.Path.{subst}
use mathlib.Core.List.{Memᴰ}
use msa_saga_go_practical.Prelude.Int.{ℤ, eq_ℤ_iff, int_eq}
use msa_saga_go_practical.Common.Events.{EventType, OrderCreatedEvent, StockReservationFailedEvent}
use msa_saga_go_practical.Common.Wire.{Payload}
use msa_saga_go_practical.Common.Result.{ok}
use msa_saga_go_practical.Common.Decode.{unmarshal_stock_reservation_failed}
use msa_saga_go_practical.Common.Idempotency.{Redis}
use msa_saga_go_practical.Common.Messaging.{Message}
use msa_saga_go_practical.Store.Table.{All, All-map, All-insert, Distinct}
use msa_saga_go_practical.Store.Columns.{same_row, All-update_mem}
use msa_saga_go_practical.Store.Session.{OutboxEvent, Session, Env}
use msa_saga_go_practical.Store.Announced.{Any, Any-insert}
use msa_saga_go_practical.Payment.Domain.{Payment, PaymentStatus, refunded}
use msa_saga_go_practical.Payment.Repository.{has_id, has_order, newest, set_status}
use msa_saga_go_practical.Payment.Service.{Gateway, handle_order_created}
use msa_saga_go_practical.Payment.Handler.{handle_message}
use msa_saga_go_practical.Payment.Charging.{paid}
use msa_saga_go_practical.Payment.Refund.{after_refund}
use msa_saga_go_practical.Payment.Consistency.{HoldsIn}
use msa_saga_go_practical.Payment.Provenance.{
  handle_order_created-Outcome, handle_stock_reservation_failed-Outcome,
}
use msa_saga_go_practical.Payment.Received.{effect}

-- A REFUNDED payment's order has this property.
abbrev pub Refunded : (ℤ → Type 0) → PaymentStatus → ℤ → Type 0
Refunded P PaymentStatus.refunded order = P order
Refunded P _ order = Unit

abbrev pub AllRefunded : (ℤ → Type 0) → List Payment → Type 0
AllRefunded P t = All (λ (p : Payment). Refunded P p.status p.order_id) t

Refunded-map :
    (P Q : ℤ → Type 0) (status : PaymentStatus) (order : ℤ)
    → ((o : ℤ) → P o → Q o)
    → Refunded P status order
    → Refunded Q status order
Refunded-map P Q PaymentStatus.refunded order f h = f order h
Refunded-map P Q _ order f h = tt

pub AllRefunded-map :
    (P Q : ℤ → Type 0) (t : List Payment)
    → ((o : ℤ) → P o → Q o)
    → AllRefunded P t
    → AllRefunded Q t
AllRefunded-map P Q t f h =
    All-map (λ (p : Payment). Refunded P p.status p.order_id) (λ p. Refunded Q p.status p.order_id)
      t (λ p. Refunded-map P Q p.status p.order_id f) h

newest_step :
    (q : Payment → Bool) (p r : Payment) (t : List Payment)
    → newest q (r ∷ t) ≡ some p
    → ((p ≡ r) × (q r ≡ true)) ⊎ (newest q t ≡ some p)
unfolding newest
newest_step q p r t h = ground arith

-- The newest row is a row of the table, of the order that was asked for.
newest_found :
    (q : Payment → Bool) (p : Payment) (t : List Payment)
    → newest q t ≡ some p
    → Memᴰ p t × (q p ≡ true)
newest_found q p [] h = unfold newest in ground arith
newest_found q p (r ∷ t) h = elim (newest_step q p r t h) [
  | inl (same, hit) ↦ (Memᴰ.head same, rw same hit)
  | inr later ↦ let (m, hit) = newest_found q p t later in (Memᴰ.tail m, hit)
]

-- A refund of an order that has the property.
refund-AllRefunded :
    (P : ℤ → Type 0) (env : Env) (evt : StockReservationFailedEvent) (p : Payment)
    (t : List Payment)
    → Distinct (λ (r : Payment). r.id) t
    → newest (has_order evt.order_id) t ≡ some p
    → P evt.order_id
    → AllRefunded P t
    → AllRefunded P (after_refund env evt p t)
refund-AllRefunded P env evt p t d found holds h =
    let (m, hit) = newest_found (has_order evt.order_id) p t found in
    let order : p.order_id ≡ evt.order_id = (eq_ℤ_iff p.order_id evt.order_id).0 hit in
    All-update_mem (λ (r : Payment). Refunded P r.status r.order_id) (has_id p.id)
      (set_status refunded evt.reason env.now) t
      (λ r mr same.
        let q : r ≡ p =
          same_row (λ (x : Payment). x.id) p r t d m mr ((eq_ℤ_iff r.id p.id).0 same) in
        subst (λ (x : Payment). P x.order_id) (sym q) (subst P (sym order) holds))
      h

-- A charge makes no payment REFUNDED.
charge-AllRefunded :
    (P : ℤ → Type 0) (gateway : Gateway) (env : Env) (evt : OrderCreatedEvent)
    (s : Session (List Payment))
    → AllRefunded P s.committed.tables
    → AllRefunded P (handle_order_created gateway env evt s).1.committed.tables
charge-AllRefunded P gateway env evt s h = elim (handle_order_created-Outcome gateway env evt s) [
  | inl same ↦ rw same h
  | inr (inl (tables, _)) ↦ rw tables h
  | inr (inr (tables, _)) ↦ rw tables (
      All-insert (λ (p : Payment). Refunded P p.status p.order_id) (paid gateway env evt s)
        s.committed.tables h tt)
]

-- What a message says when it tells of a failed reservation.
abbrev pub SaysRefused : (ℤ → Type 0) → EventType → Payload → Type 0
SaysRefused P t p =
    (e : StockReservationFailedEvent)
    → t ≡ EventType.stock_reservation_failed
    → unmarshal_stock_reservation_failed p ≡ ok e
    → P e.order_id

-- A payment becomes REFUNDED only by a message that its order's reservation has failed.
pub handle_message-AllRefunded :
    (redis : Redis) (gateway : Gateway) (env : Env) (s : Session (List Payment)) (st : redis.State)
    (P : ℤ → Type 0) (msg : Message)
    → HoldsIn s
    → SaysRefused P msg.topic msg.value
    → AllRefunded P s.committed.tables
    → AllRefunded P (handle_message redis gateway env msg s st).1.committed.tables
handle_message-AllRefunded redis gateway env s st P msg c says h =
    elim (effect redis gateway env s st msg) [
      | inl same ↦ rw same h
      | inr (inl (evt, served)) ↦ rw served (charge-AllRefunded P gateway env evt s h)
      | inr (inr (evt, topic, decoded, served)) ↦
          elim (handle_stock_reservation_failed-Outcome env evt s) [
            | inl same ↦ rw (served, same) h
            | inr (p, found, tables, _) ↦
                rw (served, tables)
                  (refund-AllRefunded P env evt p s.committed.tables c.ids found
                    (says evt topic decoded) h)
          ]
    ]

-- What the service has announced stays in the outbox.
pub handle_message-Any :
    (redis : Redis) (gateway : Gateway) (env : Env) (s : Session (List Payment)) (st : redis.State)
    (P : OutboxEvent → Type 0) (msg : Message)
    → Any P s.committed.outbox
    → Any P (handle_message redis gateway env msg s st).1.committed.outbox
handle_message-Any redis gateway env s st P msg h = elim (effect redis gateway env s st msg) [
  | inl same ↦ rw same h
  | inr (inl (evt, served)) ↦ elim (handle_order_created-Outcome gateway env evt s) [
    | inl same ↦ rw (served, same) h
    | inr (inl (_, added)) ↦ rw (served, added) (Any-insert P _ s.committed.outbox h)
    | inr (inr (_, inl same)) ↦ rw (served, same) h
    | inr (inr (_, inr added)) ↦ rw (served, added) (Any-insert P _ s.committed.outbox h)
  ]
  | inr (inr (evt, _, _, served)) ↦ elim (handle_stock_reservation_failed-Outcome env evt s) [
    | inl same ↦ rw (served, same) h
    | inr (_, _, _, inl same) ↦ rw (served, same) h
    | inr (_, _, _, inr added) ↦ rw (served, added) (Any-insert P _ s.committed.outbox h)
  ]
]
