-- ===== src/Payment/Provenance.antt =====
-- What the events of the payment service stand for: every `payment.completed.v1` in its outbox is
-- about an order that has a payment (services/payment/internal/service/payment_service.go), and an
-- order that has one keeps it.
use msa_saga_go_practical.Prelude.{
  ◌≡◌, ◌≢◌, ◌⊎◌, refl, true, false, none, some, List, arith, inl, inr, Option-cases, Bool-cases,
}
use msa_saga_go_practical.Prelude.Int.{ℤ, eq_ℤ_iff}
use msa_saga_go_practical.Common.Events.{
  EventType, PaymentCompletedEvent, OrderCreatedEvent, StockReservationFailedEvent,
}
use msa_saga_go_practical.Common.Wire.{Payload, Event, marshal}
use msa_saga_go_practical.Common.Result.{ok}
use msa_saga_go_practical.Common.Decode.{unmarshal_payment_completed}
use msa_saga_go_practical.Common.RoundTrip.{unmarshal-marshal}
use msa_saga_go_practical.Store.Table.{find, insert, find-update_some}
use msa_saga_go_practical.Store.Session.{OutboxEvent, Session, Env}
use msa_saga_go_practical.Store.Provenance.{
  OnOk, OnOk-map, Tells, Tells-map, Tells-insert, some-insert, some-insert_new,
}
use msa_saga_go_practical.Payment.Domain.{Payment, refunded}
use msa_saga_go_practical.Payment.Repository.{
  has_order, has_id, set_status, newest, find_by_order_id,
}
use msa_saga_go_practical.Payment.Service.{
  Gateway, payment_completed_event, handle_order_created, handle_stock_reservation_failed,
}
use msa_saga_go_practical.Payment.Charging.{paid, paid_event, failed_event}
use msa_saga_go_practical.Payment.Refund.{refund_event, after_refund, refunds_found}

abbrev pub IsPaid : List Payment → ℤ → Type 0
IsPaid t order = find (has_order order) t ≢ none

-- What an event of the payment service is, and what a `payment.completed.v1` says of its order.
abbrev pub SaysPaid : (ℤ → Type 0) → EventType → Payload → Type 0
SaysPaid P EventType.payment_completed p =
    OnOk (λ (e : PaymentCompletedEvent). P e.order_id) (unmarshal_payment_completed p)
SaysPaid P EventType.payment_failed p = Unit
SaysPaid P EventType.payment_refunded p = Unit
SaysPaid P _ p = ⊥

-- The outbox has no other events, and every order that it calls paid has a payment.
abbrev pub IsTrue : Session (List Payment) → Type 0
IsTrue s = Tells (SaysPaid (IsPaid s.committed.tables)) s.committed.outbox

-- The ways in which `HandleOrderCreated` leaves the database.
abbrev pub ChargeOutcome :
    Gateway → Env → OrderCreatedEvent → Session (List Payment) → Session (List Payment) → Type 0
ChargeOutcome gateway env evt s s' =
    (s'.committed ≡ s.committed)
    ⊎ ((s'.committed.tables ≡ s.committed.tables)
        × (s'.committed.outbox ≡ insert (failed_event env evt s) s.committed.outbox))
    ⊎ ((s'.committed.tables ≡ insert (paid gateway env evt s) s.committed.tables)
        × ((s'.committed.outbox ≡ s.committed.outbox)
            ⊎ (s'.committed.outbox ≡ insert (paid_event gateway env evt s) s.committed.outbox)))

pub handle_order_created-Outcome :
    (gateway : Gateway) (env : Env) (evt : OrderCreatedEvent) (s : Session (List Payment))
    → ChargeOutcome gateway env evt s (handle_order_created gateway env evt s).1
unfolding handle_order_created
handle_order_created-Outcome gateway env evt s = ground arith

-- The ways in which `HandleStockReservationFailed` leaves it.
abbrev pub RefundOutcome :
    Env → StockReservationFailedEvent → Session (List Payment) → Session (List Payment) → Type 0
RefundOutcome env evt s s' =
    (s'.committed ≡ s.committed)
    ⊎ ((p : Payment) × (newest (has_order evt.order_id) s.committed.tables ≡ some p)
        × (s'.committed.tables ≡ after_refund env evt p s.committed.tables)
        × ((s'.committed.outbox ≡ s.committed.outbox)
            ⊎ (s'.committed.outbox ≡ insert (refund_event env evt p s) s.committed.outbox)))

abbrev FoundOutcome :
    Env
    → StockReservationFailedEvent
    → Payment
    → Session (List Payment)
    → Session (List Payment)
    → Type 0
FoundOutcome env evt p s s' =
    (s'.committed ≡ s.committed)
    ⊎ ((s'.committed.tables ≡ after_refund env evt p s.committed.tables)
        × ((s'.committed.outbox ≡ s.committed.outbox)
            ⊎ (s'.committed.outbox ≡ insert (refund_event env evt p s) s.committed.outbox)))

found_outcome :
    (env : Env) (evt : StockReservationFailedEvent) (s : Session (List Payment)) (p : Payment)
    → newest (has_order evt.order_id) s.committed.tables ≡ some p
    → env.faults.find ≡ false
    → FoundOutcome env evt p s (handle_stock_reservation_failed env evt s).1
unfolding handle_stock_reservation_failed
found_outcome env evt s p found answered =
    rw (refunds_found env evt s p found answered) (ground arith)

not_found_same :
    (env : Env) (evt : StockReservationFailedEvent) (s : Session (List Payment))
    → (newest (has_order evt.order_id) s.committed.tables ≡ none) ⊎ (env.faults.find ≡ true)
    → (handle_stock_reservation_failed env evt s).1.committed ≡ s.committed
unfolding handle_stock_reservation_failed find_by_order_id
not_found_same env evt s h = ground arith

pub handle_stock_reservation_failed-Outcome :
    (env : Env) (evt : StockReservationFailedEvent) (s : Session (List Payment))
    → RefundOutcome env evt s (handle_stock_reservation_failed env evt s).1
handle_stock_reservation_failed-Outcome env evt s = elim (Bool-cases env.faults.find) [
  | inl bad ↦ inl (not_found_same env evt s (inr bad))
  | inr fine ↦ elim (Option-cases (newest (has_order evt.order_id) s.committed.tables)) [
    | inl missing ↦ inl (not_found_same env evt s (inl missing))
    | inr (p, found) ↦ elim (found_outcome env evt s p found fine) [
      | inl same ↦ inl same
      | inr (tables, outbox) ↦ inr (p, found, tables, outbox)
    ]
  ]
]

refund-IsPaid :
    (env : Env) (evt : StockReservationFailedEvent) (p : Payment) (t : List Payment) (order : ℤ)
    → IsPaid t order
    → IsPaid (after_refund env evt p t) order
refund-IsPaid env evt p t order h =
    find-update_some (has_order order) (has_id p.id) (set_status refunded evt.reason env.now) t
      (λ r q. refl) h

SaysPaid-map :
    (P Q : ℤ → Type 0) (t : EventType) (p : Payload)
    → ((order : ℤ) → P order → Q order)
    → SaysPaid P t p
    → SaysPaid Q t p
SaysPaid-map P Q EventType.payment_completed p f h =
    OnOk-map (λ (e : PaymentCompletedEvent). P e.order_id) (λ e. Q e.order_id)
      (unmarshal_payment_completed p) (λ e. f e.order_id) h
SaysPaid-map P Q EventType.payment_failed p f h = tt
SaysPaid-map P Q EventType.payment_refunded p f h = tt
SaysPaid-map P Q _ p f h = elim h [ ]

-- More payments leave the outbox true.
wider :
    (t u : List Payment) (outbox : List OutboxEvent)
    → ((order : ℤ) → IsPaid t order → IsPaid u order)
    → Tells (SaysPaid (IsPaid t)) outbox
    → Tells (SaysPaid (IsPaid u)) outbox
wider t u outbox f h =
    Tells-map (SaysPaid (IsPaid t)) (SaysPaid (IsPaid u)) outbox
      (λ topic p. SaysPaid-map (IsPaid t) (IsPaid u) topic p f) h

told :
    (e : PaymentCompletedEvent) (P : ℤ → Type 0)
    → e.base.event_type ≡ EventType.payment_completed
    → P e.order_id
    → SaysPaid P EventType.payment_completed (marshal (Event.payment_completed e))
told e P declared h =
    let back : unmarshal_payment_completed (marshal (Event.payment_completed e)) ≡ ok e =
      unmarshal-marshal (Event.payment_completed e) (rw declared tt) in
    rw back h

pub ChargeOutcome-IsPaid :
    (gateway : Gateway) (env : Env) (evt : OrderCreatedEvent) (s s' : Session (List Payment))
    (order : ℤ)
    → ChargeOutcome gateway env evt s s'
    → IsPaid s.committed.tables order
    → IsPaid s'.committed.tables order
ChargeOutcome-IsPaid gateway env evt s s' order (inl same) h = rw same h
ChargeOutcome-IsPaid gateway env evt s s' order (inr (inl (same, _))) h = rw same h
ChargeOutcome-IsPaid gateway env evt s s' order (inr (inr (tables, _))) h =
    rw tables (some-insert (has_order order) (paid gateway env evt s) s.committed.tables h)

pub RefundOutcome-IsPaid :
    (env : Env) (evt : StockReservationFailedEvent) (s s' : Session (List Payment)) (order : ℤ)
    → RefundOutcome env evt s s'
    → IsPaid s.committed.tables order
    → IsPaid s'.committed.tables order
RefundOutcome-IsPaid env evt s s' order (inl same) h = rw same h
RefundOutcome-IsPaid env evt s s' order (inr (p, _, tables, _)) h =
    rw tables (refund-IsPaid env evt p s.committed.tables order h)

pub ChargeOutcome-IsTrue :
    (gateway : Gateway) (env : Env) (evt : OrderCreatedEvent) (s s' : Session (List Payment))
    → ChargeOutcome gateway env evt s s'
    → IsTrue s
    → IsTrue s'
ChargeOutcome-IsTrue gateway env evt s s' (inl same) h = rw same h
ChargeOutcome-IsTrue gateway env evt s s' (inr (inl (tables, outbox))) h =
    rw (tables, outbox)
      (Tells-insert (SaysPaid (IsPaid s.committed.tables)) (failed_event env evt s)
        s.committed.outbox h tt)
ChargeOutcome-IsTrue gateway env evt s s' (inr (inr (tables, outbox))) h =
    let p = paid gateway env evt s in
    let t = insert p s.committed.tables in
    let more =
      wider s.committed.tables t s.committed.outbox
        (λ order. some-insert (has_order order) p s.committed.tables) h in
    elim outbox [
      | inl same ↦ rw (tables, same) more
      | inr added ↦
          rw (tables, added)
            (Tells-insert (SaysPaid (IsPaid t)) (paid_event gateway env evt s) s.committed.outbox
              more
              (told (payment_completed_event env evt p) (IsPaid t) refl (
                some-insert_new (has_order p.order_id) p s.committed.tables
                  ((eq_ℤ_iff p.order_id p.order_id).1 refl))))
    ]

pub RefundOutcome-IsTrue :
    (env : Env) (evt : StockReservationFailedEvent) (s s' : Session (List Payment))
    → RefundOutcome env evt s s'
    → IsTrue s
    → IsTrue s'
RefundOutcome-IsTrue env evt s s' (inl same) h = rw same h
RefundOutcome-IsTrue env evt s s' (inr (p, _, tables, outbox)) h =
    let t = after_refund env evt p s.committed.tables in
    let more =
      wider s.committed.tables t s.committed.outbox (refund-IsPaid env evt p s.committed.tables)
        h in
    elim outbox [
      | inl same ↦ rw (tables, same) more
      | inr added ↦
          rw (tables, added)
            (Tells-insert (SaysPaid (IsPaid t)) (refund_event env evt p s) s.committed.outbox more
              tt)
    ]
