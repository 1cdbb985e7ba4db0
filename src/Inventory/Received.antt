-- ===== src/Inventory/Received.antt =====
-- What a message does to the reservations and to what the outbox of the inventory service tells (the
-- event handler of services/inventory/cmd/main.go).
use msa_saga_go_practical.Prelude.{◌≡◌, ◌⊎◌, refl, List, inl, inr}
use msa_saga_go_practical.Prelude.Int.{ℤ}
use msa_saga_go_practical.Prelude.Text.{Text}
use msa_saga_go_practical.Common.Events.{EventType, PaymentCompletedEvent, PaymentRefundedEvent}
use msa_saga_go_practical.Common.Wire.{Payload}
use msa_saga_go_practical.Common.Result.{ok}
use msa_saga_go_practical.Common.Decode.{unmarshal_payment_completed, unmarshal_payment_refunded}
use msa_saga_go_practical.Common.Idempotency.{Redis}
use msa_saga_go_practical.Common.Messaging.{Message}
use msa_saga_go_practical.Common.Once.{once-Effect}
use msa_saga_go_practical.Store.Session.{OutboxEvent, Session, Env}
use msa_saga_go_practical.Store.Announced.{Any, Any-insert}
use msa_saga_go_practical.Payment.Provenance.{SaysPaid}
use msa_saga_go_practical.Inventory.Repository.{Tables}
use msa_saga_go_practical.Inventory.Service.{handle_payment_completed, handle_payment_refunded}
use msa_saga_go_practical.Inventory.Handler.{store_prefix, dispatch, event_handler}
use msa_saga_go_practical.Inventory.Provenance.{
  IsReserved, IsTrue, AllFor, ReserveOutcome, RestoreOutcome,
  handle_payment_completed-ReserveOutcome, handle_payment_refunded-RestoreOutcome,
  ReserveOutcome-IsReserved, RestoreOutcome-IsReserved, ReserveOutcome-AllFor,
  RestoreOutcome-AllFor, ReserveOutcome-IsTrue, RestoreOutcome-IsTrue,
}

-- A message changes nothing, or is a reservation for an order that it calls paid, or a restoration.
abbrev MessageEffect : Env → EventType → Payload → Session Tables → Session Tables → Type 0
MessageEffect env t p s s' =
    (s' ≡ s)
    ⊎ ((evt : PaymentCompletedEvent) × (t ≡ EventType.payment_completed)
        × (unmarshal_payment_completed p ≡ ok evt)
        × ReserveOutcome env evt s s')
    ⊎ ((evt : PaymentRefundedEvent) × RestoreOutcome env evt s s')

module _ (redis : Redis) (labels : List Text) (env : Env) (s : Session Tables)
    (st : redis.State) where
  dispatch-MessageEffect :
      (t : EventType) (msg : Message)
      → MessageEffect env t msg.value s (dispatch redis labels env t msg s st).1
  unfolding dispatch
  dispatch-MessageEffect EventType.payment_completed msg =
      elim (once-Effect redis store_prefix unmarshal_payment_completed (λ evt. evt.base.event_id)
        (handle_payment_completed env) msg.value s st) [
          | inl same ↦ inl same
          | inr (evt, decoded, served) ↦ inr (
              inl
                (evt, refl, decoded, rw served (handle_payment_completed-ReserveOutcome env evt s)))
        ]
  dispatch-MessageEffect EventType.payment_refunded msg =
      elim (once-Effect redis store_prefix unmarshal_payment_refunded (λ evt. evt.base.event_id)
        (handle_payment_refunded labels env) msg.value s st) [
          | inl same ↦ inl same
          | inr (evt, _, served) ↦
              inr (inr (evt, rw served (handle_payment_refunded-RestoreOutcome labels env evt s)))
        ]
  dispatch-MessageEffect _ msg = inl refl

  effect :
      (msg : Message)
      → MessageEffect env msg.topic msg.value s (event_handler redis labels env msg s st).1
  unfolding event_handler
  effect msg = dispatch-MessageEffect msg.topic msg

MessageEffect-IsReserved :
    (env : Env) (t : EventType) (p : Payload) (s s' : Session Tables) (order : ℤ)
    → MessageEffect env t p s s'
    → IsReserved s.committed.tables order
    → IsReserved s'.committed.tables order
MessageEffect-IsReserved env t p s s' order (inl same) h = rw same h
MessageEffect-IsReserved env t p s s' order (inr (inl (evt, _, _, o))) h =
    ReserveOutcome-IsReserved env s s' evt order o h
MessageEffect-IsReserved env t p s s' order (inr (inr (evt, o))) h =
    RestoreOutcome-IsReserved env s s' evt order o h

MessageEffect-IsTrue :
    (env : Env) (t : EventType) (p : Payload) (s s' : Session Tables)
    → MessageEffect env t p s s'
    → IsTrue s
    → IsTrue s'
MessageEffect-IsTrue env t p s s' (inl same) h = rw same h
MessageEffect-IsTrue env t p s s' (inr (inl (evt, _, _, o))) h =
    ReserveOutcome-IsTrue env s s' evt o h
MessageEffect-IsTrue env t p s s' (inr (inr (evt, o))) h = RestoreOutcome-IsTrue env s s' evt o h

-- What a message that calls an order paid says of the event that it carries.
said_paid :
    (P : ℤ → Type 0) (t : EventType) (p : Payload) (evt : PaymentCompletedEvent)
    → t ≡ EventType.payment_completed
    → unmarshal_payment_completed p ≡ ok evt
    → SaysPaid P t p
    → P evt.order_id
said_paid P t p evt topic decoded h =
    let here : SaysPaid P EventType.payment_completed p = rw topic at h in rw decoded at here

MessageEffect-AllFor :
    (env : Env) (t : EventType) (p : Payload) (s s' : Session Tables) (P : ℤ → Type 0)
    → MessageEffect env t p s s'
    → SaysPaid P t p
    → AllFor P s.committed.tables
    → AllFor P s'.committed.tables
MessageEffect-AllFor env t p s s' P (inl same) says h = rw same h
MessageEffect-AllFor env t p s s' P (inr (inl (evt, topic, decoded, o))) says h =
    ReserveOutcome-AllFor env s s' evt P o (said_paid P t p evt topic decoded says) h
MessageEffect-AllFor env t p s s' P (inr (inr (evt, o))) says h =
    RestoreOutcome-AllFor env s s' evt P o h

module _ (redis : Redis) (labels : List Text) (env : Env) (s : Session Tables) (st : redis.State)
    (msg : Message) where
  abbrev after : Session Tables
  after = (event_handler redis labels env msg s st).1

  -- A reservation of an order stays, in whatever status.
  pub event_handler-IsReserved :
      (order : ℤ)
      → IsReserved s.committed.tables order
      → IsReserved (event_handler redis labels env msg s st).1.committed.tables order
  event_handler-IsReserved order h =
      MessageEffect-IsReserved env msg.topic msg.value s after order
        (effect redis labels env s st msg) h

  -- What the outbox tells stays true.
  pub event_handler-IsTrue : IsTrue s → IsTrue (event_handler redis labels env msg s st).1
  event_handler-IsTrue h =
      MessageEffect-IsTrue env msg.topic msg.value s after (effect redis labels env s st msg) h

  -- Only an order that the message calls paid gets a reservation.
  pub event_handler-AllFor :
      (P : ℤ → Type 0)
      → SaysPaid P msg.topic msg.value
      → AllFor P s.committed.tables
      → AllFor P (event_handler redis labels env msg s st).1.committed.tables
  event_handler-AllFor P says h =
      MessageEffect-AllFor env msg.topic msg.value s after P (effect redis labels env s st msg) says
        h

  -- What the service has announced stays in the outbox.
  pub event_handler-Any :
      (P : OutboxEvent → Type 0)
      → Any P s.committed.outbox
      → Any P (event_handler redis labels env msg s st).1.committed.outbox
  event_handler-Any P h = elim (effect redis labels env s st msg) [
    | inl same ↦ rw same h
    | inr (inl (_, _, _, inl same)) ↦ rw same h
    | inr (inl (_, _, _, inr (inl (_, wrote)))) ↦ rw wrote (Any-insert P _ s.committed.outbox h)
    | inr (inl (_, _, _, inr (inr (_, wrote)))) ↦ rw wrote (Any-insert P _ s.committed.outbox h)
    | inr (inr (_, inl same)) ↦ rw same h
    | inr (inr (_, inr (_, _, wrote))) ↦ rw wrote (Any-insert P _ s.committed.outbox h)
  ]
