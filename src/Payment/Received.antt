-- ===== src/Payment/Received.antt =====
-- What a message does to the payments and to what their outbox tells
-- (services/payment/internal/handler/event_handler.go).
use msa_saga_go_practical.Prelude.{◌≡◌, ◌⊎◌, refl, List, inl, inr}
use msa_saga_go_practical.Prelude.Int.{ℤ}
use msa_saga_go_practical.Common.Events.{EventType, OrderCreatedEvent, StockReservationFailedEvent}
use msa_saga_go_practical.Common.Decode.{
  unmarshal_order_created, unmarshal_stock_reservation_failed,
}
use msa_saga_go_practical.Common.Idempotency.{Redis}
use msa_saga_go_practical.Common.Messaging.{Message}
use msa_saga_go_practical.Common.Once.{once-Effect}
use msa_saga_go_practical.Store.Session.{Session, Env}
use msa_saga_go_practical.Payment.Domain.{Payment}
use msa_saga_go_practical.Payment.Service.{
  Gateway, handle_order_created, handle_stock_reservation_failed,
}
use msa_saga_go_practical.Payment.Handler.{
  store_prefix, on_order_created, on_stock_reservation_failed, dispatch, handle_message,
}
use msa_saga_go_practical.Common.Wire.{Payload}
use msa_saga_go_practical.Common.Result.{ok}
use msa_saga_go_practical.Payment.Consistency.{
  HoldsIn, handle_order_created-IsConsistent, handle_stock_reservation_failed-IsConsistent,
}
use msa_saga_go_practical.Payment.Provenance.{
  IsPaid, IsTrue, handle_order_created-Outcome, handle_stock_reservation_failed-Outcome,
  ChargeOutcome-IsPaid, RefundOutcome-IsPaid, ChargeOutcome-IsTrue, RefundOutcome-IsTrue,
}

-- A message changes nothing, or is a charge, or a refund for the failed reservation that it tells of.
abbrev pub MessageEffect :
    Gateway → Env → EventType → Payload → Session (List Payment) → Session (List Payment) → Type 0
MessageEffect gateway env t p s s' =
    (s' ≡ s)
    ⊎ ((evt : OrderCreatedEvent) × (s' ≡ (handle_order_created gateway env evt s).1))
    ⊎ ((evt : StockReservationFailedEvent) × (t ≡ EventType.stock_reservation_failed)
        × (unmarshal_stock_reservation_failed p ≡ ok evt)
        × (s' ≡ (handle_stock_reservation_failed env evt s).1))

module _ (redis : Redis) (gateway : Gateway) (env : Env) (s : Session (List Payment))
    (st : redis.State) where
  dispatch-MessageEffect :
      (t : EventType) (msg : Message)
      → MessageEffect gateway env t msg.value s (dispatch redis gateway env t msg s st).1
  unfolding dispatch on_order_created on_stock_reservation_failed
  dispatch-MessageEffect EventType.order_created msg =
      elim (once-Effect redis store_prefix unmarshal_order_created (λ evt. evt.base.event_id)
        (handle_order_created gateway env) msg.value s st) [
          | inl same ↦ inl same
          | inr (evt, _, served) ↦ inr (inl (evt, served))
        ]
  dispatch-MessageEffect EventType.stock_reservation_failed msg =
      elim (once-Effect redis store_prefix unmarshal_stock_reservation_failed
        (λ evt. evt.base.event_id) (handle_stock_reservation_failed env) msg.value s st) [
          | inl same ↦ inl same
          | inr (evt, decoded, served) ↦ inr (inr (evt, refl, decoded, served))
        ]
  dispatch-MessageEffect _ msg = inl refl

  pub effect :
      (msg : Message)
      → MessageEffect gateway env msg.topic msg.value s
          (handle_message redis gateway env msg s st).1
  unfolding handle_message
  effect msg = dispatch-MessageEffect msg.topic msg

  -- A payment of an order stays.
  pub handle_message-IsPaid :
      (msg : Message) (order : ℤ)
      → IsPaid s.committed.tables order
      → IsPaid (handle_message redis gateway env msg s st).1.committed.tables order
  handle_message-IsPaid msg order h = elim (effect msg) [
    | inl same ↦ rw same h
    | inr (inl (evt, served)) ↦ rw served (
        ChargeOutcome-IsPaid gateway env evt s (handle_order_created gateway env evt s).1 order
          (handle_order_created-Outcome gateway env evt s) h)
    | inr (inr (evt, _, _, served)) ↦ rw served (
        RefundOutcome-IsPaid env evt s (handle_stock_reservation_failed env evt s).1 order
          (handle_stock_reservation_failed-Outcome env evt s) h)
  ]

  -- What the outbox tells stays true.
  pub handle_message-IsTrue :
      (msg : Message) → IsTrue s → IsTrue (handle_message redis gateway env msg s st).1
  handle_message-IsTrue msg h = elim (effect msg) [
    | inl same ↦ rw same h
    | inr (inl (evt, served)) ↦ rw served (
        ChargeOutcome-IsTrue gateway env evt s (handle_order_created gateway env evt s).1
          (handle_order_created-Outcome gateway env evt s) h)
    | inr (inr (evt, _, _, served)) ↦ rw served (
        RefundOutcome-IsTrue env evt s (handle_stock_reservation_failed env evt s).1
          (handle_stock_reservation_failed-Outcome env evt s) h)
  ]

  -- The payments stay consistent.
  pub handle_message-HoldsIn :
      (msg : Message) → HoldsIn s → HoldsIn (handle_message redis gateway env msg s st).1
  handle_message-HoldsIn msg h = elim (effect msg) [
    | inl same ↦ rw same h
    | inr (inl (evt, served)) ↦ rw served (handle_order_created-IsConsistent gateway env evt s h)
    | inr (inr (evt, _, _, served)) ↦
        rw served (handle_stock_reservation_failed-IsConsistent env evt s h)
  ]
