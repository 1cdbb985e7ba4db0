-- ===== src/Order/Received.antt =====
-- What a message does to the orders (services/order/internal/handler/event_handler.go).
use msa_saga_go_practical.Prelude.{◌≡◌, ◌⊎◌, refl, List, inl, inr}
use msa_saga_go_practical.Prelude.Int.{ℤ}
use msa_saga_go_practical.Common.Events.{EventType}
use msa_saga_go_practical.Common.Wire.{Payload}
use msa_saga_go_practical.Common.Decode.{
  unmarshal_payment_completed, unmarshal_payment_failed, unmarshal_stock_reserved,
  unmarshal_stock_reservation_failed, unmarshal_delivery_started, unmarshal_delivery_failed,
}
use msa_saga_go_practical.Common.Idempotency.{Redis}
use msa_saga_go_practical.Common.Messaging.{Message}
use msa_saga_go_practical.Common.Once.{once-Effect, once_done, IsUnmarked, after_mark}
use msa_saga_go_practical.Common.Result.{ok}
use msa_saga_go_practical.Prelude.{false, some}
use msa_saga_go_practical.Prelude.Text.{Text}
use msa_saga_go_practical.Store.Table.{find}
use msa_saga_go_practical.Order.Repository.{has_id}
use msa_saga_go_practical.Order.Transitions.{handle-refines-next}
use msa_saga_go_practical.Store.Session.{Session, Env}
use msa_saga_go_practical.Delivery.Provenance.{SaysStarted}
use msa_saga_go_practical.Order.Domain.{Order}
use msa_saga_go_practical.Order.Incoming.{Incoming, order_of, advance, handle}
use msa_saga_go_practical.Order.Service.{
  handle_payment_completed, handle_payment_failed, handle_stock_reserved,
  handle_stock_reservation_failed, handle_delivery_started, handle_delivery_failed,
}
use msa_saga_go_practical.Order.Consistency.{no_others}
use msa_saga_go_practical.Order.Handler.{
  store_prefix, on_payment_completed, on_payment_failed, on_stock_reserved,
  on_stock_reservation_failed, on_delivery_started, on_delivery_failed, dispatch, handle_message,
}
use msa_saga_go_practical.Order.Provenance.{AllDone, IsCarried, handle-AllDone}

-- A message changes nothing, or is an event that the service handles.
abbrev pub MessageEffect :
    Env → EventType → Payload → Session (List Order) → Session (List Order) → Type 0
MessageEffect env t p s s' =
    (s' ≡ s) ⊎ ((m : Incoming) × IsCarried m t p × (s' ≡ (handle no_others env m s).1))

module _ (redis : Redis) (env : Env) (s : Session (List Order)) (st : redis.State) where
  dispatch-MessageEffect :
      (t : EventType) (msg : Message)
      → MessageEffect env t msg.value s (dispatch redis no_others env t msg s st).1
  unfolding dispatch handle on_payment_completed on_payment_failed on_stock_reserved
      on_stock_reservation_failed on_delivery_started on_delivery_failed
  dispatch-MessageEffect EventType.payment_completed msg =
      elim (once-Effect redis store_prefix unmarshal_payment_completed (λ evt. evt.base.event_id)
        (handle_payment_completed no_others env) msg.value s st) [
          | inl same ↦ inl same
          | inr (evt, decoded, served) ↦
              inr (Incoming.payment_completed evt, (refl, decoded), served)
        ]
  dispatch-MessageEffect EventType.payment_failed msg =
      elim (once-Effect redis store_prefix unmarshal_payment_failed (λ evt. evt.base.event_id)
        (handle_payment_failed no_others env) msg.value s st) [
          | inl same ↦ inl same
          | inr (evt, decoded, served) ↦ inr (Incoming.payment_failed evt, (refl, decoded), served)
        ]
  dispatch-MessageEffect EventType.stock_reserved msg =
      elim (once-Effect redis store_prefix unmarshal_stock_reserved (λ evt. evt.base.event_id)
        (handle_stock_reserved no_others env) msg.value s st) [
          | inl same ↦ inl same
          | inr (evt, decoded, served) ↦ inr (Incoming.stock_reserved evt, (refl, decoded), served)
        ]
  dispatch-MessageEffect EventType.stock_reservation_failed msg =
      elim (once-Effect redis store_prefix unmarshal_stock_reservation_failed
        (λ evt. evt.base.event_id) (handle_stock_reservation_failed no_others env) msg.value s st) [
          | inl same ↦ inl same
          | inr (evt, decoded, served) ↦
              inr (Incoming.stock_reservation_failed evt, (refl, decoded), served)
        ]
  dispatch-MessageEffect EventType.delivery_started msg =
      elim (once-Effect redis store_prefix unmarshal_delivery_started (λ evt. evt.base.event_id)
        (handle_delivery_started no_others env) msg.value s st) [
          | inl same ↦ inl same
          | inr (evt, decoded, served) ↦
              inr (Incoming.delivery_started evt, (refl, decoded), served)
        ]
  dispatch-MessageEffect EventType.delivery_failed msg =
      elim (once-Effect redis store_prefix unmarshal_delivery_failed (λ evt. evt.base.event_id)
        (handle_delivery_failed no_others env) msg.value s st) [
          | inl same ↦ inl same
          | inr (evt, decoded, served) ↦ inr (Incoming.delivery_failed evt, (refl, decoded), served)
        ]
  dispatch-MessageEffect _ msg = inl refl

  pub effect :
      (msg : Message)
      → MessageEffect env msg.topic msg.value s (handle_message redis no_others env msg s st).1
  unfolding handle_message
  effect msg = dispatch-MessageEffect msg.topic msg

  -- An order becomes COMPLETED only by a message that says that its delivery was started.
  pub handle_message-AllDone :
      (P : ℤ → Type 0) (msg : Message)
      → SaysStarted P msg.topic msg.value
      → AllDone P s.committed.tables
      → AllDone P (handle_message redis no_others env msg s st).1.committed.tables
  handle_message-AllDone P msg says h = elim (effect msg) [
    | inl same ↦ rw same h
    | inr (m, carried, served) ↦
        rw served (handle-AllDone P env m msg.topic msg.value s carried says h)
  ]

-- `EventID` of an event.
abbrev pub event_id_of : Incoming → Text
event_id_of (Incoming.payment_completed e) = e.base.event_id
event_id_of (Incoming.payment_failed e) = e.base.event_id
event_id_of (Incoming.stock_reserved e) = e.base.event_id
event_id_of (Incoming.stock_reservation_failed e) = e.base.event_id
event_id_of (Incoming.delivery_started e) = e.base.event_id
event_id_of (Incoming.delivery_failed e) = e.base.event_id

module _ (redis : Redis) (env : Env) (s : Session (List Order)) (st : redis.State) where
  dispatch-handle :
      (m : Incoming) (t : EventType) (msg : Message)
      → IsCarried m t msg.value
      → IsUnmarked redis store_prefix (event_id_of m) st
      → (handle no_others env m s).0 ≡ ok tt
      → dispatch redis no_others env t msg s st
        ≡ (ok tt, (handle no_others env m s).1, after_mark redis store_prefix (event_id_of m) st)
  unfolding dispatch handle on_payment_completed on_payment_failed on_stock_reserved
      on_stock_reservation_failed on_delivery_started on_delivery_failed
  dispatch-handle (Incoming.payment_completed e) t msg (topic, decoded) new done = rw topic (
      once_done redis store_prefix unmarshal_payment_completed (λ evt. evt.base.event_id)
        (handle_payment_completed no_others env) msg.value e decoded s st new done)
  dispatch-handle (Incoming.payment_failed e) t msg (topic, decoded) new done = rw topic (
      once_done redis store_prefix unmarshal_payment_failed (λ evt. evt.base.event_id)
        (handle_payment_failed no_others env) msg.value e decoded s st new done)
  dispatch-handle (Incoming.stock_reserved e) t msg (topic, decoded) new done = rw topic (
      once_done redis store_prefix unmarshal_stock_reserved (λ evt. evt.base.event_id)
        (handle_stock_reserved no_others env) msg.value e decoded s st new done)
  dispatch-handle (Incoming.stock_reservation_failed e) t msg (topic, decoded) new done = rw topic (
      once_done redis store_prefix unmarshal_stock_reservation_failed (λ evt. evt.base.event_id)
        (handle_stock_reservation_failed no_others env) msg.value e decoded s st new done)
  dispatch-handle (Incoming.delivery_started e) t msg (topic, decoded) new done = rw topic (
      once_done redis store_prefix unmarshal_delivery_started (λ evt. evt.base.event_id)
        (handle_delivery_started no_others env) msg.value e decoded s st new done)
  dispatch-handle (Incoming.delivery_failed e) t msg (topic, decoded) new done = rw topic (
      once_done redis store_prefix unmarshal_delivery_failed (λ evt. evt.base.event_id)
        (handle_delivery_failed no_others env) msg.value e decoded s st new done)

  -- A message of an unmarked event is handed to the event's own handler, and the event is marked.
  pub handle_message-handle :
      (m : Incoming) (msg : Message)
      → IsCarried m msg.topic msg.value
      → IsUnmarked redis store_prefix (event_id_of m) st
      → (handle no_others env m s).0 ≡ ok tt
      → handle_message redis no_others env msg s st
        ≡ (ok tt, (handle no_others env m s).1, after_mark redis store_prefix (event_id_of m) st)
  unfolding handle_message
  handle_message-handle m msg carried new done = dispatch-handle m msg.topic msg carried new done

  -- A message whose topic and JSON text are those of one of the six events, which the store does not
  -- know, and whose order is in the table, with neither query failing: the handler succeeds, the
  -- order's row becomes what the specification `next` says of that event and the row's status, the
  -- outbox stays as it was, and the event is marked under its id.
  pub handle_message_moves :
      (m : Incoming) (msg : Message) (o : Order)
      → IsCarried m msg.topic msg.value
      → IsUnmarked redis store_prefix (event_id_of m) st
      → env.faults.find ≡ false
      → env.faults.update ≡ false
      → find (has_id (order_of m)) s.committed.tables ≡ some o
      → let (r, s', st') = handle_message redis no_others env msg s st in
        (r ≡ ok tt)
        × (find (has_id (order_of m)) s'.committed.tables ≡ some (advance m env.now o))
        × (s'.committed.outbox ≡ s.committed.outbox)
        × (st' ≡ after_mark redis store_prefix (event_id_of m) st)
  handle_message_moves m msg o carried new f u found =
      let (done, row, outbox) = handle-refines-next no_others env m s o f u found found in
      let answer = handle_message-handle m msg carried new done in
      rw answer (refl, row, outbox, refl)
