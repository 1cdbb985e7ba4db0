-- ===== src/Delivery/Provenance.antt =====
-- What the deliveries and the events of the delivery service stand for: a delivery is about an order
-- for which `stock.reserved.v1` came, and every `delivery.started.v1` is about an order that has a
-- delivery (services/delivery/internal/service/delivery_service.go).
use msa_saga_go_practical.Prelude.{◌≡◌, ◌≢◌, ◌⊎◌, refl, Bool, none, List, inl, inr}
use msa_saga_go_practical.Prelude.Int.{ℤ, eq_ℤ, eq_ℤ_iff}
use msa_saga_go_practical.Prelude.Text.{Text}
use msa_saga_go_practical.Common.Events.{EventType, StockReservedEvent, DeliveryStartedEvent}
use msa_saga_go_practical.Common.Wire.{Payload, Event, marshal}
use msa_saga_go_practical.Common.Result.{ok}
use msa_saga_go_practical.Common.Decode.{unmarshal_stock_reserved, unmarshal_delivery_started}
use msa_saga_go_practical.Common.RoundTrip.{unmarshal-marshal}
use msa_saga_go_practical.Common.Idempotency.{Redis}
use msa_saga_go_practical.Common.Messaging.{Message}
use msa_saga_go_practical.Common.Once.{once-Effect}
use msa_saga_go_practical.Store.Table.{find, insert, All, All-insert}
use msa_saga_go_practical.Store.Session.{Session, Env}
use msa_saga_go_practical.Store.Provenance.{
  OnOk, OnOk-map, Tells, Tells-map, Tells-insert, some-insert, some-insert_new,
}
use msa_saga_go_practical.Inventory.Provenance.{SaysReserved}
use msa_saga_go_practical.Delivery.Domain.{Delivery}
use msa_saga_go_practical.Delivery.Service.{delivery_started_event, handle_stock_reserved}
use msa_saga_go_practical.Delivery.Starting.{
  started, started_event, with_delivery, handle_stock_reserved_outcome,
}
use msa_saga_go_practical.Delivery.Handler.{store_prefix, event_handler}

abbrev pub is_for : ℤ → Delivery → Bool
is_for order d = eq_ℤ d.order_id order

abbrev pub IsDelivered : List Delivery → ℤ → Type 0
IsDelivered t order = find (is_for order) t ≢ none

-- What a `delivery.started.v1` says of its order.
abbrev pub SaysStarted : (ℤ → Type 0) → EventType → Payload → Type 0
SaysStarted P EventType.delivery_started p =
    OnOk (λ (e : DeliveryStartedEvent). P e.order_id) (unmarshal_delivery_started p)
SaysStarted P _ p = Unit

-- Every order whose delivery the outbox calls started has a delivery.
abbrev pub IsTrue : Session (List Delivery) → Type 0
IsTrue s = Tells (SaysStarted (IsDelivered s.committed.tables)) s.committed.outbox

-- Whether no other event is in the outbox.
abbrev pub OnlyStarted : Session (List Delivery) → Type 0
OnlyStarted s = Tells (λ t p. t ≡ EventType.delivery_started) s.committed.outbox

-- The order of every delivery has this property.
abbrev pub AllFor : (ℤ → Type 0) → List Delivery → Type 0
AllFor P t = All (λ (d : Delivery). P d.order_id) t

-- A message changes nothing that is committed, or starts a delivery of the order that it is about.
abbrev MessageEffect : Env → Payload → Session (List Delivery) → Session (List Delivery) → Type 0
MessageEffect env p s s' =
    (s'.committed ≡ s.committed)
    ⊎ ((evt : StockReservedEvent) × (unmarshal_stock_reserved p ≡ ok evt)
        × (s'.committed ≡ with_delivery env evt s))

effect :
    (redis : Redis) (labels : List Text) (env : Env) (s : Session (List Delivery))
    (st : redis.State) (msg : Message)
    → MessageEffect env msg.value s (event_handler redis labels env msg s st).1
unfolding event_handler
effect redis labels env s st msg =
    elim (once-Effect redis store_prefix unmarshal_stock_reserved (λ evt. evt.base.event_id)
      (handle_stock_reserved labels env) msg.value s st) [
        | inl same ↦ inl (rw same refl)
        | inr (evt, decoded, served) ↦ elim (handle_stock_reserved_outcome labels env evt s) [
          | inl (_, _, same) ↦ inl (rw (served, same) refl)
          | inr (inl (_, same)) ↦ inl (rw served same)
          | inr (inr (_, _, _, _, wrote)) ↦ inr (evt, decoded, rw served wrote)
        ]
      ]

SaysStarted-map :
    (P Q : ℤ → Type 0) (t : EventType) (p : Payload)
    → ((order : ℤ) → P order → Q order)
    → SaysStarted P t p
    → SaysStarted Q t p
SaysStarted-map P Q EventType.delivery_started p f h =
    OnOk-map (λ (e : DeliveryStartedEvent). P e.order_id) (λ e. Q e.order_id)
      (unmarshal_delivery_started p) (λ e. f e.order_id) h
SaysStarted-map P Q _ p f h = tt

told :
    (e : DeliveryStartedEvent) (P : ℤ → Type 0)
    → e.base.event_type ≡ EventType.delivery_started
    → P e.order_id
    → SaysStarted P EventType.delivery_started (marshal (Event.delivery_started e))
told e P declared h =
    let back : unmarshal_delivery_started (marshal (Event.delivery_started e)) ≡ ok e =
      unmarshal-marshal (Event.delivery_started e) (rw declared tt) in
    rw back h

module _ (env : Env) (p : Payload) (s s' : Session (List Delivery)) where
  MessageEffect-IsDelivered :
      (order : ℤ)
      → MessageEffect env p s s'
      → IsDelivered s.committed.tables order
      → IsDelivered s'.committed.tables order
  MessageEffect-IsDelivered order (inl same) h = rw same h
  MessageEffect-IsDelivered order (inr (evt, decoded, wrote)) h =
      rw wrote (some-insert (is_for order) (started env evt s) s.committed.tables h)

  MessageEffect-IsTrue : MessageEffect env p s s' → IsTrue s → IsTrue s'
  MessageEffect-IsTrue (inl same) h = rw same h
  MessageEffect-IsTrue (inr (evt, decoded, wrote)) h =
      let row = started env evt s in
      let t = insert row s.committed.tables in
      rw wrote (
        Tells-insert (SaysStarted (IsDelivered t)) (started_event env evt s) s.committed.outbox
          (Tells-map (SaysStarted (IsDelivered s.committed.tables)) (SaysStarted (IsDelivered t))
            s.committed.outbox
            (λ topic p.
              SaysStarted-map (IsDelivered s.committed.tables) (IsDelivered t) topic p
                (λ order. some-insert (is_for order) row s.committed.tables))
            h)
          (told (delivery_started_event env evt row) (IsDelivered t) refl (
            some-insert_new (is_for row.order_id) row s.committed.tables
              ((eq_ℤ_iff row.order_id row.order_id).1 refl))))

  MessageEffect-AllFor :
      (P : ℤ → Type 0)
      → MessageEffect env p s s'
      → SaysReserved P EventType.stock_reserved p
      → AllFor P s.committed.tables
      → AllFor P s'.committed.tables
  MessageEffect-AllFor P (inl same) says h = rw same h
  MessageEffect-AllFor P (inr (evt, decoded, wrote)) says h = rw wrote (
      All-insert (λ (d : Delivery). P d.order_id) (started env evt s) s.committed.tables h
        (rw decoded at says))

module _ (redis : Redis) (labels : List Text) (env : Env) (s : Session (List Delivery))
    (st : redis.State) (msg : Message) where
  abbrev after : Session (List Delivery)
  after = (event_handler redis labels env msg s st).1

  -- A delivery of an order stays.
  pub event_handler-IsDelivered :
      (order : ℤ)
      → IsDelivered s.committed.tables order
      → IsDelivered (event_handler redis labels env msg s st).1.committed.tables order
  event_handler-IsDelivered order h =
      MessageEffect-IsDelivered env msg.value s after order (effect redis labels env s st msg) h

  -- What the outbox tells stays true.
  pub event_handler-IsTrue : IsTrue s → IsTrue (event_handler redis labels env msg s st).1
  event_handler-IsTrue h =
      MessageEffect-IsTrue env msg.value s after (effect redis labels env s st msg) h

  -- Only an order that the message calls reserved gets a delivery.
  pub event_handler-AllFor :
      (P : ℤ → Type 0)
      → SaysReserved P EventType.stock_reserved msg.value
      → AllFor P s.committed.tables
      → AllFor P (event_handler redis labels env msg s st).1.committed.tables
  event_handler-AllFor P says h =
      MessageEffect-AllFor env msg.value s after P (effect redis labels env s st msg) says h

  -- The delivery service sends `delivery.started.v1` only.
  pub event_handler-OnlyStarted :
      OnlyStarted s → OnlyStarted (event_handler redis labels env msg s st).1
  event_handler-OnlyStarted h = elim (effect redis labels env s st msg) [
    | inl same ↦ rw same h
    | inr (evt, decoded, wrote) ↦ rw wrote (
        Tells-insert (λ t p. t ≡ EventType.delivery_started) (started_event env evt s)
          s.committed.outbox h refl)
  ]
