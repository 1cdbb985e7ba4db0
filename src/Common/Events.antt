-- ===== src/Common/Events.antt =====
-- common/events/events.go: the event types and the event structs.
use msa_saga_go_practical.Prelude.{ℕ, List, [], ◌∷◌, if◌then◌else◌}
use msa_saga_go_practical.Prelude.Int.{ℤ, pos}
use msa_saga_go_practical.Prelude.Text.{Text, text, text_eq}

-- The constants of `EventType`. Go's type is a string: `other` is any text that is no constant.
pub data EventType : Type 0 where
  order_created order_completed order_canceled order_failed : EventType
  payment_completed payment_failed payment_refunded : EventType
  stock_reserved stock_reservation_failed stock_restored : EventType
  delivery_started delivery_failed : EventType
  other : Text → EventType

unfoldable pub event_text : EventType → Text
unfolding text
event_text EventType.order_created = text "order.created.v1"
event_text EventType.order_completed = text "order.completed.v1"
event_text EventType.order_canceled = text "order.canceled.v1"
event_text EventType.order_failed = text "order.failed.v1"
event_text EventType.payment_completed = text "payment.completed.v1"
event_text EventType.payment_failed = text "payment.failed.v1"
event_text EventType.payment_refunded = text "payment.refunded.v1"
event_text EventType.stock_reserved = text "stock.reserved.v1"
event_text EventType.stock_reservation_failed = text "stock.reservation_failed.v1"
event_text EventType.stock_restored = text "stock.restored.v1"
event_text EventType.delivery_started = text "delivery.started.v1"
event_text EventType.delivery_failed = text "delivery.failed.v1"
event_text (EventType.other s) = s

abbrev pub event_types : List EventType
event_types =
    EventType.order_created ∷ EventType.order_completed ∷ EventType.order_canceled
    ∷ EventType.order_failed ∷ EventType.payment_completed ∷ EventType.payment_failed
    ∷ EventType.payment_refunded ∷ EventType.stock_reserved ∷ EventType.stock_reservation_failed
    ∷ EventType.stock_restored ∷ EventType.delivery_started ∷ EventType.delivery_failed ∷ []

type_among : List EventType → Text → EventType
type_among [] s = EventType.other s
type_among (t ∷ ts) s = if text_eq (event_text t) s then t else type_among ts s

-- The conversion `EventType(s)`.
unfoldable pub event_type_of : Text → EventType
unfolding type_among event_text text_eq
event_type_of s = type_among event_types s

pub record BaseEvent : Type 0 where
  pub event_id : Text
  pub event_type : EventType
  pub schema_version : ℤ
  pub occurred_at : ℕ
  pub correlation_id : Text

pub record OrderCreatedEvent : Type 0 where
  pub base : BaseEvent
  pub order_id : ℤ
  pub user_id : ℤ
  pub amount : ℤ
  pub quantity : ℤ

-- No service sends or reads these three.
pub record OrderCompletedEvent : Type 0 where
  pub base : BaseEvent
  pub order_id : ℤ

pub record OrderCanceledEvent : Type 0 where
  pub base : BaseEvent
  pub order_id : ℤ
  pub reason : Text

pub record OrderFailedEvent : Type 0 where
  pub base : BaseEvent
  pub order_id : ℤ
  pub reason : Text

pub record PaymentCompletedEvent : Type 0 where
  pub base : BaseEvent
  pub order_id : ℤ
  pub payment_id : ℤ
  pub amount : ℤ
  pub payment_type : Text

pub record PaymentFailedEvent : Type 0 where
  pub base : BaseEvent
  pub order_id : ℤ
  pub reason : Text

pub record PaymentRefundedEvent : Type 0 where
  pub base : BaseEvent
  pub order_id : ℤ
  pub payment_id : ℤ
  pub amount : ℤ

pub record StockReservedEvent : Type 0 where
  pub base : BaseEvent
  pub order_id : ℤ
  pub reservation_id : ℤ
  pub quantity : ℤ

pub record StockReservationFailedEvent : Type 0 where
  pub base : BaseEvent
  pub order_id : ℤ
  pub quantity : ℤ
  pub reason : Text

pub record StockRestoredEvent : Type 0 where
  pub base : BaseEvent
  pub order_id : ℤ
  pub reservation_id : ℤ
  pub quantity : ℤ

pub record DeliveryStartedEvent : Type 0 where
  pub base : BaseEvent
  pub order_id : ℤ
  pub delivery_id : ℤ
  pub address : Text

pub record DeliveryFailedEvent : Type 0 where
  pub base : BaseEvent
  pub order_id : ℤ
  pub reason : Text

-- The base of an event that a handler sends: schema version 1, and the time and the fresh id that
-- `time.Now` and `uuid.New` return.
abbrev pub new_base : EventType → Text → ℕ → Text → BaseEvent
new_base t id now correlation = record {
  event_id = id;
  event_type = t;
  schema_version = pos 1;
  occurred_at = now;
  correlation_id = correlation;
}
