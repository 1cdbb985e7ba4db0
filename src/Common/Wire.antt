-- ===== src/Common/Wire.antt =====
-- The JSON form of the event structs of common/events/events.go: what `json.Marshal` writes by the
-- structs' tags and `json.Unmarshal` reads back. A missing member leaves the field's zero value, a
-- member of another type is an error and an unknown member is skipped, as in encoding/json; its
-- fall-back to names in another case is left out. An instant is kept as such, not as its text.
use msa_saga_go_practical.Prelude.{ℕ, String, Option, none, some, List, [], ◌∷◌, if◌then◌else◌}
use msa_saga_go_practical.Prelude.Int.{ℤ, pos}
use msa_saga_go_practical.Prelude.Text.{Text}
use msa_saga_go_practical.Common.Errors.{Error}
use msa_saga_go_practical.Common.Events.{
  event_text, event_type_of, BaseEvent, OrderCreatedEvent, PaymentCompletedEvent,
  PaymentFailedEvent, PaymentRefundedEvent, StockReservedEvent, StockReservationFailedEvent,
  StockRestoredEvent, DeliveryStartedEvent, DeliveryFailedEvent,
}
use msa_saga_go_practical.Common.Result.{Result, ok, err, ◌>>=◌}
use text.Mathlib.Text.{◌==◌ as str_eq}

-- The values that occur as members.
pub data Json : Type 0 where
  num : ℤ → Json
  str : Text → Json
  instant : ℕ → Json

abbrev pub Members : Type 0
Members = List (String × Json)

-- The bytes of a message: an object, or a text that is no JSON object.
pub data Payload : Type 0 where
  object : Members → Payload
  malformed : Payload

-- The last member of a name counts.
unfoldable pub member : String → Members → Option Json
member k [] = none
member k ((j, v) ∷ m) = elim (member k m) [
  | some w ↦ some w
  | none ↦ if str_eq j k then some v else none
]

unfoldable pub read_num : String → Members → Result ℤ
unfolding member
read_num k m = elim (member k m) [
  | some v ↦ elim v [ num n ↦ ok n | _ ↦ err Error.bad_json ]
  | none ↦ ok (pos 0)
]

unfoldable pub read_str : String → Members → Result Text
unfolding member
read_str k m = elim (member k m) [
  | some v ↦ elim v [ str s ↦ ok s | _ ↦ err Error.bad_json ]
  | none ↦ ok []
]

read_instant : String → Members → Result ℕ
unfolding member
read_instant k m = elim (member k m) [
  | some v ↦ elim v [ instant t ↦ ok t | _ ↦ err Error.bad_json ]
  | none ↦ ok 0
]

abbrev pub base_members : BaseEvent → Members → Members
base_members b rest =
    ("eventId", str b.event_id)
    ∷ ("eventType", str (event_text b.event_type))
    ∷ ("schemaVersion", num b.schema_version)
    ∷ ("occurredAt", instant b.occurred_at)
    ∷ ("correlationId", str b.correlation_id)
    ∷ rest

unfoldable pub read_base : Members → Result BaseEvent
unfolding read_num read_str read_instant
read_base m = do
  id ← read_str "eventId" m
  type ← read_str "eventType" m
  version ← read_num "schemaVersion" m
  at ← read_instant "occurredAt" m
  correlation ← read_str "correlationId" m
  ok (record {
    event_id = id;
    event_type = event_type_of type;
    schema_version = version;
    occurred_at = at;
    correlation_id = correlation;
  })

-- The events that are sent.
pub data Event : Type 0 where
  order_created : OrderCreatedEvent → Event
  payment_completed : PaymentCompletedEvent → Event
  payment_failed : PaymentFailedEvent → Event
  payment_refunded : PaymentRefundedEvent → Event
  stock_reserved : StockReservedEvent → Event
  stock_reservation_failed : StockReservationFailedEvent → Event
  stock_restored : StockRestoredEvent → Event
  delivery_started : DeliveryStartedEvent → Event
  delivery_failed : DeliveryFailedEvent → Event

-- `Event.GetEventType`, `GetEventID` and `GetCorrelationID` read the embedded base.
abbrev pub base_of : Event → BaseEvent
base_of (Event.order_created e) = e.base
base_of (Event.payment_completed e) = e.base
base_of (Event.payment_failed e) = e.base
base_of (Event.payment_refunded e) = e.base
base_of (Event.stock_reserved e) = e.base
base_of (Event.stock_reservation_failed e) = e.base
base_of (Event.stock_restored e) = e.base
base_of (Event.delivery_started e) = e.base
base_of (Event.delivery_failed e) = e.base

abbrev pub fields_of : Event → Members
fields_of (Event.order_created e) =
    ("orderId", num e.order_id)
    ∷ ("userId", num e.user_id)
    ∷ ("amount", num e.amount)
    ∷ ("quantity", num e.quantity)
    ∷ []
fields_of (Event.payment_completed e) =
    ("orderId", num e.order_id)
    ∷ ("paymentId", num e.payment_id)
    ∷ ("amount", num e.amount)
    ∷ ("paymentType", str e.payment_type)
    ∷ []
fields_of (Event.payment_failed e) = ("orderId", num e.order_id) ∷ ("reason", str e.reason) ∷ []
fields_of (Event.payment_refunded e) =
    ("orderId", num e.order_id) ∷ ("paymentId", num e.payment_id) ∷ ("amount", num e.amount) ∷ []
fields_of (Event.stock_reserved e) =
    ("orderId", num e.order_id)
    ∷ ("reservationId", num e.reservation_id)
    ∷ ("quantity", num e.quantity)
    ∷ []
fields_of (Event.stock_reservation_failed e) =
    ("orderId", num e.order_id) ∷ ("quantity", num e.quantity) ∷ ("reason", str e.reason) ∷ []
fields_of (Event.stock_restored e) =
    ("orderId", num e.order_id)
    ∷ ("reservationId", num e.reservation_id)
    ∷ ("quantity", num e.quantity)
    ∷ []
fields_of (Event.delivery_started e) =
    ("orderId", num e.order_id)
    ∷ ("deliveryId", num e.delivery_id)
    ∷ ("address", str e.address)
    ∷ []
fields_of (Event.delivery_failed e) = ("orderId", num e.order_id) ∷ ("reason", str e.reason) ∷ []

-- `json.Marshal(event)`: the members of the embedded base, then the struct's own.
unfoldable pub marshal : Event → Payload
marshal e = object (base_members (base_of e) (fields_of e))
