-- ===== src/Common/RoundTrip.antt =====
-- What common/events/events.go promises of its JSON tags: a service reads back the very event that
-- another one sent.
use msa_saga_go_practical.Prelude.{◌≡◌, refl}
use msa_saga_go_practical.Common.Events.{EventType, event_text, event_type_of}
use msa_saga_go_practical.Common.Result.{ok}
use msa_saga_go_practical.Common.Wire.{Event, base_of, marshal}
use msa_saga_go_practical.Common.Decode.{
  unmarshal_order_created, unmarshal_payment_completed, unmarshal_payment_failed,
  unmarshal_payment_refunded, unmarshal_stock_reserved, unmarshal_stock_reservation_failed,
  unmarshal_delivery_started, unmarshal_delivery_failed,
}

-- A constant of `EventType`.
abbrev pub IsDeclared : EventType → Type 0
IsDeclared (EventType.other s) = ⊥
IsDeclared _ = Unit

-- The texts of the constants tell them apart.
pub event_type_of-event_text : (t : EventType) → IsDeclared t → event_type_of (event_text t) ≡ t
unfolding event_type_of event_text
event_type_of-event_text (EventType.other s) h = elim h [ ]
event_type_of-event_text _ h = refl

-- What a reader of the event's topic gets from its JSON form. No service reads `stock.restored.v1`.
abbrev pub ReadsBack : Event → Type 0
ReadsBack (Event.order_created e) = unmarshal_order_created (marshal (Event.order_created e)) ≡ ok e
ReadsBack (Event.payment_completed e) =
    unmarshal_payment_completed (marshal (Event.payment_completed e)) ≡ ok e
ReadsBack (Event.payment_failed e) =
    unmarshal_payment_failed (marshal (Event.payment_failed e)) ≡ ok e
ReadsBack (Event.payment_refunded e) =
    unmarshal_payment_refunded (marshal (Event.payment_refunded e)) ≡ ok e
ReadsBack (Event.stock_reserved e) =
    unmarshal_stock_reserved (marshal (Event.stock_reserved e)) ≡ ok e
ReadsBack (Event.stock_reservation_failed e) =
    unmarshal_stock_reservation_failed (marshal (Event.stock_reservation_failed e)) ≡ ok e
ReadsBack (Event.delivery_started e) =
    unmarshal_delivery_started (marshal (Event.delivery_started e)) ≡ ok e
ReadsBack (Event.delivery_failed e) =
    unmarshal_delivery_failed (marshal (Event.delivery_failed e)) ≡ ok e
ReadsBack (Event.stock_restored e) = Unit

-- Each event struct that a service reads comes back from its JSON form field by field, when its
-- event type is one of the declared constants.
pub unmarshal-marshal : (e : Event) → IsDeclared (base_of e).event_type → ReadsBack e
unfolding marshal unmarshal_order_created unmarshal_payment_completed unmarshal_payment_failed
    unmarshal_payment_refunded unmarshal_stock_reserved unmarshal_stock_reservation_failed
    unmarshal_delivery_started unmarshal_delivery_failed
unmarshal-marshal (Event.order_created e) h = rw (event_type_of-event_text e.base.event_type h)
unmarshal-marshal (Event.payment_completed e) h = rw (event_type_of-event_text e.base.event_type h)
unmarshal-marshal (Event.payment_failed e) h = rw (event_type_of-event_text e.base.event_type h)
unmarshal-marshal (Event.payment_refunded e) h = rw (event_type_of-event_text e.base.event_type h)
unmarshal-marshal (Event.stock_reserved e) h = rw (event_type_of-event_text e.base.event_type h)
unmarshal-marshal (Event.stock_reservation_failed e) h =
    rw (event_type_of-event_text e.base.event_type h)
unmarshal-marshal (Event.delivery_started e) h = rw (event_type_of-event_text e.base.event_type h)
unmarshal-marshal (Event.delivery_failed e) h = rw (event_type_of-event_text e.base.event_type h)
unmarshal-marshal (Event.stock_restored e) h = tt
