-- ===== src/Inventory/Provenance.antt =====
-- What the reservations and the events of the inventory service stand for: a reservation is about an
-- order for which `payment.completed.v1` came, and every `stock.reserved.v1` is about an order that
-- has a reservation (services/inventory/internal/service/inventory_service.go).
use msa_saga_go_practical.Prelude.{◌≡◌, ◌≢◌, ◌⊎◌, refl, Bool, none, List, inl, inr}
use msa_saga_go_practical.Prelude.Int.{ℤ, eq_ℤ, eq_ℤ_iff}
use msa_saga_go_practical.Prelude.Text.{Text}
use msa_saga_go_practical.Common.Events.{
  EventType, StockReservedEvent, PaymentCompletedEvent, PaymentRefundedEvent,
}
use msa_saga_go_practical.Common.Wire.{Payload, Event, marshal}
use msa_saga_go_practical.Common.Result.{ok}
use msa_saga_go_practical.Common.Decode.{unmarshal_stock_reserved}
use msa_saga_go_practical.Common.RoundTrip.{unmarshal-marshal}
use msa_saga_go_practical.Store.Table.{find, All, All-insert, All-update, find-update_some}
use msa_saga_go_practical.Store.Session.{OutboxEvent, Session, Env}
use msa_saga_go_practical.Store.Provenance.{
  OnOk, OnOk-map, Tells, Tells-map, Tells-insert, some-insert, some-insert_new,
}
use msa_saga_go_practical.Inventory.Domain.{Inventory, StockReservation, cancel}
use msa_saga_go_practical.Inventory.Repository.{Tables, has_id, set_status}
use msa_saga_go_practical.Inventory.Service.{
  stock_reserved_event, handle_payment_completed, handle_payment_refunded,
}
use msa_saga_go_practical.Inventory.Outcome.{
  with_failure, with_reservation, reservation, reserved_event, failed_event,
}
use msa_saga_go_practical.Inventory.Restoration.{
  with_restoration, restored_event, canceled, handle_payment_refunded_outcome,
}
use msa_saga_go_practical.Inventory.Reservation.{handle_payment_completed-Outcome}

abbrev pub is_for : ℤ → StockReservation → Bool
is_for order r = eq_ℤ r.order_id order

abbrev pub IsReserved : Tables → ℤ → Type 0
IsReserved t order = find (is_for order) t.reservations ≢ none

-- What an event of the inventory service is, and what a `stock.reserved.v1` says of its order.
abbrev pub SaysReserved : (ℤ → Type 0) → EventType → Payload → Type 0
SaysReserved P EventType.stock_reserved p =
    OnOk (λ (e : StockReservedEvent). P e.order_id) (unmarshal_stock_reserved p)
SaysReserved P EventType.stock_reservation_failed p = Unit
SaysReserved P EventType.stock_restored p = Unit
SaysReserved P _ p = ⊥

-- The outbox has no other events, and every order that it calls reserved has a reservation.
abbrev pub IsTrue : Session Tables → Type 0
IsTrue s = Tells (SaysReserved (IsReserved s.committed.tables)) s.committed.outbox

-- The order of every reservation has this property.
abbrev pub AllFor : (ℤ → Type 0) → Tables → Type 0
AllFor P t = All (λ (r : StockReservation). P r.order_id) t.reservations

-- The ways in which the two handlers leave the database.
abbrev pub ReserveOutcome : Env → PaymentCompletedEvent → Session Tables → Session Tables → Type 0
ReserveOutcome env evt s s' =
    (s'.committed ≡ s.committed)
    ⊎ ((reason : Text) × (s'.committed ≡ with_failure reason env evt s))
    ⊎ ((i : Inventory) × (s'.committed ≡ with_reservation i env evt s))

abbrev pub RestoreOutcome : Env → PaymentRefundedEvent → Session Tables → Session Tables → Type 0
RestoreOutcome env evt s s' =
    (s'.committed ≡ s.committed)
    ⊎ ((r : StockReservation) × (i : Inventory) × (s'.committed ≡ with_restoration r i env evt s))

pub handle_payment_completed-ReserveOutcome :
    (env : Env) (evt : PaymentCompletedEvent) (s : Session Tables)
    → ReserveOutcome env evt s (handle_payment_completed env evt s).1
handle_payment_completed-ReserveOutcome env evt s =
    elim (handle_payment_completed-Outcome env evt s) [
      | inl (x, known, done, same) ↦ inl (rw same refl)
      | inr (inl (same, _, _)) ↦ inl same
      | inr (inr (inl (_, _, wrote, _))) ↦ inr (inl (_, wrote))
      | inr (inr (inr (i, _, inl (_, _, wrote, _)))) ↦ inr (inl (_, wrote))
      | inr (inr (inr (i, _, inr (_, _, _, _, wrote, _)))) ↦ inr (inr (i, wrote))
    ]

pub handle_payment_refunded-RestoreOutcome :
    (labels : List Text) (env : Env) (evt : PaymentRefundedEvent) (s : Session Tables)
    → RestoreOutcome env evt s (handle_payment_refunded labels env evt s).1
handle_payment_refunded-RestoreOutcome labels env evt s =
    elim (handle_payment_refunded_outcome labels env evt s) [
      | inl (_, _, same) ↦ inl (rw same refl)
      | inr (inl (_, same, _)) ↦ inl same
      | inr (inr (r, _, inl (_, same, _))) ↦ inl same
      | inr (inr (r, _, inr (i, _, _, _, wrote, _))) ↦ inr (r, i, wrote)
    ]

cancel_reserved :
    (env : Env) (r : StockReservation) (t : List StockReservation) (order : ℤ)
    → find (is_for order) t ≢ none
    → find (is_for order) (canceled env r t) ≢ none
cancel_reserved env r t order h =
    find-update_some (is_for order) (has_id r.id) (set_status (cancel env.now r)) t (λ x q. refl) h

SaysReserved-map :
    (P Q : ℤ → Type 0) (t : EventType) (p : Payload)
    → ((order : ℤ) → P order → Q order)
    → SaysReserved P t p
    → SaysReserved Q t p
SaysReserved-map P Q EventType.stock_reserved p f h =
    OnOk-map (λ (e : StockReservedEvent). P e.order_id) (λ e. Q e.order_id)
      (unmarshal_stock_reserved p) (λ e. f e.order_id) h
SaysReserved-map P Q EventType.stock_reservation_failed p f h = tt
SaysReserved-map P Q EventType.stock_restored p f h = tt
SaysReserved-map P Q _ p f h = elim h [ ]

-- More reservations leave the outbox true.
wider :
    (t u : Tables) (outbox : List OutboxEvent)
    → ((order : ℤ) → IsReserved t order → IsReserved u order)
    → Tells (SaysReserved (IsReserved t)) outbox
    → Tells (SaysReserved (IsReserved u)) outbox
wider t u outbox f h =
    Tells-map (SaysReserved (IsReserved t)) (SaysReserved (IsReserved u)) outbox
      (λ topic p. SaysReserved-map (IsReserved t) (IsReserved u) topic p f) h

told :
    (e : StockReservedEvent) (P : ℤ → Type 0)
    → e.base.event_type ≡ EventType.stock_reserved
    → P e.order_id
    → SaysReserved P EventType.stock_reserved (marshal (Event.stock_reserved e))
told e P declared h =
    let back : unmarshal_stock_reserved (marshal (Event.stock_reserved e)) ≡ ok e =
      unmarshal-marshal (Event.stock_reserved e) (rw declared tt) in
    rw back h

module _ (env : Env) (s s' : Session Tables) where
  pub ReserveOutcome-IsReserved :
      (evt : PaymentCompletedEvent) (order : ℤ)
      → ReserveOutcome env evt s s'
      → IsReserved s.committed.tables order
      → IsReserved s'.committed.tables order
  ReserveOutcome-IsReserved evt order (inl same) h = rw same h
  ReserveOutcome-IsReserved evt order (inr (inl (reason, wrote))) h = rw wrote h
  ReserveOutcome-IsReserved evt order (inr (inr (i, wrote))) h =
      rw wrote
        (some-insert (is_for order) (reservation env evt s) s.committed.tables.reservations h)

  pub RestoreOutcome-IsReserved :
      (evt : PaymentRefundedEvent) (order : ℤ)
      → RestoreOutcome env evt s s'
      → IsReserved s.committed.tables order
      → IsReserved s'.committed.tables order
  RestoreOutcome-IsReserved evt order (inl same) h = rw same h
  RestoreOutcome-IsReserved evt order (inr (r, i, wrote)) h =
      rw wrote (cancel_reserved env r s.committed.tables.reservations order h)

  pub ReserveOutcome-AllFor :
      (evt : PaymentCompletedEvent) (P : ℤ → Type 0)
      → ReserveOutcome env evt s s'
      → P evt.order_id
      → AllFor P s.committed.tables
      → AllFor P s'.committed.tables
  ReserveOutcome-AllFor evt P (inl same) p h = rw same h
  ReserveOutcome-AllFor evt P (inr (inl (reason, wrote))) p h = rw wrote h
  ReserveOutcome-AllFor evt P (inr (inr (i, wrote))) p h = rw wrote (
      All-insert (λ (r : StockReservation). P r.order_id) (reservation env evt s)
        s.committed.tables.reservations h p)

  pub RestoreOutcome-AllFor :
      (evt : PaymentRefundedEvent) (P : ℤ → Type 0)
      → RestoreOutcome env evt s s'
      → AllFor P s.committed.tables
      → AllFor P s'.committed.tables
  RestoreOutcome-AllFor evt P (inl same) h = rw same h
  RestoreOutcome-AllFor evt P (inr (r, i, wrote)) h = rw wrote (
      All-update (λ (x : StockReservation). P x.order_id) (has_id r.id)
        (set_status (cancel env.now r)) s.committed.tables.reservations (λ x p. p) h)

  pub ReserveOutcome-IsTrue :
      (evt : PaymentCompletedEvent) → ReserveOutcome env evt s s' → IsTrue s → IsTrue s'
  ReserveOutcome-IsTrue evt (inl same) h = rw same h
  ReserveOutcome-IsTrue evt (inr (inl (reason, wrote))) h = rw wrote (
      Tells-insert (SaysReserved (IsReserved s.committed.tables)) (failed_event reason env evt s)
        s.committed.outbox h tt)
  ReserveOutcome-IsTrue evt (inr (inr (i, wrote))) h =
      let row = reservation env evt s in
      let t = (with_reservation i env evt s).tables in
      rw wrote (
        Tells-insert (SaysReserved (IsReserved t)) (reserved_event env evt s) s.committed.outbox
          (wider s.committed.tables t s.committed.outbox
            (λ order. some-insert (is_for order) row s.committed.tables.reservations) h)
          (told (stock_reserved_event env evt row) (IsReserved t) refl (
            some-insert_new (is_for row.order_id) row s.committed.tables.reservations
              ((eq_ℤ_iff row.order_id row.order_id).1 refl))))

  pub RestoreOutcome-IsTrue :
      (evt : PaymentRefundedEvent) → RestoreOutcome env evt s s' → IsTrue s → IsTrue s'
  RestoreOutcome-IsTrue evt (inl same) h = rw same h
  RestoreOutcome-IsTrue evt (inr (r, i, wrote)) h =
      let t = (with_restoration r i env evt s).tables in
      rw wrote (
        Tells-insert (SaysReserved (IsReserved t)) (restored_event env evt r s) s.committed.outbox
          (wider s.committed.tables t s.committed.outbox
            (cancel_reserved env r s.committed.tables.reservations) h)
          tt)
