-- ===== src/Inventory/Outcome.antt =====
-- The ways in which `HandlePaymentCompleted` of
-- services/inventory/internal/service/inventory_service.go can end, and its last steps.
use msa_saga_go_practical.Prelude.{
  suc, ◌≤◌, ◌≡◌, ◌≢◌, Bool, false, none, some, List, arith, ◌⊎◌, length,
}
use msa_saga_go_practical.Prelude.Int.{ℤ, pos, ◌≤ℤ◌, eq_ℤ_iff}
use msa_saga_go_practical.Prelude.Text.{Text, text}
use msa_saga_go_practical.Common.Events.{EventType, PaymentCompletedEvent}
use msa_saga_go_practical.Common.Wire.{Event}
use msa_saga_go_practical.Common.Result.{Result, ok, err}
use msa_saga_go_practical.Store.Table.{find, insert, update, affected, affected_of_find}
use msa_saga_go_practical.Store.Session.{OutboxEvent, Db, Session, Env}
use msa_saga_go_practical.Store.Outbox.{new_outbox_event, insert_event}
use msa_saga_go_practical.Inventory.Domain.{
  Inventory, StockReservation, reserve, new_stock_reservation,
}
use msa_saga_go_practical.Inventory.Repository.{
  Tables, create, has_key, has_product, has_version, set_quantities,
}
use msa_saga_go_practical.Inventory.Service.{
  product_id, quantity, reservation_key, stock_reserved_event, stock_reservation_failed_event,
  publish_stock_reservation_failed, record_reservation,
}

abbrev pub IsFailure : {A : Type 0} → Result A → Type 0
IsFailure (ok a) = ⊥
IsFailure (err e) = Unit

-- The rows that a reservation writes.
abbrev pub reservation : Env → PaymentCompletedEvent → Session Tables → StockReservation
reservation env evt s =
    record (new_stock_reservation env.now evt.order_id product_id quantity (reservation_key evt)) {
      id = pos (suc s.serial);
    }

abbrev pub taken : Env → Inventory → List Inventory → List Inventory
taken env i t =
    update (has_version i.product_id i.version) (set_quantities (reserve env.now quantity i)) t

abbrev pub reserved_event : Env → PaymentCompletedEvent → Session Tables → OutboxEvent
reserved_event env evt s =
    record (new_outbox_event (text "stock_reservation") (pos (suc s.serial))
      EventType.stock_reserved
      (Event.stock_reserved (stock_reserved_event env evt (reservation env evt s))) env.now) {
        id = pos (suc s.outbox_serial);
      }

abbrev pub failed_event : Text → Env → PaymentCompletedEvent → Session Tables → OutboxEvent
failed_event reason env evt s =
    record (new_outbox_event (text "order") evt.order_id EventType.stock_reservation_failed
      (Event.stock_reservation_failed (stock_reservation_failed_event env evt reason)) env.now) {
        id = pos (suc s.outbox_serial);
      }

-- The database after an announced failure, and after a reservation.
abbrev pub with_failure : Text → Env → PaymentCompletedEvent → Session Tables → Db Tables
with_failure reason env evt s = record (s.committed) {
  outbox = insert (failed_event reason env evt s) s.committed.outbox;
}

abbrev pub with_reservation : Inventory → Env → PaymentCompletedEvent → Session Tables → Db Tables
with_reservation i env evt s = record {
  tables = record {
    inventory = taken env i s.committed.tables.inventory;
    reservations = insert (reservation env evt s) s.committed.tables.reservations;
  };
  outbox = insert (reserved_event env evt s) s.committed.outbox;
}

module _ (env : Env) (evt : PaymentCompletedEvent) (s : Session Tables) where
  -- A failure is announced, or nothing is committed.
  pub publishes :
      (aborted : Bool) (reason : Text)
      → s.working ≡ s.committed
      → let (r, s') = publish_stock_reservation_failed aborted env evt reason s in
        IsFailure r
        × (s'.serial ≡ s.serial)
        × ((s'.committed ≡ s.committed)
            ⊎ ((aborted ≡ false) × (s'.committed ≡ with_failure reason env evt s)))
  unfolding publish_stock_reservation_failed insert_event
  publishes aborted reason w = ground arith

  pub records :
      let (r, s') = record_reservation env evt s in
      (IsFailure r × (s'.committed ≡ s.committed) × (s.serial ≤ s'.serial))
      ⊎ ((r ≡ ok tt)
          × (find (has_key (reservation_key evt)) s.working.tables.reservations ≡ none)
          × (length (reservation_key evt) ≤ 64)
          × (s'.committed ≡ record {
            tables = record (s.working.tables) {
              reservations = insert (reservation env evt s) s.working.tables.reservations;
            };
            outbox = insert (reserved_event env evt s) s.working.outbox;
          })
          × (s'.serial ≡ suc s.serial))
  unfolding record_reservation create insert_event
  records = ground arith

-- The row that the transaction has read is the row that its UPDATE finds.
pub still_there :
    (product : ℤ) (i : Inventory) (t : List Inventory)
    → find (has_product product) t ≡ some i
    → affected (has_version i.product_id i.version) t ≢ 0
still_there product i t h =
    affected_of_find (has_product product) (has_version i.product_id i.version) t h
      (ground (arith, eq_ℤ_iff i.product_id i.product_id))

-- The ways in which `HandlePaymentCompleted` leaves the session.
abbrev pub Outcome :
    Env → PaymentCompletedEvent → Session Tables → Result (Unit {0}) → Session Tables → Type 0
Outcome env evt s r s' =
    ((s'.committed ≡ s.committed) × IsFailure r × (s.serial ≤ s'.serial))
    ⊎ ((find (has_product product_id) s.committed.tables.inventory ≡ none)
        × IsFailure r
        × (s'.committed ≡ with_failure (text "product not found") env evt s)
        × (s'.serial ≡ s.serial))
    ⊎ ((i : Inventory) × (find (has_product product_id) s.committed.tables.inventory ≡ some i)
        × (((i.available_quantity ≤ℤ pos 0)
              × IsFailure r
              × (s'.committed ≡ with_failure (text "insufficient stock") env evt s)
              × (s'.serial ≡ s.serial))
            ⊎ ((pos 1 ≤ℤ i.available_quantity)
                × (find (has_key (reservation_key evt)) s.committed.tables.reservations ≡ none)
                × (length (reservation_key evt) ≤ 64)
                × (r ≡ ok tt)
                × (s'.committed ≡ with_reservation i env evt s)
                × (s'.serial ≡ suc s.serial))))
