-- ===== src/Inventory/Restoration.antt =====
-- The compensation of services/inventory/internal/service/inventory_service.go
-- (`HandlePaymentRefunded`), and what scripts/init-inventory-db.sql makes of it.
use msa_saga_go_practical.Prelude.{
  suc, ◌≡◌, refl, true, false, Option, none, some, List, arith, ◌⊎◌, inl, inr, Bool-cases,
  Option-cases,
}
use msa_saga_go_practical.Prelude.Int.{pos}
use msa_saga_go_practical.Prelude.Text.{Text, text}
use msa_saga_go_practical.Common.Errors.{is_code}
use msa_saga_go_practical.Common.Events.{EventType, PaymentRefundedEvent}
use msa_saga_go_practical.Common.Wire.{Event}
use msa_saga_go_practical.Common.Result.{Result, ok, err}
use msa_saga_go_practical.Store.Table.{find, insert, update}
use msa_saga_go_practical.Store.Session.{
  OutboxEvent, Db, Session, Env, write_tx, on_tables, transaction, transaction_begun,
  transaction_refused,
}
use msa_saga_go_practical.Store.Outbox.{new_outbox_event, insert_event}
use msa_saga_go_practical.Inventory.Domain.{
  Inventory, StockReservation, reserved, cancelled, restore, cancel,
}
use msa_saga_go_practical.Inventory.Repository.{
  Tables, has_product, has_version, has_order, has_id, has_label, on_inventory, set_quantities,
  set_status, database_error, find_by_product_id_for_update, find_by_order_id_and_status,
  update_with_optimistic_lock, update_reservation,
}
use msa_saga_go_practical.Inventory.Service.{
  stock_restored_event, begin_failed, restore_stock, record_restoration, after_reservation,
  handle_payment_refunded,
}
use msa_saga_go_practical.Inventory.Outcome.{IsFailure, still_there}

-- The rows that a restoration writes.
abbrev pub given_back : Env → StockReservation → Inventory → List Inventory → List Inventory
given_back env r i t =
    update (has_version i.product_id i.version) (set_quantities (restore env.now r.quantity i)) t

abbrev pub canceled : Env → StockReservation → List StockReservation → List StockReservation
canceled env r t = update (has_id r.id) (set_status (cancel env.now r)) t

abbrev pub restored_event :
    Env → PaymentRefundedEvent → StockReservation → Session Tables → OutboxEvent
restored_event env evt r s =
    record (new_outbox_event (text "stock_reservation") r.id EventType.stock_restored
      (Event.stock_restored (stock_restored_event env evt r)) env.now) {
        id = pos (suc s.outbox_serial);
      }

abbrev pub with_restoration :
    StockReservation → Inventory → Env → PaymentRefundedEvent → Session Tables → Db Tables
with_restoration r i env evt s = record {
  tables = record {
    inventory = given_back env r i s.committed.tables.inventory;
    reservations = canceled env r s.committed.tables.reservations;
  };
  outbox = insert (restored_event env evt r s) s.committed.outbox;
}

-- The query for the order's RESERVED reservation.
abbrev pub held : PaymentRefundedEvent → Session Tables → Option StockReservation
held evt s = find (has_order evt.order_id reserved) s.committed.tables.reservations

-- A session whose transaction has just begun.
abbrev begun : Session Tables → Session Tables
begun s = record s { working = s.committed }

module _ (labels : List Text) (env : Env) (evt : PaymentRefundedEvent) (s : Session Tables) where
  -- The transaction fails, or it restores, for which the column must have the label `CANCELLED`.
  abbrev pub Restores : StockReservation → Result (Unit {0}) → Session Tables → Type 0
  Restores r result s' =
      (IsFailure result × (s'.committed ≡ s.committed) × (s'.serial ≡ s.serial))
      ⊎ ((i : Inventory) × (find (has_product r.product_id) s.committed.tables.inventory ≡ some i)
          × (has_label labels cancelled ≡ true)
          × (result ≡ ok tt)
          × (s'.committed ≡ with_restoration r i env evt s)
          × (s'.serial ≡ s.serial))

  abbrev pub gave : StockReservation → Inventory → Session Tables
  gave r i = write_tx (on_tables (on_inventory (given_back env r i))) (begun s)

  records_back :
      (r : StockReservation) (i : Inventory)
      → let (result, s') = record_restoration labels env evt r (gave r i) in
        (IsFailure result × (s'.committed ≡ s.committed) × (s'.serial ≡ s.serial))
        ⊎ ((has_label labels cancelled ≡ true)
            × (result ≡ ok tt)
            × (s'.committed ≡ with_restoration r i env evt s)
            × (s'.serial ≡ s.serial))
  unfolding record_restoration cancel update_reservation insert_event
  records_back r i = ground arith

  locks_row :
      (r : StockReservation) (i : Inventory)
      → find (has_product r.product_id) s.committed.tables.inventory ≡ some i
      → env.faults.update ≡ false
      → update_with_optimistic_lock env.faults.update
          (restore env.now r.quantity i)
          i.version
          (begun s)
        ≡ (ok tt, gave r i)
  unfolding update_with_optimistic_lock restore
  locks_row r i found fine =
      ground (arith, still_there r.product_id i s.committed.tables.inventory found)

  pub gives_back :
      (r : StockReservation) (i : Inventory)
      → find (has_product r.product_id) s.committed.tables.inventory ≡ some i
      → env.faults.find_for_update ≡ false
      → env.faults.update ≡ false
      → restore_stock labels env evt r (begun s) ≡ record_restoration labels env evt r (gave r i)
  unfolding restore_stock find_by_product_id_for_update
  gives_back r i found fine written = rw (fine, found) (rw (locks_row r i found written))

  not_locked :
      (r : StockReservation) (i : Inventory)
      → find (has_product r.product_id) s.committed.tables.inventory ≡ some i
      → env.faults.find_for_update ≡ false
      → env.faults.update ≡ true
      → restore_stock labels env evt r (begun s)
        ≡ (err (database_error (text "failed to update inventory")), begun s)
  unfolding restore_stock find_by_product_id_for_update update_with_optimistic_lock
  not_locked r i found fine bad = rw (fine, found, bad)

  not_read :
      (r : StockReservation)
      → env.faults.find_for_update ≡ true
      → restore_stock labels env evt r (begun s)
        ≡ (err (database_error (text "failed to find inventory")), begun s)
  unfolding restore_stock find_by_product_id_for_update
  not_read r bad = rw bad

  not_stocked :
      (r : StockReservation)
      → find (has_product r.product_id) s.committed.tables.inventory ≡ none
      → env.faults.find_for_update ≡ false
      → let (result, s') = restore_stock labels env evt r (begun s) in
        IsFailure result × (s'.committed ≡ s.committed) × (s'.serial ≡ s.serial)
  unfolding restore_stock find_by_product_id_for_update
  not_stocked r missing fine = rw (fine, missing) (tt, refl, refl)

  restore_stock-Restores :
      (r : StockReservation)
      → let (result, s') = restore_stock labels env evt r (begun s) in Restores r result s'
  restore_stock-Restores r = elim (Bool-cases env.faults.find_for_update) [
    | inl bad ↦ rw (not_read r bad) (inl (tt, refl, refl))
    | inr fine ↦
        elim (Option-cases (find (has_product r.product_id) s.committed.tables.inventory)) [
          | inl missing ↦ inl (not_stocked r missing fine)
          | inr (i, found) ↦ elim (Bool-cases env.faults.update) [
            | inl bad ↦ rw (not_locked r i found fine bad) (inl (tt, refl, refl))
            | inr written ↦ rw (gives_back r i found fine written) (elim (records_back r i) [
              | inl failed ↦ inl failed
              | inr (label, done, wrote, kept) ↦ inr (i, found, label, done, wrote, kept)
            ])
          ]
        ]
  ]

  holds_none :
      held evt s ≡ none
      → env.faults.find ≡ false
      → handle_payment_refunded labels env evt s ≡ (ok tt, s)
  unfolding handle_payment_refunded find_by_order_id_and_status after_reservation is_code
  holds_none missing fine = rw (fine, missing)

  not_looked_up :
      env.faults.find ≡ true
      → handle_payment_refunded labels env evt s
        ≡ (err (database_error (text "failed to find stock reservation")), s)
  unfolding handle_payment_refunded find_by_order_id_and_status after_reservation is_code
  not_looked_up bad = rw bad

  pub holds :
      (r : StockReservation)
      → held evt s ≡ some r
      → env.faults.find ≡ false
      → handle_payment_refunded labels env evt s
        ≡ transaction env.faults.begin begin_failed (restore_stock labels env evt r) s
  unfolding handle_payment_refunded find_by_order_id_and_status after_reservation
  holds r found fine = rw (fine, found)

  -- `HandlePaymentRefunded` ends in one of these ways, whichever calls fail and whatever labels the
  -- column of the status has. The order holds no RESERVED reservation: it succeeds and changes
  -- nothing. It fails, commits nothing and takes no id. Or it succeeds, the product of the held reservation has a
  -- row and the column has the label CANCELLED, and then the quantities moved back, the cancelled
  -- reservation and the event `stock.restored.v1` are committed together.
  pub handle_payment_refunded_outcome :
      let (result, s') = handle_payment_refunded labels env evt s in
      ((held evt s ≡ none) × (result ≡ ok tt) × (s' ≡ s))
      ⊎ (IsFailure result × (s'.committed ≡ s.committed) × (s'.serial ≡ s.serial))
      ⊎ ((r : StockReservation) × (held evt s ≡ some r) × Restores r result s')
  handle_payment_refunded_outcome = elim (Bool-cases env.faults.find) [
    | inl bad ↦ rw (not_looked_up bad) (inr (inl (tt, refl, refl)))
    | inr fine ↦ elim (Option-cases (held evt s)) [
      | inl missing ↦ rw (holds_none missing fine) (inl (missing, refl, refl))
      | inr (r, found) ↦ elim (Bool-cases env.faults.begin) [
        | inl stuck ↦
            rw
              (
                holds r found fine,
                transaction_refused env.faults.begin begin_failed (restore_stock labels env evt r) s
                    stuck,
              )
              (inr (inl (tt, refl, refl)))
        | inr begins ↦
            rw
              (
                holds r found fine,
                transaction_begun env.faults.begin begin_failed (restore_stock labels env evt r) s
                    begins,
              )
              (inr (inr (r, found, restore_stock-Restores r)))
      ]
    ]
  ]
