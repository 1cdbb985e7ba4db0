-- ===== src/Inventory/Repository.antt =====
-- services/inventory/internal/repository/inventory_repository.go and
-- stock_reservation_repository.go, with the columns of scripts/init-inventory-db.sql. The labels of
-- the enumeration `reservation_status` are an argument.
use msa_saga_go_practical.Prelude.{
  ℕ, suc, Bool, false, none, some, List, [], ◌∷◌, ◌==◌, ltb, ◌&&◌, ◌||◌, length, not, if◌then◌else◌,
}
use msa_saga_go_practical.Prelude.Int.{ℤ, pos, eq_ℤ}
use msa_saga_go_practical.Prelude.Text.{Text, text, text_eq}
use msa_saga_go_practical.Common.Errors.{Error, ErrorCode}
use msa_saga_go_practical.Common.Result.{ok, err}
use msa_saga_go_practical.Store.Table.{find, update, affected, insert}
use msa_saga_go_practical.Store.Session.{M, write_tx, on_tables, next_serial}
use msa_saga_go_practical.Inventory.Domain.{
  Inventory, StockReservation, ReservationStatus, reserved, confirmed, cancelled, expired,
  status_eq,
}

-- The two tables of the service.
pub record Tables : Type 0 where
  pub inventory : List Inventory
  pub reservations : List StockReservation

-- The text that a status is stored as.
unfoldable pub status_text : ReservationStatus → Text
unfolding text
status_text reserved = text "RESERVED"
status_text confirmed = text "CONFIRMED"
status_text cancelled = text "CANCELLED"
status_text expired = text "EXPIRED"

-- `CREATE TYPE reservation_status AS ENUM` of scripts/init-inventory-db.sql.
unfoldable pub shipped_labels : List Text
unfolding text
shipped_labels = text "RESERVED" ∷ text "CONFIRMED" ∷ text "CANCELED" ∷ text "EXPIRED" ∷ []

-- Whether the column can hold the status.
unfoldable pub has_label : List Text → ReservationStatus → Bool
unfolding status_text text_eq
has_label [] status = false
has_label (l ∷ ls) status = text_eq l (status_text status) || has_label ls status

-- `WHERE product_id = $1`
abbrev pub has_product : ℤ → Inventory → Bool
has_product product i = eq_ℤ i.product_id product

-- `WHERE product_id = $5 AND version = $6`
abbrev pub has_version : ℤ → ℕ → Inventory → Bool
has_version product version i = eq_ℤ i.product_id product && i.version == version

-- `WHERE idempotency_key = $1`
abbrev pub has_key : Text → StockReservation → Bool
has_key key r = text_eq r.idempotency_key key

-- `WHERE order_id = $1 AND status = $2`
abbrev pub has_order : ℤ → ReservationStatus → StockReservation → Bool
has_order order status r = eq_ℤ r.order_id order && status_eq r.status status

-- `WHERE id = $3`
abbrev pub has_id : ℤ → StockReservation → Bool
has_id id r = eq_ℤ r.id id

abbrev pub on_inventory : (List Inventory → List Inventory) → Tables → Tables
on_inventory f t = record t { inventory = f t.inventory }

abbrev pub on_reservations : (List StockReservation → List StockReservation) → Tables → Tables
on_reservations f t = record t { reservations = f t.reservations }

abbrev pub database_error : Text → Error
database_error message = Error.wrap ErrorCode.database_error message Error.driver

-- `FindByProductIDForUpdate`, on the transaction.
unfoldable pub find_by_product_id_for_update : Bool → ℤ → M Tables Inventory
unfolding find
find_by_product_id_for_update fails product s =
    if fails
    then (err (database_error (text "failed to find inventory")), s)
    else elim (find (has_product product) s.working.tables.inventory) [
      | some i ↦ (ok i, s)
      | none ↦ (err (Error.wrap ErrorCode.not_found (text "inventory not found") Error.no_rows), s)
    ]

-- `SET available_quantity = $1, reserved_quantity = $2, version = $3, updated_at = $4`
abbrev pub set_quantities : Inventory → Inventory → Inventory
set_quantities i row = record row {
  available_quantity = i.available_quantity;
  reserved_quantity = i.reserved_quantity;
  version = i.version;
  updated_at = i.updated_at;
}

-- `UpdateWithOptimisticLock`, on the transaction.
unfoldable pub update_with_optimistic_lock : Bool → Inventory → ℕ → M Tables (Unit {0})
unfolding update affected
update_with_optimistic_lock fails i old_version s =
    let clause = has_version i.product_id old_version in
    if fails
    then (err (database_error (text "failed to update inventory")), s)
    else if affected clause s.working.tables.inventory == 0
    then (err (Error.new ErrorCode.conflict (text "version conflict - inventory was modified")), s)
    else (ok tt, write_tx (on_tables (on_inventory (update clause (set_quantities i)))) s)

-- The rows that a `SELECT … WHERE p` of reservations finds, on the pool.
select_one : Bool → (StockReservation → Bool) → M Tables StockReservation
unfolding find
select_one fails p s =
    if fails
    then (err (database_error (text "failed to find stock reservation")), s)
    else elim (find p s.committed.tables.reservations) [
      | some r ↦ (ok r, s)
      | none ↦ (
        err (Error.wrap ErrorCode.not_found (text "stock reservation not found") Error.no_rows),
        s,
      )
    ]

unfoldable pub find_by_idempotency_key : Bool → Text → M Tables StockReservation
unfolding select_one
find_by_idempotency_key fails key = select_one fails (has_key key)

unfoldable pub find_by_order_id_and_status :
    Bool → ℤ → ReservationStatus → M Tables StockReservation
unfolding select_one
find_by_order_id_and_status fails order status = select_one fails (has_order order status)

-- `Create`, on the transaction. The column `idempotency_key` is VARCHAR(64) and unique.
unfoldable pub create : Bool → StockReservation → M Tables StockReservation
unfolding find
create fails r s =
    if fails || ltb 64 (length r.idempotency_key)
    then (err (database_error (text "failed to create stock reservation")), s)
    else elim (find (has_key r.idempotency_key) s.working.tables.reservations) [
      | some _ ↦ (
        err (
            Error.wrap ErrorCode.database_error (text "failed to create stock reservation")
              Error.unique_violation),
        next_serial s,
      )
      | none ↦
          let row = record r { id = pos (suc s.serial) } in
          (ok row, next_serial (write_tx (on_tables (on_reservations (insert row))) s))
    ]

-- `SET status = $1, updated_at = $2`
abbrev pub set_status : StockReservation → StockReservation → StockReservation
set_status r row = record row { status = r.status; updated_at = r.updated_at }

-- `Update`, on the transaction. A status that is no label of the column's type is refused.
unfoldable pub update_reservation : List Text → Bool → StockReservation → M Tables (Unit {0})
unfolding update affected has_label
update_reservation labels fails r s =
    if fails
    then (err (database_error (text "failed to update stock reservation")), s)
    else if not (has_label labels r.status)
    then (
      err (
          Error.wrap ErrorCode.database_error (text "failed to update stock reservation")
            Error.bad_label),
      s,
    )
    else if affected (has_id r.id) s.working.tables.reservations == 0
    then (err (Error.new ErrorCode.not_found (text "stock reservation not found")), s)
    else (ok tt, write_tx (on_tables (on_reservations (update (has_id r.id) (set_status r)))) s)
