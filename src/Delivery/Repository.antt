-- ===== src/Delivery/Repository.antt =====
-- services/delivery/internal/repository/delivery_repository.go, with the columns of
-- scripts/init-delivery-db.sql. The labels of the enumeration `delivery_status` are an argument.
use msa_saga_go_practical.Prelude.{
  suc, Bool, false, none, some, List, [], ◌∷◌, ◌==◌, ltb, ◌||◌, length, not, if◌then◌else◌,
}
use msa_saga_go_practical.Prelude.Int.{ℤ, pos, eq_ℤ}
use msa_saga_go_practical.Prelude.Text.{Text, text, text_eq}
use msa_saga_go_practical.Common.Errors.{Error, ErrorCode}
use msa_saga_go_practical.Common.Result.{ok, err}
use msa_saga_go_practical.Store.Table.{find, update, affected, insert}
use msa_saga_go_practical.Store.Session.{M, write_tx, on_tables, next_serial}
use msa_saga_go_practical.Delivery.Domain.{
  Delivery, DeliveryStatus, preparing, shipped, delivered, cancelled,
}

-- The text that a status is stored as.
unfoldable pub status_text : DeliveryStatus → Text
unfolding text
status_text preparing = text "PREPARING"
status_text shipped = text "SHIPPED"
status_text delivered = text "DELIVERED"
status_text cancelled = text "CANCELLED"

-- `CREATE TYPE delivery_status AS ENUM` of scripts/init-delivery-db.sql.
unfoldable pub shipped_labels : List Text
unfolding text
shipped_labels =
    text "PENDING"
    ∷ text "PREPARING"
    ∷ text "IN_TRANSIT"
    ∷ text "DELIVERED"
    ∷ text "FAILED"
    ∷ text "CANCELED"
    ∷ []

-- Whether the column can hold the status.
unfoldable pub has_label : List Text → DeliveryStatus → Bool
unfolding status_text text_eq
has_label [] status = false
has_label (l ∷ ls) status = text_eq l (status_text status) || has_label ls status

-- `WHERE idempotency_key = $1`, and `WHERE id = $3`
abbrev pub has_key : Text → Delivery → Bool
has_key key d = text_eq d.idempotency_key key

abbrev pub has_id : ℤ → Delivery → Bool
has_id id d = eq_ℤ d.id id

abbrev pub database_error : Text → Error → Error
database_error message = Error.wrap ErrorCode.database_error message

-- The rows that a `SELECT … WHERE p` finds, on the pool.
select_one : Bool → (Delivery → Bool) → M (List Delivery) Delivery
unfolding find
select_one fails p s =
    if fails
    then (err (database_error (text "failed to find delivery") Error.driver), s)
    else elim (find p s.committed.tables) [
      | some d ↦ (ok d, s)
      | none ↦ (err (Error.wrap ErrorCode.not_found (text "delivery not found") Error.no_rows), s)
    ]

unfoldable pub find_by_idempotency_key : Bool → Text → M (List Delivery) Delivery
unfolding select_one
find_by_idempotency_key fails key = select_one fails (has_key key)

unfoldable pub find_by_id : Bool → ℤ → M (List Delivery) Delivery
unfolding select_one
find_by_id fails id = select_one fails (has_id id)

-- `Create`, on the transaction. The column `idempotency_key` is VARCHAR(64) and unique, and a status
-- that is no label of its column's type is refused.
unfoldable pub create : List Text → Bool → Delivery → M (List Delivery) Delivery
unfolding find has_label
create labels fails d s =
    if fails || ltb 64 (length d.idempotency_key)
    then (err (database_error (text "failed to create delivery") Error.driver), s)
    else if not (has_label labels d.status)
    then (err (database_error (text "failed to create delivery") Error.bad_label), s)
    else elim (find (has_key d.idempotency_key) s.working.tables) [
      | some _ ↦ (
        err (database_error (text "failed to create delivery") Error.unique_violation),
        next_serial s,
      )
      | none ↦
          let row = record d { id = pos (suc s.serial) } in
          (ok row, next_serial (write_tx (on_tables (insert row)) s))
    ]

-- `SET status = $1, updated_at = $2`
abbrev pub set_status : Delivery → Delivery → Delivery
set_status d row = record row { status = d.status; updated_at = d.updated_at }

-- `Update`, on the transaction.
unfoldable pub update_delivery : List Text → Bool → Delivery → M (List Delivery) (Unit {0})
unfolding update affected has_label
update_delivery labels fails d s =
    if fails
    then (err (database_error (text "failed to update delivery") Error.driver), s)
    else if not (has_label labels d.status)
    then (err (database_error (text "failed to update delivery") Error.bad_label), s)
    else if affected (has_id d.id) s.working.tables == 0
    then (err (Error.new ErrorCode.not_found (text "delivery not found")), s)
    else (ok tt, write_tx (on_tables (update (has_id d.id) (set_status d))) s)
