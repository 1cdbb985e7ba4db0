-- ===== src/Order/Repository.antt =====
-- services/order/internal/repository/order_repository.go, with the columns and the unique index of
-- scripts/init-order-db.sql. Every statement goes to the pool, not to the caller's transaction.
use msa_saga_go_practical.Prelude.{
  ℕ, suc, ◌+◌, Bool, none, some, List, ◌++◌, ◌==◌, ltb, ◌&&◌, ◌||◌, length, if◌then◌else◌,
}
use msa_saga_go_practical.Prelude.Int.{ℤ, pos, eq_ℤ}
use msa_saga_go_practical.Prelude.Text.{Text, text, text_eq}
use msa_saga_go_practical.Prelude.Decimal.{decimal_ℤ}
use msa_saga_go_practical.Common.Errors.{Error}
use msa_saga_go_practical.Common.Result.{ok, err}
use msa_saga_go_practical.Store.Table.{find, update, affected, insert}
use msa_saga_go_practical.Store.Session.{M, write_db, on_tables, next_serial}
use msa_saga_go_practical.Order.Domain.{Order, OrderStatus}

-- `WHERE id = $1`
abbrev pub has_id : ℤ → Order → Bool
has_id id o = eq_ℤ o.id id

-- `WHERE idempotency_key = $1`
abbrev pub has_key : Text → Order → Bool
has_key key o = text_eq o.idempotency_key key

-- `WHERE id = $2 AND version = $3`
abbrev pub has_version : ℤ → ℕ → Order → Bool
has_version id version o = eq_ℤ o.id id && o.version == version

-- `SET status = $1, version = version + 1, updated_at = NOW()`
abbrev pub set_status : OrderStatus → ℕ → Order → Order
set_status status now o = record o { status = status; version = o.version + 1; updated_at = now }

-- `Create`. The column `idempotency_key` is VARCHAR(64) with a unique index, `version` starts at 0,
-- and a refused duplicate has used up an id.
unfoldable pub create : Bool → Order → M (List Order) Order
unfolding find
create fails o s =
    if fails || ltb 64 (length o.idempotency_key)
    then (err (Error.errorf_w (text "failed to create order") Error.driver), s)
    else elim (find (has_key o.idempotency_key) s.committed.tables) [
      | some _ ↦ (
        err (Error.errorf_w (text "duplicate idempotency key") Error.unique_violation),
        next_serial s,
      )
      | none ↦
          let row = record o { id = pos (suc s.serial); version = 0 } in
          (ok row, next_serial (write_db (on_tables (insert row)) s))
    ]

-- The rows that a `SELECT … WHERE p` finds, with the texts of the two errors.
select_one : Bool → Text → (Order → Bool) → M (List Order) Order
unfolding find
select_one fails missing p s =
    if fails
    then (err (Error.errorf_w (text "failed to find order") Error.driver), s)
    else elim (find p s.committed.tables) [
      | some o ↦ (ok o, s)
      | none ↦ (err (Error.errorf missing), s)
    ]

unfoldable pub find_by_id : Bool → ℤ → M (List Order) Order
unfolding select_one
find_by_id fails id = select_one fails (text "order not found: " ++ decimal_ℤ id) (has_id id)

unfoldable pub find_by_idempotency_key : Bool → Text → M (List Order) Order
unfolding select_one
find_by_idempotency_key fails key =
    select_one fails (text "order not found with idempotency key: " ++ key) (has_key key)

-- `UpdateStatus`: no test of the version, which is set from the argument.
unfoldable pub update_status : Bool → ℕ → ℤ → OrderStatus → ℕ → M (List Order) (Unit {0})
unfolding update
update_status fails now id status version s =
    if fails
    then (err (Error.errorf_w (text "failed to update order status") Error.driver), s)
    else (
      ok tt,
      write_db
          (on_tables (
            update (has_id id)
              (λ o. record o { status = status; version = version + 1; updated_at = now })))
          s,
    )

-- `UpdateStatusWithVersion`: whether a row was affected.
unfoldable pub update_status_with_version : Bool → ℕ → ℤ → OrderStatus → ℕ → M (List Order) Bool
unfolding update affected
update_status_with_version fails now id status version s =
    if fails
    then (err (Error.errorf_w (text "failed to update order status") Error.driver), s)
    else (
      ok (ltb 0 (affected (has_version id version) s.committed.tables)),
      write_db (on_tables (update (has_version id version) (set_status status now))) s,
    )
