-- ===== src/Payment/Repository.antt =====
-- services/payment/internal/repository/payment_repository.go, with the columns and the unique key of
-- scripts/init-payment-db.sql. Every statement goes to the pool, not to the caller's transaction.
use msa_saga_go_practical.Prelude.{
  ℕ, suc, Bool, Option, none, some, List, [], ◌∷◌, ◌++◌, ltb, leb, ◌&&◌, ◌||◌, length,
  if◌then◌else◌,
}
use msa_saga_go_practical.Prelude.Int.{ℤ, pos, eq_ℤ}
use msa_saga_go_practical.Prelude.Text.{Text, text, text_eq}
use msa_saga_go_practical.Prelude.Decimal.{decimal_ℤ}
use msa_saga_go_practical.Common.Errors.{Error}
use msa_saga_go_practical.Common.Result.{ok, err}
use msa_saga_go_practical.Store.Table.{find, update, insert}
use msa_saga_go_practical.Store.Session.{M, write_db, on_tables, next_serial}
use msa_saga_go_practical.Payment.Domain.{Payment, PaymentStatus}

-- `WHERE id = $1`
abbrev pub has_id : ℤ → Payment → Bool
has_id id p = eq_ℤ p.id id

-- `WHERE order_id = $1`
abbrev pub has_order : ℤ → Payment → Bool
has_order order p = eq_ℤ p.order_id order

-- `WHERE idempotency_key = $1`
abbrev pub has_key : Text → Payment → Bool
has_key key p = text_eq p.idempotency_key key

-- `ORDER BY created_at DESC LIMIT 1`: a newest row; of rows of one age, which the statement leaves
-- open, the first.
unfoldable pub newest : (Payment → Bool) → List Payment → Option Payment
newest q [] = none
newest q (p ∷ t) = elim (newest q t) [
  | none ↦ if q p then some p else none
  | some x ↦ if q p && leb x.created_at p.created_at then some p else some x
]

-- `SET status = $1, reason = $2, updated_at = NOW()`
abbrev pub set_status : PaymentStatus → Text → ℕ → Payment → Payment
set_status status reason now p = record p { status = status; reason = reason; updated_at = now }

-- `Create`. The column `idempotency_key` is VARCHAR(64) and unique, and a refused duplicate has used
-- up an id.
unfoldable pub create : Bool → Payment → M (List Payment) Payment
unfolding find
create fails p s =
    if fails || ltb 64 (length p.idempotency_key)
    then (err (Error.errorf_w (text "failed to create payment") Error.driver), s)
    else elim (find (has_key p.idempotency_key) s.committed.tables) [
      | some _ ↦ (
        err (Error.errorf_w (text "duplicate idempotency key") Error.unique_violation),
        next_serial s,
      )
      | none ↦
          let row = record p { id = pos (suc s.serial) } in
          (ok row, next_serial (write_db (on_tables (insert row)) s))
    ]

-- The scan of the one row that a query gives, with the texts of the two errors. A NULL `reason` is
-- the empty text.
scan_one : Bool → Text → (List Payment → Option Payment) → M (List Payment) Payment
scan_one fails missing query s =
    if fails
    then (err (Error.errorf_w (text "failed to find payment") Error.driver), s)
    else elim (query s.committed.tables) [
      | some p ↦ (ok p, s)
      | none ↦ (err (Error.errorf missing), s)
    ]

unfoldable pub find_by_id : Bool → ℤ → M (List Payment) Payment
unfolding scan_one find
find_by_id fails id = scan_one fails (text "payment not found: " ++ decimal_ℤ id) (find (has_id id))

unfoldable pub find_by_order_id : Bool → ℤ → M (List Payment) Payment
unfolding scan_one
find_by_order_id fails order =
    scan_one fails (text "payment not found for order: " ++ decimal_ℤ order)
      (newest (has_order order))

unfoldable pub find_by_idempotency_key : Bool → Text → M (List Payment) Payment
unfolding scan_one
find_by_idempotency_key fails key =
    scan_one fails (text "payment not found with idempotency key: " ++ key) (find (has_key key))

unfoldable pub update_status : Bool → ℕ → ℤ → PaymentStatus → Text → M (List Payment) (Unit {0})
update_status fails now id status reason s =
    if fails
    then (err (Error.errorf_w (text "failed to update payment status") Error.driver), s)
    else (ok tt, write_db (on_tables (update (has_id id) (set_status status reason now))) s)
