-- ===== src/Inventory/Domain.antt =====
-- services/inventory/internal/domain/inventory.go and stock_reservation.go.
use msa_saga_go_practical.Prelude.{ℕ, ◌+◌, ◌*◌, Bool, ◌==◌}
use msa_saga_go_practical.Prelude.Int.{ℤ, pos, ◌+ℤ◌, ◌-ℤ◌, leb_ℤ}
use msa_saga_go_practical.Prelude.Text.{Text}

pub record Inventory : Type 0 where
  pub id : ℤ
  pub product_id : ℤ
  pub available_quantity : ℤ
  pub reserved_quantity : ℤ
  pub version : ℕ
  pub created_at : ℕ
  pub updated_at : ℕ

-- `AvailableQuantity >= quantity`
unfoldable pub can_reserve : ℤ → Inventory → Bool
can_reserve quantity i = leb_ℤ quantity i.available_quantity

-- `Reserve` and `Restore`, with the time of `time.Now`.
unfoldable pub reserve : ℕ → ℤ → Inventory → Inventory
reserve now quantity i = record i {
  available_quantity = i.available_quantity -ℤ quantity;
  reserved_quantity = i.reserved_quantity +ℤ quantity;
  version = i.version + 1;
  updated_at = now;
}

unfoldable pub restore : ℕ → ℤ → Inventory → Inventory
restore now quantity i = record i {
  available_quantity = i.available_quantity +ℤ quantity;
  reserved_quantity = i.reserved_quantity -ℤ quantity;
  version = i.version + 1;
  updated_at = now;
}

pub data ReservationStatus : Type 0 where
  reserved confirmed cancelled expired : ReservationStatus

abbrev status_index : ReservationStatus → ℕ
status_index reserved = 0
status_index confirmed = 1
status_index cancelled = 2
status_index expired = 3

-- `==` of two statuses.
abbrev pub status_eq : ReservationStatus → ReservationStatus → Bool
status_eq a b = status_index a == status_index b

pub record StockReservation : Type 0 where
  pub id : ℤ
  pub order_id : ℤ
  pub product_id : ℤ
  pub quantity : ℤ
  pub status : ReservationStatus
  pub idempotency_key : Text
  pub expired_at : ℕ
  pub created_at : ℕ
  pub updated_at : ℕ

-- 30 * time.Minute, in nanoseconds.
abbrev thirty_minutes : ℕ
thirty_minutes = 30 * 60000000000

-- `NewStockReservation` with the time of `time.Now`; the id is 0 until the INSERT gives it.
abbrev pub new_stock_reservation : ℕ → ℤ → ℤ → ℤ → Text → StockReservation
new_stock_reservation now order_id product_id quantity key = record {
  id = pos 0;
  order_id = order_id;
  product_id = product_id;
  quantity = quantity;
  status = reserved;
  idempotency_key = key;
  expired_at = now + thirty_minutes;
  created_at = now;
  updated_at = now;
}

unfoldable pub cancel : ℕ → StockReservation → StockReservation
cancel now r = record r { status = cancelled; updated_at = now }

unfoldable pub confirm : ℕ → StockReservation → StockReservation
confirm now r = record r { status = confirmed; updated_at = now }
