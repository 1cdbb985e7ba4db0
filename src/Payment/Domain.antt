-- ===== src/Payment/Domain.antt =====
-- services/payment/internal/domain/payment.go.
use msa_saga_go_practical.Prelude.{ℕ, Bool, true, false, ◌==◌, if◌then◌else◌}
use msa_saga_go_practical.Prelude.Int.{ℤ}
use msa_saga_go_practical.Prelude.Text.{Text}

pub data PaymentStatus : Type 0 where
  pending completed failed refunded : PaymentStatus

abbrev status_index : PaymentStatus → ℕ
status_index pending = 0
status_index completed = 1
status_index failed = 2
status_index refunded = 3

-- `==` of two statuses.
abbrev pub status_eq : PaymentStatus → PaymentStatus → Bool
status_eq a b = status_index a == status_index b

pub record Payment : Type 0 where
  pub id : ℤ
  pub order_id : ℤ
  pub amount : ℤ
  pub payment_type : Text
  pub status : PaymentStatus
  pub idempotency_key : Text
  pub payment_gateway_tx_id : Text
  pub reason : Text
  pub created_at : ℕ
  pub updated_at : ℕ

unfoldable pub can_refund : Payment → Bool
can_refund p = status_eq p.status completed

-- `Refund` with the time of `time.Now`: the payment after the call, and the result.
unfoldable pub refund : ℕ → Text → Payment → Payment × Bool
unfolding can_refund
refund now reason p =
    if can_refund p
    then (record p { status = refunded; reason = reason; updated_at = now }, true)
    else (p, false)
