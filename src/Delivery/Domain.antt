-- ===== src/Delivery/Domain.antt =====
-- services/delivery/internal/domain/delivery.go.
use msa_saga_go_practical.Prelude.{ℕ}
use msa_saga_go_practical.Prelude.Int.{ℤ, pos}
use msa_saga_go_practical.Prelude.Text.{Text}

pub data DeliveryStatus : Type 0 where
  preparing shipped delivered cancelled : DeliveryStatus

pub record Delivery : Type 0 where
  pub id : ℤ
  pub order_id : ℤ
  pub address : Text
  pub status : DeliveryStatus
  pub tracking_number : Text
  pub carrier : Text
  pub idempotency_key : Text
  pub created_at : ℕ
  pub updated_at : ℕ

-- `NewDelivery` with the time of `time.Now`; the id is 0 until the INSERT gives it.
abbrev pub new_delivery : ℕ → ℤ → Text → Text → Text → Text → Delivery
new_delivery now order_id address tracking_number carrier key = record {
  id = pos 0;
  order_id = order_id;
  address = address;
  status = preparing;
  tracking_number = tracking_number;
  carrier = carrier;
  idempotency_key = key;
  created_at = now;
  updated_at = now;
}

-- `UpdateStatus` of the domain, with the time of `time.Now`.
unfoldable pub update_status : ℕ → DeliveryStatus → Delivery → Delivery
update_status now status d = record d { status = status; updated_at = now }
