-- ===== src/Inventory/Balance.antt =====
-- The books of the inventory service under the handlers of
-- services/inventory/internal/service/inventory_service.go.
use msa_saga_go_practical.Prelude.{List, inl, inr}
use msa_saga_go_practical.Prelude.Int.{int_eq}
use msa_saga_go_practical.Prelude.Text.{Text}
use msa_saga_go_practical.Common.Events.{PaymentCompletedEvent, PaymentRefundedEvent}
use msa_saga_go_practical.Store.Session.{Session, Env}
use msa_saga_go_practical.Inventory.Repository.{Tables}
use msa_saga_go_practical.Inventory.Service.{handle_payment_completed, handle_payment_refunded}
use msa_saga_go_practical.Inventory.Reservation.{handle_payment_completed-Outcome}
use msa_saga_go_practical.Inventory.Restoration.{handle_payment_refunded_outcome}
use msa_saga_go_practical.Inventory.Invariant.{HoldsIn, weaken}
use msa_saga_go_practical.Inventory.Reserving.{with_reservation-IsBalanced}
use msa_saga_go_practical.Inventory.Restoring.{with_restoration-IsBalanced}

-- `HandlePaymentCompleted` keeps the books, whichever calls fail: the ids of the reservations stay
-- distinct and within the sequence, their quantities positive, no row's stock becomes negative, and
-- the reserved quantity of each product's row stays what its RESERVED reservations hold.
pub handle_payment_completed-IsBalanced :
    (env : Env) (evt : PaymentCompletedEvent) (s : Session Tables)
    → HoldsIn s
    → HoldsIn (handle_payment_completed env evt s).1
handle_payment_completed-IsBalanced env evt s h =
    elim (handle_payment_completed-Outcome env evt s) [
      | inl (x, known, done, same) ↦ rw same h
      | inr (inl (same, failed, grew)) ↦ rw same (weaken grew h)
      | inr (inr (inl (missing, failed, wrote, serial))) ↦ rw (wrote, serial) h
      | inr (inr (inr (i, found, inl (short, failed, wrote, serial)))) ↦ rw (wrote, serial) h
      | inr (inr (inr (i, found, inr (left, key, fits, done, wrote, serial)))) ↦
          rw (wrote, serial) (with_reservation-IsBalanced env evt s i found left h)
    ]

-- `HandlePaymentRefunded` keeps the books in the same sense, whichever calls fail and whatever labels
-- the column of the status has.
pub handle_payment_refunded-IsBalanced :
    (labels : List Text) (env : Env) (evt : PaymentRefundedEvent) (s : Session Tables)
    → HoldsIn s
    → HoldsIn (handle_payment_refunded labels env evt s).1
handle_payment_refunded-IsBalanced labels env evt s h =
    elim (handle_payment_refunded_outcome labels env evt s) [
      | inl (missing, done, same) ↦ rw same h
      | inr (inl (failed, same, serial)) ↦ rw (same, serial) h
      | inr (inr (r, found, inl (failed, same, serial))) ↦ rw (same, serial) h
      | inr (inr (r, found, inr (i, row, label, done, wrote, serial))) ↦
          rw (wrote, serial) (with_restoration-IsBalanced env evt s r i evt.order_id found row h)
    ]
