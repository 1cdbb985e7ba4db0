-- ===== src/Inventory/Range.antt =====
-- What a row of `inventory` counts in all, under the handlers of
-- services/inventory/internal/service/inventory_service.go.
use msa_saga_go_practical.Prelude.{ℕ, ◌≡◌, some, List, inl, inr}
use mathlib.Core.Path.{subst, sym}
use msa_saga_go_practical.Prelude.Int.{ℤ, ◌+ℤ◌, ◌≤ℤ◌, move_right, move_left}
use msa_saga_go_practical.Prelude.Text.{Text}
use msa_saga_go_practical.Common.Events.{PaymentCompletedEvent, PaymentRefundedEvent}
use msa_saga_go_practical.Store.Table.{find, All, All-find, All-update}
use msa_saga_go_practical.Store.Session.{Session, Env}
use msa_saga_go_practical.Inventory.Domain.{Inventory, StockReservation, reserve, restore}
use msa_saga_go_practical.Inventory.Repository.{Tables, has_product, has_version, set_quantities}
use msa_saga_go_practical.Inventory.Service.{
  product_id, quantity, handle_payment_completed, handle_payment_refunded,
}
use msa_saga_go_practical.Inventory.Outcome.{taken}
use msa_saga_go_practical.Inventory.Reservation.{handle_payment_completed-Outcome}
use msa_saga_go_practical.Inventory.Restoration.{given_back, handle_payment_refunded_outcome}

-- The stock of a product and what is reserved of it.
abbrev pub counted : Inventory → ℤ
counted i = i.available_quantity +ℤ i.reserved_quantity

abbrev pub IsWithin : ℤ → Session Tables → Type 0
IsWithin cap s = All (λ (i : Inventory). counted i ≤ℤ cap) s.committed.tables.inventory

counted-reserve :
    (now : ℕ) (q : ℤ) (i row : Inventory)
    → counted (set_quantities (reserve now q i) row) ≡ counted i
unfolding reserve
counted-reserve now q i row = move_right i.available_quantity i.reserved_quantity q

counted-restore :
    (now : ℕ) (q : ℤ) (i row : Inventory)
    → counted (set_quantities (restore now q i) row) ≡ counted i
unfolding restore
counted-restore now q i row = move_left i.available_quantity i.reserved_quantity q

module _ (cap : ℤ) (env : Env) (i : Inventory) (t : List Inventory) (product : ℤ)
    (found : find (has_product product) t ≡ some i)
    (within : All (λ (x : Inventory). counted x ≤ℤ cap) t) where
  read_within : counted i ≤ℤ cap
  read_within = All-find (λ (x : Inventory). counted x ≤ℤ cap) (has_product product) t within found

  taken_within : All (λ (x : Inventory). counted x ≤ℤ cap) (taken env i t)
  taken_within =
      All-update (λ (x : Inventory). counted x ≤ℤ cap) (has_version i.product_id i.version)
        (set_quantities (reserve env.now quantity i)) t
        (λ x h. subst (λ n. n ≤ℤ cap) (sym (counted-reserve env.now quantity i x)) read_within)
        within

  given_within :
      (r : StockReservation) → All (λ (x : Inventory). counted x ≤ℤ cap) (given_back env r i t)
  given_within r =
      All-update (λ (x : Inventory). counted x ≤ℤ cap) (has_version i.product_id i.version)
        (set_quantities (restore env.now r.quantity i)) t
        (λ x h. subst (λ n. n ≤ℤ cap) (sym (counted-restore env.now r.quantity i x)) read_within)
        within

handle_payment_completed-IsWithin :
    (cap : ℤ) (env : Env) (evt : PaymentCompletedEvent) (s : Session Tables)
    → IsWithin cap s
    → IsWithin cap (handle_payment_completed env evt s).1
handle_payment_completed-IsWithin cap env evt s h =
    elim (handle_payment_completed-Outcome env evt s) [
      | inl (x, known, done, same) ↦ rw same h
      | inr (inl (same, failed, grew)) ↦ rw same h
      | inr (inr (inl (missing, failed, wrote, serial))) ↦ rw wrote h
      | inr (inr (inr (i, found, inl (short, failed, wrote, serial)))) ↦ rw wrote h
      | inr (inr (inr (i, found, inr (left, key, fits, done, wrote, serial)))) ↦
          rw wrote (taken_within cap env i s.committed.tables.inventory product_id found h)
    ]

handle_payment_refunded-IsWithin :
    (cap : ℤ) (labels : List Text) (env : Env) (evt : PaymentRefundedEvent) (s : Session Tables)
    → IsWithin cap s
    → IsWithin cap (handle_payment_refunded labels env evt s).1
handle_payment_refunded-IsWithin cap labels env evt s h =
    elim (handle_payment_refunded_outcome labels env evt s) [
      | inl (missing, done, same) ↦ rw same h
      | inr (inl (failed, same, serial)) ↦ rw same h
      | inr (inr (r, found, inl (failed, same, serial))) ↦ rw same h
      | inr (inr (r, found, inr (i, row, label, done, wrote, serial))) ↦
          rw wrote (given_within cap env i s.committed.tables.inventory r.product_id row h r)
    ]

-- A bound on what the rows count, `available_quantity` and `reserved_quantity` together, holds after
-- `HandlePaymentCompleted` and after `HandlePaymentRefunded` when it holds before, whichever calls
-- fail and whatever labels the column of the status has.
pub handlers-IsWithin :
    (cap : ℤ) (labels : List Text) (env : Env) (paid : PaymentCompletedEvent)
    (back : PaymentRefundedEvent) (s : Session Tables)
    → IsWithin cap s
    → IsWithin cap (handle_payment_completed env paid s).1
      × IsWithin cap (handle_payment_refunded labels env back s).1
handlers-IsWithin cap labels env paid back s h = (
  handle_payment_completed-IsWithin cap env paid s h,
  handle_payment_refunded-IsWithin cap labels env back s h,
)
