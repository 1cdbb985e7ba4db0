-- ===== src/Examples/Inventory.antt =====
-- Runs of services/inventory/.
use msa_saga_go_practical.Prelude.{
  ◌≤◌, ◌≡◌, refl, true, none, some, List, [], ◌∷◌, arith, ◌⊎◌, length,
}
use msa_saga_go_practical.Prelude.Int.{ℤ, ◌+ℤ◌, int_eq, pos, eq_ℤ}
use msa_saga_go_practical.Prelude.Text.{Text, text, text_eq}
use msa_saga_go_practical.Prelude.Decimal.{dashed}
use msa_saga_go_practical.Common.Events.{EventType, PaymentCompletedEvent, PaymentRefundedEvent}
use msa_saga_go_practical.Common.Result.{ok}
use msa_saga_go_practical.Store.Table.{find}
use msa_saga_go_practical.Store.Session.{Session}
use msa_saga_go_practical.Inventory.Domain.{
  Inventory, StockReservation, cancelled, new_stock_reservation,
}
use msa_saga_go_practical.Inventory.Repository.{
  Tables, has_product, has_key, has_label, status_text, shipped_labels,
}
use msa_saga_go_practical.Inventory.Service.{
  product_id, reservation_key, handle_payment_completed, handle_payment_refunded,
}
use msa_saga_go_practical.Inventory.Outcome.{IsFailure, Outcome}
use msa_saga_go_practical.Inventory.Reservation.{handle_payment_completed-Outcome}
use msa_saga_go_practical.Inventory.Restoration.{Restores, held, handle_payment_refunded_outcome}
use msa_saga_go_practical.Inventory.Compensation.{refund_never_restores}
use msa_saga_go_practical.Inventory.Held.{held_quantity, quantity_held}
use msa_saga_go_practical.Inventory.Invariant.{HoldsIn}
use msa_saga_go_practical.Inventory.Balance.{
  handle_payment_completed-IsBalanced, handle_payment_refunded-IsBalanced,
}
use msa_saga_go_practical.Inventory.Range.{IsWithin, handlers-IsWithin}
use msa_saga_go_practical.Examples.{calm, lossy, base, over}

abbrev shelf : Inventory
shelf = record {
  id = pos 1;
  product_id = pos 1;
  available_quantity = pos 10;
  reserved_quantity = pos 1;
  version = 4;
  created_at = 10;
  updated_at = 10;
}

-- Another order's reservation.
abbrev earlier : StockReservation
earlier = record (new_stock_reservation 10 (pos 1) (pos 1) (pos 1) (text "r")) { id = pos 1 }

abbrev depot : Session Tables
depot = over (record { inventory = shelf ∷ []; reservations = earlier ∷ [] })

-- Labels that agree with the constants of the domain.
abbrev right_labels : List Text
right_labels = text "RESERVED" ∷ text "CANCELLED" ∷ []

abbrev paid : PaymentCompletedEvent
paid = record {
  base = base EventType.payment_completed;
  order_id = pos 2;
  payment_id = pos 4;
  amount = pos 500;
  payment_type = text "CARD";
}

-- The refund of the other order, and of the order that `paid` is about.
abbrev refunded : PaymentRefundedEvent
refunded = record {
  base = base EventType.payment_refunded;
  order_id = pos 1;
  payment_id = pos 1;
  amount = pos 500;
}

abbrev refunded_later : PaymentRefundedEvent
refunded_later = record refunded { order_id = pos 2 }

new_key : find (has_key (reservation_key paid)) depot.committed.tables.reservations ≡ none
unfolding find text_eq text reservation_key dashed
new_key = refl

short_key : length (reservation_key paid) ≤ 64
unfolding text reservation_key dashed
short_key = omega arith

found_shelf : find (has_product product_id) depot.committed.tables.inventory ≡ some shelf
unfolding find eq_ℤ
found_shelf = refl

found_earlier : held refunded depot ≡ some earlier
unfolding find eq_ℤ
found_earlier = refl

found_none : held refunded_later depot ≡ none
unfolding find eq_ℤ
found_none = refl

right_label : has_label right_labels cancelled ≡ true
unfolding has_label status_text text_eq text
right_label = refl

handle_payment_completed-Outcome_example :
    let (r, s') = handle_payment_completed lossy paid depot in
    ((x : StockReservation) × (find
          (has_key (reservation_key paid))
          depot.committed.tables.reservations
        ≡ some x)
      × (r ≡ ok tt)
      × (s' ≡ depot))
    ⊎ Outcome lossy paid depot r s'
handle_payment_completed-Outcome_example = handle_payment_completed-Outcome lossy paid depot

handle_payment_refunded_outcome_example :
    let (r, s') = handle_payment_refunded right_labels lossy refunded depot in
    ((held refunded depot ≡ none) × (r ≡ ok tt) × (s' ≡ depot))
    ⊎ (IsFailure r × (s'.committed ≡ depot.committed) × (s'.serial ≡ depot.serial))
    ⊎ ((x : StockReservation) × (held refunded depot ≡ some x)
        × Restores right_labels lossy refunded depot x r s')
handle_payment_refunded_outcome_example =
    handle_payment_refunded_outcome right_labels lossy refunded depot

refund_never_restores_example :
    let (r, s') = handle_payment_refunded shipped_labels calm refunded depot in
    (s'.committed ≡ depot.committed) × ((held refunded depot ≡ none) ⊎ IsFailure r)
refund_never_restores_example = refund_never_restores calm refunded depot

shelf_balanced :
    (p : ℤ) (i : Inventory)
    → find (has_product p) depot.committed.tables.inventory ≡ some i
    → i.reserved_quantity ≡ held_quantity p depot.committed.tables.reservations
unfolding find held_quantity quantity_held ◌+ℤ◌
shelf_balanced p i h = ground arith

depot-HoldsIn : HoldsIn depot
unfolding find
depot-HoldsIn = record {
  given = (omega arith, tt);
  ids = (refl, tt);
  positive = (omega arith, tt);
  stocked = (omega arith, tt);
  balanced = shelf_balanced;
}

handle_payment_completed-IsBalanced_example : HoldsIn (handle_payment_completed lossy paid depot).1
handle_payment_completed-IsBalanced_example =
    handle_payment_completed-IsBalanced lossy paid depot depot-HoldsIn

handle_payment_refunded-IsBalanced_example :
    HoldsIn (handle_payment_refunded right_labels calm refunded depot).1
handle_payment_refunded-IsBalanced_example =
    handle_payment_refunded-IsBalanced right_labels calm refunded depot depot-HoldsIn

depot-IsWithin : IsWithin (pos 100) depot
unfolding ◌+ℤ◌
depot-IsWithin = (omega arith, tt)

handlers-IsWithin_example :
    IsWithin (pos 100) (handle_payment_completed calm paid depot).1
    × IsWithin (pos 100) (handle_payment_refunded right_labels calm refunded depot).1
handlers-IsWithin_example =
    handlers-IsWithin (pos 100) right_labels calm paid refunded depot depot-IsWithin
