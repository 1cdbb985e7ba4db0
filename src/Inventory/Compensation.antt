-- ===== src/Inventory/Compensation.antt =====
-- The compensation of services/inventory/internal/service/inventory_service.go against the labels of
-- scripts/init-inventory-db.sql, and the round trip of a reservation and its compensation.
use msa_saga_go_practical.Prelude.{
  ◌⊎◌, ◌≡◌, ◌≢◌, ap, refl, true, false, none, some, List, arith, inl, inr,
}
use msa_saga_go_practical.Prelude.Int.{eq_ℤ_iff}
use msa_saga_go_practical.Prelude.Text.{Text, text, text_eq}
use msa_saga_go_practical.Common.Events.{PaymentRefundedEvent}
use msa_saga_go_practical.Common.Result.{ok}
use msa_saga_go_practical.Store.Table.{find, affected, affected_of_find}
use msa_saga_go_practical.Store.Session.{Session, Env, no_faults, transaction_begun}
use msa_saga_go_practical.Store.Outbox.{insert_event}
use msa_saga_go_practical.Inventory.Domain.{
  Inventory, StockReservation, reserved, cancelled, cancel,
}
use msa_saga_go_practical.Inventory.Repository.{
  Tables, has_product, has_order, has_id, has_label, shipped_labels, update_reservation,
  status_text,
}
use msa_saga_go_practical.Inventory.Service.{
  begin_failed, restore_stock, record_restoration, handle_payment_refunded,
}
use msa_saga_go_practical.Inventory.Outcome.{IsFailure}
use msa_saga_go_practical.Inventory.Restoration.{
  with_restoration, held, gave, holds, gives_back, handle_payment_refunded_outcome,
}

-- The enumeration spells the label CANCELED.
no_label : has_label shipped_labels cancelled ≡ false
unfolding shipped_labels has_label status_text text_eq text
no_label = refl

module _ (env : Env) (evt : PaymentRefundedEvent) (s : Session Tables) where
  -- With the enumeration that scripts/init-inventory-db.sql creates, a refund never restores stock:
  -- the committed database stays as it is whichever calls fail, and the handler fails unless
  -- the order holds no RESERVED reservation.
  pub refund_never_restores :
      let (result, s') = handle_payment_refunded shipped_labels env evt s in
      (s'.committed ≡ s.committed) × ((held evt s ≡ none) ⊎ IsFailure result)
  refund_never_restores = elim (handle_payment_refunded_outcome shipped_labels env evt s) [
    | inl (missing, done, same) ↦ (ap (λ x. x.committed) same, inl missing)
    | inr (inl (failed, same, _)) ↦ (same, inr failed)
    | inr (inr (r, found, inl (failed, same, _))) ↦ (same, inr failed)
    | inr (inr (r, found, inr (i, row, label, done, wrote, _))) ↦ cc no_label
  ]

module _ (labels : List Text) (env : Env) (evt : PaymentRefundedEvent) (s : Session Tables) where
  records_back_fine :
      (r : StockReservation) (i : Inventory)
      → has_label labels cancelled ≡ true
      → affected (has_id r.id) s.committed.tables.reservations ≢ 0
      → env.faults.update_reservation ≡ false
      → env.faults.marshal ≡ false
      → env.faults.insert_event ≡ false
      → env.faults.commit ≡ false
      → let (result, s') = record_restoration labels env evt r (gave labels env evt s r i) in
        (result ≡ ok tt) × (s'.committed ≡ with_restoration r i env evt s)
  unfolding record_restoration cancel update_reservation insert_event
  records_back_fine r i label there f1 f2 f3 f4 = ground arith

  -- When the column accepts the label CANCELLED, the order holds a RESERVED reservation, its product
  -- has a row and no call fails, the refund restores: the handler succeeds, and the quantities moved
  -- back, the cancelled reservation and the event `stock.restored.v1` are committed together.
  pub handle_payment_refunded_restores :
      (r : StockReservation) (i : Inventory)
      → has_label labels cancelled ≡ true
      → find (has_order evt.order_id reserved) s.committed.tables.reservations ≡ some r
      → find (has_product r.product_id) s.committed.tables.inventory ≡ some i
      → env.faults ≡ no_faults
      → let (result, s') = handle_payment_refunded labels env evt s in
        (result ≡ ok tt) × (s'.committed ≡ with_restoration r i env evt s)
  handle_payment_refunded_restores r i label found row quiet =
      let there : affected (has_id r.id) s.committed.tables.reservations ≢ 0 =
        affected_of_find (has_order evt.order_id reserved) (has_id r.id)
          s.committed.tables.reservations found (ground (arith, eq_ℤ_iff r.id r.id)) in
      rw
        (
          holds labels env evt s r found (ap (λ f. f.find) quiet),
          transaction_begun env.faults.begin begin_failed (restore_stock labels env evt r) s
              (ap (λ f. f.begin) quiet),
          gives_back labels env evt s r i row (ap (λ f. f.find_for_update) quiet)
              (ap (λ f. f.update) quiet),
        )
        (records_back_fine r i label there (ap (λ f. f.update_reservation) quiet)
          (ap (λ f. f.marshal) quiet) (ap (λ f. f.insert_event) quiet) (ap (λ f. f.commit) quiet))
