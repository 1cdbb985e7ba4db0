-- ===== src/Inventory/Reservation.antt =====
-- What `HandlePaymentCompleted` of services/inventory/internal/service/inventory_service.go does.
use msa_saga_go_practical.Prelude.{
  ◌≤◌, ◌≡◌, ap, refl, true, false, none, some, arith, ◌⊎◌, inl, inr, length, Option-cases,
  Bool-cases,
}
use msa_saga_go_practical.Prelude.Int.{pos, ◌≤ℤ◌}
use msa_saga_go_practical.Common.Events.{PaymentCompletedEvent}
use msa_saga_go_practical.Common.Result.{ok}
use msa_saga_go_practical.Store.Table.{find}
use msa_saga_go_practical.Store.Session.{
  Session, Env, no_faults, transaction_begun, transaction_refused,
}
use msa_saga_go_practical.Store.Outbox.{insert_event}
use msa_saga_go_practical.Inventory.Domain.{Inventory, StockReservation, can_reserve}
use msa_saga_go_practical.Inventory.Repository.{Tables, create, has_key, has_product}
use msa_saga_go_practical.Inventory.Service.{
  product_id, quantity, reservation_key, handle_payment_completed, record_reservation,
  reserve_stock, begin_failed,
}
use msa_saga_go_practical.Inventory.Outcome.{with_reservation, Outcome}
use msa_saga_go_practical.Inventory.Stages.{
  has_enough, took, takes, reads_row, accepts, looks_up_new, looks_up_known, looks_up_broken,
  reserve_stock-Outcome,
}

module _ (env : Env) (evt : PaymentCompletedEvent) (s : Session Tables) where
  -- `HandlePaymentCompleted` ends in one of these ways, whichever calls fail. The event is known: it
  -- succeeds and changes nothing. It fails and commits nothing. The product has no row, or less than
  -- one piece available: it fails and commits only the event `stock.reservation_failed.v1` with that
  -- reason. Or the product has stock and the key is new and short enough: it succeeds, and has
  -- committed together the moved quantities, the reservation and the event `stock.reserved.v1`, and
  -- the sequence has given one id.
  pub handle_payment_completed-Outcome :
      let (r, s') = handle_payment_completed env evt s in
      ((x : StockReservation) × (find
            (has_key (reservation_key evt))
            s.committed.tables.reservations
          ≡ some x)
        × (r ≡ ok tt)
        × (s' ≡ s))
      ⊎ Outcome env evt s r s'
  handle_payment_completed-Outcome = elim (Bool-cases env.faults.find_key) [
    | inl bad ↦ rw (looks_up_broken env evt s bad) (inr (inl (refl, tt, omega arith)))
    | inr fine ↦
        elim (Option-cases (find (has_key (reservation_key evt)) s.committed.tables.reservations)) [
          | inr (x, known) ↦ rw (looks_up_known env evt s known fine) (inl (x, known, refl, refl))
          | inl missing ↦ elim (Bool-cases env.faults.begin) [
            | inl stuck ↦
                rw
                  (
                    looks_up_new env evt s missing fine,
                    transaction_refused env.faults.begin begin_failed (reserve_stock env evt) s
                        stuck,
                  )
                  (inr (inl (refl, tt, omega arith)))
            | inr begins ↦
                rw
                  (
                    looks_up_new env evt s missing fine,
                    transaction_begun env.faults.begin begin_failed (reserve_stock env evt) s
                        begins,
                  )
                  (inr (reserve_stock-Outcome env evt s))
          ]
        ]
  ]

  records_fine :
      (i : Inventory)
      → find (has_key (reservation_key evt)) s.committed.tables.reservations ≡ none
      → length (reservation_key evt) ≤ 64
      → env.faults.create ≡ false
      → env.faults.marshal ≡ false
      → env.faults.insert_event ≡ false
      → env.faults.commit ≡ false
      → let (r, s') = record_reservation env evt (took env evt s i) in
        (r ≡ ok tt) × (s'.committed ≡ with_reservation i env evt s)
  unfolding record_reservation create insert_event
  records_fine i key short f1 f2 f3 f4 = ground arith

  -- When the product has stock, the key is new and short enough and no call fails, the reservation is
  -- made: the handler succeeds, and the moved quantities, the reservation and the event are committed.
  pub handle_payment_completed_reserves :
      (i : Inventory)
      → find (has_product product_id) s.committed.tables.inventory ≡ some i
      → pos 1 ≤ℤ i.available_quantity
      → find (has_key (reservation_key evt)) s.committed.tables.reservations ≡ none
      → length (reservation_key evt) ≤ 64
      → env.faults ≡ no_faults
      → let (r, s') = handle_payment_completed env evt s in
        (r ≡ ok tt) × (s'.committed ≡ with_reservation i env evt s)
  handle_payment_completed_reserves i found left key short quiet =
      let enough : can_reserve quantity i ≡ true = has_enough i left in
      rw
        (
          looks_up_new env evt s key (ap (λ f. f.find_key) quiet),
          transaction_begun env.faults.begin begin_failed (reserve_stock env evt) s
              (ap (λ f. f.begin) quiet),
          reads_row env evt s i found (ap (λ f. f.find_for_update) quiet),
          accepts env evt s i enough,
          takes env evt s i found (ap (λ f. f.update) quiet),
        )
        (records_fine i key short (ap (λ f. f.create) quiet) (ap (λ f. f.marshal) quiet)
          (ap (λ f. f.insert_event) quiet) (ap (λ f. f.commit) quiet))
