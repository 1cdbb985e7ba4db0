-- ===== src/Inventory/Stages.antt =====
-- The stages of `HandlePaymentCompleted` of
-- services/inventory/internal/service/inventory_service.go, each from what the calls before it gave.
use msa_saga_go_practical.Prelude.{
  ◌≡◌, ap, refl, true, false, none, some, arith, inl, inr, Option-cases, Bool-cases,
}
use msa_saga_go_practical.Prelude.Int.{pos, ◌≤ℤ◌}
use msa_saga_go_practical.Prelude.Text.{text}
use msa_saga_go_practical.Common.Errors.{is_code}
use msa_saga_go_practical.Common.Events.{PaymentCompletedEvent}
use msa_saga_go_practical.Common.Result.{Result, ok, err}
use msa_saga_go_practical.Store.Table.{find}
use msa_saga_go_practical.Store.Session.{Session, Env, write_tx, on_tables, transaction}
use msa_saga_go_practical.Inventory.Domain.{Inventory, StockReservation, reserve, can_reserve}
use msa_saga_go_practical.Inventory.Repository.{
  Tables, find_by_idempotency_key, find_by_product_id_for_update, update_with_optimistic_lock,
  has_key, has_product, on_inventory, database_error,
}
use msa_saga_go_practical.Inventory.Service.{
  product_id, quantity, reservation_key, handle_payment_completed, publish_stock_reservation_failed,
  record_reservation, take_stock, after_find, after_update, reserve_stock, after_lookup,
  begin_failed,
}
use msa_saga_go_practical.Inventory.Outcome.{taken, publishes, records, still_there, Outcome}

can_reserve_lem :
    (i : Inventory)
    → (can_reserve quantity i ≡ true → quantity ≤ℤ i.available_quantity)
      × (can_reserve quantity i ≡ false → i.available_quantity ≤ℤ pos 0)
unfolding can_reserve
can_reserve_lem i = (λ h. ground arith, λ h. ground arith)

pub has_enough : (i : Inventory) → quantity ≤ℤ i.available_quantity → can_reserve quantity i ≡ true
unfolding can_reserve
has_enough i h = ground arith

-- A session whose transaction has just begun.
abbrev pub begun : Session Tables → Session Tables
begun s = record s { working = s.committed }

module _ (env : Env) (evt : PaymentCompletedEvent) (s : Session Tables) where
  abbrev pub took : Inventory → Session Tables
  took i = write_tx (on_tables (on_inventory (taken env i))) (begun s)

  locks :
      (i : Inventory)
      → find (has_product product_id) s.committed.tables.inventory ≡ some i
      → env.faults.update ≡ false
      → update_with_optimistic_lock env.faults.update
          (reserve env.now quantity i)
          i.version
          (begun s)
        ≡ (ok tt, took i)
  unfolding update_with_optimistic_lock reserve
  locks i found fine = ground (arith, still_there product_id i s.committed.tables.inventory found)

  breaks :
      (i : Inventory)
      → env.faults.update ≡ true
      → take_stock env evt i (begun s)
        ≡ (err (database_error (text "failed to update inventory")), begun s)
  unfolding take_stock after_update update_with_optimistic_lock is_code
  breaks i bad = rw bad

  pub takes :
      (i : Inventory)
      → find (has_product product_id) s.committed.tables.inventory ≡ some i
      → env.faults.update ≡ false
      → take_stock env evt i (begun s) ≡ record_reservation env evt (took i)
  unfolding take_stock after_update
  takes i found fine =
      ap (λ (x : Result (Unit {0}) × Session Tables). after_update env evt x.0 x.1)
        (locks i found fine)

  take_stock-Outcome :
      (i : Inventory)
      → find (has_product product_id) s.committed.tables.inventory ≡ some i
      → pos 1 ≤ℤ i.available_quantity
      → let (r, s') = take_stock env evt i (begun s) in Outcome env evt s r s'
  take_stock-Outcome i found left = elim (Bool-cases env.faults.update) [
    | inl bad ↦ rw (breaks i bad) (inl (refl, tt, omega arith))
    | inr fine ↦ rw (takes i found fine) (elim (records env evt (took i)) [
      | inl (failed, same, grew) ↦ inl (same, failed, grew)
      | inr (done, key, short, wrote, serial) ↦
          inr (inr (i, found, inr (left, key, short, done, wrote, serial)))
    ])
  ]

  pub reads_row :
      (i : Inventory)
      → find (has_product product_id) s.committed.tables.inventory ≡ some i
      → env.faults.find_for_update ≡ false
      → reserve_stock env evt (begun s) ≡ after_find env evt (ok i) (begun s)
  unfolding reserve_stock find_by_product_id_for_update
  reads_row i found fine = rw (fine, found)

  reads_none :
      find (has_product product_id) s.committed.tables.inventory ≡ none
      → reserve_stock env evt (begun s)
        ≡ publish_stock_reservation_failed env.faults.find_for_update env evt
            (text "product not found")
            (begun s)
  unfolding reserve_stock find_by_product_id_for_update after_find
  reads_none missing = ground arith

  reads_broken :
      env.faults.find_for_update ≡ true
      → reserve_stock env evt (begun s)
        ≡ publish_stock_reservation_failed true env evt (text "product not found") (begun s)
  unfolding reserve_stock find_by_product_id_for_update after_find
  reads_broken bad = rw bad

  refuses :
      (i : Inventory)
      → can_reserve quantity i ≡ false
      → after_find env evt (ok i) (begun s)
        ≡ publish_stock_reservation_failed false env evt (text "insufficient stock") (begun s)
  unfolding after_find
  refuses i short = rw short

  pub accepts :
      (i : Inventory)
      → can_reserve quantity i ≡ true
      → after_find env evt (ok i) (begun s) ≡ take_stock env evt i (begun s)
  unfolding after_find
  accepts i enough = rw enough

  after_find-Outcome :
      (i : Inventory)
      → find (has_product product_id) s.committed.tables.inventory ≡ some i
      → let (r, s') = after_find env evt (ok i) (begun s) in Outcome env evt s r s'
  after_find-Outcome i found = elim (Bool-cases (can_reserve quantity i)) [
    | inl enough ↦ rw (accepts i enough) (take_stock-Outcome i found ((can_reserve_lem i).0 enough))
    | inr short ↦
        let (failed, kept, after) =
          publishes env evt (begun s) false (text "insufficient stock") refl in
        rw (refuses i short) (elim after [
          | inl same ↦ inl (same, failed, rw kept (omega arith))
          | inr (_, wrote) ↦
              inr (inr (i, found, inl ((can_reserve_lem i).1 short, failed, wrote, kept)))
        ])
  ]

  pub reserve_stock-Outcome :
      let (r, s') = reserve_stock env evt (begun s) in Outcome env evt s r s'
  reserve_stock-Outcome = elim (Bool-cases env.faults.find_for_update) [
    | inl bad ↦
        let (failed, kept, after) =
          publishes env evt (begun s) true (text "product not found") refl in
        rw (reads_broken bad) (elim after [
          | inl same ↦ inl (same, failed, rw kept (omega arith))
          | inr (impossible, _) ↦ cc
        ])
    | inr fine ↦ elim (Option-cases (find (has_product product_id) s.committed.tables.inventory)) [
      | inl missing ↦
          let (failed, kept, after) =
            publishes env evt (begun s) env.faults.find_for_update (text "product not found")
              refl in
          rw (reads_none missing) (elim after [
            | inl same ↦ inl (same, failed, rw kept (omega arith))
            | inr (_, wrote) ↦ inr (inl (missing, failed, wrote, kept))
          ])
      | inr (i, found) ↦ rw (reads_row i found fine) (after_find-Outcome i found)
    ]
  ]

  pub looks_up_new :
      find (has_key (reservation_key evt)) s.committed.tables.reservations ≡ none
      → env.faults.find_key ≡ false
      → handle_payment_completed env evt s
        ≡ transaction env.faults.begin begin_failed (reserve_stock env evt) s
  unfolding handle_payment_completed find_by_idempotency_key after_lookup is_code
  looks_up_new missing fine = rw (fine, missing)

  pub looks_up_known :
      {x : StockReservation}
      → find (has_key (reservation_key evt)) s.committed.tables.reservations ≡ some x
      → env.faults.find_key ≡ false
      → handle_payment_completed env evt s ≡ (ok tt, s)
  unfolding handle_payment_completed find_by_idempotency_key after_lookup
  looks_up_known known fine = rw (fine, known)

  pub looks_up_broken :
      env.faults.find_key ≡ true
      → handle_payment_completed env evt s
        ≡ (err (database_error (text "failed to find stock reservation")), s)
  unfolding handle_payment_completed find_by_idempotency_key after_lookup is_code
  looks_up_broken bad = rw bad
