-- ===== src/Inventory/Reserving.antt =====
-- A reservation of services/inventory/internal/service/inventory_service.go against the books.
use msa_saga_go_practical.Prelude.{
  suc, ◌≡◌, refl, sym, ap, ◌∙◌, true, false, some, arith, inl, inr, Bool-cases,
}
use mathlib.Core.Path.{subst}
use msa_saga_go_practical.Prelude.Int.{ℤ, pos, ◌+ℤ◌, ◌≤ℤ◌, eq_ℤ, eq_ℤ_iff, int_eq, -ℤ_parts}
use msa_saga_go_practical.Common.Events.{PaymentCompletedEvent}
use msa_saga_go_practical.Store.Table.{
  find, insert, All-insert, All-update, Distinct-insert, find_holds,
}
use msa_saga_go_practical.Store.Session.{Session, Env}
use msa_saga_go_practical.Inventory.Domain.{Inventory, StockReservation, reserve}
use msa_saga_go_practical.Inventory.Repository.{Tables, has_product, has_version, set_quantities}
use msa_saga_go_practical.Inventory.Service.{product_id, quantity}
use msa_saga_go_practical.Inventory.Outcome.{reservation, taken, with_reservation}
use msa_saga_go_practical.Inventory.Rows.{taken_row}
use msa_saga_go_practical.Inventory.Held.{quantity_held, held_quantity, held-insert, add_nothing}
use msa_saga_go_practical.Inventory.Invariant.{
  IsBalanced, weaken, unused_id, other_product, some_same,
}

module _ (env : Env) (evt : PaymentCompletedEvent) (s : Session Tables) (i : Inventory)
    (found : find (has_product product_id) s.committed.tables.inventory ≡ some i) where
  new_holds :
      (p : ℤ)
      → (eq_ℤ product_id p ≡ true → quantity_held p (reservation env evt s) ≡ pos 1)
        × (eq_ℤ product_id p ≡ false → quantity_held p (reservation env evt s) ≡ pos 0)
  unfolding quantity_held
  new_holds p = (λ h. rw h, λ h. rw h)

  reserves_one :
      (set_quantities (reserve env.now quantity i) i).reserved_quantity
      ≡ i.reserved_quantity +ℤ quantity
  unfolding reserve
  reserves_one = refl

  taken_balanced :
      (p : ℤ) (j : Inventory)
      → IsBalanced s.serial s.committed.tables
      → find (has_product p) (taken env i s.committed.tables.inventory) ≡ some j
      → j.reserved_quantity ≡ held_quantity p (with_reservation i env evt s).tables.reservations
  taken_balanced p j h row =
      let r = reservation env evt s in
      let t = s.committed.tables.reservations in
      elim (Bool-cases (eq_ℤ product_id p)) [
        | inl hit ↦
            let e : product_id ≡ p = (eq_ℤ_iff product_id p).0 hit in
            let there : find (has_product product_id) (taken env i s.committed.tables.inventory)
                ≡ some j =
              subst (λ k. find (has_product k) (taken env i s.committed.tables.inventory) ≡ some j)
                (sym e) row in
            let same : j ≡ set_quantities (reserve env.now quantity i) i =
              some_same (sym there ∙ taken_row env i s.committed.tables.inventory found) in
            subst (λ k. j.reserved_quantity ≡ held_quantity k (insert r t)) e
              (ap (λ (x : Inventory). x.reserved_quantity) same
                ∙ reserves_one
                ∙ ap (λ n. n +ℤ quantity) (h.balanced product_id i found)
                ∙ ap (λ n. held_quantity product_id t +ℤ n)
                    (sym ((new_holds product_id).0 ((eq_ℤ_iff product_id product_id).1 refl)))
                ∙ sym (held-insert product_id r t))
        | inr miss ↦
            let ours : i.product_id ≡ product_id =
              (eq_ℤ_iff i.product_id product_id).0
                (find_holds (has_product product_id) s.committed.tables.inventory found) in
            let apart : eq_ℤ i.product_id p ≡ false = rw ours miss in
            h.balanced p j (
              sym
                (other_product p i (reserve env.now quantity i) s.committed.tables.inventory apart)
              ∙ row)
            ∙ sym (
                held-insert p r t
                ∙ ap (λ n. held_quantity p t +ℤ n) ((new_holds p).1 miss)
                ∙ add_nothing (held_quantity p t))
      ]

  left_stock :
      pos 1 ≤ℤ i.available_quantity
      → pos 0 ≤ℤ (set_quantities (reserve env.now quantity i) i).available_quantity
  unfolding reserve
  left_stock left = omega (arith, -ℤ_parts i.available_quantity quantity)

  pub with_reservation-IsBalanced :
      pos 1 ≤ℤ i.available_quantity
      → IsBalanced s.serial s.committed.tables
      → IsBalanced (suc s.serial) (with_reservation i env evt s).tables
  with_reservation-IsBalanced left h =
      let r = reservation env evt s in
      let t = s.committed.tables.reservations in
      record {
        given =
            All-insert (λ (x : StockReservation). x.id ≤ℤ pos (suc s.serial)) r t
              (weaken {k = suc s.serial} (omega arith) h).given (omega arith);
        ids =
            Distinct-insert (λ (x : StockReservation). x.id) r t h.ids
              (unused_id s.serial t h.given);
        positive =
            All-insert (λ (x : StockReservation). pos 1 ≤ℤ x.quantity) r t h.positive (omega arith);
        stocked =
            All-update (λ (x : Inventory). pos 0 ≤ℤ x.available_quantity)
              (has_version i.product_id i.version) (set_quantities (reserve env.now quantity i))
              s.committed.tables.inventory (λ x q. left_stock left) h.stocked;
        balanced = λ p j. taken_balanced p j h;
      }
